-- ===== src/WebdavStore/Executions.antt =====
-- store.go, `PutExecution` and `GetExecution`: a record that is written is read back.
use ocis_workflows.Base.{
  [], Text, text, slash, teq, true, false, none, some, ◌∷◌, ◌++◌, ◌||◌, ok, ◌≡◌, refl, ◌∙◌, inl,
  inr, sym, ap, arith, teq_refl, if◌then◌else◌, last_index, append_assoc,
}
use ocis_workflows.Http.{authorized, json_type}
use ocis_workflows.Model.{ExecutionRecord}
use ocis_workflows.WebdavStore.Internal.{root_dir}
use ocis_workflows.WebdavStore.Store.{
  Store, dav_base, executions_dir, executions_dir_url, execution_path, json_suffix, make_all,
  write_file, read_file, put_execution, get_execution,
}
use ocis_workflows.WebdavStore.Refines.Files.{current_user-known, mkcol-made}
use ocis_workflows.Dav.{View, Same, IsSegment, IsServer, IsKnown, AnswersEither}
use ocis_workflows.Dav.Folders.{
  Shelf, outer_url, inner_url, file_url, IsReady, folders-made, teq-extended,
}

module _ {W : Type 0} (s : Store W) (user_id : Text) where
  abbrev root_url : Text
  root_url = dav_base s user_id ++ slash ∷ root_dir

  -- The folder of a workflow's records.
  abbrev pub executions : Text → Shelf
  executions workflow_id = record {
    home = root_url;
    outer = executions_dir;
    inner = workflow_id;
    stem = λ id. id;
  }

  executions_dir_url-inner_url :
      (workflow_id : Text)
      → executions_dir_url s user_id workflow_id ≡ inner_url (executions workflow_id)
  unfolding executions_dir_url
  executions_dir_url-inner_url workflow_id = sym (
      append_assoc root_url (slash ∷ executions_dir) (slash ∷ workflow_id)
      ∙ append_assoc (dav_base s user_id) (slash ∷ root_dir) _)

  execution_path-file_url :
      (workflow_id id : Text)
      → execution_path s user_id workflow_id id ≡ file_url (executions workflow_id) id
  unfolding execution_path
  execution_path-file_url workflow_id id =
      ap (λ u. u ++ slash ∷ (id ++ json_suffix)) (executions_dir_url-inner_url workflow_id)

  teq-root_url :
      (workflow_id id : Text) → teq root_url (file_url (executions workflow_id) id) ≡ false
  teq-root_url workflow_id id =
      rw
        (
          append_assoc (outer_url (executions workflow_id)) (slash ∷ workflow_id)
              (slash ∷ (id ++ json_suffix)),
          append_assoc root_url (slash ∷ executions_dir)
              ((slash ∷ workflow_id) ++ (slash ∷ (id ++ json_suffix))),
        )
        (teq-extended root_url slash _)

  -- The home is there, and no file stands where one of the three folders is to be, nor a folder where
  -- a record is.
  pub record IsOpen (v : View W) (workflow_id : Text) (w : W) : Type 0 where
    pub home : v.folder w (dav_base s user_id) ≡ true
    pub root_free : v.file w root_url ≡ none
    pub outer_free : v.file w (outer_url (executions workflow_id)) ≡ none
    pub inner_free : v.file w (inner_url (executions workflow_id)) ≡ none
    pub no_folder : (id : Text) → v.folder w (file_url (executions workflow_id) id) ≡ false

module _ {W : Type 0} (s : Store W) (v : View W) (auth user_id workflow_id : Text)
    (server : IsServer s.http v auth) (segment : IsSegment workflow_id) where
  IsOpen-Same :
      {w w' : W}
      → Same v w w'
      → IsOpen s user_id v workflow_id w
      → IsOpen s user_id v workflow_id w'
  IsOpen-Same (files, folders) clear = record {
    home = folders _ ∙ clear.home;
    root_free = files _ ∙ clear.root_free;
    outer_free = files _ ∙ clear.outer_free;
    inner_free = files _ ∙ clear.inner_free;
    no_folder = λ id. folders _ ∙ clear.no_folder id;
  }

  -- The outermost folder is made where it is missing, and then the others have a place.
  root-made :
      (w : W)
      → IsOpen s user_id v workflow_id w
      → let (r, w') = s.http.send (authorized (text "MKCOL") (root_url s user_id) auth [] []) w in
        AnswersEither r 201 405
        × ((u : Text) → v.file w' u ≡ v.file w u)
        × IsReady (executions s user_id workflow_id) v w'
  unfolding last_index
  root-made w clear =
      let (made, files, folders) =
        server.mkcol w (dav_base s user_id) root_dir refl clear.home clear.root_free in
      (
        made,
        files,
        record {
          home =
              folders (root_url s user_id)
              ∙ ap (λ b. b || v.folder w (root_url s user_id)) (teq_refl (root_url s user_id));
          no_folder = λ id. ground (
            arith,
            folders (file_url (executions s user_id workflow_id) id),
            teq-root_url s user_id workflow_id id,
            clear.no_folder id,
          );
          outer_free = files _ ∙ clear.outer_free;
          inner_free = files _ ∙ clear.inner_free;
        },
      )

  -- The three folders are made where they are missing, and no file is touched.
  execution_dirs-made :
      (w : W)
      → IsOpen s user_id v workflow_id w
      → (w' : W) × (make_all s auth
            (dav_base s user_id)
            (root_dir
              ∷ (root_dir ++ (text "/" ++ executions_dir))
              ∷ (root_dir ++ (text "/" ++ (executions_dir ++ (text "/" ++ workflow_id))))
              ∷ [])
            w
          ≡ (ok tt, w'))
        × ((u : Text) → v.file w' u ≡ v.file w u)
        × IsReady (executions s user_id workflow_id) v w'
        × (v.folder w' (inner_url (executions s user_id workflow_id)) ≡ true)
  unfolding make_all last_index executions_dir_url
  execution_dirs-made w clear =
      let shelf = executions s user_id workflow_id in
      let (one, files₁, ready₁) = root-made w clear in
      let w₁ = (s.http.send (authorized (text "MKCOL") (root_url s user_id) auth [] []) w).1 in
      let (two, three, files₂, ready₂, there) =
        folders-made shelf v s.http auth server refl segment w₁ ready₁ in
      (
        _,
        rw
            (
              mkcol-made s v auth user_id (root_url s user_id) w one,
              sym (append_assoc (dav_base s user_id) (slash ∷ root_dir) (slash ∷ executions_dir)),
              mkcol-made s v auth user_id (outer_url shelf) w₁ two,
              executions_dir_url-inner_url s user_id workflow_id,
              mkcol-made s v auth user_id (inner_url shelf) _ three,
            )
            refl,
        λ u. files₂ u ∙ files₁ u,
        ready₂,
        there,
      )

module _ {W : Type 0} (s : Store W) (v : View W) (auth user_id : Text)
    (server : IsServer s.http v auth) (known : IsKnown s.ocis v auth user_id) where
  put_execution-stored :
      (rec : ExecutionRecord) (content : Text) (w : W)
      → IsSegment rec.workflow_id
      → IsSegment (rec.id ++ json_suffix)
      → s.execution_json.encode rec ≡ ok content
      → IsOpen s user_id v rec.workflow_id w
      → (w' : W) × (put_execution s auth rec w ≡ (ok tt, w'))
        × ((u : Text)
            → v.file w' u ≡ (
                if teq (execution_path s user_id rec.workflow_id rec.id) u
                then some content
                else v.file w u))
  unfolding put_execution write_file
  put_execution-stored rec content w segment fits encoded clear =
      let url = file_url (executions s user_id rec.workflow_id) rec.id in
      let (w₁, me₁, same₁) = current_user-known s v auth user_id known w in
      let (w₂, made, files₂, ready₂, there) =
        execution_dirs-made s v auth user_id rec.workflow_id server segment w₁
          (IsOpen-Same s v auth user_id rec.workflow_id server segment same₁ clear) in
      let ((reply, arrived, status), files, folders) =
        server.put w₂ (inner_url (executions s user_id rec.workflow_id)) (rec.id ++ json_suffix)
          content fits there (ready₂.no_folder rec.id) in
      (
        (s.http.send (authorized (text "PUT") url auth (json_type ∷ []) content) w₂).1,
        elim status [
          | inl e ↦
              rw
                (
                  me₁,
                  made,
                  encoded,
                  execution_path-file_url s user_id rec.workflow_id rec.id,
                  arrived,
                  e,
                )
                refl
          | inr e ↦
              rw
                (
                  me₁,
                  made,
                  encoded,
                  execution_path-file_url s user_id rec.workflow_id rec.id,
                  arrived,
                  e,
                )
                refl
        ],
        λ u.
            rw
              (
                execution_path-file_url s user_id rec.workflow_id rec.id,
                files u,
                files₂ u,
                same₁.0 u,
              )
              refl,
      )

  get_execution-found :
      (workflow_id id content : Text) (rec : ExecutionRecord) (w : W)
      → v.file w (execution_path s user_id workflow_id id) ≡ some content
      → s.execution_json.decode content ≡ ok rec
      → (get_execution s auth workflow_id id w).0 ≡ ok (some rec)
  unfolding get_execution read_file
  get_execution-found workflow_id id content rec w there decoded =
      let (w₁, me₁, same₁) = current_user-known s v auth user_id known w in
      let (arrived, same₂) =
        server.get_found w₁ (execution_path s user_id workflow_id id) content (same₁.0 _ ∙ there) in
      rw (me₁, arrived, decoded) refl

  -- For a WebDAV server and a Graph endpoint that keep their documented behaviour, a workflow's id and
  -- a record's that fit in a file's name, a record that reads back as it was encoded, and a user's
  -- home where no file or folder stands in the way: `PutExecution` returns no error, writes the
  -- record's file and no other, and then `GetExecution` returns the record.
  pub put_execution-get_execution :
      (rec : ExecutionRecord) (content : Text) (w : W)
      → IsSegment rec.workflow_id
      → IsSegment (rec.id ++ json_suffix)
      → s.execution_json.encode rec ≡ ok content
      → s.execution_json.decode content ≡ ok rec
      → IsOpen s user_id v rec.workflow_id w
      → let (r, w') = put_execution s auth rec w in
        (r ≡ ok tt)
        × ((u : Text)
            → v.file w' u ≡ (
                if teq (execution_path s user_id rec.workflow_id rec.id) u
                then some content
                else v.file w u))
        × ((get_execution s auth rec.workflow_id rec.id w').0 ≡ ok (some rec))
  put_execution-get_execution rec content w segment fits encoded decoded clear =
      let (w', put, files) = put_execution-stored rec content w segment fits encoded clear in
      rw put (
        refl,
        files,
        get_execution-found rec.workflow_id rec.id content rec w'
            (files (execution_path s user_id rec.workflow_id rec.id)
              ∙ rw (teq_refl (execution_path s user_id rec.workflow_id rec.id)) refl)
            decoded,
      )
