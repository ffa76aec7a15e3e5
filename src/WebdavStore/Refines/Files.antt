-- ===== src/WebdavStore/Refines/Files.antt =====
-- The files of definitions, and what `Get`, `Put` and `Delete` do to them.
use ocis_workflows.Base.{
  [], Text, text, slash, teq, true, Option, none, some, ◌∷◌, ◌++◌, ok, ◌≡◌, refl, ◌∙◌, inl, inr,
  sym, if◌then◌else◌, last_index, append_assoc,
}
use ocis_workflows.Http.{authorized, json_type}
use ocis_workflows.Model.{WorkflowDefinition}
use ocis_workflows.WebdavStore.Internal.{root_dir}
use ocis_workflows.WebdavStore.Store.{
  Store, dav_base, definitions_dir, definition_path, json_suffix, current_user, mkcol, make_all,
  ensure_dirs, write_file, read_file, get_by_path, get, put, delete,
}
use ocis_workflows.Dav.{
  View, Same, Same-trans, AnswersEither, IsSegment, IsServer, IsKnown, me-known,
}
use ocis_workflows.Dav.Folders.{
  Shelf, outer_url, inner_url, file_url, file_name, teq-file_url, IsReady, IsReady-Same,
  IsReady-changed, folders-made,
}

module _ {W : Type 0} (s : Store W) (user_id : Text) where
  abbrev pub definitions : Shelf
  definitions = record {
    home = dav_base s user_id;
    outer = root_dir;
    inner = definitions_dir;
    stem = λ id. id;
  }

  pub definition_path-file_url :
      (id : Text) → definition_path s user_id id ≡ file_url definitions id
  unfolding definition_path
  definition_path-file_url id = sym (
      append_assoc (outer_url definitions) (slash ∷ definitions_dir)
        (slash ∷ file_name definitions id)
      ∙ append_assoc (dav_base s user_id) (slash ∷ root_dir) _)

module _ {W : Type 0} (s : Store W) (v : View W) (auth user_id : Text) where
  pub current_user-known :
      IsKnown s.ocis v auth user_id
      → (w : W) → (w' : W) × (current_user s auth w ≡ (ok user_id, w')) × Same v w w'
  unfolding current_user
  current_user-known known w =
      let (w', e, same) = me-known v s.ocis auth user_id known w in (w', rw e refl, same)

  pub mkcol-made :
      (url : Text) (w : W)
      → let (r, w') = s.http.send (authorized (text "MKCOL") url auth [] []) w in
        AnswersEither r 201 405 → mkcol s auth url w ≡ (ok tt, w')
  unfolding mkcol
  mkcol-made url w (reply, arrived, status) = elim status [
    | inl e ↦ rw (arrived, e) refl
    | inr e ↦ rw (arrived, e) refl
  ]

  -- `ensureDirs` makes both folders where they are missing, and touches no file.
  pub ensure_dirs-made :
      IsServer s.http v auth
      → (w : W) → IsReady (definitions s user_id) v w
      → (w' : W) × (ensure_dirs s auth user_id w ≡ (ok tt, w'))
        × ((u : Text) → v.file w' u ≡ v.file w u)
        × IsReady (definitions s user_id) v w'
        × (v.folder w' (inner_url (definitions s user_id)) ≡ true)
  unfolding ensure_dirs make_all last_index
  ensure_dirs-made server w ready =
      let (one, two, files, ready', there) =
        folders-made (definitions s user_id) v s.http auth server refl refl w ready in
      (
        _,
        rw
            (
              sym (append_assoc (dav_base s user_id) (slash ∷ root_dir) (slash ∷ definitions_dir)),
              mkcol-made (outer_url (definitions s user_id)) w one,
              mkcol-made (inner_url (definitions s user_id)) _ two,
            )
            refl,
        files,
        ready',
        there,
      )

module _ {W : Type 0} (s : Store W) (v : View W) (auth user_id : Text)
    (server : IsServer s.http v auth) (known : IsKnown s.ocis v auth user_id) where
  -- The file of one definition.
  abbrev pub stored : W → Text → Option Text
  stored w id = v.file w (file_url (definitions s user_id) id)

  module _ (w : W) (id : Text) where
    pub get-found :
        (content : Text) (wf : WorkflowDefinition)
        → stored w id ≡ some content
        → s.definition_json.decode content ≡ ok wf
        → (w' : W) × (get s auth id w ≡ (ok (some wf), w')) × Same v w w'
    unfolding get get_by_path read_file
    get-found content wf there decoded =
        let (w₁, me₁, same₁) = current_user-known s v auth user_id known w in
        let (arrived, same₂) =
          server.get_found w₁ (file_url (definitions s user_id) id) content (same₁.0 _ ∙ there) in
        (
          _,
          rw (me₁, definition_path-file_url s user_id id, arrived, decoded) refl,
          Same-trans v same₁ same₂,
        )

    pub delete-found :
        (content : Text)
        → stored w id ≡ some content
        → IsReady (definitions s user_id) v w
        → (w' : W) × (delete s auth id w ≡ (ok (some tt), w'))
          × ((other : Text) → stored w' other ≡ (if teq id other then none else stored w other))
          × IsReady (definitions s user_id) v w'
    unfolding delete
    delete-found content there ready =
        let path = file_url (definitions s user_id) id in
        let (w₁, me₁, same₁) = current_user-known s v auth user_id known w in
        let ((reply, arrived, status), files, folders) =
          server.delete_found w₁ path content (same₁.0 _ ∙ there) in
        (
          _,
          rw (me₁, definition_path-file_url s user_id id, arrived, status) refl,
          λ other.
              rw
                (
                  files (file_url (definitions s user_id) other),
                  teq-file_url (definitions s user_id) id other,
                  same₁.0 (file_url (definitions s user_id) other),
                )
                refl,
          IsReady-changed (definitions s user_id) v id none files folders
              (IsReady-Same (definitions s user_id) v same₁ ready),
        )

    module _ (ready : IsReady (definitions s user_id) v w) (missing : stored w id ≡ none) where
      pub get-missing : (w' : W) × (get s auth id w ≡ (ok none, w')) × Same v w w'
      unfolding get get_by_path read_file
      get-missing =
          let (w₁, me₁, same₁) = current_user-known s v auth user_id known w in
          let ((reply, arrived, status), same₂) =
            server.get_missing w₁ (file_url (definitions s user_id) id) (same₁.0 _ ∙ missing)
              (same₁.1 _ ∙ ready.no_folder id) in
          (
            _,
            rw (me₁, definition_path-file_url s user_id id, arrived, status) refl,
            Same-trans v same₁ same₂,
          )

      pub delete-missing : (w' : W) × (delete s auth id w ≡ (ok none, w')) × Same v w w'
      unfolding delete
      delete-missing =
          let (w₁, me₁, same₁) = current_user-known s v auth user_id known w in
          let ((reply, arrived, status), same₂) =
            server.delete_missing w₁ (file_url (definitions s user_id) id) (same₁.0 _ ∙ missing)
              (same₁.1 _ ∙ ready.no_folder id) in
          (
            _,
            rw (me₁, definition_path-file_url s user_id id, arrived, status) refl,
            Same-trans v same₁ same₂,
          )

  pub put-stored :
      (w : W) (wf : WorkflowDefinition) (content : Text)
      → IsSegment (wf.id ++ json_suffix)
      → s.definition_json.encode wf ≡ ok content
      → IsReady (definitions s user_id) v w
      → (w' : W) × (put s auth wf w ≡ (ok tt, w'))
        × ((other : Text)
            → stored w' other ≡ (if teq wf.id other then some content else stored w other))
        × IsReady (definitions s user_id) v w'
  unfolding put write_file
  put-stored w wf content segment encoded ready =
      let url = file_url (definitions s user_id) wf.id in
      let (w₁, me₁, same₁) = current_user-known s v auth user_id known w in
      let (w₂, made, files₂, ready₂, there) =
        ensure_dirs-made s v auth user_id server w₁
          (IsReady-Same (definitions s user_id) v same₁ ready) in
      let ((reply, arrived, status), files, folders) =
        server.put w₂ (inner_url (definitions s user_id)) (wf.id ++ json_suffix) content segment
          there (ready₂.no_folder wf.id) in
      (
        (s.http.send (authorized (text "PUT") url auth (json_type ∷ []) content) w₂).1,
        elim status [
          | inl e ↦
              rw (me₁, made, encoded, definition_path-file_url s user_id wf.id, arrived, e) refl
          | inr e ↦
              rw (me₁, made, encoded, definition_path-file_url s user_id wf.id, arrived, e) refl
        ],
        λ other.
            rw
              (
                files (file_url (definitions s user_id) other),
                teq-file_url (definitions s user_id) wf.id other,
                files₂ (file_url (definitions s user_id) other),
                same₁.0 (file_url (definitions s user_id) other),
              )
              refl,
        IsReady-changed (definitions s user_id) v wf.id (some content) files folders ready₂,
      )
