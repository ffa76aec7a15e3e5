-- ===== src/WebdavFile/Comments.antt =====
-- The list of comments that `Comment` keeps beside a file.
use ocis_workflows.Base.{
  Text, text, teq, teq_iff, teq_refl, Bool-cases, some, List, [], ◌∷◌, ◌++◌, Result, ok, err, ◌≡◌,
  refl, ◌∙◌, inl, inr, sym, if◌then◌else◌, ap, last_index, path_base, Option-cases,
}
use ocis_workflows.Http.{returned, authorized, json_type}
use ocis_workflows.WebdavFile.{
  Files, comment, current_user, mkcol, get_content, dav_url, sidecar_path, comments_dir,
  earlier_comments,
}
use ocis_workflows.Dav.{View, Same, Same-trans, AnswersEither, IsServer, IsKnown, me-known}
use ocis_workflows.Dav.Folders.{
  Shelf, outer_url, inner_url, file_url, file_name, teq-file_url, IsReady, IsReady-Same,
  IsReady-changed, folders-made,
}
use ocis_workflows.WebdavFile.Sidecar.{
  IsEncoding, last_index-safe, comment_files, listed, comments_of, outer-url, inner-url, file-url,
}

module _ {W : Type 0} (c : Files W) (v : View W) (auth user_id : Text) (encoding : IsEncoding c)
    (server : IsServer c.http v auth) (known : IsKnown c.ocis v auth user_id) where
  abbrev files_of : Shelf
  files_of = comment_files c user_id

  current_user-known : (w : W) → (w' : W) × (current_user c auth w ≡ (ok user_id, w')) × Same v w w'
  unfolding current_user
  current_user-known w =
      let (w', e, same) = me-known v c.ocis auth user_id known w in (w', rw e refl, same)

  mkcol-made :
      (dav_path url : Text) (w : W)
      → dav_url c user_id dav_path ≡ url
      → let (r, w') = c.http.send (authorized (text "MKCOL") url auth [] []) w in
        AnswersEither r 201 405 → mkcol c auth user_id dav_path w ≡ (ok tt, w')
  unfolding mkcol
  mkcol-made dav_path url w same (reply, arrived, status) = elim status [
    | inl e ↦ rw (same, arrived, e) refl
    | inr e ↦ rw (same, arrived, e) refl
  ]

  -- What `Comment` goes on with after it has looked at the sidecar.
  read_comments :
      (w : W) (path : Text)
      → IsReady files_of v w
      → (r : Result (Text × Text)) × (w' : W) × (get_content c auth (sidecar_path c path) w
          ≡ (r, w'))
        × (earlier_comments c.decode_comments r ≡ comments_of c user_id v w path)
        × Same v w w'
  unfolding get_content
  read_comments w path ready =
      let url = file_url files_of path in
      let (w₁, me₁, same₁) = current_user-known w in
      elim (Option-cases (v.file w url)) [
        | inl missing ↦
            let ((reply, arrived, status), same₂) =
              server.get_missing w₁ url (same₁.0 _ ∙ missing) (same₁.1 _ ∙ ready.no_folder path) in
            (
              err (returned c.http (text "GET " ++ sidecar_path c path) reply),
              _,
              rw (me₁, file-url c user_id encoding path, arrived, status) refl,
              rw (comments_of, missing) refl,
              Same-trans v same₁ same₂,
            )
        | inr (content, there) ↦
            let (arrived, same₂) = server.get_found w₁ url content (same₁.0 _ ∙ there) in
            (
              ok (content, path_base (sidecar_path c path)),
              _,
              rw (me₁, file-url c user_id encoding path, arrived) refl,
              rw (comments_of, there) refl,
              Same-trans v same₁ same₂,
            )
      ]

  teq-base64 :
      (path other : Text) → teq (c.raw_url_base64 path) (c.raw_url_base64 other) ≡ teq path other
  teq-base64 path other = elim (Bool-cases (teq path other)) [
    | inl e ↦ rw (e, (teq_iff path other).0 e) (teq_refl (c.raw_url_base64 other))
    | inr e ↦ elim (Bool-cases (teq (c.raw_url_base64 path) (c.raw_url_base64 other))) [
      | inr d ↦ d ∙ sym e
      | inl d ↦
          d
          ∙ sym (
              (teq_iff path other).1 (
                encoding.distinct path other
                  ((teq_iff (c.raw_url_base64 path) (c.raw_url_base64 other)).0 d)))
    ]
  ]

  -- One file is written over.
  comments-changed :
      (w w₃ w' : W) (path content : Text) {comments : List Text}
      → ((key : Text) → v.file w₃ (file_url files_of key) ≡ v.file w (file_url files_of key))
      → ((u : Text)
          → v.file w' u ≡ (if teq (file_url files_of path) u then some content else v.file w₃ u))
      → c.decode_comments content ≡ comments
      → (other : Text)
      → comments_of c user_id v w' other
        ≡ (if teq path other then comments else comments_of c user_id v w other)
  comments-changed w w₃ w' path content same files decoded other =
      let written = files (file_url files_of other) in
      let one_file = teq-file_url files_of path other ∙ teq-base64 path other in
      elim (Bool-cases (teq path other)) [
        | inl e ↦ rw (comments_of, written, one_file, e, decoded) refl
        | inr e ↦ rw (comments_of, written, one_file, e, same other) refl
      ]

  -- For a WebDAV server and a Graph endpoint that keep their documented behaviour, in a home where
  -- no file or folder stands in the way, a comment succeeds, even where the folders are missing, and
  -- is put at the end of the comments of its file, which start empty, provided that the list with it
  -- reads back as it was encoded; the comments of other files stay, and the home stays as it has to
  -- be for the next comment.
  pub comment-Appends :
      (w : W) (path body content : Text)
      → IsReady files_of v w
      → c.encode_comments (comments_of c user_id v w path ++ (body ∷ [])) ≡ ok content
      → c.decode_comments content ≡ comments_of c user_id v w path ++ (body ∷ [])
      → (w' : W) × (comment c auth path body w ≡ (ok tt, w'))
        × ((other : Text)
            → comments_of c user_id v w' other ≡ (
                if teq path other
                then comments_of c user_id v w path ++ (body ∷ [])
                else comments_of c user_id v w other))
        × IsReady files_of v w'
  unfolding comment last_index
  comment-Appends w path body content ready encoded decoded =
      let url = file_url files_of path in
      let (w₁, me₁, same₁) = current_user-known w in
      let w₂ =
        (c.http.send (authorized (text "MKCOL") (inner_url files_of) auth [] [])
          (c.http.send (authorized (text "MKCOL") (outer_url files_of) auth [] []) w₁).1).1 in
      let (one, two, files₂, ready₂, there) =
        folders-made files_of v c.http auth server refl refl w₁
          (IsReady-Same files_of v same₁ ready) in
      let made =
        mkcol-made (text ".workflows") (outer_url files_of) w₁ (outer-url c user_id encoding) one in
      let made' =
        mkcol-made comments_dir (inner_url files_of) _ (inner-url c user_id encoding) two in
      let (r, w₃, got, before, same₃) = read_comments w₂ path ready₂ in
      let ((reply, arrived, status), files, folders) =
        server.put w₃ (inner_url files_of) (file_name files_of path) content
          (last_index-safe (c.raw_url_base64 path) (encoding.alphabet path)) (same₃.1 _ ∙ there)
          (same₃.1 _ ∙ ready₂.no_folder path) in
      let same_files : (key : Text)
          → v.file w₃ (file_url files_of key) ≡ v.file w (file_url files_of key) =
        λ key.
          same₃.0 (file_url files_of key)
          ∙ files₂ (file_url files_of key)
          ∙ same₁.0 (file_url files_of key) in
      let earlier : earlier_comments c.decode_comments r ≡ comments_of c user_id v w path =
        before ∙ ap (listed c user_id) (files₂ url ∙ same₁.0 url) in
      (
        (c.http.send (authorized (text "PUT") url auth (json_type ∷ []) content) w₃).1,
        elim status [
          | inl e ↦
              rw
                (
                  me₁,
                  made,
                  made',
                  got,
                  earlier,
                  encoded,
                  file-url c user_id encoding path,
                  arrived,
                  e,
                )
                refl
          | inr e ↦
              rw
                (
                  me₁,
                  made,
                  made',
                  got,
                  earlier,
                  encoded,
                  file-url c user_id encoding path,
                  arrived,
                  e,
                )
                refl
        ],
        comments-changed w w₃ _ path content same_files files decoded,
        IsReady-changed files_of v path (some content) files folders
            (IsReady-Same files_of v same₃ ready₂),
      )
