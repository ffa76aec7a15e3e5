-- ===== src/WebdavFile.antt =====
-- backend/pkg/webdavfile/webdavfile.go: the file operations of action nodes, over WebDAV. The escape
-- of net/url, base64.RawURLEncoding and JSON are parameters.
pub mod Sidecar
pub mod Comments
use ocis_workflows.Base.{
  Text, text, slash, trim, path_base, ◌==◌, ◌||◌, List, [], ◌∷◌, ◌++◌, Result, ok, err,
}
use ocis_workflows.Base.Actions.{Act, pure, given, require, wrap, attempt, ◌>>=◌, ◌>>◌}
use ocis_workflows.Http.{Http, authorized, json_type, read_all, returned}
use ocis_workflows.Ocis.{Ocis, me}

-- `Client`
pub record Files (W : Type 0) : Type 0 where
  pub ocis_url : Text
  pub ocis : Ocis W
  pub http : Http W
  pub escaped_path : Text → Text
  pub raw_url_base64 : Text → Text
  pub decode_comments : Text → List Text  -- what json.Unmarshal leaves in the list, with any error
  pub encode_comments : List Text → Result Text

abbrev pub comments_dir : Text
comments_dir = text ".workflows/comments"

-- `var comments []string` after json.Unmarshal of what was read, if it was read.
abbrev pub earlier_comments : (Text → List Text) → Result (Text × Text) → List Text
earlier_comments decode (ok (existing, name)) = decode existing
earlier_comments decode (err e) = []

module _ {W : Type 0} (c : Files W) where
  unfoldable pub current_user : Text → Act W Text
  current_user auth = wrap (text "resolve current user") (me c.ocis auth)

  abbrev pub dav_url : Text → Text → Text
  dav_url user_id dav_path =
      c.ocis_url
      ++ (text "/remote.php/dav/files/"
          ++ (user_id ++ slash ∷ c.escaped_path (trim slash dav_path)))

  unfoldable pub get_content : Text → Text → Act W (Text × Text)
  get_content auth dav_path = do
    user_id ← current_user auth
    reply ← c.http.send (authorized (text "GET") (dav_url user_id dav_path) auth [] [])
    require (reply.status == 200) (returned c.http (text "GET " ++ dav_path) reply)
    content ← read_all reply
    pure (content, path_base dav_path)

  unfoldable pub copy_or_move : Text → Text → Text → Text → Act W (Unit {0})
  copy_or_move method auth dav_path dest_dav_path = do
    user_id ← current_user auth
    reply ← c.http.send (
        authorized method (dav_url user_id dav_path) auth
          ((text "Destination", dav_url user_id dest_dav_path) ∷ (text "Overwrite", text "F") ∷ [])
          [])
    require (reply.status == 201 || reply.status == 204) (
        returned c.http (method ++ (text " " ++ (dav_path ++ (text " -> " ++ dest_dav_path))))
          reply)

  unfoldable pub move : Text → Text → Text → Act W (Unit {0})
  unfolding copy_or_move
  move = copy_or_move (text "MOVE")

  unfoldable pub copy : Text → Text → Text → Act W (Unit {0})
  unfolding copy_or_move
  copy = copy_or_move (text "COPY")

  unfoldable pub mkcol : Text → Text → Text → Act W (Unit {0})
  mkcol auth user_id dav_path = do
    reply ← c.http.send (authorized (text "MKCOL") (dav_url user_id dav_path) auth [] [])
    require (reply.status == 201 || (reply.status == 405 || reply.status == 409))
        (returned c.http (text "MKCOL " ++ dav_path) reply)

  abbrev pub sidecar_path : Text → Text
  sidecar_path dav_path = comments_dir ++ slash ∷ (c.raw_url_base64 dav_path ++ text ".json")

  -- Whatever the reading of the sidecar gives, the comment is written.
  unfoldable pub comment : Text → Text → Text → Act W (Unit {0})
  unfolding mkcol get_content
  comment auth dav_path body = do
    user_id ← current_user auth
    mkcol auth user_id (text ".workflows")
    mkcol auth user_id comments_dir
    existing ← attempt (get_content auth (sidecar_path dav_path))
    encoded ← given (c.encode_comments (earlier_comments c.decode_comments existing ++ (body ∷ [])))
    reply ← c.http.send (
        authorized (text "PUT") (dav_url user_id (sidecar_path dav_path)) auth (json_type ∷ [])
          encoded)
    require (reply.status == 201 || reply.status == 204)
        (returned c.http (text "PUT comment sidecar") reply)
