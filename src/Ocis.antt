-- ===== src/Ocis.antt =====
-- backend/pkg/ocisclient: the client of oCIS's Graph API. Decoding JSON and XML, the escapes of
-- net/url and the formats of time are parameters.
use ocis_workflows.Base.{
  ℕ, Text, text, slash, is_empty, ◌==◌, ◌||◌, not, List, [], ◌∷◌, ◌++◌, map, trim, trim_right,
  Result,
}
use ocis_workflows.Base.Actions.{Act, pure, fail, given, require, wrap, ◌>>=◌, ◌>>◌}
use ocis_workflows.Http.{Http, authorized, json_type, xml_type, read_all, decode_body, returned}

-- The parts of `Drive` and `Activity` that are read.
pub record Drive : Type 0 where
  pub id : Text
  pub name : Text
  pub drive_type : Text

pub record Activity : Type 0 where
  pub id : Text
  pub message : Text
  pub resource_id : Text

-- `meResponse` and `meFullResponse`
pub record Me : Type 0 where
  pub id : Text
  pub username : Text

-- `authAppToken`
pub record AppToken : Type 0 where
  pub token : Text
  pub expiration_date : ℕ

-- `driveItemResponse`
pub record DriveItem : Type 0 where
  pub name : Text
  pub parent_path : Text

-- An element of `activitiesResponse`; the resource's name and the time are not read by any caller.
pub record ActivityEntry : Type 0 where
  pub id : Text
  pub template_message : Text
  pub template_resource_id : Text

-- `Client`, with what it takes from the platform.
pub record Ocis (W : Type 0) : Type 0 where
  pub http : Http W
  pub base_url : Text
  pub decode_me : Text → Result Me
  pub decode_token : Text → Result AppToken
  pub decode_item : Text → Result DriveItem
  pub decode_drives : Text → Result (List Drive)
  pub decode_activities : Text → Result (List ActivityEntry)
  pub decode_file_ids : Text → Result (List Text)  -- of a PROPFIND for oc:fileid
  pub encode_tag : Text → Text → Result Text
  pub path_escape : Text → Text
  pub escaped_path : Text → Text
  pub query : List (Text × Text) → Text
  pub duration : ℕ → Text
  pub rfc3339 : ℕ → Text

module _ {W : Type 0} (c : Ocis W) where
  unfoldable pub get_json : {A : Type 0} → (Text → Result A) → Text → Text → Text → Act W A
  get_json decode what auth path = do
    reply ← c.http.send (authorized (text "GET") (c.base_url ++ path) auth [] [])
    require (reply.status == 200) (returned c.http what reply)
    decode_body decode reply

  unfoldable pub me : Text → Act W Text
  unfolding get_json
  me auth = do
    found ← get_json c.decode_me (text "graph /me") auth (text "/graph/v1.0/me")
    require (not (is_empty found.id)) (text "graph /me response has no id")
    pure found.id

  unfoldable pub username : Text → Act W Text
  unfolding get_json
  username auth = do
    found ← get_json c.decode_me (text "graph /me") auth (text "/graph/v1.0/me")
    require (not (is_empty found.username))
        (text "graph /me response has no onPremisesSamAccountName")
    pure found.username

  unfoldable pub mint_app_password : Text → ℕ → Text → Act W (Text × ℕ)
  mint_app_password auth expiry label = do
    reply ← c.http.send (
        authorized (text "POST")
          (c.base_url
            ++ (text "/auth-app/tokens?"
                ++ c.query ((text "expiry", c.duration expiry) ∷ (text "label", label) ∷ [])))
          auth [] [])
    require (reply.status == 200 || reply.status == 201)
        (returned c.http (text "mint app password") reply)
    parsed ← wrap (text "decode app password response") (decode_body c.decode_token reply)
    require (not (is_empty parsed.token)) (text "mint app password: response has no token")
    pure (parsed.token, parsed.expiration_date)

  unfoldable pub revoke_app_password : Text → Text → Act W (Unit {0})
  revoke_app_password auth token = do
    reply ← c.http.send (
        authorized (text "DELETE")
          (c.base_url ++ (text "/auth-app/tokens?" ++ c.query ((text "token", token) ∷ []))) auth []
          [])
    require (reply.status == 200 || reply.status == 204)
        (returned c.http (text "revoke app password") reply)

  unfoldable pub list_drives : Text → Act W (List Drive)
  unfolding get_json
  list_drives auth =
      get_json c.decode_drives (text "list drives") auth (text "/graph/v1.0/me/drives")

  abbrev activity_of : ActivityEntry → Activity
  activity_of v = record {
    id = v.id;
    message = v.template_message;
    resource_id = v.template_resource_id;
  }

  unfoldable pub list_activities : Text → Text → ℕ → Act W (List Activity)
  unfolding get_json
  list_activities auth drive_id since = do
    parsed ← get_json c.decode_activities (text "list activities") auth (
        text "/graph/v1beta1/extensions/org.libregraph/activities?"
        ++ c.query (
            (
              text "kql",
              text "itemid:"
                  ++ (drive_id ++ (text " AND depth:-1 AND timestamp>" ++ c.rfc3339 since)),
            )
            ∷ []))
    pure (map activity_of parsed)

  unfoldable pub item_path : Text → Text → Text → Act W Text
  unfolding get_json
  item_path auth space_id item_id = do
    item ← get_json c.decode_item (text "resolve item path") auth (
        text "/graph/v1.0/drives/"
        ++ (c.path_escape space_id ++ (text "/items/" ++ c.path_escape item_id)))
    require (not (is_empty item.name)) (text "resolve item path: response has no name")
    pure (trim_right slash item.parent_path ++ (text "/" ++ item.name))

  abbrev first_file_id : Text → List Text → Act W Text
  first_file_id e [] = fail e
  first_file_id e (id ∷ ids) = do require (not (is_empty id)) e; pure id

  unfoldable pub resolve_item_id : Text → Text → Act W Text
  unfolding me
  resolve_item_id auth dav_path = do
    user_id ← wrap (text "resolve current user") (me auth)
    reply ← c.http.send (
        authorized (text "PROPFIND")
          (c.base_url
            ++ (text "/remote.php/dav/files/"
                ++ (user_id ++ (text "/" ++ c.escaped_path (trim slash dav_path)))))
          auth (xml_type ∷ (text "Depth", text "0") ∷ [])
          (text
            "<?xml version=\"1.0\" encoding=\"utf-8\" ?><d:propfind xmlns:d=\"DAV:\" xmlns:oc=\"http://owncloud.org/ns\"><d:prop><oc:fileid/></d:prop></d:propfind>"))
    require (reply.status == 207)
        (returned c.http (text "resolve item id for " ++ c.http.quote dav_path) reply)
    content ← read_all reply
    ids ← wrap (text "decode PROPFIND response") (given (c.decode_file_ids content))
    first_file_id
        (text "resolve item id for "
          ++ (c.http.quote dav_path ++ text ": no oc:fileid in PROPFIND response"))
        ids

  unfoldable pub assign_tag : Text → Text → Text → Act W (Unit {0})
  assign_tag auth item_id tag = do
    body ← given (c.encode_tag item_id tag)
    reply ← c.http.send (
        authorized (text "PUT") (c.base_url ++ text "/graph/v1.0/extensions/org.libregraph/tags")
          auth (json_type ∷ []) body)
    require (reply.status == 200 || reply.status == 204)
        (returned c.http (text "assign tag " ++ c.http.quote tag) reply)
