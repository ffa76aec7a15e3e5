-- ===== src/WebdavStore/Refines/Listing.antt =====
-- What `List` answers, against the map from ids to definitions.
use ocis_workflows.Base.{
  Text, text, slash, trim_suffix, true, List, [], ◌∷◌, map, ok, ◌≡◌, refl, inl, inr, sym,
  append_assoc,
}
use ocis_workflows.Http.{authorized, xml_type}
use ocis_workflows.Model.{WorkflowDefinition}
use ocis_workflows.WebdavStore.Internal.{root_dir}
use ocis_workflows.WebdavStore.Store.{
  Store, dav_base, definition_path, definitions_dir, json_suffix, json_names, skip_missing,
  propfind_json_names, read_each, get_by_path, read_file, list,
}
use ocis_workflows.Dav.{View, Same, IsServer, IsKnown}
use ocis_workflows.Dav.Folders.{file_url, inner_url}
use ocis_workflows.WebdavStore.Refines.Files.{
  definitions, definition_path-file_url, current_user-known, ensure_dirs-made,
}
use ocis_workflows.WebdavStore.Refines.Ops.{
  Definitions, Represents, Represents-files, Represents-Same,
}

-- The definitions that the map has for these ids.
abbrev pub definitions_of : Definitions → List Text → List WorkflowDefinition
definitions_of m [] = []
definitions_of m (id ∷ ids) = skip_missing (m id) (definitions_of m ids)

abbrev pub ids_of : List Text → List Text
ids_of hrefs = map (λ name. trim_suffix name json_suffix) (json_names hrefs)

abbrev pub listing_body : Text
listing_body =
    text
      "<?xml version=\"1.0\" encoding=\"utf-8\" ?><d:propfind xmlns:d=\"DAV:\"><d:prop><d:resourcetype/></d:prop></d:propfind>"

-- A PROPFIND of a folder answers 207 with these entries, and writes nothing.
abbrev pub Lists : {W : Type 0} → Store W → View W → Text → Text → List Text → Type 0
Lists {W} s v auth url hrefs =
    (w : W)
    → v.folder w url ≡ true
    → let (r, w') =
        s.http.send
          (authorized (text "PROPFIND") url auth (xml_type ∷ (text "Depth", text "1") ∷ [])
            listing_body)
          w in
      (content : Text) × (r ≡ ok (record { status = 207; body = ok content }))
      × (s.decode_hrefs content ≡ ok hrefs)
      × Same v w w'

module _ {W : Type 0} (s : Store W) (v : View W) (auth user_id : Text) (m : Definitions)
    (server : IsServer s.http v auth) where
  read-Represents :
      (w : W) (id : Text)
      → Represents s v auth user_id w m
      → (w' : W) × (get_by_path s auth (definition_path s user_id id) w ≡ (ok (m id), w'))
        × Represents s v auth user_id w' m
  unfolding get_by_path read_file
  read-Represents w id (ready, holds) = elim (holds id) [
    | inl (missing, absent) ↦
        let ((reply, arrived, status), same) =
          server.get_missing w (file_url (definitions s user_id) id) missing (ready.no_folder id) in
        (
          _,
          rw (definition_path-file_url s user_id id, arrived, status, absent) refl,
          Represents-Same s v auth user_id m same (ready, holds),
        )
    | inr (content, wf, there, present, decoded) ↦
        let (arrived, same) =
          server.get_found w (file_url (definitions s user_id) id) content there in
        (
          _,
          rw (definition_path-file_url s user_id id, arrived, decoded, present) refl,
          Represents-Same s v auth user_id m same (ready, holds),
        )
  ]

  read_each-Represents :
      (names : List Text) (w : W)
      → Represents s v auth user_id w m
      → (w' : W) × (read_each (λ id. get_by_path s auth (definition_path s user_id id)) names w
          ≡ (ok (definitions_of m (map (λ name. trim_suffix name json_suffix) names)), w'))
        × Represents s v auth user_id w' m
  unfolding read_each
  read_each-Represents [] w represents = (w, refl, represents)
  read_each-Represents (name ∷ names) w represents =
      let (w₁, read, represents₁) = read-Represents w (trim_suffix name json_suffix) represents in
      let (w₂, rest, represents₂) = read_each-Represents names w₁ represents₁ in
      (w₂, rw (read, rest) refl, represents₂)

  -- For a WebDAV server and a Graph endpoint that keep their documented behaviour, in a user's home
  -- where no file or folder stands in the way and whose definitions are those of a map from ids, and
  -- where a PROPFIND of the folder answers with some entries: `List` answers, in the order of the
  -- entries, the map's definitions of those that end in .json, without the ones of which the map has
  -- none, and the definitions stay those of the map. The folders need not be there before.
  pub list-definitions_of :
      (hrefs : List Text) (w : W)
      → IsKnown s.ocis v auth user_id
      → Lists s v auth (inner_url (definitions s user_id)) hrefs
      → Represents s v auth user_id w m
      → (w' : W) × (list s auth w ≡ (ok (definitions_of m (ids_of hrefs)), w'))
        × Represents s v auth user_id w' m
  unfolding list propfind_json_names
  list-definitions_of hrefs w known lists represents =
      let (w₁, me₁, same₁) = current_user-known s v auth user_id known w in
      let represents₁ = Represents-Same s v auth user_id m same₁ represents in
      let (w₂, made, files₂, ready₂, there) =
        ensure_dirs-made s v auth user_id server w₁ represents₁.0 in
      let (content, arrived, decoded, same₃) = lists w₂ there in
      let represents₃ =
        Represents-Same s v auth user_id m same₃
          (Represents-files s v auth user_id m files₂ ready₂ represents₁) in
      let (w₄, read, represents₄) = read_each-Represents (json_names hrefs) _ represents₃ in
      (
        w₄,
        rw
            (
              me₁,
              made,
              sym (append_assoc (dav_base s user_id) (slash ∷ root_dir) (slash ∷ definitions_dir)),
              arrived,
              decoded,
              read,
            )
            refl,
        represents₄,
      )
