-- ===== src/Dav.antt =====
-- What the program takes from a WebDAV server (RFC 4918) and from Graph's /me: a view of the world as
-- the files and folders at each URL, and how each request changes it.
pub mod Folders
use ocis_workflows.Base.{
  ℕ, Text, text, slash, teq, is_empty, Bool, true, false, ◌||◌, Option, none, some, List, [], ◌∷◌,
  ◌++◌, last_index, Result, ok, ◌≡◌, refl, ◌∙◌, ◌⊎◌, if◌then◌else◌,
}
use ocis_workflows.Http.{Http, HttpRequest, Reply, authorized, json_type}
use ocis_workflows.Ocis.{Ocis, Me, me, get_json}

pub record View (W : Type 0) : Type 0 where
  pub file : W → Text → Option Text
  pub folder : W → Text → Bool

-- Nothing is written.
abbrev pub Same : {W : Type 0} → View W → W → W → Type 0
Same v w w' = ((u : Text) → v.file w' u ≡ v.file w u) × ((u : Text) → v.folder w' u ≡ v.folder w u)

-- A name that one segment of a path can have.
abbrev pub IsSegment : Text → Type 0
IsSegment name = last_index slash name ≡ none

-- A response of this status arrives; of one of these two.
abbrev pub Answers : Result Reply → ℕ → Type 0
Answers r a = (reply : Reply) × (r ≡ ok reply) × (reply.status ≡ a)

abbrev pub AnswersEither : Result Reply → ℕ → ℕ → Type 0
AnswersEither r a b = (reply : Reply) × (r ≡ ok reply) × ((reply.status ≡ a) ⊎ (reply.status ≡ b))

-- A PUT that writes the file at the URL and nothing else.
abbrev pub Puts : {W : Type 0} → Http W → View W → Text → W → Text → Text → Type 0
Puts h v auth w url body =
    let (r, w') = h.send (authorized (text "PUT") url auth (json_type ∷ []) body) w in
    AnswersEither r 201 204
    × ((u : Text) → v.file w' u ≡ (if teq url u then some body else v.file w u))
    × ((u : Text) → v.folder w' u ≡ v.folder w u)

-- The server keeps its documented behaviour for the caller with this credential.
pub record IsServer {W : Type 0} (h : Http W) (v : View W) (auth : Text) : Type 0 where
  pub get_found :
      (w : W) (url content : Text)
      → v.file w url ≡ some content
      → ((h.send (authorized (text "GET") url auth [] []) w).0
          ≡ ok (record { status = 200; body = ok content }))
        × Same v w (h.send (authorized (text "GET") url auth [] []) w).1
  pub get_missing :
      (w : W) (url : Text)
      → v.file w url ≡ none
      → v.folder w url ≡ false
      → Answers (h.send (authorized (text "GET") url auth [] []) w).0 404
        × Same v w (h.send (authorized (text "GET") url auth [] []) w).1
  pub put :
      (w : W) (dir name body : Text)
      → IsSegment name
      → v.folder w dir ≡ true
      → v.folder w (dir ++ slash ∷ name) ≡ false
      → Puts h v auth w (dir ++ slash ∷ name) body
  pub mkcol :
      (w : W) (dir name : Text)
      → IsSegment name
      → v.folder w dir ≡ true
      → v.file w (dir ++ slash ∷ name) ≡ none
      → let (r, w') = h.send (authorized (text "MKCOL") (dir ++ slash ∷ name) auth [] []) w in
        AnswersEither r 201 405
        × ((u : Text) → v.file w' u ≡ v.file w u)
        × ((u : Text) → v.folder w' u ≡ (teq (dir ++ slash ∷ name) u || v.folder w u))
  pub delete_found :
      (w : W) (url content : Text)
      → v.file w url ≡ some content
      → let (r, w') = h.send (authorized (text "DELETE") url auth [] []) w in
        Answers r 204
        × ((u : Text) → v.file w' u ≡ (if teq url u then none else v.file w u))
        × ((u : Text) → v.folder w' u ≡ v.folder w u)
  pub delete_missing :
      (w : W) (url : Text)
      → v.file w url ≡ none
      → v.folder w url ≡ false
      → Answers (h.send (authorized (text "DELETE") url auth [] []) w).0 404
        × Same v w (h.send (authorized (text "DELETE") url auth [] []) w).1

-- Graph tells who the caller is.
pub record IsKnown {W : Type 0} (c : Ocis W) (v : View W) (auth user_id : Text) : Type 0 where
  pub named : is_empty user_id ≡ false
  pub answer :
      (w : W)
      → let (r, w') =
          c.http.send
            (authorized (text "GET") (c.base_url ++ text "/graph/v1.0/me") auth [] [])
            w in
        (content : Text) × (found : Me) × (r ≡ ok (record { status = 200; body = ok content }))
        × (c.decode_me content ≡ ok found)
        × (found.id ≡ user_id)
        × Same v w w'

module _ {W : Type 0} (v : View W) where
  pub Same-trans : {w₁ w₂ w₃ : W} → Same v w₁ w₂ → Same v w₂ w₃ → Same v w₁ w₃
  Same-trans (files₁, folders₁) (files₂, folders₂) =
      (λ u. files₂ u ∙ files₁ u, λ u. folders₂ u ∙ folders₁ u)

  pub me-known :
      (c : Ocis W) (auth user_id : Text)
      → IsKnown c v auth user_id
      → (w : W) → (w' : W) × (me c auth w ≡ (ok user_id, w')) × Same v w w'
  unfolding me get_json
  me-known c auth user_id known w =
      let (content, found, arrived, decoded, named, same) = known.answer w in
      (_, rw (arrived, decoded, named, known.named) refl, same)
