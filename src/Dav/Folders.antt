-- ===== src/Dav/Folders.antt =====
-- A folder in a folder of a user's home that keeps one file for each key.
use ocis_workflows.Base.{
  ℕ, Text, text, slash, teq, teq_iff, teq_refl, teq_sym, true, false, ◌||◌, Option, none, [], ◌∷◌,
  ◌++◌, ◌≡◌, ◌≢◌, refl, ap, ◌∙◌, append_assoc, arith, Bool-cases, inl, inr, length, length-append,
  if◌then◌else◌,
}
use ocis_workflows.Http.{Http, authorized}
use ocis_workflows.Dav.{View, Same, IsSegment, AnswersEither, IsServer}

-- Texts of different lengths differ.
teq-other_length : (xs ys : Text) → length xs ≢ length ys → teq xs ys ≡ false
teq-other_length xs ys ne = elim (Bool-cases (teq xs ys)) [
  | inr e ↦ e
  | inl e ↦ ground (arith, ne (ap length ((teq_iff xs ys).0 e)))
]

-- A text differs from each of its own beginnings.
pub teq-extended : (xs : Text) (c : ℕ) (ys : Text) → teq xs (xs ++ c ∷ ys) ≡ false
teq-extended xs c ys =
    teq-other_length xs (xs ++ c ∷ ys) (λ e. omega (arith, e, length-append xs (c ∷ ys)))

pub teq-append_left : (xs ys zs : Text) → teq (xs ++ ys) (xs ++ zs) ≡ teq ys zs
unfolding teq
teq-append_left [] ys zs = refl
teq-append_left (x ∷ xs) ys zs = ground (arith, teq-append_left xs ys zs)

pub teq-append_right : (xs ys zs : Text) → teq (xs ++ zs) (ys ++ zs) ≡ teq xs ys
unfolding teq
teq-append_right [] [] zs = (teq_iff zs zs).1 refl
teq-append_right [] (y ∷ ys) zs =
    teq-other_length zs (y ∷ (ys ++ zs)) (λ e. omega (arith, e, length-append ys zs))
teq-append_right (x ∷ xs) [] zs =
    teq-other_length (x ∷ (xs ++ zs)) zs (λ e. omega (arith, e, length-append xs zs))
teq-append_right (x ∷ xs) (y ∷ ys) zs = ground (arith, teq-append_right xs ys zs)

-- The files are `outer`/`inner`/`stem key`.json under `home`.
pub record Shelf : Type 0 where
  pub home : Text
  pub outer : Text
  pub inner : Text
  pub stem : Text → Text

abbrev pub outer_url : Shelf → Text
outer_url shelf = shelf.home ++ slash ∷ shelf.outer

abbrev pub inner_url : Shelf → Text
inner_url shelf = outer_url shelf ++ slash ∷ shelf.inner

abbrev pub file_name : Shelf → Text → Text
file_name shelf key = shelf.stem key ++ text ".json"

abbrev pub file_url : Shelf → Text → Text
file_url shelf key = inner_url shelf ++ slash ∷ file_name shelf key

module _ (shelf : Shelf) where
  teq-outer_url : (key : Text) → teq (outer_url shelf) (file_url shelf key) ≡ false
  teq-outer_url key =
      rw (append_assoc (outer_url shelf) (slash ∷ shelf.inner) (slash ∷ file_name shelf key))
        (teq-extended (outer_url shelf) slash _)

  teq-inner_url : (key : Text) → teq (inner_url shelf) (file_url shelf key) ≡ false
  teq-inner_url key = teq-extended (inner_url shelf) slash _

  pub teq-file_url :
      (key other : Text)
      → teq (file_url shelf key) (file_url shelf other) ≡ teq (shelf.stem key) (shelf.stem other)
  unfolding teq
  teq-file_url key other =
      teq-append_left (inner_url shelf) _ _
      ∙ teq-append_right (shelf.stem key) (shelf.stem other) (text ".json")

-- The home is there, and no file stands where a folder is to be, nor a folder where a file is.
pub record IsReady {W : Type 0} (shelf : Shelf) (v : View W) (w : W) : Type 0 where
  pub home : v.folder w shelf.home ≡ true
  pub no_folder : (key : Text) → v.folder w (file_url shelf key) ≡ false
  pub outer_free : v.file w (outer_url shelf) ≡ none
  pub inner_free : v.file w (inner_url shelf) ≡ none

module _ {W : Type 0} (shelf : Shelf) (v : View W) where
  pub IsReady-Same : {w w' : W} → Same v w w' → IsReady shelf v w → IsReady shelf v w'
  IsReady-Same (files, folders) ready = record {
    home = folders _ ∙ ready.home;
    no_folder = λ key. folders _ ∙ ready.no_folder key;
    outer_free = files _ ∙ ready.outer_free;
    inner_free = files _ ∙ ready.inner_free;
  }

  -- The file of a key comes or goes.
  pub IsReady-changed :
      {w w' : W} (key : Text) (content : Option Text)
      → ((u : Text) → v.file w' u ≡ (if teq (file_url shelf key) u then content else v.file w u))
      → ((u : Text) → v.folder w' u ≡ v.folder w u)
      → IsReady shelf v w
      → IsReady shelf v w'
  IsReady-changed key content files folders ready =
      let url = file_url shelf key in
      record {
        home = folders _ ∙ ready.home;
        no_folder = λ other. folders _ ∙ ready.no_folder other;
        outer_free = ground (
          arith,
          files (outer_url shelf),
          teq_sym (outer_url shelf) url,
          teq-outer_url shelf key,
          ready.outer_free,
        );
        inner_free = ground (
          arith,
          files (inner_url shelf),
          teq_sym (inner_url shelf) url,
          teq-inner_url shelf key,
          ready.inner_free,
        );
      }

  -- Making the outer folder and then the inner one makes both where they are missing, and touches
  -- no file.
  pub folders-made :
      (h : Http W) (auth : Text)
      → IsServer h v auth
      → IsSegment shelf.outer
      → IsSegment shelf.inner
      → (w : W) → IsReady shelf v w
      → let (r, w₁) = h.send (authorized (text "MKCOL") (outer_url shelf) auth [] []) w in
        let (r', w₂) = h.send (authorized (text "MKCOL") (inner_url shelf) auth [] []) w₁ in
        AnswersEither r 201 405
        × AnswersEither r' 201 405
        × ((u : Text) → v.file w₂ u ≡ v.file w u)
        × IsReady shelf v w₂
        × (v.folder w₂ (inner_url shelf) ≡ true)
  folders-made h auth server segment segment' w ready =
      let outer = outer_url shelf in
      let inner = inner_url shelf in
      let (made₁, files₁, folders₁) =
        server.mkcol w shelf.home shelf.outer segment ready.home ready.outer_free in
      let w₁ = (h.send (authorized (text "MKCOL") outer auth [] []) w).1 in
      let (made₂, files₂, folders₂) =
        server.mkcol w₁ outer shelf.inner segment'
          (folders₁ outer ∙ ap (λ b. b || v.folder w outer) (teq_refl outer))
          (files₁ inner ∙ ready.inner_free) in
      (
        made₁,
        made₂,
        λ u. files₂ u ∙ files₁ u,
        record {
          home = ground (arith, folders₂ shelf.home, folders₁ shelf.home, ready.home);
          no_folder = λ key. ground (
            arith,
            folders₂ (file_url shelf key),
            folders₁ (file_url shelf key),
            ready.no_folder key,
            teq-outer_url shelf key,
            teq-inner_url shelf key,
          );
          outer_free = files₂ outer ∙ files₁ outer ∙ ready.outer_free;
          inner_free = files₂ inner ∙ files₁ inner ∙ ready.inner_free;
        },
        folders₂ inner ∙ ap (λ b. b || v.folder w₁ inner) (teq_refl inner),
      )
