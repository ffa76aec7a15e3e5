-- ===== src/WebdavFile/Sidecar.antt =====
-- The URLs of the sidecars that keep comments, and what they hold.
use ocis_workflows.Base.{
  ℕ, Text, text, slash, leb, true, false, Bool, ◌&&◌, ◌||◌, ◌==◌, Option, none, some, List, [], ◌∷◌,
  ◌++◌, ◌≡◌, refl, ◌∙◌, sym, arith, ap, last_index, append_assoc, every, every-append, trim,
  trim_right,
}
use ocis_workflows.WebdavFile.{Files, dav_url, sidecar_path, comments_dir}
use ocis_workflows.Dav.{View, IsSegment}
use ocis_workflows.Dav.Folders.{Shelf, outer_url, inner_url, file_url}

-- The alphabet of base64url, which a path keeps as it is, like `.` and `/`.
abbrev pub is_url_safe : ℕ → Bool
is_url_safe b =
    (leb 65 b && leb b 90)
    || (leb 97 b && leb b 122)
    || (leb 48 b && leb b 57)
    || b == 45
    || b == 95

abbrev pub is_plain : ℕ → Bool
is_plain b = is_url_safe b || b == 46 || b == slash

-- What `Comment` takes from base64.RawURLEncoding and from URL.EscapedPath.
pub record IsEncoding {W : Type 0} (c : Files W) : Type 0 where
  pub alphabet : (t : Text) → every is_url_safe (c.raw_url_base64 t) ≡ true
  pub distinct : (t u : Text) → c.raw_url_base64 t ≡ c.raw_url_base64 u → t ≡ u
  pub kept : (t : Text) → every is_plain t ≡ true → c.escaped_path t ≡ t

pub last_index-safe : (t : Text) → every is_url_safe t ≡ true → IsSegment (t ++ text ".json")
unfolding last_index
last_index-safe [] h = refl
last_index-safe (b ∷ t) h = rw (last_index-safe t (ground (arith, h))) (ground (arith, h))

plain_safe : (t : Text) → every is_url_safe t ≡ true → every is_plain t ≡ true
plain_safe [] h = refl
plain_safe (b ∷ t) h = ground (arith, h, plain_safe t)

-- A text that ends in another byte is not cut.
trim_right-kept : (c b : ℕ) (t : Text) → (b == c) ≡ false → trim_right c (t ++ b ∷ []) ≡ t ++ b ∷ []
unfolding trim_right
trim_right-kept c b [] ne = rw ne refl
trim_right-kept c b (x ∷ []) ne = rw ne refl
trim_right-kept c b (x ∷ y ∷ t) ne = rw (trim_right-kept c b (y ∷ t) ne) refl

trim-kept :
    (c a b : ℕ) (t : Text)
    → (a == c) ≡ false
    → (b == c) ≡ false
    → trim c (a ∷ (t ++ b ∷ [])) ≡ a ∷ (t ++ b ∷ [])
unfolding trim
trim-kept c a b t first last = rw first (trim_right-kept c b (a ∷ t) last)

module _ {W : Type 0} (c : Files W) (user_id : Text) where
  abbrev pub comment_files : Shelf
  comment_files = record {
    home = c.ocis_url ++ (text "/remote.php/dav/files/" ++ user_id);
    outer = text ".workflows";
    inner = text "comments";
    stem = c.raw_url_base64;
  }

  -- The comments of the file at a path.
  abbrev pub listed : Option Text → List Text
  listed none = []
  listed (some content) = c.decode_comments content

  abbrev pub comments_of : View W → W → Text → List Text
  comments_of v w path = listed (v.file w (file_url comment_files path))

  module _ (encoding : IsEncoding c) where
    pub outer-url : dav_url c user_id (text ".workflows") ≡ outer_url comment_files
    unfolding trim
    outer-url = rw (encoding.kept (text ".workflows") refl, append_assoc c.ocis_url) refl

    pub inner-url : dav_url c user_id comments_dir ≡ inner_url comment_files
    unfolding trim
    inner-url =
        rw
          (
            encoding.kept comments_dir refl,
            append_assoc c.ocis_url,
            append_assoc c.ocis_url,
            append_assoc user_id,
          )
          refl

    trim-sidecar_path : (path : Text) → trim slash (sidecar_path c path) ≡ sidecar_path c path
    trim-sidecar_path path =
        rw (sym (append_assoc (c.raw_url_base64 path) (text ".jso") (text "n"))) (
          trim-kept slash 46 110
            (text "workflows/comments" ++ slash ∷ (c.raw_url_base64 path ++ text ".jso")) refl refl)

    sidecar_path-plain : (path : Text) → every is_plain (sidecar_path c path) ≡ true
    sidecar_path-plain path =
        every-append is_plain (c.raw_url_base64 path) (text ".json")
        ∙ ap (λ b. b && true) (plain_safe (c.raw_url_base64 path) (encoding.alphabet path))

    pub file-url :
        (path : Text) → dav_url c user_id (sidecar_path c path) ≡ file_url comment_files path
    file-url path =
        rw (trim-sidecar_path path, encoding.kept (sidecar_path c path) (sidecar_path-plain path))
          (simp append_assoc)
