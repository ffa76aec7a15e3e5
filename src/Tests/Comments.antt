-- ===== src/Tests/Comments.antt =====
-- Comments on a concrete server.
use ocis_workflows.Base.{
  ℕ, zero, suc, Text, text, teq, true, [], ◌∷◌, every, ok, ◌≡◌, refl, ap, arith, if◌then◌else◌,
}
use ocis_workflows.WebdavFile.{Files, comment}
use ocis_workflows.WebdavFile.Comments.{comment-Appends}
use ocis_workflows.WebdavFile.Sidecar.{comment_files, comments_of, IsEncoding, is_url_safe}
use ocis_workflows.Dav.Folders.{IsReady}
use ocis_workflows.Tests.Data.{alice}
use ocis_workflows.Tests.Spaces.{Space, view, http, ocis, home, space-IsServer, alice-IsKnown}

-- A byte as that many letters, with one more at the end.
abbrev letters : ℕ → Text → Text
letters zero rest = b'b' ∷ rest
letters (suc n) rest = b'a' ∷ letters n rest

abbrev spelled : Text → Text
spelled [] = []
spelled (b ∷ t) = letters b (spelled t)

letters-safe :
    (n : ℕ) (rest : Text)
    → every is_url_safe rest ≡ true
    → every is_url_safe (letters n rest) ≡ true
letters-safe zero rest h = h
letters-safe (suc n) rest h = letters-safe n rest h

spelled-safe : (t : Text) → every is_url_safe (spelled t) ≡ true
spelled-safe [] = refl
spelled-safe (b ∷ t) = letters-safe b (spelled t) (spelled-safe t)

letters-cancel :
    (m n : ℕ) (rest rest' : Text) → letters m rest ≡ letters n rest' → (m ≡ n) × (rest ≡ rest')
letters-cancel zero zero rest rest' e = (refl, grind (arith, e))
letters-cancel zero (suc n) rest rest' e = grind (arith, e)
letters-cancel (suc m) zero rest rest' e = grind (arith, e)
letters-cancel (suc m) (suc n) rest rest' e =
    let (same, tails) = letters-cancel m n rest rest' (grind (arith, e)) in (ap suc same, tails)

spelled-distinct : (t u : Text) → spelled t ≡ spelled u → t ≡ u
spelled-distinct [] [] e = refl
spelled-distinct [] (zero ∷ u) e = grind (arith, e)
spelled-distinct [] (suc b ∷ u) e = grind (arith, e)
spelled-distinct (zero ∷ t) [] e = grind (arith, e)
spelled-distinct (suc b ∷ t) [] e = grind (arith, e)
spelled-distinct (a ∷ t) (b ∷ u) e =
    let (same, tails) = letters-cancel a b (spelled t) (spelled u) e in
    grind (arith, same, spelled-distinct t u tails)

-- Lists of comments with at most one element are told apart.
abbrev pub file_client : Files Space
file_client = record {
  ocis_url = text "https://cloud";
  ocis = ocis;
  http = http;
  escaped_path = λ t. t;
  raw_url_base64 = spelled;
  decode_comments = λ t. if teq t (text "one") then text "done" ∷ [] else [];
  encode_comments = λ comments. ok (text "one");
}

spelled-IsEncoding : IsEncoding file_client
spelled-IsEncoding = record {
  alphabet = spelled-safe;
  distinct = spelled-distinct;
  kept = λ t plain. refl;
}

home-IsReady : IsReady (comment_files file_client alice) view home
unfolding teq
home-IsReady = record { home = refl; no_folder = λ key. refl; outer_free = refl; inner_free = refl }

comment-Appends_example :
    (w' : Space) × (comment file_client (text "auth") (text "a") (text "done") home ≡ (ok tt, w'))
    × ((other : Text)
        → comments_of file_client alice view w' other ≡ (
            if teq (text "a") other
            then text "done" ∷ []
            else comments_of file_client alice view home other))
    × IsReady (comment_files file_client alice) view w'
unfolding teq
comment-Appends_example =
    comment-Appends file_client view (text "auth") alice spelled-IsEncoding
      (space-IsServer (text "auth")) alice-IsKnown home (text "a") (text "done") (text "one")
      home-IsReady refl refl
