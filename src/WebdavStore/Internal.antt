-- ===== src/WebdavStore/Internal.antt =====
-- store.go, `IsInternalPath`: the folder of the sidecar's own files.
use ocis_workflows.Base.{
  Text, text, slash, teq, teq_iff, has_prefix, has_prefix-split, trim_prefix, Bool, true, ◌||◌, [],
  ◌∷◌, ◌++◌, ◌≡◌, ◌∙◌, ap, ◌⊎◌, ◌↔◌, refl, arith, inl, inr,
}

abbrev pub root_dir : Text
root_dir = text ".workflows"

unfoldable pub is_internal_path : Text → Bool
unfolding trim_prefix has_prefix
is_internal_path path =
    let trimmed = trim_prefix path (text "/") in
    teq trimmed root_dir || has_prefix trimmed (root_dir ++ text "/")

-- A path in the folder, with a slash before it or none.
pub data InRoot (path : Text) : Type 0 where
  root : path ≡ root_dir → InRoot path
  slash_root : path ≡ text "/" ++ root_dir → InRoot path
  below : (rest : Text) → path ≡ root_dir ++ (text "/" ++ rest) → InRoot path
  slash_below : (rest : Text) → path ≡ text "/" ++ (root_dir ++ (text "/" ++ rest)) → InRoot path

trim_cases :
    (path : Text)
    → (path ≡ trim_prefix path (text "/")) ⊎ (path ≡ slash ∷ trim_prefix path (text "/"))
unfolding trim_prefix has_prefix
trim_cases [] = inl refl
trim_cases (x ∷ xs) = ground arith

InRoot-trimmed :
    (path trimmed : Text)
    → (path ≡ trimmed) ⊎ (path ≡ slash ∷ trimmed)
    → (teq trimmed root_dir ≡ true) ⊎ (has_prefix trimmed (root_dir ++ text "/") ≡ true)
    → InRoot path
InRoot-trimmed path trimmed (inl p) (inl r) = root (p ∙ (teq_iff trimmed root_dir).0 r)
InRoot-trimmed path trimmed (inr p) (inl r) =
    slash_root (p ∙ ap (λ t. slash ∷ t) ((teq_iff trimmed root_dir).0 r))
InRoot-trimmed path trimmed (inl p) (inr r) =
    let (rest, e) = has_prefix-split trimmed (root_dir ++ text "/") r in below rest (p ∙ e)
InRoot-trimmed path trimmed (inr p) (inr r) =
    let (rest, e) = has_prefix-split trimmed (root_dir ++ text "/") r in
    slash_below rest (p ∙ ap (λ t. slash ∷ t) e)

is_internal_path_of_InRoot : (path : Text) → InRoot path → is_internal_path path ≡ true
unfolding is_internal_path teq
is_internal_path_of_InRoot path (root e) = rw e
is_internal_path_of_InRoot path (slash_root e) = rw e
is_internal_path_of_InRoot path (below rest e) = rw e
is_internal_path_of_InRoot path (slash_below rest e) = rw e

-- The test holds of exactly the folder and what lies below it, with a slash before it or none.
pub is_internal_path_iff : (path : Text) → (is_internal_path path ≡ true) ↔ InRoot path
unfolding is_internal_path
is_internal_path_iff path = (
  λ h. InRoot-trimmed path (trim_prefix path (text "/")) (trim_cases path) (ground arith),
  is_internal_path_of_InRoot path,
)
