-- ===== src/LocalDb/Filters.antt =====
-- localdb.go, `MatchesFilters`.
use ocis_workflows.Base.{
  Text, teq, is_empty, Bool, true, [], ◌∷◌, has_prefix, has_suffix, arith, ◌≡◌, ◌⊎◌, ◌↔◌, refl,
}
use ocis_workflows.LocalDb.{TriggerIndexEntry, matches_filters}

-- A filter that is not set admits everything.
abbrev pub Admits : Text → Bool → Type 0
Admits filter passes = (filter ≡ []) ⊎ (passes ≡ true)

is_empty_iff : (s : Text) → (is_empty s ≡ true) ↔ (s ≡ [])
is_empty_iff [] = (λ _. refl, λ _. refl)
is_empty_iff (x ∷ xs) = ground arith

-- An entry matches an event exactly when each of its three filters is unset or holds: the path
-- begins with the prefix, it ends with the extension, and the event's space is the filter's.
pub matches_filters_iff :
    (e : TriggerIndexEntry) (path space_id : Text)
    → (matches_filters e path space_id ≡ true) ↔ (
        Admits e.path_prefix (has_prefix path e.path_prefix)
        × Admits e.extension (has_suffix path e.extension)
        × Admits e.space_id (teq e.space_id space_id))
unfolding matches_filters
matches_filters_iff e path space_id = (
  λ h. (
    ground (arith, is_empty_iff e.path_prefix),
    ground (arith, is_empty_iff e.extension),
    ground (arith, is_empty_iff e.space_id),
  ),
  λ h. ground (
    arith,
    h.0,
    h.1,
    h.2,
    is_empty_iff e.path_prefix,
    is_empty_iff e.extension,
    is_empty_iff e.space_id,
  ),
)
