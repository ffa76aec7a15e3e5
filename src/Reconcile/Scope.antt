-- ===== src/Reconcile/Scope.antt =====
-- The drives of a pass.
use ocis_workflows.Base.{
  ℕ, Text, teq, teq_iff, is_empty, Bool, false, ◌&&◌, ◌||◌, not, List, [], ◌∷◌, ◌++◌, arith, ◌≡◌,
  ◌≢◌, refl, Bool-cases, inl, inr,
}
use ocis_workflows.LocalDb.{TriggerIndexEntry}
use ocis_workflows.Reconcile.{has_text, scoped_spaces}

-- Some event trigger of the user is scoped to the space.
unfoldable pub is_scoped_to : Text → Text → List TriggerIndexEntry → Bool
is_scoped_to user_id space [] = false
is_scoped_to user_id space (e ∷ es) =
    (teq e.user_id user_id && teq e.space_id space) || is_scoped_to user_id space es

-- No text twice.
abbrev pub NoRepeat : List Text → Type 0
NoRepeat [] = Unit
NoRepeat (x ∷ xs) = (has_text xs x ≡ false) × NoRepeat xs

pub has_text-snoc :
    (xs : List Text) (x a : Text) → has_text (xs ++ x ∷ []) a ≡ (has_text xs a || teq x a)
unfolding has_text
has_text-snoc [] x a = ground arith
has_text-snoc (y ∷ ys) x a = ground (arith, has_text-snoc ys x a)

NoRepeat-snoc :
    (xs : List Text) (a : Text) → has_text xs a ≡ false → NoRepeat xs → NoRepeat (xs ++ a ∷ [])
unfolding has_text
NoRepeat-snoc [] a h d = (refl, tt)
NoRepeat-snoc (x ∷ xs) a h d = (
  ground (arith, has_text-snoc xs a x, teq_iff x a, teq_iff a x),
  NoRepeat-snoc xs a (ground arith) d.1,
)

has_text-scoped_from :
    (user_id : Text) (space_hd : ℕ) (space_tl : Text) (es : List TriggerIndexEntry)
    (scoped : List Text)
    → has_text (scoped_spaces user_id es scoped) (space_hd ∷ space_tl)
      ≡ (has_text scoped (space_hd ∷ space_tl) || is_scoped_to user_id (space_hd ∷ space_tl) es)
unfolding scoped_spaces is_scoped_to
has_text-scoped_from user_id h t [] scoped = ground arith
has_text-scoped_from user_id h t (e ∷ es) scoped = ground (
  arith,
  has_text-scoped_from user_id h t es (scoped ++ e.space_id ∷ []),
  has_text-scoped_from user_id h t es scoped,
  has_text-snoc scoped e.space_id (h ∷ t),
  teq_iff e.space_id (h ∷ t),
)

NoRepeat-scoped_from :
    (user_id : Text) (es : List TriggerIndexEntry) (scoped : List Text)
    → NoRepeat scoped
    → NoRepeat (scoped_spaces user_id es scoped)
unfolding scoped_spaces
NoRepeat-scoped_from user_id [] scoped d = d
NoRepeat-scoped_from user_id (e ∷ es) scoped d =
    elim (Bool-cases
      (teq e.user_id user_id && (not (is_empty e.space_id) && not (has_text scoped e.space_id)))) [
        | inl adds ↦ rw adds (
            NoRepeat-scoped_from user_id es (scoped ++ e.space_id ∷ [])
              (NoRepeat-snoc scoped e.space_id (ground arith) d))
        | inr keeps ↦ rw keeps (NoRepeat-scoped_from user_id es scoped d)
      ]

-- The drives that a user's scoped triggers give, each once, are exactly the non-empty space ids that
-- an event trigger of that user names.
pub scoped_spaces-exact :
    (user_id : Text) (es : List TriggerIndexEntry) (space : Text)
    → space ≢ []
    → NoRepeat (scoped_spaces user_id es [])
      × (has_text (scoped_spaces user_id es []) space ≡ is_scoped_to user_id space es)
unfolding has_text
scoped_spaces-exact user_id es [] h = absurd (h refl)
scoped_spaces-exact user_id es (x ∷ xs) h =
    (NoRepeat-scoped_from user_id es [] tt, has_text-scoped_from user_id x xs es [])
