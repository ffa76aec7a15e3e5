-- ===== src/Sse/Manager/System/Facts.antt =====
-- Lists of consumers: what deleting and adding does to their users and ids.
use ocis_workflows.Base.{
  ℕ, ◌<◌, Text, Bool, true, false, not, List, [], ◌∷◌, select, All, arith, ◌≡◌, refl, sym, subst,
  if◌then◌else◌, Bool-cases, inl, inr,
}
use ocis_workflows.Sse.Manager.{Consumer, has_user, has_id}
use ocis_workflows.Sse.Manager.System.{
  UserDistinct, IdDistinct, IdsBelow, same_consumer, member, Apart,
}

module _ (p : Consumer → Bool) where
  pub has_user-select-false :
      (cs : List Consumer) (u : Text) → has_user cs u ≡ false → has_user (select p cs) u ≡ false
  unfolding has_user select
  has_user-select-false [] u h = refl
  has_user-select-false (c ∷ cs) u h = ground (arith, has_user-select-false cs u)

  pub has_id-select-false :
      (cs : List Consumer) (i : ℕ) → has_id cs i ≡ false → has_id (select p cs) i ≡ false
  unfolding has_id select
  has_id-select-false [] i h = refl
  has_id-select-false (c ∷ cs) i h = ground (arith, has_id-select-false cs i)

  pub UserDistinct-select : (cs : List Consumer) → UserDistinct cs → UserDistinct (select p cs)
  unfolding select
  UserDistinct-select [] h = tt
  UserDistinct-select (c ∷ cs) h =
      ground (arith, UserDistinct-select cs h.1, has_user-select-false cs c.user_id h.0)

  pub IdDistinct-select : (cs : List Consumer) → IdDistinct cs → IdDistinct (select p cs)
  unfolding select
  IdDistinct-select [] h = tt
  IdDistinct-select (c ∷ cs) h =
      ground (arith, IdDistinct-select cs h.1, has_id-select-false cs c.id h.0)

-- With distinct ids, an id that a deleted consumer has is the id of no kept one.
pub has_id-kept :
    (p : Consumer → Bool) (cs : List Consumer) (i : ℕ)
    → IdDistinct cs
    → has_id (select (λ c. not (p c)) cs) i ≡ true
    → has_id (select p cs) i ≡ false
unfolding has_id select
has_id-kept p [] i d h = refl
has_id-kept p (c ∷ cs) i d h = ground (
  arith,
  has_id-kept p cs i d.1,
  has_id-select-false p cs i,
  has_id-select-false (λ c. not (p c)) cs i,
)

select-cong :
    (f g : Consumer → Bool) (cs : List Consumer)
    → All (λ c. f c ≡ g c) cs
    → select f cs ≡ select g cs
unfolding select
select-cong f g [] h = refl
select-cong f g (c ∷ cs) h = ground (arith, select-cong f g cs h.1)

-- The deleted consumers' ids, looked up in an earlier part of the list, are not those of a later one.
not_gone-cons :
    (p : Consumer → Bool) (gone ds : List Consumer) (c : Consumer)
    → has_id ds c.id ≡ false
    → All (λ d. not (has_id gone d.id) ≡ p d) ds
    → All (λ d. not (has_id (c ∷ gone) d.id) ≡ p d) ds
unfolding has_id
not_gone-cons p gone [] c e h = tt
not_gone-cons p gone (d ∷ ds) c e h =
    (ground (arith, h.0), not_gone-cons p gone ds c (ground arith) h.1)

not_gone :
    (p : Consumer → Bool) (cs : List Consumer)
    → IdDistinct cs
    → All (λ d. not (has_id (select (λ c. not (p c)) cs) d.id) ≡ p d) cs
unfolding has_id select
not_gone p [] h = tt
not_gone p (c ∷ cs) h = elim (Bool-cases (p c)) [
  | inl kept ↦
      subst Goal (sym kept)
        (ground (arith, has_id-select-false (λ d. not (p d)) cs c.id h.0), not_gone p cs h.1)
  | inr deleted ↦
      subst Goal (sym deleted)
        (ground (arith, deleted), not_gone-cons p gone cs c h.0 (not_gone p cs h.1))
]
  where
    gone : List Consumer
    gone = select (λ d. not (p d)) cs

    Goal : Bool → Type 0
    Goal b = All (λ d. not (has_id (if not b then c ∷ gone else gone) d.id) ≡ p d) (c ∷ cs)

-- Cancelling the goroutines of the deleted consumers leaves those of the kept ones.
pub select-not_gone :
    (p : Consumer → Bool) (cs : List Consumer)
    → IdDistinct cs
    → select (λ c. not (has_id (select (λ d. not (p d)) cs) c.id)) cs ≡ select p cs
select-not_gone p cs h = select-cong _ p cs (not_gone p cs h)

pub has_id_above : (n i : ℕ) (cs : List Consumer) → IdsBelow n cs → n < i → has_id cs i ≡ false
unfolding has_id
has_id_above n i [] b h = refl
has_id_above n i (c ∷ cs) b h = ground (arith, has_id_above n i cs b.1)

-- Deleting a consumer whose id is not there changes nothing.
pub select_absent :
    (c : Consumer) (cs : List Consumer)
    → has_id cs c.id ≡ false
    → select (λ d. not (same_consumer d c)) cs ≡ cs
unfolding has_id select
select_absent c [] h = refl
select_absent c (d ∷ ds) h = ground (arith, select_absent c ds)

pub Apart-member :
    (c : Consumer) (stale active : List Consumer)
    → member c stale ≡ true
    → Apart stale active
    → has_id active c.id ≡ false
unfolding member
Apart-member c [] active m a = ground arith
Apart-member c (d ∷ ds) active m a = ground (arith, Apart-member c ds active, a.0)
