-- ===== src/Tests/Slots.antt =====
-- Two passes and one slot.
use ocis_workflows.Base.{Text, text, teq, [], ◌∷◌, ◌≡◌, ◌⊎◌, refl, arith}
use ocis_workflows.Reconcile.{should_start_pass}
use ocis_workflows.Times.{get_time, set_time}
use ocis_workflows.Reconcile.Slots.{
  Slots, Step, started, acquired, Reach, fresh, next, IsBounded, CanTake, Reach-IsBounded,
  Reach-takes,
}
use ocis_workflows.Tests.Background.{config}
use ocis_workflows.Tests.Data.{alice}

abbrev bob : Text
bob = text "bob"

abbrev one_at_work : Slots
one_at_work = record {
  passes = (alice, 7) ∷ (bob, 8) ∷ [];
  used = 1;
  waiting = bob ∷ [];
  holding = alice ∷ [];
}

two_came : Reach config 1 one_at_work
unfolding should_start_pass get_time set_time teq
two_came =
    next
      (next (next fresh (started _ alice 7 ((alice, 7) ∷ []) refl))
        (started _ bob 8 ((alice, 7) ∷ (bob, 8) ∷ []) refl))
      (acquired _ (bob ∷ []) alice [] refl (omega arith))

Reach-IsBounded_example : IsBounded 1 one_at_work
Reach-IsBounded_example = Reach-IsBounded two_came

Reach-takes_example :
    CanTake config 1 bob one_at_work
    ⊎ ((t : Slots) × Step config 1 one_at_work t × (t.waiting ≡ bob ∷ []) × CanTake config 1 bob t)
Reach-takes_example = Reach-takes two_came (omega arith) [] bob [] refl
