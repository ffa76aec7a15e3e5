-- ===== src/Sse/Manager/Wanted.antt =====
-- Whom the table holds after `reconcile`.
use ocis_workflows.Base.{
  Text, teq, teq_iff, Bool, false, ◌&&◌, ◌||◌, List, [], ◌∷◌, select, arith, ◌≡◌, refl,
}
use ocis_workflows.LocalDb.{TriggerIndexEntry}
use ocis_workflows.Sse.Manager.{
  Consumer, Manager, has_user, is_wanted, add, start_wanted, keep_wanted, users, reconcile,
}

has_text : List Text → Text → Bool
has_text [] u = false
has_text (x ∷ xs) u = teq x u || has_text xs u

has_user-select :
    (p : Text → Bool) (cs : List Consumer) (u : Text)
    → has_user (select (λ c. p c.user_id) cs) u ≡ (p u && has_user cs u)
unfolding has_user select
has_user-select p [] u = ground arith
has_user-select p (c ∷ cs) u = ground (arith, has_user-select p cs u, teq_iff c.user_id u)

has_user-start_wanted :
    (us : List Text) (m : Manager) (u : Text)
    → has_user (start_wanted us m).active u ≡ (has_text us u || has_user m.active u)
unfolding has_user start_wanted has_text
has_user-start_wanted [] m u = refl
has_user-start_wanted (x ∷ us) m u =
    ground (arith, has_user-start_wanted us m u, has_user-start_wanted us (add x m) u, teq_iff x u)

has_text-users : (es : List TriggerIndexEntry) (u : Text) → has_text (users es) u ≡ is_wanted es u
unfolding has_text is_wanted
has_text-users [] u = refl
has_text-users (e ∷ es) u = ground (arith, has_text-users es u)

-- After `reconcile` exactly the users with an event trigger in the index have a consumer.
pub has_user-reconcile :
    (entries : List TriggerIndexEntry) (m : Manager) (u : Text)
    → has_user (reconcile entries m).active u ≡ is_wanted entries u
unfolding reconcile
has_user-reconcile entries m u = ground (
  arith,
  has_user-start_wanted (users entries) (keep_wanted entries m) u,
  has_text-users entries u,
  has_user-select (is_wanted entries) m.active u,
)
