-- ===== src/Sse/Manager.antt =====
-- manager.go, `reconcile`, `stopAll` and `deactivate`: the table `active` of the consumers.
pub mod Wanted
pub mod System
use ocis_workflows.Base.{
  ℕ, ◌+◌, ◌%◌, ◌^◌, Text, teq, Bool, true, false, ◌&&◌, ◌||◌, not, List, [], ◌∷◌, ◌++◌, ◌==◌,
  select, if◌then◌else◌, Result, ok, err,
}
use ocis_workflows.LocalDb.{TriggerIndexEntry}

-- An entry of the map `active`, its key beside it. The id names the goroutine too: `cancel` is the
-- function that cancels the context of the goroutine with this id.
pub record Consumer : Type 0 where
  pub user_id : Text
  pub id : ℕ

pub record Manager : Type 0 where
  pub active : List Consumer
  pub next_id : ℕ

unfoldable pub has_user : List Consumer → Text → Bool
has_user [] u = false
has_user (c ∷ cs) u = teq c.user_id u || has_user cs u

unfoldable pub has_id : List Consumer → ℕ → Bool
has_id [] i = false
has_id (c ∷ cs) i = c.id == i || has_id cs i

-- `wanted[userID]`
unfoldable pub is_wanted : List TriggerIndexEntry → Text → Bool
is_wanted [] u = false
is_wanted (e ∷ es) u = teq e.user_id u || is_wanted es u

abbrev pub u64 : ℕ
u64 = 2 ^ 64

abbrev pub next_consumer : Text → Manager → Consumer
next_consumer u m = record { user_id = u; id = (m.next_id + 1) % u64 }

abbrev pub add : Text → Manager → Manager
add u m = record { active = next_consumer u m ∷ m.active; next_id = (m.next_id + 1) % u64 }

-- `for userID := range wanted`: the keys are those of the entries, in the order in which `range`
-- yields them, and a key that comes again finds its consumer.
unfoldable pub start_wanted : List Text → Manager → Manager
unfolding has_user
start_wanted [] m = m
start_wanted (u ∷ us) m = start_wanted us (if has_user m.active u then m else add u m)

-- The consumers that the first loop cancels and deletes.
unfoldable pub unwanted : List TriggerIndexEntry → Manager → List Consumer
unfolding is_wanted select
unwanted entries m = select (λ c. not (is_wanted entries c.user_id)) m.active

unfoldable pub keep_wanted : List TriggerIndexEntry → Manager → Manager
unfolding is_wanted select
keep_wanted entries m = record m { active = select (λ c. is_wanted entries c.user_id) m.active }

abbrev pub users : List TriggerIndexEntry → List Text
users [] = []
users (e ∷ es) = e.user_id ∷ users es

-- The table after `reconcile`, for the entries that the index lists.
unfoldable pub reconcile : List TriggerIndexEntry → Manager → Manager
unfolding start_wanted keep_wanted
reconcile entries m = start_wanted (users entries) (keep_wanted entries m)

-- `reconcile`, from the answer of `ListEventTriggers` on: where it fails, the table stays.
abbrev pub reconcile_pass : Result (List TriggerIndexEntry) → Manager → Manager
reconcile_pass (ok entries) m = reconcile entries m
reconcile_pass (err e) m = m

unfoldable pub deactivate : Text → ℕ → Manager → Manager
unfolding select
deactivate u i m = record m { active = select (λ c. not (teq c.user_id u && c.id == i)) m.active }

unfoldable pub stop_all : Manager → Manager
stop_all m = record m { active = [] }

-- What wakes the loop of `Start`, with what the index answers then.
pub data Wake : Type 0 where
  done : Wake
  timer : Result (List TriggerIndexEntry) → Wake
  kicked : Result (List TriggerIndexEntry) → Wake

-- The manager and its channel `kick`, which holds one request at most.
pub record Loop : Type 0 where
  pub manager : Manager
  pub kick_pending : Bool

-- `Kick`
abbrev pub kick : Loop → Loop
kick l = record l { kick_pending = true }

-- One round of `Start`, and whether it goes on; a kick wakes it only if one is pending.
unfoldable pub on_wake : Wake → Loop → Bool × Loop
unfolding stop_all
on_wake done l = (false, record l { manager = stop_all l.manager })
on_wake (timer r) l = (true, record l { manager = reconcile_pass r l.manager })
on_wake (kicked r) l =
    if l.kick_pending
    then (true, record { manager = reconcile_pass r l.manager; kick_pending = false })
    else (true, l)
