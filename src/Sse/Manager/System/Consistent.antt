-- ===== src/Sse/Manager/System/Consistent.antt =====
-- manager.go: the table and the goroutines under the steps of the system.
use ocis_workflows.Base.{
  ℕ, suc, ◌+◌, ◌%◌, ◌≤◌, ◌<◌, Text, Bool, true, false, not, List, [], ◌∷◌, ◌++◌, select, All,
  All-select, All-select_of, All-map, All-append, length, arith, ◌≡◌, ◌∙◌, sym, ap, refl, subst,
  Bool-cases, inl, inr, Sublist, Sublist-select, Sublist-select_part, All-Sublist,
}
use ocis_workflows.LocalDb.{TriggerIndexEntry}
use ocis_workflows.Sse.Manager.{
  Consumer, Manager, u64, has_user, has_id, is_wanted, add, next_consumer, start_wanted,
  keep_wanted, users, deactivate, stop_all,
}
use ocis_workflows.Sse.Manager.System.{
  System, Step, Phase, serving, ending, ended, tick, give_up, give_up_late, notice, shut, return,
  stop, Reach, here, next, member, leave, started, ticked, same_consumer, IdsBelow, Apart,
  IsConsistent,
}
use ocis_workflows.Sse.Manager.System.Facts.{
  UserDistinct-select, IdDistinct-select, has_id-select-false, has_id-kept, has_id_above,
  select_absent, Apart-member, select-not_gone,
}

abbrev pub sys : Manager → List Consumer → List Consumer → Phase → System
sys m live stale phase = record { manager = m; live = live; stale = stale; phase = phase }

IdsBelow-mono : (m n : ℕ) (cs : List Consumer) → m ≤ n → IdsBelow m cs → IdsBelow n cs
IdsBelow-mono m n cs h b = All-map (λ c. c.id ≤ m) (λ c. c.id ≤ n) cs (λ c k. omega arith) b

Apart-add :
    (n : ℕ) (c : Consumer) (stale active : List Consumer)
    → n < c.id
    → IdsBelow n stale
    → Apart stale active
    → Apart stale (c ∷ active)
unfolding has_id
Apart-add n c [] active h b a = tt
Apart-add n c (d ∷ ds) active h b a = (ground (arith, b.0, a.0), Apart-add n c ds active h b.1 a.1)

Apart-select :
    (p : Consumer → Bool) (stale active : List Consumer)
    → Apart stale active
    → Apart stale (select p active)
Apart-select p stale active =
    All-map (λ c. has_id active c.id ≡ false) (λ c. has_id (select p active) c.id ≡ false) stale
      (λ c. has_id-select-false p active c.id)

-- Starting a consumer for a user who has none.
add-IsConsistent :
    (u : Text) (m : Manager) (live stale : List Consumer) (phase : Phase)
    → m.next_id + 1 < u64
    → has_user m.active u ≡ false
    → IsConsistent (sys m live stale phase)
    → IsConsistent (sys (add u m) (next_consumer u m ∷ live) stale phase)
add-IsConsistent u m live stale phase room absent v =
    let e : (m.next_id + 1) % u64 ≡ m.next_id + 1 = omega arith in
    record {
      running = λ on. ap (λ cs. next_consumer u m ∷ cs) (v.running on);
      part = Sublist.kept v.part;
      one_each = (absent, v.one_each);
      ids_distinct = (has_id_above m.next_id _ m.active v.ids_below (omega arith), v.ids_distinct);
      ids_below = (omega arith, IdsBelow-mono m.next_id _ m.active (omega arith) v.ids_below);
      stale_below = IdsBelow-mono m.next_id _ stale (omega arith) v.stale_below;
      stale_apart =
          Apart-add m.next_id (next_consumer u m) stale m.active (omega arith) v.stale_below
            v.stale_apart;
    }

start-IsConsistent :
    (us : List Text) (m : Manager) (live stale : List Consumer) (phase : Phase)
    → m.next_id + length us < u64
    → IsConsistent (sys m live stale phase)
    → IsConsistent (sys (start_wanted us m) (started us m live) stale phase)
unfolding start_wanted started
start-IsConsistent [] m live stale phase room v = v
start-IsConsistent (u ∷ us) m live stale phase room v = elim (Bool-cases (has_user m.active u)) [
  | inl there ↦ rw there (start-IsConsistent us m live stale phase (omega arith) v)
  | inr absent ↦ rw absent (
      start-IsConsistent us (add u m) (next_consumer u m ∷ live) stale phase (omega arith)
        (add-IsConsistent u m live stale phase (omega arith) absent v))
]

length-users : (es : List TriggerIndexEntry) → length (users es) ≡ length es
length-users [] = refl
length-users (e ∷ es) = ap suc (length-users es)

-- Deleting the unwanted consumers and cancelling their goroutines.
keep-IsConsistent :
    (p : Consumer → Bool) (s : System)
    → IsConsistent s
    → let gone = select (λ c. not (p c)) s.manager.active in
      IsConsistent (
        sys
          (record s.manager { active = select p s.manager.active })
          (select (λ c. not (has_id gone c.id)) s.live)
          (select (λ c. has_id gone c.id) s.live ++ s.stale)
          s.phase)
keep-IsConsistent p s v = record {
  running = λ on. ap (select _) (v.running on) ∙ select-not_gone p s.manager.active v.ids_distinct;
  part =
      subst (Sublist (select _ s.live)) (select-not_gone p s.manager.active v.ids_distinct)
        (Sublist-select _ v.part);
  one_each = UserDistinct-select p s.manager.active v.one_each;
  ids_distinct = IdDistinct-select p s.manager.active v.ids_distinct;
  ids_below = All-select _ p s.manager.active v.ids_below;
  stale_below =
      All-append _ _ s.stale
        (All-select _ _ s.live (All-Sublist (λ c. c.id ≤ s.manager.next_id) v.part v.ids_below))
        v.stale_below;
  stale_apart =
      All-append _ _ s.stale
        (All-select_of _ _ s.live (λ c. has_id-kept p s.manager.active c.id v.ids_distinct))
        (Apart-select p s.stale s.manager.active v.stale_apart);
}

ticked-IsConsistent :
    (entries : List TriggerIndexEntry) (s : System)
    → s.manager.next_id + length entries < u64
    → IsConsistent s
    → IsConsistent (ticked entries s)
unfolding ticked
ticked-IsConsistent entries s room v =
    start-IsConsistent (users entries) (keep_wanted entries s.manager) _ _ s.phase
      (omega (arith, length-users entries))
      (keep-IsConsistent (λ c. is_wanted entries c.user_id) s v)

-- The consumer that leaves is taken out of the table and of the goroutines alike.
deactivate-IsConsistent :
    (c : Consumer) (s : System)
    → IsConsistent s
    → IsConsistent (sys (deactivate c.user_id c.id s.manager) (leave c s.live) s.stale s.phase)
unfolding deactivate leave
deactivate-IsConsistent c s v = record {
  running = λ on. ap (select (λ d. not (same_consumer d c))) (v.running on);
  part = Sublist-select _ v.part;
  one_each = UserDistinct-select _ s.manager.active v.one_each;
  ids_distinct = IdDistinct-select _ s.manager.active v.ids_distinct;
  ids_below = All-select _ _ s.manager.active v.ids_below;
  stale_below = v.stale_below;
  stale_apart = Apart-select _ s.stale s.manager.active v.stale_apart;
}

leave_stale-IsConsistent :
    (c : Consumer) (s : System)
    → IsConsistent s
    → IsConsistent (record s { stale = leave c s.stale })
unfolding leave
leave_stale-IsConsistent c s v = record {
  running = v.running;
  part = v.part;
  one_each = v.one_each;
  ids_distinct = v.ids_distinct;
  ids_below = v.ids_below;
  stale_below = All-select _ _ s.stale v.stale_below;
  stale_apart = All-select _ _ s.stale v.stale_apart;
}

-- The id keeps a stale goroutine from taking a newer consumer of its user out of the table.
pub deactivate_stale :
    (c : Consumer) (s : System)
    → IsConsistent s
    → member c s.stale ≡ true
    → deactivate c.user_id c.id s.manager ≡ s.manager
unfolding deactivate
deactivate_stale c s v m =
    ap (λ (cs : List Consumer). record s.manager { active = cs })
      (select_absent c s.manager.active (Apart-member c s.stale s.manager.active m v.stale_apart))

stopped-IsConsistent :
    (s : System)
    → IsConsistent s
    → IsConsistent (sys (stop_all s.manager) [] (s.live ++ s.stale) ended)
unfolding stop_all has_id
stopped-IsConsistent s v = record {
  running = λ on. refl;
  part = Sublist.nothing;
  one_each = tt;
  ids_distinct = tt;
  ids_below = tt;
  stale_below =
      All-append _ s.live s.stale (All-Sublist (λ c. c.id ≤ s.manager.next_id) v.part v.ids_below)
        v.stale_below;
  stale_apart = All-map _ _ (s.live ++ s.stale) (λ c h. refl) (all_there (s.live ++ s.stale));
}
  where
    all_there : (cs : List Consumer) → All (λ c. Unit {0}) cs
    all_there [] = tt
    all_there (c ∷ cs) = (tt, all_there cs)

-- A goroutine returns before `stopAll`.
returned-IsConsistent :
    (c : Consumer) (s : System)
    → s.phase ≡ ending
    → IsConsistent s
    → IsConsistent (record s { live = leave c s.live })
unfolding leave
returned-IsConsistent c s done v = record {
  running = λ on. absurd (not_both done on);
  part = Sublist-select_part _ v.part;
  one_each = v.one_each;
  ids_distinct = v.ids_distinct;
  ids_below = v.ids_below;
  stale_below = v.stale_below;
  stale_apart = v.stale_apart;
}
  where
    not_both : {phase : Phase} → phase ≡ ending → phase ≡ serving → ⊥
    not_both e e' = cc (e, e')

shut-IsConsistent : (s : System) → IsConsistent s → IsConsistent (record s { phase = ending })
shut-IsConsistent s v = record {
  running = λ on. cc on;
  part = v.part;
  one_each = v.one_each;
  ids_distinct = v.ids_distinct;
  ids_below = v.ids_below;
  stale_below = v.stale_below;
  stale_apart = v.stale_apart;
}

pub Step-IsConsistent : {s t : System} → Step s t → IsConsistent s → IsConsistent t
Step-IsConsistent {s} (tick entries looping room) v = ticked-IsConsistent entries s room v
Step-IsConsistent {s} (give_up c m) v = deactivate-IsConsistent c s v
Step-IsConsistent {s} (give_up_late c m) v =
    subst (λ k. IsConsistent (sys k s.live (leave c s.stale) s.phase))
      (sym (deactivate_stale c s v m)) (leave_stale-IsConsistent c s v)
Step-IsConsistent {s} (notice c m) v = leave_stale-IsConsistent c s v
Step-IsConsistent {s} (shut on) v = shut-IsConsistent s v
Step-IsConsistent {s} (return c done m) v = returned-IsConsistent c s done v
Step-IsConsistent {s} (stop done) v = stopped-IsConsistent s v

abbrev pub start_system : System
start_system = sys (record { active = []; next_id = 0 }) [] [] serving

IsConsistent-start : IsConsistent start_system
IsConsistent-start = record {
  running = λ on. refl;
  part = Sublist.nothing;
  one_each = tt;
  ids_distinct = tt;
  ids_below = tt;
  stale_below = tt;
  stale_apart = tt;
}

Reach-IsConsistent : {s t : System} → Reach s t → IsConsistent s → IsConsistent t
Reach-IsConsistent here v = v
Reach-IsConsistent (next r st) v = Step-IsConsistent st (Reach-IsConsistent r v)

-- However passes of `reconcile`, failed reads of credentials, the end of the context of `Start`,
-- returns of goroutines and `stopAll` follow one another from the start, while the counter of ids does
-- not wrap: until that context is done the live goroutines are exactly the consumers in the table, and
-- from then on they are some of them; no two consumers in the table are of one user, no two have one
-- id, and no goroutine that the manager cancelled has the id of one in the table.
pub reachable-IsConsistent : {s : System} → Reach start_system s → IsConsistent s
reachable-IsConsistent r = Reach-IsConsistent r IsConsistent-start
