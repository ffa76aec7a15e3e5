-- ===== src/Notify/Guard.antt =====
-- Which notifications are delivered.
use ocis_workflows.Base.{
  Text, text, is_empty, every, not, Bool-cases, true, false, List, [], ◌∷◌, Result, ok, err, ◌≡◌,
  inl, inr, refl, arith,
}
use ocis_workflows.Base.Actions.{continue, prefixed}
use ocis_workflows.Base.Ensures.{After, After-map, After-ok, Leaves-continue, Leaves-wrap}
use ocis_workflows.Notify.{
  Target, Address, Network, is_generic, is_disallowed_target, check_addresses, check_resolved,
  check_parsed, guard_target, send,
}

module _ {W : Type 0} (n : Network W) where
  abbrev AreAllowed : Result (List Address) → Type 0
  AreAllowed (ok ips) = every (λ ip. not (is_disallowed_target ip)) ips ≡ true
  AreAllowed (err e) = Unit

  abbrev Admits : Result Target → W → Type 0
  Admits (ok u) w =
      is_generic (n.to_lower u.scheme) ≡ true
      → is_empty u.hostname ≡ false
      → AreAllowed (n.lookup u.hostname w).0
  Admits (err e) w = Unit

  -- If the target is a raw URL with a host, every address that a look-up of it finds in this world is
  -- allowed.
  abbrev pub IsPermitted : Text → W → Type 0
  IsPermitted target w = Admits (n.parse_url target) w

  check_addresses-every :
      (host : Text) (ips : List Address) (w : W)
      → After
          (λ done w'. every (λ ip. not (is_disallowed_target ip)) ips ≡ true)
          (check_addresses n host ips w)
  unfolding check_addresses
  check_addresses-every host [] w = refl
  check_addresses-every host (ip ∷ ips) w = elim (Bool-cases (is_disallowed_target ip)) [
    | inl bad ↦ rw bad tt
    | inr good ↦ rw good (check_addresses-every host ips w)
  ]

  check_resolved-AreAllowed :
      (host : Text) (found : Result (List Address)) (w : W)
      → After (λ done w'. AreAllowed found) (check_resolved n host found w)
  check_resolved-AreAllowed host (ok ips) w = check_addresses-every host ips w
  check_resolved-AreAllowed host (err e) w = tt

  check_parsed-Admits :
      (u : Target) (w : W) → After (λ done w'. Admits (ok u) w) (check_parsed n u w)
  check_parsed-Admits u w = elim (Bool-cases (is_generic (n.to_lower u.scheme))) [
    | inr other ↦ rw other (λ generic. ground (arith, generic))
    | inl generic ↦ elim (Bool-cases (is_empty u.hostname)) [
      | inl none ↦ rw (generic, none) (λ e named. ground (arith, named))
      | inr named ↦
          rw (generic, named)
            (After-map _ _
              (check_resolved n u.hostname (n.lookup u.hostname w).0 (n.lookup u.hostname w).1)
              (λ done w' allowed g e. allowed)
              (check_resolved-AreAllowed u.hostname (n.lookup u.hostname w).0
                (n.lookup u.hostname w).1))
    ]
  ]

  parsed-Admits :
      (what : Text) (r : Result Target) (w : W)
      → After (λ done w'. Admits r w) (continue (prefixed what r) (check_parsed n) w)
  parsed-Admits what (ok u) w = check_parsed-Admits u w
  parsed-Admits what (err e) w = tt

  guard_target-IsPermitted :
      (target : Text) (w : W) → After (λ done w'. IsPermitted target w) (guard_target n target w)
  unfolding guard_target
  guard_target-IsPermitted target w =
      parsed-Admits (text "invalid notification target") (n.parse_url target) w

  Leaves-check_addresses :
      (P : W → Type 0) (host : Text) (ips : List Address) (w : W)
      → P w
      → P (check_addresses n host ips w).1
  unfolding check_addresses
  Leaves-check_addresses P host [] w h = h
  Leaves-check_addresses P host (ip ∷ ips) w h = elim (Bool-cases (is_disallowed_target ip)) [
    | inl bad ↦ rw bad h
    | inr good ↦ rw good (Leaves-check_addresses P host ips w h)
  ]

  Leaves-check_resolved :
      (P : W → Type 0) (host : Text) (found : Result (List Address)) (w : W)
      → P w
      → P (check_resolved n host found w).1
  Leaves-check_resolved P host (ok ips) w h = Leaves-check_addresses P host ips w h
  Leaves-check_resolved P host (err e) w h = h

  module _ (P : W → Type 0) (looked_up : (host : Text) (w : W) → P w → P (n.lookup host w).1) where
    Leaves-check_parsed : (u : Target) (w : W) → P w → P (check_parsed n u w).1
    Leaves-check_parsed u w h = elim (Bool-cases (is_generic (n.to_lower u.scheme))) [
      | inr other ↦ rw other h
      | inl generic ↦ elim (Bool-cases (is_empty u.hostname)) [
        | inl none ↦ rw (generic, none) h
        | inr named ↦
            rw (generic, named)
              (Leaves-check_resolved P u.hostname (n.lookup u.hostname w).0
                (n.lookup u.hostname w).1 (looked_up u.hostname w h))
      ]
    ]

    Leaves-guard_target : (target : Text) (w : W) → P w → P (guard_target n target w).1
    unfolding guard_target
    Leaves-guard_target target w h =
        Leaves-wrap P (text "invalid notification target") (n.parse_url target) (check_parsed n) w h
          (λ u parsed. Leaves-check_parsed u w h)

  -- A notification is delivered, as it is given, only after every address that a look-up of the
  -- target's host has found was allowed, if the target is a raw URL with a host and the look-up does
  -- not fail: a property of the world that look-ups keep, and that the delivery keeps where the
  -- target is permitted, is kept.
  pub send-Leaves :
      (P : W → Type 0) (target title body : Text) (w : W)
      → ((host : Text) (w : W) → P w → P (n.lookup host w).1)
      → ((w' : W) → IsPermitted target w → P w' → P (n.deliver target title body w').1)
      → P w
      → P (send n target title body w).1
  unfolding send
  send-Leaves P target title body w looked_up delivered h =
      let kept = Leaves-guard_target P looked_up target w h in
      Leaves-continue P (guard_target n target w).0 _ (guard_target n target w).1 kept
        (λ done guarded.
          Leaves-wrap P (text "invalid notification target") (n.add target) _
            (guard_target n target w).1 kept
            (λ added e.
              delivered (guard_target n target w).1
                (After-ok (λ done w'. IsPermitted target w) (guard_target n target w)
                  (guard_target-IsPermitted target w) done guarded)
                kept))
