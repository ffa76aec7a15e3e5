-- ===== src/Auth/Admission.antt =====
-- Which requests reach the handlers.
use ocis_workflows.Base.{
  Text, text, is_empty, has_prefix, has_prefix-split, trim_prefix, drop, ◌==◌, ==_iff, not,
  Bool-cases, true, false, [], ◌++◌, Result, ok, err, ◌≡◌, ◌⊎◌, inl, inr, refl, sym, ◌∙◌, ap, arith,
}
use ocis_workflows.Base.Ensures.{
  After, After-continue, After-wrap, After-ok, After-last, After-require,
}
use ocis_workflows.Http.{Reply, authorized}
use ocis_workflows.Auth.{
  Validator, State, Verdict, bearer_prefix, bearer_token, fetch_endpoint, discover, validate,
  origin_allowed, judged, middleware,
}

module _ {W : Type 0} (v : Validator W) where
  -- An endpoint is known, and this is it.
  abbrev IsKept : Text → State W → Type 0
  IsKept found s = (not (is_empty found) ≡ true) × (s.userinfo_endpoint ≡ found)

  After-fetch_endpoint : (s : State W) → After IsKept (fetch_endpoint v s)
  unfolding fetch_endpoint
  After-fetch_endpoint s = search (After-continue IsKept, After-require IsKept)

  After-discover : (s : State W) → After IsKept (discover v s)
  unfolding discover
  After-discover s = elim (Bool-cases (is_empty s.userinfo_endpoint)) [
    | inl unknown ↦ rw unknown (After-fetch_endpoint s)
    | inr known ↦ rw known (ground (arith, known), refl)
  ]

  -- The userinfo endpoint has just answered 200 to this token.
  abbrev pub IsValidated : Text → State W → Type 0
  IsValidated token s =
      (w : W) × (reply : Reply) × (v.http.send
          (authorized (text "GET") s.userinfo_endpoint (text "Bearer " ++ token) [] []) w
        ≡ (ok reply, s.world))
      × (reply.status ≡ 200)
      × (not (is_empty s.userinfo_endpoint) ≡ true)

  validated :
      (token found : Text) (s : State W) (reply : Reply)
      → IsKept found s
      → let (r, w) =
          v.http.send (authorized (text "GET") found (text "Bearer " ++ token) [] []) s.world in
        r ≡ ok reply → (reply.status == 200) ≡ true → IsValidated token (record s { world = w })
  validated token found s reply (named, kept) arrived good =
      (s.world, reply, rw (kept, arrived) refl, (==_iff reply.status 200).0 good, rw kept named)

  After-validate :
      (token : Text) (s : State W) → After (λ done s'. IsValidated token s') (validate v token s)
  unfolding validate
  After-validate token s =
      let Q : Unit {0} → State W → Type 0 = λ done s'. IsValidated token s' in
      let kept = After-ok IsKept (discover v s) (After-discover s) in
      search (After-wrap Q, After-continue Q, After-last Q, validated, kept)

bearer_token-split :
    (header : Text)
    → is_empty (bearer_token header) ≡ false
    → header ≡ text "Bearer " ++ bearer_token header
unfolding bearer_token trim_prefix
bearer_token-split header named = elim (Bool-cases (has_prefix header bearer_prefix)) [
  | inl p ↦
      let (rest, split) = has_prefix-split header bearer_prefix p in
      rw p (split ∙ ap (λ t. text "Bearer " ++ drop 7 t) (sym split))
  | inr p ↦ ground (arith, p, named)
]

module _ {W : Type 0} (v : Validator W) where
  -- What a verdict and the state with it tell about the request.
  abbrev pub IsJust : Text → Text → State W → Verdict × State W → Type 0
  IsJust origin authorization s (Verdict.admitted token, s') =
      (origin_allowed v origin ≡ true)
      × (authorization ≡ text "Bearer " ++ token)
      × (is_empty token ≡ false)
      × IsValidated v token s'
  IsJust origin authorization s (Verdict.refused status code message, s') =
      ((status ≡ 403) × (origin_allowed v origin ≡ false) × (s' ≡ s))
      ⊎ ((status ≡ 401)
          × (origin_allowed v origin ≡ true)
          × ((is_empty (bearer_token authorization) ≡ true) → s' ≡ s))

  judged-IsJust :
      (origin authorization : Text) (s : State W)
      → origin_allowed v origin ≡ true
      → is_empty (bearer_token authorization) ≡ false
      → (p : Result (Unit {0}) × State W)
      → After (λ done s'. IsValidated v (bearer_token authorization) s') p
      → IsJust origin authorization s (judged v (bearer_token authorization) p.0, p.1)
  judged-IsJust origin authorization s allowed there (ok tt, s') h =
      (allowed, bearer_token-split authorization there, there, h)
  judged-IsJust origin authorization s allowed there (err e, s') h =
      inr (refl, allowed, λ missing. ground (arith, there, missing))

  -- A request is handed on only if its origin is allowed, its header is "Bearer " and a token that
  -- is not empty, and the userinfo endpoint has just answered 200 to that token, which is then the
  -- token that the handlers see. Otherwise the answer is 403 if the origin is not allowed, before
  -- anything else is looked at, and 401 if it is; where the token is missing, no call is made.
  pub middleware-IsJust :
      (origin authorization : Text) (s : State W)
      → IsJust origin authorization s (middleware v origin authorization s)
  unfolding middleware
  middleware-IsJust origin authorization s = elim (Bool-cases (origin_allowed v origin)) [
    | inr foreign ↦ rw foreign (inl (refl, foreign, refl))
    | inl allowed ↦ elim (Bool-cases (is_empty (bearer_token authorization))) [
      | inl missing ↦ rw (allowed, missing) (inr (refl, allowed, λ e. refl))
      | inr there ↦
          rw (allowed, there)
            (judged-IsJust origin authorization s allowed there
              (validate v (bearer_token authorization) s)
              (After-validate v (bearer_token authorization) s))
    ]
  ]
