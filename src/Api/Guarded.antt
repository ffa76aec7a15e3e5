-- ===== src/Api/Guarded.antt =====
-- What stands between a request and the handlers.
use ocis_workflows.Base.{Text, text, true, some, ◌++◌, ◌≡◌, ◌⊎◌, inl, inr, refl}
use ocis_workflows.LocalDb.{Db}
use ocis_workflows.Api.Wire.{Request, Response}
use ocis_workflows.Api.Router.{Page, Server, ServerState, open_page, after_verdict, handle}
use ocis_workflows.Auth.{Verdict, origin_allowed, middleware}
use ocis_workflows.Auth.Admission.{IsValidated, IsJust, middleware-IsJust}
use ocis_workflows.Auth

module _ {W : Type 0} (h : Server W) (page : Page) (r : Request) (origin authorization : Text) where
  abbrev pub IsTurnedAway : Response × ServerState W → Db → Type 0
  IsTurnedAway (a, s') db = ((a.status ≡ 403) ⊎ (a.status ≡ 401)) × (s'.state.db ≡ db)

  -- The handler has run with this header's token, after the userinfo endpoint's answer.
  abbrev pub IsServed : Response × ServerState W → Db → Type 0
  IsServed (a, s') db =
      (token : Text) × (v : Auth.State W) × (authorization ≡ text "Bearer " ++ token)
      × (origin_allowed h.validator origin ≡ true)
      × IsValidated h.validator token v
      × ((a, s'.state) ≡ open_page h page r (some token) (record { world = v.world; db = db }))

  after_verdict-cases :
      (p : Verdict × Auth.State W) (v : Auth.State W) (db : Db)
      → IsJust h.validator origin authorization v p
      → IsTurnedAway (after_verdict h page r p db) db ⊎ IsServed (after_verdict h page r p db) db
  after_verdict-cases (Verdict.refused status code message, v') v db (inl rest) =
      inl (inl rest.0, refl)
  after_verdict-cases (Verdict.refused status code message, v') v db (inr rest) =
      inl (inr rest.0, refl)
  after_verdict-cases (Verdict.admitted token, v') v db (allowed, header, named, validated) =
      inr (token, v', header, allowed, validated, rw named refl)

  -- On every page, a request is either answered 403 or 401, with the database as it was, or the
  -- page's handler answers it, once, with the token of its Authorization header, from a world in
  -- which the userinfo endpoint has just answered 200 to that token, for an origin that is allowed.
  pub handle-Guards :
      (s : ServerState W)
      → IsTurnedAway (handle h page r origin authorization s) s.state.db
        ⊎ IsServed (handle h page r origin authorization s) s.state.db
  unfolding handle
  handle-Guards s =
      let v : Auth.State W = record {
        world = s.state.world;
        userinfo_endpoint = s.userinfo_endpoint;
      } in
      after_verdict-cases (middleware h.validator origin authorization v) v s.state.db
        (middleware-IsJust h.validator origin authorization v)
