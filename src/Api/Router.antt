-- ===== src/Api/Router.antt =====
-- backend/pkg/server/http/server.go: the routes behind the middleware. chi and its own middlewares
-- (ids, recovery, time-outs, CORS) are not modelled: a request comes with its route.
use ocis_workflows.Base.{Text, text, Option, none, some, ◌++◌}
use ocis_workflows.LocalDb.{Db}
use ocis_workflows.Api.Wire.{refuse, Backend, Request, Response, State, unauthenticated}
use ocis_workflows.Api.Handlers.{Route, serve}
use ocis_workflows.Api.Account.{
  Account, get_automation, connect_automation, disconnect_automation, list_spaces,
}
use ocis_workflows.Auth.{Validator, Verdict, token_from_context, middleware}
use ocis_workflows.Auth

-- `/me/workflows`, `/me/automation` and `/me/spaces`
pub data Page : Type 0 where
  workflows : Route → Page
  automation_status : Page
  automation_connect : Page
  automation_disconnect : Page
  spaces : Page

-- `Options`
pub record Server (W : Type 0) : Type 0 where
  pub validator : Validator W
  pub backend : Backend W
  pub account : Account W

pub record ServerState (W : Type 0) : Type 0 where
  pub state : State W
  pub userinfo_endpoint : Text

abbrev pub with_account_token :
    {W : Type 0}
    → (Text → State W → Response × State W)
    → Option Text
    → State W
    → Response × State W
with_account_token handler none s = (unauthenticated, s)
with_account_token handler (some token) s = handler (text "Bearer " ++ token) s

module _ {W : Type 0} (h : Server W) where
  -- The handler of a page, with the token of the context.
  unfoldable pub open_page : Page → Request → Option Text → State W → Response × State W
  unfolding serve
  open_page (workflows route) r token s = serve h.backend route (record r { token = token }) s
  open_page automation_status r token s = with_account_token (get_automation h.account) token s
  open_page automation_connect r token s = with_account_token (connect_automation h.account) token s
  open_page automation_disconnect r token s =
      with_account_token (disconnect_automation h.account) token s
  open_page spaces r token s = with_account_token (list_spaces h.account) token s

  abbrev pub after_verdict : Page → Request → Verdict × Auth.State W → Db → Response × ServerState W
  after_verdict page r (Verdict.refused status code message, v) db = (
    refuse status code message,
    record { state = record { world = v.world; db = db }; userinfo_endpoint = v.userinfo_endpoint },
  )
  after_verdict page r (Verdict.admitted token, v) db =
      let (a, s) =
        open_page page r (token_from_context (some token)) (record { world = v.world; db = db }) in
      (a, record { state = s; userinfo_endpoint = v.userinfo_endpoint })

  -- A request with these two headers.
  unfoldable pub handle : Page → Request → Text → Text → ServerState W → Response × ServerState W
  unfolding middleware open_page
  handle page r origin authorization s =
      after_verdict page r
        (middleware h.validator origin authorization
          (record { world = s.state.world; userinfo_endpoint = s.userinfo_endpoint }))
        s.state.db
