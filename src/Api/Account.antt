-- ===== src/Api/Account.antt =====
-- automation.go and spaces.go: the handlers of a user's automation and spaces.
use ocis_workflows.Base.{Text, text, teq, Bool, List, [], ◌∷◌, ◌++◌, Result, ok, err, if◌then◌else◌}
use ocis_workflows.Model.{AutomationStatus, Space}
use ocis_workflows.Ocis.{Drive}
use ocis_workflows.Automations.{Outside}
use ocis_workflows.Automations
use ocis_workflows.Api.Wire.{answer, refuse, Body, Response, State}

-- `AutomationService`, `UserResolver` and `DriveLister`: the service itself, and what it reaches.
pub record Account (W : Type 0) : Type 0 where
  pub outside : Outside W
  pub list_drives : Text → W → Result (List Drive) × W

abbrev bad_gateway : Text → Text → Response
bad_gateway code message = refuse 502 code message

abbrev pub is_virtual : Drive → Bool
is_virtual d = teq d.drive_type (text "virtual")

-- The loop over the drives.
unfoldable pub spaces_of : List Drive → List Space
unfolding teq
spaces_of [] = []
spaces_of (d ∷ drives) =
    let rest = spaces_of drives in
    if is_virtual d then rest else record { id = d.id; name = d.name } ∷ rest

module _ {W : Type 0} (a : Account W) where
  abbrev on_service :
      {A : Type 0}
      → (Automations.State W → Result A × Automations.State W)
      → (Result A → Response)
      → State W
      → Response × State W
  on_service m respond s =
      let (r, s') = m (record { world = s.world; db = s.db }) in
      (respond r, record { world = s'.world; db = s'.db })

  abbrev status_response : Text → Result AutomationStatus → Response
  status_response message (ok st) = answer 200 (Body.automation st)
  status_response message (err e) = bad_gateway (text "automationUnavailable") message

  abbrev connect_response : Result AutomationStatus → Response
  connect_response (ok st) = answer 200 (Body.automation st)
  connect_response (err e) =
      bad_gateway (text "automationUnavailable") (text "could not enable automation: " ++ e)

  abbrev disconnect_response : Result (Unit {0}) → Response
  disconnect_response (ok tt) = answer 204 Body.nothing
  disconnect_response (err e) =
      bad_gateway (text "automationUnavailable") (text "could not disable automation")

  abbrev status_of : Result Text → State W → Response × State W
  status_of (ok user_id) s =
      on_service (Automations.status a.outside user_id)
        (status_response (text "could not read automation status")) s
  status_of (err e) s =
      (bad_gateway (text "ocisUnavailable") (text "could not resolve current user"), s)

  -- `Get`
  unfoldable pub get_automation : Text → State W → Response × State W
  get_automation auth s =
      let (r, w) = a.outside.me auth s.world in status_of r (record s { world = w })

  -- `Connect`
  unfoldable pub connect_automation : Text → State W → Response × State W
  connect_automation auth = on_service (Automations.connect a.outside auth) connect_response

  -- `Disconnect`
  unfoldable pub disconnect_automation : Text → State W → Response × State W
  disconnect_automation auth =
      on_service (Automations.disconnect a.outside auth) disconnect_response

  abbrev spaces_response : Result (List Drive) → Response
  spaces_response (ok drives) = answer 200 (Body.spaces (spaces_of drives))
  spaces_response (err e) = bad_gateway (text "ocisUnavailable") (text "could not list spaces")

  -- `SpacesHandler.List`
  unfoldable pub list_spaces : Text → State W → Response × State W
  unfolding spaces_of
  list_spaces auth s =
      let (r, w) = a.list_drives auth s.world in (spaces_response r, record s { world = w })
