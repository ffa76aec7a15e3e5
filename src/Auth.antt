-- ===== src/Auth.antt =====
-- backend/pkg/auth/auth.go: the check of origins and bearer tokens. The transport, the discovery
-- document's JSON and url.Parse are parameters; the lock guards one field, so a step reads or writes
-- it at once.
pub mod Admission
use ocis_workflows.Base.{
  ℕ, Text, text, teq, is_empty, has_prefix, trim_prefix, ◌==◌, ◌&&◌, not, Bool, true, false, Option,
  none, some, List, [], ◌∷◌, ◌++◌, Result, ok, err, if◌then◌else◌,
}
use ocis_workflows.Base.Actions.{Act, pure, given, require, wrap, ◌>>=◌, ◌>>◌}
use ocis_workflows.Http.{Http, HttpRequest, Reply, authorized, decode_body, returned}

-- The parts of `url.URL` that are read.
pub record Origin : Type 0 where
  pub scheme : Text
  pub host : Text

-- `Validator` without the endpoint that it keeps.
pub record Validator (W : Type 0) : Type 0 where
  pub ocis_url : Text
  pub allowed_origin : Text
  pub http : Http W
  pub decode_discovery : Text → Result Text  -- the document's `userinfo_endpoint`
  pub parse_url : Text → Result Origin

-- The world, and the endpoint that was found; empty before.
pub record State (W : Type 0) : Type 0 where
  pub world : W
  pub userinfo_endpoint : Text

-- What the middleware writes, or the token that it attaches for the next handler.
pub data Verdict : Type 0 where
  refused : ℕ → Text → Text → Verdict  -- status, code, message
  admitted : Text → Verdict

abbrev bearer_prefix : Text
bearer_prefix = text "Bearer "

unfoldable pub bearer_token : Text → Text
unfolding has_prefix trim_prefix
bearer_token header =
    if not (has_prefix header bearer_prefix) then [] else trim_prefix header bearer_prefix

-- `TokenFromContext` of the context that carries this value
abbrev pub token_from_context : Option Text → Option Text
token_from_context none = none
token_from_context (some token) = if is_empty token then none else some token

abbrev pub same_origin : Result Origin → Result Origin → Bool
same_origin (err e) got = false
same_origin (ok allowed) (err e) = false
same_origin (ok allowed) (ok got) = teq got.scheme allowed.scheme && teq got.host allowed.host

module _ {W : Type 0} (v : Validator W) where
  abbrev send : HttpRequest → Act (State W) Reply
  send req s = let (r, w) = v.http.send req s.world in (r, record s { world = w })

  abbrev endpoint : Act (State W) Text
  endpoint s = (ok s.userinfo_endpoint, s)

  abbrev keep_endpoint : Text → Act (State W) (Unit {0})
  keep_endpoint found s = (ok tt, record s { userinfo_endpoint = found })

  abbrev plain_get : Text → HttpRequest
  plain_get url = record { method = text "GET"; url = url; headers = []; body = [] }

  pub fetch_endpoint : Act (State W) Text
  fetch_endpoint = do
    reply ← send (plain_get (v.ocis_url ++ text "/.well-known/openid-configuration"))
    require (reply.status == 200) (returned v.http (text "oidc discovery") reply)
    found ← decode_body v.decode_discovery reply
    require (not (is_empty found)) (text "oidc discovery document has no userinfo_endpoint")
    keep_endpoint found
    pure found

  unfoldable pub discover : Act (State W) Text
  unfolding fetch_endpoint
  discover = do known ← endpoint; (if not (is_empty known) then pure known else fetch_endpoint)

  -- `Validate`
  unfoldable pub validate : Text → Act (State W) (Unit {0})
  unfolding discover
  validate token = do
    found ← wrap (text "discover userinfo endpoint") discover
    reply ← send (authorized (text "GET") found (text "Bearer " ++ token) [] [])
    require (reply.status == 200) (returned v.http (text "userinfo endpoint") reply)

  unfoldable pub origin_allowed : Text → Bool
  unfolding teq
  origin_allowed origin =
      if is_empty origin
      then true
      else same_origin (v.parse_url v.allowed_origin) (v.parse_url origin)

  abbrev pub judged : Text → Result (Unit {0}) → Verdict
  judged token (ok tt) = Verdict.admitted token
  judged token (err e) =
      Verdict.refused 401 (text "unauthenticated") (text "invalid or expired bearer token")

  -- `Middleware` on a request with these two headers
  unfoldable pub middleware : Text → Text → State W → Verdict × State W
  unfolding validate origin_allowed bearer_token
  middleware origin authorization s =
      let token = bearer_token authorization in
      let (r, s') = validate token s in
      if not (origin_allowed origin)
      then (Verdict.refused 403 (text "originNotAllowed") (text "request origin is not allowed"), s)
      else if is_empty token
      then (Verdict.refused 401 (text "unauthenticated") (text "missing bearer token"), s)
      else (judged token r, s')
