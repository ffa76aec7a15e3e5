-- ===== src/Notify.antt =====
-- backend/pkg/notify/notify.go: notifications, and the guard of their targets. url.Parse,
-- strings.ToLower, the resolver, the classes of addresses and apprise-go are parameters.
pub mod Guard
use ocis_workflows.Base.{
  Text, text, teq, is_empty, ◌||◌, Bool, true, false, List, [], ◌∷◌, ◌++◌, Result, ok, err,
  if◌then◌else◌,
}
use ocis_workflows.Base.Actions.{Act, pure, fail, given, wrap, attempt, ◌>>=◌, ◌>>◌}

-- The parts of `url.URL` that are read.
pub record Target : Type 0 where
  pub scheme : Text
  pub hostname : Text

-- An address by its classes.
pub record Address : Type 0 where
  pub is_loopback : Bool
  pub is_private : Bool
  pub is_link_local_unicast : Bool
  pub is_link_local_multicast : Bool
  pub is_unspecified : Bool

-- `add` is what `Add` of a new client says of a target, `deliver` `Send` of a client with that target.
pub record Network (W : Type 0) : Type 0 where
  pub parse_url : Text → Result Target
  pub to_lower : Text → Text
  pub lookup : Text → Act W (List Address)
  pub add : Text → Result (Unit {0})
  pub deliver : Text → Text → Text → Act W (Unit {0})
  pub quote : Text → Text

abbrev is_one_of : Text → List Text → Bool
is_one_of t [] = false
is_one_of t (x ∷ xs) = teq t x || is_one_of t xs

-- The schemes of raw URLs.
unfoldable pub is_generic : Text → Bool
unfolding teq
is_generic scheme = is_one_of scheme (
    text "json"
    ∷ text "jsons"
    ∷ text "form"
    ∷ text "forms"
    ∷ text "xml"
    ∷ text "xmls"
    ∷ text "http"
    ∷ text "https"
    ∷ [])

abbrev pub is_disallowed_target : Address → Bool
is_disallowed_target ip =
    ip.is_loopback || ip.is_private || ip.is_link_local_unicast || ip.is_link_local_multicast
    || ip.is_unspecified

module _ {W : Type 0} (n : Network W) where
  -- The loop over the addresses.
  unfoldable pub check_addresses : Text → List Address → Act W (Unit {0})
  check_addresses host [] = pure tt
  check_addresses host (ip ∷ ips) =
      if is_disallowed_target ip
      then fail (
          text "notification target host "
          ++ (n.quote host ++ text " resolves to a disallowed address"))
      else check_addresses host ips

  abbrev pub check_resolved : Text → Result (List Address) → Act W (Unit {0})
  check_resolved host (err e) = pure tt
  check_resolved host (ok ips) = check_addresses host ips

  abbrev pub resolve_and_check : Text → Act W (Unit {0})
  resolve_and_check host = do found ← attempt (n.lookup host); check_resolved host found

  abbrev pub check_parsed : Target → Act W (Unit {0})
  check_parsed u =
      if is_generic (n.to_lower u.scheme)
      then (if is_empty u.hostname then pure tt else resolve_and_check u.hostname)
      else pure tt

  unfoldable pub guard_target : Text → Act W (Unit {0})
  guard_target target = do
    u ← wrap (text "invalid notification target") (given (n.parse_url target))
    check_parsed u

  unfoldable pub send : Text → Text → Text → Act W (Unit {0})
  send target title body = do
    guard_target target
    wrap (text "invalid notification target") (given (n.add target))
    n.deliver target title body
