-- ===== src/Target.antt =====
-- `resolveSafeTarget` of backend/src/shared/ssrf.js. The URL parser, `isIP` and the resolver are
-- Node's, and arguments here; `hostname` is the URL's without its brackets.
pub mod Guard
use hook_tracker.Prelude.{
  ℕ, Bool, true, false, not, ◌&&◌, ◌||◌, List, [], ◌∷◌, Option, none, some, String, any, ◌==◌,
  if◌then◌else◌, text_eq, codes, or_else,
}
use hook_tracker.Exchange.{
  TargetReason, invalid_url, unsupported_scheme, blocked_port, dns_failure, private_address,
  Rejection, Resolved, pinned, rejected,
}
use hook_tracker.Address.{Class, public_range, Version, v4, v6, no_version, classify_address}

pub data Protocol : Type 0 where
  http https other : Protocol

-- What `new URL` gives.
pub record Url : Type 0 where
  pub protocol : Protocol
  pub port : Option ℕ
  pub hostname : List ℕ

abbrev pub default_port : Protocol → Option ℕ
default_port http = some 80
default_port https = some 443
default_port other = none

pub record Policy : Type 0 where
  pub allow_private : Bool
  pub allowlist_hosts : List (List ℕ)
  pub blocked_ports : List ℕ

pub record SafeTarget : Type 0 where
  pub hostname : List ℕ
  pub port : ℕ
  pub address : List ℕ

pub record Network : Type 0 where
  pub parse : String → Option Url
  pub is_ip : List ℕ → Version
  pub lookup : List ℕ → Option (List (List ℕ))  -- `none`: it throws

-- `SsrfBlockedError`; the detail is a text for people.
abbrev pub blocked : TargetReason → Resolved SafeTarget
blocked reason =
    rejected (record { code = some "SSRF_BLOCKED"; reason = some reason; message = "" })

abbrev pub is_public : Class → Bool
is_public public_range = true
is_public _ = false

abbrev pub is_allowlisted : Policy → List ℕ → Bool
is_allowlisted policy hostname = any (λ host. text_eq host hostname) policy.allowlist_hosts

-- `targetPort`, for a protocol that has a default port.
abbrev pub target_port : Url → ℕ → ℕ
target_port url default = or_else url.port default

module _ (net : Network) (policy : Policy) where
  unfoldable pub has_private : List (List ℕ) → Bool
  unfolding classify_address
  has_private addresses = any (λ a. not (is_public (classify_address net.is_ip a))) addresses

  unfoldable pub pin : Url → ℕ → Option (List (List ℕ)) → Resolved SafeTarget
  pin url port none = blocked dns_failure
  pin url port (some []) = blocked dns_failure
  pin url port (some (first ∷ rest)) =
      if not policy.allow_private
        && (not (is_allowlisted policy url.hostname) && has_private (first ∷ rest))
      then blocked private_address
      else pinned (record { hostname = url.hostname; port = port; address = first })

  unfoldable pub addresses_of : List ℕ → Version → Option (List (List ℕ))
  addresses_of hostname v4 = some (hostname ∷ [])
  addresses_of hostname v6 = some (hostname ∷ [])
  addresses_of hostname no_version = net.lookup hostname

  unfoldable pub check_port : Url → Option ℕ → Resolved SafeTarget
  check_port url none = blocked unsupported_scheme
  check_port url (some default) =
      if any (λ p. p == target_port url default) policy.blocked_ports
      then blocked blocked_port
      else pin url (target_port url default) (addresses_of url.hostname (net.is_ip url.hostname))

  unfoldable pub check_url : Option Url → Resolved SafeTarget
  check_url none = blocked invalid_url
  check_url (some url) = check_port url (default_port url.protocol)

  unfoldable pub resolve_safe_target : String → Resolved SafeTarget
  resolve_safe_target raw_url = check_url (net.parse raw_url)
