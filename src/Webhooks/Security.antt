-- ===== src/Webhooks/Security.antt =====
-- backend/apps/webhooks/security.py. What the resolver and the parser of addresses answer for a
-- hostname is input.
use node_pilot.Common.{Bool, true, ◌||◌, List, [], ◌∷◌, String, any, str_eq, if◌then◌else◌}
use node_pilot.Common.Error.{unsafe_webhook_host}
use node_pilot.Common.Exec.{Result, ok, err}

-- An IP address, with its properties in the library `ipaddress`.
pub record Address : Type 0 where
  pub text : String
  pub is_private : Bool
  pub is_loopback : Bool
  pub is_link_local : Bool
  pub is_reserved : Bool

-- A hostname is itself an address, cannot be resolved (`gaierror`), or has candidates.
pub data Resolution : Type 0 where
  literal : Address → Resolution
  unresolved : Resolution
  candidates : List Address → Resolution

-- `_is_unsafe_ip`
unfoldable pub is_unsafe_ip : Address → Bool
is_unsafe_ip ip = ip.is_private || ip.is_loopback || ip.is_link_local || ip.is_reserved

unfoldable pub is_private_host : Resolution → Bool
unfolding is_unsafe_ip
is_private_host (literal ip) = is_unsafe_ip ip
is_private_host unresolved = true
is_private_host (candidates ips) = any is_unsafe_ip ips

unfoldable pub resolve_safe_ip : Resolution → Result Address
unfolding is_unsafe_ip
resolve_safe_ip (literal ip) = if is_unsafe_ip ip then err unsafe_webhook_host else ok ip
resolve_safe_ip unresolved = err unsafe_webhook_host
resolve_safe_ip (candidates []) = err unsafe_webhook_host
resolve_safe_ip (candidates (ip ∷ ips)) =
    if any is_unsafe_ip (ip ∷ ips) then err unsafe_webhook_host else ok ip

-- `pinned_dns`: how hosts are looked up while `hostname` is pinned to `ip`; `lookup` is how they
-- are otherwise.
unfoldable pub pinned_dns : String → Address → (String → Address) → String → Address
pinned_dns hostname ip lookup host = if str_eq host hostname then ip else lookup host
