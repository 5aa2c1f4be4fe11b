-- ===== src/Hypervisor/Network.antt =====
-- agent/nodepilot_agent/network.py. The host is its links, and which commands are refused is
-- input; a command is its argument list.
use node_pilot.Common.{
  ℕ, zero, suc, Bool, true, false, ◌&&◌, ◌||◌, not, [], ◌∷◌, ◌++◌, leb, ◌==◌, if◌then◌else◌,
}
use node_pilot.Common.Error.{network_operation_error}
use node_pilot.Common.Exec.{Result, ok, err}
use node_pilot.Hypervisor.Text.{Text, codes, decimal}

abbrev pub is_alphanumeric : ℕ → Bool
is_alphanumeric c =
    (leb b'A' c && leb c b'Z') || (leb b'a' c && leb c b'z') || (leb b'0' c && leb c b'9')

abbrev pub is_iface_char : ℕ → Bool
is_iface_char c = is_alphanumeric c || c == b'_' || c == b'.' || c == b'-'

-- `$` of a regular expression: at the end, or before a line feed that ends the text.
abbrev pub at_end : Text → Bool
at_end [] = true
at_end (c ∷ []) = c == b'\n'
at_end (c ∷ d ∷ s) = false

-- `[A-Za-z0-9_.-]{0,n}$`
unfoldable pub matches_rest : ℕ → Text → Bool
matches_rest n [] = true
matches_rest zero (c ∷ s) = at_end (c ∷ s)
matches_rest (suc n) (c ∷ s) =
    let rest = matches_rest n s in if is_iface_char c then rest else at_end (c ∷ s)

-- `_SAFE_IFACE.match`
unfoldable pub safe_iface : Text → Bool
unfolding matches_rest
safe_iface [] = false
safe_iface (c ∷ s) = is_alphanumeric c && matches_rest 14 s

-- `_validate_iface`
unfoldable pub validate_iface : Text → Result Text
unfolding safe_iface
validate_iface name = if not (safe_iface name) then err network_operation_error else ok name

unfoldable pub vlan_interface_name : Text → ℕ → Result Text
unfolding validate_iface
vlan_interface_name parent vlan_id = validate_iface (parent ++ (codes "." ++ decimal vlan_id))

unfoldable pub vlan_bridge_name : Text → ℕ → Result Text
unfolding validate_iface
vlan_bridge_name parent_bridge vlan_id =
    validate_iface (parent_bridge ++ (codes "." ++ (decimal vlan_id ++ codes "b")))
