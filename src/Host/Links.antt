-- ===== src/Host/Links.antt =====
-- The commands of agent/nodepilot_agent/network.py, and agent/nodepilot_agent/operations/
-- network_ops.py as far as it runs them. What `ip` answers is a parameter that may depend on all
-- commands so far, the last one first.
use node_pilot.Common.{
  ℕ, zero, suc, Bool, true, false, ◌&&◌, not, ◌==◌, Option, none, some, List, [], ◌∷◌, leb,
}
use node_pilot.Common.Error.{network_operation_error, os_error}
use node_pilot.Common.Exec.{Result, ok, err, Exec, pure, raise_if, lift, when, ◌>>=◌, ◌>>◌}
use node_pilot.Hypervisor.Text.{Text, codes, decimal}
use node_pilot.Hypervisor.Network.{validate_iface, vlan_interface_name, vlan_bridge_name}
use node_pilot.Host.Names.{split_words}
use node_pilot.Host.Shell.{Answer, succeeded, exit_failed, timed_out, not_started}

pub data LinkCommand : Type 0 where
  show_bridge show : Text → LinkCommand
  add_bridge : Text → LinkCommand
  add_vlan : Text → Text → ℕ → LinkCommand
  set_up set_down : Text → LinkCommand
  set_master : Text → Text → LinkCommand
  remove_bridge remove_link : Text → LinkCommand

-- The argument list.
unfoldable pub ip_argv : LinkCommand → List Text
unfolding decimal
ip_argv (show_bridge name) =
    codes "ip"
    ∷ codes "-json"
    ∷ codes "link"
    ∷ codes "show"
    ∷ codes "type"
    ∷ codes "bridge"
    ∷ name
    ∷ []
ip_argv (show name) = codes "ip" ∷ codes "-json" ∷ codes "link" ∷ codes "show" ∷ name ∷ []
ip_argv (add_bridge name) =
    codes "ip"
    ∷ codes "link"
    ∷ codes "add"
    ∷ codes "name"
    ∷ name
    ∷ codes "type"
    ∷ codes "bridge"
    ∷ []
ip_argv (add_vlan parent iface vlan_id) =
    codes "ip"
    ∷ codes "link"
    ∷ codes "add"
    ∷ codes "link"
    ∷ parent
    ∷ codes "name"
    ∷ iface
    ∷ codes "type"
    ∷ codes "vlan"
    ∷ codes "id"
    ∷ decimal vlan_id
    ∷ []
ip_argv (set_up name) = codes "ip" ∷ codes "link" ∷ codes "set" ∷ name ∷ codes "up" ∷ []
ip_argv (set_down name) = codes "ip" ∷ codes "link" ∷ codes "set" ∷ name ∷ codes "down" ∷ []
ip_argv (set_master iface bridge) =
    codes "ip" ∷ codes "link" ∷ codes "set" ∷ iface ∷ codes "master" ∷ bridge ∷ []
ip_argv (remove_bridge name) =
    codes "ip" ∷ codes "link" ∷ codes "delete" ∷ name ∷ codes "type" ∷ codes "bridge" ∷ []
ip_argv (remove_link name) = codes "ip" ∷ codes "link" ∷ codes "delete" ∷ name ∷ []

abbrev pub Linked : Type 0 → Type 0
Linked A = Exec (List LinkCommand) A

abbrev pub Ip : Type 0
Ip = List LinkCommand → List Text → Answer

-- `_run`, for a command that must succeed, and with check=False.
abbrev pub must : Answer → Result (Unit {0})
must (succeeded out) = ok tt
must exit_failed = err network_operation_error
must timed_out = err network_operation_error
must not_started = err os_error

abbrev pub may : Answer → Result (Unit {0})
may (succeeded out) = ok tt
may exit_failed = ok tt
may timed_out = err network_operation_error
may not_started = err os_error

-- `stdout.strip() not in ("", "[]")`: what is printed has a word other than `[]`.
abbrev pub prints_link : List Text → Bool
prints_link [] = false
prints_link (w ∷ v ∷ words) = true
prints_link (w ∷ []) = elim w [
  | [] ↦ true
  | c ∷ s ↦ elim s [
    | [] ↦ true
    | d ∷ t ↦ elim t [ [] ↦ not (c == b'[' && d == b']') | _ ∷ _ ↦ true ]
  ]
]

-- Whether a query's answer shows a link.
unfoldable pub shows : Answer → Result Bool
shows (succeeded out) = ok (prints_link (split_words out))
shows exit_failed = ok false
shows timed_out = err network_operation_error
shows not_started = err os_error

module _ (ip : Ip) where
  abbrev pub do_link : LinkCommand → Linked (Unit {0})
  do_link c done = (must (ip done (ip_argv c)), c ∷ done)

  abbrev pub try_link : LinkCommand → Linked (Unit {0})
  try_link c done = (may (ip done (ip_argv c)), c ∷ done)

  abbrev pub ask_link : LinkCommand → Linked Bool
  ask_link c done = (shows (ip done (ip_argv c)), c ∷ done)

  unfoldable pub bridge_exists : Text → Linked Bool
  unfolding validate_iface
  bridge_exists name = do name ← lift (validate_iface name); ask_link (show_bridge name)

  abbrev pub add_new : LinkCommand → Text → Linked (Unit {0})
  add_new add name = do do_link add; do_link (set_up name)

  unfoldable pub create_bridge : Text → Linked (Unit {0})
  unfolding validate_iface bridge_exists
  create_bridge name = do
    name ← lift (validate_iface name)
    exists ← bridge_exists name
    when (not exists) (add_new (add_bridge name) name)

  unfoldable pub delete_bridge : Text → Linked (Unit {0})
  unfolding validate_iface
  delete_bridge name = do
    name ← lift (validate_iface name)
    try_link (set_down name)
    do_link (remove_bridge name)

  unfoldable pub create_vlan_interface : Text → ℕ → Linked Text
  unfolding validate_iface vlan_interface_name
  create_vlan_interface parent vlan_id = do
    parent ← lift (validate_iface parent)
    raise_if (not (leb 1 vlan_id && leb vlan_id 4094)) network_operation_error
    iface ← lift (vlan_interface_name parent vlan_id)
    exists ← ask_link (show iface)
    when (not exists) (add_new (add_vlan parent iface vlan_id) iface)
    pure iface

  unfoldable pub delete_vlan_interface : Text → ℕ → Linked (Unit {0})
  unfolding vlan_interface_name
  delete_vlan_interface parent vlan_id = do
    iface ← lift (vlan_interface_name parent vlan_id)
    try_link (set_down iface)
    try_link (remove_link iface)

  unfoldable pub attach_to_bridge : Text → Text → Linked (Unit {0})
  unfolding validate_iface
  attach_to_bridge iface bridge = do
    iface ← lift (validate_iface iface)
    bridge ← lift (validate_iface bridge)
    do_link (set_master iface bridge)

  unfoldable pub ensure_vlan_network : Text → ℕ → Linked Text
  unfolding create_bridge create_vlan_interface vlan_bridge_name attach_to_bridge
  ensure_vlan_network parent_bridge vlan_id = do
    create_bridge parent_bridge
    uplink ← create_vlan_interface parent_bridge vlan_id
    dedicated_bridge ← lift (vlan_bridge_name parent_bridge vlan_id)
    create_bridge dedicated_bridge
    attach_to_bridge uplink dedicated_bridge
    pure dedicated_bridge

  unfoldable pub teardown_vlan_network : Text → ℕ → Linked (Unit {0})
  unfolding vlan_bridge_name delete_bridge delete_vlan_interface
  teardown_vlan_network parent_bridge vlan_id = do
    dedicated_bridge ← lift (vlan_bridge_name parent_bridge vlan_id)
    delete_bridge dedicated_bridge
    delete_vlan_interface parent_bridge vlan_id

  -- `create_network` of network_ops.py: the bridge that NICs attach to.
  unfoldable pub create_network : Text → Option ℕ → Linked Text
  unfolding create_bridge ensure_vlan_network
  create_network bridge none = do create_bridge bridge; pure bridge
  create_network bridge (some zero) = do create_bridge bridge; pure bridge
  create_network bridge (some (suc n)) = ensure_vlan_network bridge (suc n)

  -- `delete_network` of network_ops.py.
  unfoldable pub delete_network : Text → Option ℕ → Linked (Unit {0})
  unfolding delete_bridge teardown_vlan_network
  delete_network bridge none = delete_bridge bridge
  delete_network bridge (some zero) = delete_bridge bridge
  delete_network bridge (some (suc n)) = teardown_vlan_network bridge (suc n)

-- `_nic_target_bridge`
unfoldable pub nic_target_bridge : Text → Option ℕ → Result Text
unfolding vlan_bridge_name
nic_target_bridge bridge none = ok bridge
nic_target_bridge bridge (some zero) = ok bridge
nic_target_bridge bridge (some (suc n)) = vlan_bridge_name bridge (suc n)
