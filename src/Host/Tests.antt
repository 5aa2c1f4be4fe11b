-- ===== src/Host/Tests.antt =====
-- The theorems on the agent's node at a machine whose commands all succeed, and tests.
use node_pilot.Common.{◌≡◌, refl, true, none, some, List, [], ◌∷◌}
use node_pilot.Common.Error.{storage_operation_error}
use node_pilot.Common.Exec.{ok, err}
use node_pilot.Storage.Model.{StorageType, lvm, lvm_thin}
use node_pilot.Hypervisor.Text.{Text, codes, decimal}
use node_pilot.Host.Names.{validate_name, split_words, safe_name}
use node_pilot.Host.Shell.{
  checked, command, lvremove, lvextend, Machine, succeeded, exit_failed, http_error, argv,
}
use node_pilot.Host.Backends.{
  lvm_backend, zfs_backend, get_backend, guard_passes, create_volume, info_of, raw,
}
use node_pilot.Host.Volumes.{delete_volume, resizing, resize_volume}
use node_pilot.Host.Disks.{PoolRef}
use node_pilot.Hypervisor.Network.{vlan_interface_name}
use node_pilot.Host.Links.{
  LinkCommand, Ip, set_master, set_up, add_bridge, show, show_bridge, shows, create_bridge,
  create_network,
}
use node_pilot.Host.LinkRules.{IsIp}
use node_pilot.Host.Again.{network_again}
use node_pilot.Host.Reached.{created_reached, created_apart}

abbrev calm : Machine
calm = record {
  run_argv = λ did args. succeeded (codes "800 300\n");
  change = λ did a. succeeded [];
  exists = λ did path. true;
  file_size = λ did path. none;
  disk_usage = λ did path. none;
  realpath = λ did path. path;
  commonpath = λ a b. some a;
  temp_dir = λ did. codes "/tmp/np";
  fetch = λ did image. http_error;
  sha256 = λ chunks. [];
  lower = λ s. s;
  int_of = λ s. some 800;
  percent_of = λ total s. none;
  virtual_size = λ s. none;
}

abbrev tank : PoolRef
tank = record { storage_type = StorageType.zfs; storage_path = codes "tank/np" }

created_reached_example :
    ((delete_volume calm (lvm_backend (codes "vg")) (codes "vg/d1") []).1
      ≡ command (lvremove (codes "vg/d1")) ∷ [])
    × ((resize_volume calm (lvm_backend (codes "vg")) (codes "vg/d1") 9 []).1
        ≡ command (lvextend 9 (codes "vg/d1")) ∷ [])
unfolding get_backend create_volume checked resizing
created_reached_example =
    created_reached calm lvm (codes "vg") (codes "d1") [] 5 9 (lvm_backend (codes "vg")) [] []
      (info_of (codes "vg/d1") 5 raw) refl refl (λ _. refl) refl

created_apart_example : (codes "d1" ≡ codes "d1") × (safe_name (codes "d1") ≡ true)
unfolding create_volume checked
created_apart_example =
    created_apart calm (lvm_backend (codes "vg")) (codes "d1") (codes "d1") [] [] 5 7 [] []
      (info_of (codes "vg/d1") 5 raw) (info_of (codes "vg/d1") 7 raw) refl refl refl

-- The guard of LVM lets the whole group pass, that of ZFS does not let the pool pass.
group_passes : guard_passes calm (lvm_backend (codes "vg")) (codes "vg") [] ≡ ok true
unfolding guard_passes
group_passes = refl

group_deleted :
    (delete_volume calm (lvm_backend (codes "vg")) (codes "vg") []).1
    ≡ command (lvremove (codes "vg")) ∷ []
unfolding delete_volume checked
group_deleted = refl

pool_stopped :
    (delete_volume calm (zfs_backend (codes "tank")) (codes "tank") []).0
    ≡ err storage_operation_error
unfolding delete_volume
pool_stopped = refl

removal_words : argv (lvremove (codes "vg/a")) ≡ codes "lvremove" ∷ codes "-f" ∷ codes "vg/a" ∷ []
unfolding argv
removal_words = refl

traversal_refused : validate_name (codes "../../etc/passwd") ≡ err storage_operation_error
unfolding validate_name
traversal_refused = refl

no_thin_pool : get_backend lvm_thin (codes "vg") ≡ err storage_operation_error
unfolding get_backend
no_thin_pool = refl

fields_split : split_words (codes " 800 300\n") ≡ codes "800" ∷ codes "300" ∷ []
fields_split = refl

-- An `ip` that shows links from its second command on.
abbrev fresh_ip : Ip
fresh_ip [] args = succeeded (codes "[]\n")
fresh_ip (c ∷ done) args = succeeded (codes "[{}]\n")

fresh_ip-IsIp : IsIp fresh_ip
unfolding shows
fresh_ip-IsIp = record {
  bridge_added = λ done name e. refl;
  vlan_added = λ done parent name vlan_id e. refl;
  kept_shown = λ done c name stays. (λ _. refl, λ _. refl);
}

abbrev made_first : List LinkCommand
made_first = (create_network fresh_ip (codes "vmbr0") (some 20) []).1

network_again_example :
    (uplink : Text) × (vlan_interface_name (codes "vmbr0") 20 ≡ ok uplink)
    × ((create_network fresh_ip (codes "vmbr0") (some 20) made_first).1
        ≡ set_master uplink (codes "vmbr0.20b")
          ∷ show_bridge (codes "vmbr0.20b")
          ∷ show uplink
          ∷ show_bridge (codes "vmbr0")
          ∷ made_first)
unfolding create_network shows decimal
network_again_example =
    network_again fresh_ip (codes "vmbr0") (codes "vmbr0.20b") 19 [] fresh_ip-IsIp refl

network_made :
    made_first
    ≡ set_master (codes "vmbr0.20") (codes "vmbr0.20b")
      ∷ show_bridge (codes "vmbr0.20b")
      ∷ show (codes "vmbr0.20")
      ∷ set_up (codes "vmbr0")
      ∷ add_bridge (codes "vmbr0")
      ∷ show_bridge (codes "vmbr0")
      ∷ []
unfolding create_network shows decimal
network_made = refl

-- Where bringing a new bridge up fails, the bridge stays down for good: the next call returns at once.
abbrev down_ip : Ip
down_ip [] args = succeeded (codes "[]\n")
down_ip (c ∷ []) args = succeeded []
down_ip (c ∷ d ∷ []) args = exit_failed
down_ip (c ∷ d ∷ f ∷ done) args = succeeded (codes "[{}]\n")

left_down : create_bridge down_ip (codes "br0") (create_bridge down_ip (codes "br0") []).1 ≡ (
  ok tt,
  show_bridge (codes "br0")
      ∷ set_up (codes "br0")
      ∷ add_bridge (codes "br0")
      ∷ show_bridge (codes "br0")
      ∷ [],
)
unfolding create_bridge shows
left_down = refl
