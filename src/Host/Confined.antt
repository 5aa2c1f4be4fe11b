-- ===== src/Host/Confined.antt =====
-- What the agent's commands and file operations may do to a pool, and rules that prove of an
-- operation that it stays within that.
use node_pilot.Common.{true, some, List, [], ◌∷◌, ◌≡◌, ◌⊎◌, inl, inr}
use node_pilot.Common.Exec.{Result, ok, lift, ◌>>=◌, Result-cases}
use node_pilot.Task.Keeps.{Ends-by, Runs}
use node_pilot.Hypervisor.Text.{Text}
use node_pilot.Host.Names.{safe_name, path_join, text_before}
use node_pilot.Host.Shell.{
  Command, qemu_create, qemu_create_backed, qemu_convert, qemu_seed, qemu_resize, lvcreate,
  lvcreate_thin, lvcreate_snapshot, lvconvert_merge, zfs_snapshot, zfs_destroy, zfs_rollback,
  lvremove, lvextend, dd, zfs_create, zfs_set_volsize, zfs_destroy_all, zfs_clone, zfs_receive,
  Action, command, remove_file, Machine, Did,
}
use node_pilot.Host.Backends.{
  Backend, directory_backend, lvm_backend, lvm_thin_backend, zfs_backend, below,
}

-- What an action does to a volume: it deletes it, reverts it or sets its size, it writes it or
-- makes it under its whole name, it makes a volume of some name in a group or thin pool or beside
-- a source in the source's group, or it makes or deletes a snapshot inside ZFS.
pub data Effect : Type 0 where
  leaves : Effect
  changes fills : Text → Effect
  makes beside : Text → Text → Effect
  snapshots : Text → Effect

abbrev pub command_effect : Command → Effect
command_effect (qemu_create format path size) = fills path
command_effect (qemu_create_backed source dest) = fills dest
command_effect (qemu_convert format source dest) = fills dest
command_effect (qemu_seed image_format format downloaded volume) = fills volume
command_effect (qemu_resize path size) = changes path
command_effect (lvcreate size name vg) = makes vg name
command_effect (lvcreate_thin pool size name) = makes pool name
command_effect (lvcreate_snapshot name source) = beside source name
command_effect (lvconvert_merge volume) = changes volume
command_effect (lvremove volume) = changes volume
command_effect (lvextend size volume) = changes volume
command_effect (dd source dest) = fills dest
command_effect (zfs_create size dataset) = fills dataset
command_effect (zfs_set_volsize size dataset) = changes dataset
command_effect (zfs_destroy_all dataset) = changes dataset
command_effect (zfs_snapshot snap) = snapshots snap
command_effect (zfs_destroy snap) = snapshots snap
command_effect (zfs_rollback snap) = changes (text_before b'@' snap)
command_effect (zfs_clone snap dest) = fills dest
command_effect (zfs_receive dest) = fills dest
command_effect _ = leaves

abbrev pub effect : Action → Effect
effect (command c) = command_effect c
effect (remove_file path) = changes path
effect _ = leaves

-- The volume of a name.
abbrev pub volume_named : Backend → Text → Text
volume_named (directory_backend pool) name = path_join pool name
volume_named (lvm_backend vg) name = below vg name
volume_named (lvm_thin_backend vg thinpool) name = below vg name
volume_named (zfs_backend pool) name = below pool name

-- Where a backend makes volumes.
abbrev pub home : Backend → Text
home (directory_backend pool) = pool
home (lvm_backend vg) = vg
home (lvm_thin_backend vg thinpool) = below vg thinpool
home (zfs_backend pool) = pool

module _ (m : Machine) (b : Backend) where
  abbrev pub InGroup : Text → Text → Type 0
  InGroup vg volume = (volume ≡ vg) ⊎ ((rest : Text) × (volume ≡ below vg rest))

  -- The volumes of the pool: what really lies in its directory, its group or what is in it, or
  -- what is below its dataset.
  abbrev pub IsOwned : List Action → Text → Type 0
  IsOwned did volume = elim b [
    | directory_backend pool ↦
        m.commonpath (m.realpath did pool) (m.realpath did volume) ≡ some (m.realpath did pool)
    | lvm_backend vg ↦ InGroup vg volume
    | lvm_thin_backend vg thinpool ↦ InGroup vg volume
    | zfs_backend pool ↦ (rest : Text) × (volume ≡ below pool rest)
  ]

  abbrev pub IsNew : Text → Type 0
  IsNew volume = (name : Text) × (safe_name name ≡ true) × (volume ≡ volume_named b name)

  abbrev IsThin : Type 0
  IsThin = elim b [
    | directory_backend pool ↦ ⊥
    | lvm_backend vg ↦ ⊥
    | lvm_thin_backend vg thinpool ↦ Unit
    | zfs_backend pool ↦ ⊥
  ]

  abbrev pub IsZfs : Type 0
  IsZfs = elim b [
    | directory_backend pool ↦ ⊥
    | lvm_backend vg ↦ ⊥
    | lvm_thin_backend vg thinpool ↦ ⊥
    | zfs_backend pool ↦ Unit
  ]

  -- Of the source of a copy, and of the dataset of a snapshot, nothing is asked.
  abbrev pub Allows : List Action → Effect → Type 0
  Allows did leaves = Unit
  Allows did (changes volume) = IsOwned did volume
  Allows did (fills volume) = IsNew volume
  Allows did (makes pool name) = (pool ≡ home b) × (safe_name name ≡ true)
  Allows did (beside source name) = IsThin × (safe_name name ≡ true)
  Allows did (snapshots snap) = IsZfs

  -- Every action was allowed when it was done.
  abbrev pub IsConfined : List Action → Type 0
  IsConfined [] = Unit
  IsConfined (a ∷ did) = Allows did (effect a) × IsConfined did

  -- From `P`, the operation `d` does only what is allowed, whether it returns or raises.
  abbrev pub Stays : {A : Type 0} → (List Action → Type 0) → Did A → Type 0
  Stays P d = Runs P IsConfined (λ _. IsConfined) d

  module _ {A : Type 0} {P : List Action → Type 0} where
    -- One action, whatever is answered.
    pub act-Stays :
        (a : Action) (r : List Action → Result A)
        → ((did : List Action) → P did → Allows did (effect a) × IsConfined did)
        → Stays P (λ did. (r did, a ∷ did))
    act-Stays a r h = record {
      at = λ did p. Ends-by _ _ (r did, a ∷ did) (λ _ _. h did p) (λ _ _. h did p);
    }

    pub lift-Stays :
        {B : Type 0} (r : Result B) (f : B → Did A)
        → ((did : List Action) → P did → IsConfined did)
        → ((x : B) → r ≡ ok x → Stays P (f x))
        → Stays P (lift r >>= f)
    lift-Stays r f p k = elim (Result-cases r) [
      | inl (e, is) ↦ record { at = λ did h. rw is (p did h) }
      | inr (x, is) ↦ record { at = λ did h. rw is ((k x is).at did h) }
    ]

    pub ask-Stays :
        {B : Type 0} (r : List Action → Result B) (f : B → Did A)
        → ((did : List Action) → P did → IsConfined did)
        → ((x : B) → Stays (λ did. P did × (r did ≡ ok x)) (f x))
        → Stays P ((λ did. (r did, did)) >>= f)
    ask-Stays r f p k = record {
      at = λ did h. elim (Result-cases (r did)) [
        | inl (e, is) ↦ rw is (p did h)
        | inr (x, is) ↦ rw is ((k x).at did (h, is))
      ];
    }
