-- ===== src/Host/Backends.antt =====
-- The storage backends (agent/nodepilot_agent/storage/).
use node_pilot.Common.{ℕ, Bool, ◌||◌, not, none, some, List, [], ◌∷◌, ◌++◌}
use node_pilot.Common.Error.{storage_operation_error, value_error}
use node_pilot.Common.Exec.{Result, ok, err, pure, raise_if, lift, ◌>>=◌, ◌>>◌}
use node_pilot.Storage.Model.{StorageType, directory, lvm, lvm_thin, zfs, nfs, ceph_rbd}
use node_pilot.Hypervisor.Text.{Text, codes}
use node_pilot.Host.Names.{
  validate_name, same_text, starts_with, text_before, text_behind, path_join,
}
use node_pilot.Host.Shell.{
  Command, qemu_create, lvcreate, lvcreate_thin, zfs_create, Action, Machine, Did, run, need,
}

pub record VolumeInfo : Type 0 where
  pub volume_id : Text
  pub size_bytes : ℕ
  pub format : Text

pub record PoolInfo : Type 0 where
  pub capacity_bytes : ℕ
  pub used_bytes : ℕ
  pub available_bytes : ℕ

-- The backend objects. NFSBackend inherits everything from DirectoryBackend; an LVMThinBackend
-- holds the group and the thin pool.
pub data Backend : Type 0 where
  directory_backend lvm_backend zfs_backend : Text → Backend
  lvm_thin_backend : Text → Text → Backend

-- `LVMThinBackend.__init__`
unfoldable pub new_lvm_thin : Text → Result Backend
new_lvm_thin pool_path = elim (text_behind b'/' pool_path) [
  | [] ↦ err storage_operation_error
  | c ∷ s ↦ ok (lvm_thin_backend (text_before b'/' pool_path) (c ∷ s))
]

unfoldable pub get_backend : StorageType → Text → Result Backend
unfolding new_lvm_thin
get_backend directory pool_path = ok (directory_backend pool_path)
get_backend nfs pool_path = ok (directory_backend pool_path)
get_backend lvm pool_path = ok (lvm_backend pool_path)
get_backend lvm_thin pool_path = new_lvm_thin pool_path
get_backend zfs pool_path = ok (zfs_backend pool_path)
get_backend ceph_rbd pool_path = err storage_operation_error

abbrev pub raw : Text
raw = codes "raw"

abbrev pub qcow2 : Text
qcow2 = codes "qcow2"

-- `f"{a}/{b}"` and `f"{a}@{b}"`
abbrev pub below : Text → Text → Text
below a b = a ++ b'/' ∷ b

abbrev pub at_snapshot : Text → Text → Text
at_snapshot a b = a ++ b'@' ∷ b

abbrev pub info_of : Text → ℕ → Text → VolumeInfo
info_of volume_id size_bytes format = record {
  volume_id = volume_id;
  size_bytes = size_bytes;
  format = format;
}

module _ (m : Machine) where
  -- `DirectoryBackend._assert_within_pool`
  unfoldable pub within_directory : Text → Text → List Action → Result Bool
  within_directory pool volume did =
      elim (m.commonpath (m.realpath did pool) (m.realpath did volume)) [
        | none ↦ err value_error
        | some common ↦ ok (same_text common (m.realpath did pool))
      ]

  -- `LVMBackend._assert_within_vg`
  abbrev pub within_group : Text → Text → List Action → Result Bool
  within_group vg volume did = ok (same_text (text_before b'/' volume) vg)

  -- `LVMThinBackend._assert_within_vg`
  abbrev pub within_thin_group : Text → Text → Text → List Action → Result Bool
  within_thin_group vg thinpool volume did = ok (same_text (text_before b'/' volume) vg)

  -- `ZFSBackend._assert_within_pool`
  abbrev pub within_dataset : Text → Text → List Action → Result Bool
  within_dataset pool volume did =
      ok (not (same_text volume pool || not (starts_with volume (below pool []))))

  -- `_assert_within_pool` and `_assert_within_vg`: whether the guard lets a volume pass.
  unfoldable pub guard_passes : Backend → Text → List Action → Result Bool
  unfolding within_directory
  guard_passes (directory_backend pool) volume did = within_directory pool volume did
  guard_passes (lvm_backend vg) volume did = within_group vg volume did
  guard_passes (lvm_thin_backend vg thinpool) volume did = within_thin_group vg thinpool volume did
  guard_passes (zfs_backend pool) volume did = within_dataset pool volume did

  unfoldable pub assert_within : Backend → Text → Did (Unit {0})
  unfolding guard_passes
  assert_within b volume = do
    passes ← (λ did. (guard_passes b volume did, did))
    raise_if (not passes) storage_operation_error

  -- `_lv_size_bytes` and `_volsize_bytes`; `int` skips the white space that `strip` removes.
  abbrev pub size_by : Command → Did ℕ
  size_by c = do out ← run m c; need value_error (m.int_of out)

  -- `DirectoryBackend.create_volume`
  abbrev pub create_file_volume : Text → Text → ℕ → Text → Did VolumeInfo
  create_file_volume pool name size format = do
    name ← lift (validate_name name)
    run m (qemu_create format (path_join pool name) size)
    pure (info_of (path_join pool name) size format)

  -- `LVMBackend.create_volume`
  abbrev pub create_lv : Text → Text → ℕ → Text → Did VolumeInfo
  create_lv vg name size format = do
    name ← lift (validate_name name)
    run m (lvcreate size name vg)
    pure (info_of (below vg name) size raw)

  -- `LVMThinBackend.create_volume`
  abbrev pub create_thin_lv : Text → Text → Text → ℕ → Text → Did VolumeInfo
  create_thin_lv vg thinpool name size format = do
    name ← lift (validate_name name)
    run m (lvcreate_thin (below vg thinpool) size name)
    pure (info_of (below vg name) size raw)

  -- `ZFSBackend.create_volume`
  abbrev pub create_zvol : Text → Text → ℕ → Text → Did VolumeInfo
  create_zvol pool name size format = do
    name ← lift (validate_name name)
    run m (zfs_create size (below pool name))
    pure (info_of (below pool name) size raw)

  unfoldable pub create_volume : Backend → Text → ℕ → Text → Did VolumeInfo
  unfolding validate_name
  create_volume (directory_backend pool) name size format = create_file_volume pool name size format
  create_volume (lvm_backend vg) name size format = create_lv vg name size format
  create_volume (lvm_thin_backend vg thinpool) name size format =
      create_thin_lv vg thinpool name size format
  create_volume (zfs_backend pool) name size format = create_zvol pool name size format
