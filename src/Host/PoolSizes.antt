-- ===== src/Host/PoolSizes.antt =====
-- How full a pool is (agent/nodepilot_agent/storage/).
use node_pilot.Common.{ℕ, ◌+◌, ◌-◌, Option, none, some, [], ◌∷◌}
use node_pilot.Common.Error.{os_error, value_error}
use node_pilot.Common.Exec.{pure, ◌>>=◌}
use node_pilot.Hypervisor.Text.{Text}
use node_pilot.Host.Names.{split_words}
use node_pilot.Host.Shell.{lvs_usage, vgs, zfs_list, Machine, Did, run, need}
use node_pilot.Host.Backends.{
  PoolInfo, Backend, directory_backend, lvm_backend, lvm_thin_backend, zfs_backend, below,
}

module _ (m : Machine) where
  abbrev pub pool_of : ℕ → ℕ → ℕ → PoolInfo
  pool_of capacity used available = record {
    capacity_bytes = capacity;
    used_bytes = used;
    available_bytes = available;
  }

  -- The two fields of a line; to unpack another number of them raises ValueError.
  abbrev pub two_fields : Text → Option (Text × Text)
  two_fields out = elim (split_words out) [
    | [] ↦ none
    | a ∷ rest ↦ elim rest [ [] ↦ none | b ∷ more ↦ elim more [ [] ↦ some (a, b) | _ ∷ _ ↦ none ] ]
  ]

  -- `DirectoryBackend.pool_info`
  abbrev pub directory_pool_info : Text → Did PoolInfo
  directory_pool_info pool = do
    usage ← (λ did. need os_error (m.disk_usage did pool) did)
    pure (pool_of usage.0 usage.1 usage.2)

  -- `LVMBackend.pool_info`; what is free is a part of the total.
  abbrev pub group_pool_info : Text → Did PoolInfo
  group_pool_info vg = do
    out ← run m (vgs vg)
    fields ← need value_error (two_fields out)
    total ← need value_error (m.int_of fields.0)
    free ← need value_error (m.int_of fields.1)
    pure (pool_of total (total - free) free)

  -- `LVMThinBackend.pool_info`
  abbrev pub thin_pool_info : Text → Text → Did PoolInfo
  thin_pool_info vg thinpool = do
    out ← run m (lvs_usage (below vg thinpool))
    fields ← need value_error (two_fields out)
    total ← need value_error (m.int_of fields.0)
    used ← need value_error (m.percent_of total fields.1)
    pure (pool_of total used (total - used))

  -- `ZFSBackend.pool_info`
  abbrev pub dataset_pool_info : Text → Did PoolInfo
  dataset_pool_info pool = do
    out ← run m (zfs_list pool)
    fields ← need value_error (two_fields out)
    avail ← need value_error (m.int_of fields.0)
    used ← need value_error (m.int_of fields.1)
    pure (pool_of (avail + used) used avail)

  unfoldable pub pool_info : Backend → Did PoolInfo
  pool_info (directory_backend pool) = directory_pool_info pool
  pool_info (lvm_backend vg) = group_pool_info vg
  pool_info (lvm_thin_backend vg thinpool) = thin_pool_info vg thinpool
  pool_info (zfs_backend pool) = dataset_pool_info pool
