-- ===== src/Common/Error.antt =====
-- The exceptions that the modelled code raises (backend/apps/common/exceptions.py and the
-- classes declared beside their users). `str(exc)`, which the code stores in error columns, is
-- represented by the exception itself.
use Prim.Native.Nat.{ℕ}
use Prim.Native.String.{String}

-- The column of a quota that a check found exceeded.
pub data QuotaField : Type 0 where
  max_vms max_vcpu max_memory_mb max_storage_gb max_snapshots : QuotaField

pub data Error : Type 0 where
  invalid_state_transition resource_locked job_cancelled no_schedulable_node : Error
  lock_acquisition : String → Error
  agent_unavailable agent_operation_failed : Error
  quota_exceeded : QuotaField → ℕ → ℕ → Error
  storage_capability_unsupported : Error
  no_available_ip_address invalid_reservation : Error
  upload_out_of_order upload_size_mismatch checksum_mismatch upload_empty : Error
  migration_storage_incompatible migration_not_implemented : Error
  permission_denied agent_version_unsupported : Error
  authentication_failed attribute_error unsafe_webhook_host network_operation_error
        integrity_error :
      Error
  vm_not_stopped vm_has_no_disks key_error row_gone : Error
  storage_operation_error not_implemented_error os_error value_error validation_error : Error
