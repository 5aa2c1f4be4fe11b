-- ===== src/Quota/Tests.antt =====
-- The quota theorems at concrete rows.
use node_pilot.Common.{refl, none, some, [], ◌∷◌}
use node_pilot.Common.Exec.{is_ok}
use node_pilot.Vm.Samples.{small, root_disk}
use node_pilot.Quota.Check.{
  Quota, VmEntry, effective_quota, counts, current_usage, check_and_reserve,
}
use node_pilot.Quota.Admission.{Within, creation_overshoot, creation-Within}

abbrev limits : Quota
limits = record {
  organization = 1;
  project = none;
  max_vms = 2;
  max_vcpu = 4;
  max_memory_mb = 4096;
  max_storage_gb = 20;
  max_snapshots = 1;
}

abbrev entry : VmEntry
entry = record { vm = small; disks = root_disk ∷ []; snapshot_count = 0 }

creation-Within_example : Within limits (current_usage (entry ∷ entry ∷ []) 1 (some 1))
unfolding effective_quota counts check_and_reserve is_ok
creation-Within_example =
    creation-Within (limits ∷ []) (entry ∷ []) entry 1 (some 1) limits 10 refl refl refl refl refl

creation_overshoot_example :
    Within (record limits { max_storage_gb = 21 }) (current_usage (entry ∷ entry ∷ []) 1 (some 1))
unfolding effective_quota counts check_and_reserve is_ok
creation_overshoot_example =
    creation_overshoot (limits ∷ []) (entry ∷ []) entry 1 (some 1) limits refl refl refl refl
