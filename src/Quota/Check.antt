-- ===== src/Quota/Check.antt =====
-- What a quota limits, how the current usage is computed, and the check
-- (backend/apps/organizations/services.py, models.py).
use node_pilot.Common.{
  ℕ, ◌+◌, ◌/◌, Bool, true, false, not, ◌&&◌, Option, none, some, List, [], ◌∷◌, if◌then◌else◌, ltb,
  ◌==◌, sum_of, length, filter_by,
}
use node_pilot.Common.Error.{
  QuotaField, max_vms, max_vcpu, max_memory_mb, max_storage_gb, max_snapshots, quota_exceeded,
}
use node_pilot.Common.Exec.{Result, ok, err}
use node_pilot.Vm.Model.{deleting, same_status, VirtualMachine, VmDisk}

abbrev pub gib : ℕ
gib = 1073741824

-- A row of `quotas`: of an organization, or of one of its projects.
pub record Quota : Type 0 where
  pub organization : ℕ
  pub project : Option ℕ
  pub max_vms : ℕ
  pub max_vcpu : ℕ
  pub max_memory_mb : ℕ
  pub max_storage_gb : ℕ
  pub max_snapshots : ℕ

-- `QuotaUsage`, and the five `additional_…` arguments.
pub record QuotaUsage : Type 0 where
  pub vms : ℕ
  pub vcpu : ℕ
  pub memory_mb : ℕ
  pub storage_gb : ℕ
  pub snapshots : ℕ

-- A VM with its disks and the number of its snapshots.
pub record VmEntry : Type 0 where
  pub vm : VirtualMachine
  pub disks : List VmDisk
  pub snapshot_count : ℕ

abbrev pub same_project : Option ℕ → Option ℕ → Bool
same_project none none = true
same_project (some a) (some b) = a == b
same_project _ _ = false

-- `Quota.objects.filter(organization=…, project=…).first()`
unfoldable pub find_quota : List Quota → ℕ → Option ℕ → Option Quota
find_quota [] organization project = none
find_quota (q ∷ qs) organization project =
    if q.organization == organization && same_project q.project project
    then some q
    else find_quota qs organization project

-- `_effective_quota`
unfoldable pub effective_quota : List Quota → ℕ → Option ℕ → Option Quota
unfolding find_quota
effective_quota qs organization none = find_quota qs organization none
effective_quota qs organization (some p) = elim (find_quota qs organization (some p)) [
  | some scoped ↦ some scoped
  | none ↦ find_quota qs organization none
]

-- The VMs that count: of the organization, of the project if one is given, and not DELETING.
unfoldable pub counts : ℕ → Option ℕ → VmEntry → Bool
counts organization none e =
    e.vm.organization == organization && not (same_status e.vm.status deleting)
counts organization (some p) e =
    (e.vm.organization == organization && not (same_status e.vm.status deleting))
    && (e.vm.project == p)

abbrev pub bytes_of : VmEntry → ℕ
bytes_of e = sum_of (λ d. d.size_bytes) e.disks

-- `current_usage`
unfoldable pub current_usage : List VmEntry → ℕ → Option ℕ → QuotaUsage
unfolding counts
current_usage entries organization project =
    let qs = filter_by (counts organization project) entries in
    record {
      vms = length qs;
      vcpu = sum_of (λ e. e.vm.cpu_count) qs;
      memory_mb = sum_of (λ e. e.vm.memory_mb) qs;
      storage_gb = sum_of bytes_of qs / gib;
      snapshots = sum_of (λ e. e.snapshot_count) qs;
    }

-- The loop over `checks`: the first limit that is passed is the one that the error names.
unfoldable pub first_exceeded : List (QuotaField × ℕ × ℕ) → Result (Unit {0})
first_exceeded [] = ok tt
first_exceeded ((field, projected, limit) ∷ rest) =
    if ltb limit projected then err (quota_exceeded field limit projected) else first_exceeded rest

abbrev pub checks_of : Quota → QuotaUsage → QuotaUsage → List (QuotaField × ℕ × ℕ)
checks_of quota usage additional =
    (max_vms, usage.vms + additional.vms, quota.max_vms)
    ∷ (max_vcpu, usage.vcpu + additional.vcpu, quota.max_vcpu)
    ∷ (max_memory_mb, usage.memory_mb + additional.memory_mb, quota.max_memory_mb)
    ∷ (max_storage_gb, usage.storage_gb + additional.storage_gb, quota.max_storage_gb)
    ∷ (max_snapshots, usage.snapshots + additional.snapshots, quota.max_snapshots)
    ∷ []

-- `assert_quota_available`
unfoldable pub assert_quota_available :
    List Quota → List VmEntry → ℕ → Option ℕ → QuotaUsage → Result (Unit {0})
unfolding effective_quota current_usage first_exceeded
assert_quota_available quotas entries organization project additional =
    elim (effective_quota quotas organization project) [
      | none ↦ ok tt
      | some quota ↦
          first_exceeded (checks_of quota (current_usage entries organization project) additional)
    ]

-- `check_and_reserve`: the lock on the quota's row makes the check and the caller's write one
-- step, which is how the model has them; the lock itself changes no row.
unfoldable pub check_and_reserve :
    List Quota → List VmEntry → ℕ → Option ℕ → QuotaUsage → Result (Unit {0})
unfolding assert_quota_available
check_and_reserve quotas entries organization project additional =
    assert_quota_available quotas entries organization project additional
