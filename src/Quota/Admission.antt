-- ===== src/Quota/Admission.antt =====
-- What an admitted request leaves of the quota.
use node_pilot.Common.{
  ℕ, ◌+◌, ◌/◌, ◌*◌, ◌≤◌, ◌≡◌, ◌↔◌, Bool, true, Option, some, List, [], ◌∷◌, ◌++◌, arith, filter_by,
  sum_of-append, length-append, filter_by-append,
}
use node_pilot.Common.Exec.{is_ok}
use node_pilot.Quota.Check.{
  gib, Quota, QuotaUsage, VmEntry, effective_quota, counts, bytes_of, current_usage, first_exceeded,
  check_and_reserve,
}

pub record Within (q : Quota) (u : QuotaUsage) : Type 0 where
  pub vms : u.vms ≤ q.max_vms
  pub vcpu : u.vcpu ≤ q.max_vcpu
  pub memory_mb : u.memory_mb ≤ q.max_memory_mb
  pub storage_gb : u.storage_gb ≤ q.max_storage_gb
  pub snapshots : u.snapshots ≤ q.max_snapshots

abbrev pub plus : QuotaUsage → QuotaUsage → QuotaUsage
plus u a = record {
  vms = u.vms + a.vms;
  vcpu = u.vcpu + a.vcpu;
  memory_mb = u.memory_mb + a.memory_mb;
  storage_gb = u.storage_gb + a.storage_gb;
  snapshots = u.snapshots + a.snapshots;
}

-- Where a quota is in force, a request is admitted exactly when the usage with what it adds is
-- within all five limits.
pub admitted-Within :
    (quotas : List Quota) (entries : List VmEntry) (organization : ℕ) (project : Option ℕ)
    (additional : QuotaUsage) (quota : Quota)
    → effective_quota quotas organization project ≡ some quota
    → (is_ok (check_and_reserve quotas entries organization project additional) ≡ true)
      ↔ Within quota (plus (current_usage entries organization project) additional)
unfolding check_and_reserve first_exceeded is_ok
admitted-Within quotas entries organization project additional quota h = ground arith

-- What `create_vm` asks for, for a VM with these disks.
abbrev pub request_of : VmEntry → QuotaUsage
request_of e = record {
  vms = 1;
  vcpu = e.vm.cpu_count;
  memory_mb = e.vm.memory_mb;
  storage_gb = bytes_of e / gib;
  snapshots = 0;
}

filter_by-last :
    (p : VmEntry → Bool) (es : List VmEntry) (e : VmEntry)
    → p e ≡ true
    → filter_by p (es ++ e ∷ []) ≡ filter_by p es ++ e ∷ []
filter_by-last p es e h = ground (arith, filter_by-append p es (e ∷ []))

usage-last :
    (es : List VmEntry) (e : VmEntry) (organization : ℕ) (project : Option ℕ) (quota : Quota)
    → counts organization project e ≡ true
    → e.snapshot_count ≡ 0
    → Within quota (plus (current_usage es organization project) (request_of e))
    → Within
        (record quota { max_storage_gb = quota.max_storage_gb + 1 })
        (current_usage (es ++ e ∷ []) organization project)
unfolding current_usage
usage-last es e organization project quota h zero_snapshots w =
    let p = counts organization project in
    let qs = filter_by p es in
    rw (filter_by-last p es e h) record {
      vms = omega (arith, length-append qs (e ∷ []), w.vms);
      vcpu = omega (arith, sum_of-append (λ x. x.vm.cpu_count) qs (e ∷ []), w.vcpu);
      memory_mb = omega (arith, sum_of-append (λ x. x.vm.memory_mb) qs (e ∷ []), w.memory_mb);
      storage_gb = omega (arith, sum_of-append bytes_of qs (e ∷ []), w.storage_gb);
      snapshots =
          omega
            (arith, sum_of-append (λ x. x.snapshot_count) qs (e ∷ []), w.snapshots, zero_snapshots);
    }

-- A new VM that the check admitted, and that counts, leaves the usage of its organization or
-- project within every limit, but for storage that may be one GiB over: the usage and the request
-- are each rounded down.
pub creation_overshoot :
    (quotas : List Quota) (es : List VmEntry) (e : VmEntry) (organization : ℕ) (project : Option ℕ)
    (quota : Quota)
    → effective_quota quotas organization project ≡ some quota
    → counts organization project e ≡ true
    → e.snapshot_count ≡ 0
    → is_ok (check_and_reserve quotas es organization project (request_of e)) ≡ true
    → Within
        (record quota { max_storage_gb = quota.max_storage_gb + 1 })
        (current_usage (es ++ e ∷ []) organization project)
creation_overshoot quotas es e organization project quota q h z admitted =
    usage-last es e organization project quota h z
      ((admitted-Within quotas es organization project (request_of e) quota q).0 admitted)

storage-last :
    (es : List VmEntry) (e : VmEntry) (organization : ℕ) (project : Option ℕ) (quota : Quota)
    (size : ℕ)
    → counts organization project e ≡ true
    → bytes_of e ≡ size * gib
    → Within quota (plus (current_usage es organization project) (request_of e))
    → (current_usage (es ++ e ∷ []) organization project).storage_gb ≤ quota.max_storage_gb
unfolding current_usage
storage-last es e organization project quota size h whole w =
    rw (filter_by-last (counts organization project) es e h) omega (
      arith,
      sum_of-append bytes_of (filter_by (counts organization project) es) (e ∷ []),
      w.storage_gb,
      whole,
    )

-- When the disks of the new VM make whole GiB together, every limit holds exactly.
pub creation-Within :
    (quotas : List Quota) (es : List VmEntry) (e : VmEntry) (organization : ℕ) (project : Option ℕ)
    (quota : Quota) (size : ℕ)
    → effective_quota quotas organization project ≡ some quota
    → counts organization project e ≡ true
    → e.snapshot_count ≡ 0
    → bytes_of e ≡ size * gib
    → is_ok (check_and_reserve quotas es organization project (request_of e)) ≡ true
    → Within quota (current_usage (es ++ e ∷ []) organization project)
creation-Within quotas es e organization project quota size q h z whole admitted =
    let over = creation_overshoot quotas es e organization project quota q h z admitted in
    record {
      vms = over.vms;
      vcpu = over.vcpu;
      memory_mb = over.memory_mb;
      storage_gb =
          storage-last es e organization project quota size h whole
            ((admitted-Within quotas es organization project (request_of e) quota q).0 admitted);
      snapshots = over.snapshots;
    }
