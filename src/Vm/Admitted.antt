-- ===== src/Vm/Admitted.antt =====
-- When the VM services make a job, and what they leave when they do not.
use node_pilot.Common.{ℕ, ◌*◌, ◌<◌, ◌≡◌, ◌↔◌, ◌⊎◌, String, true, false, Option, List, arith}
use node_pilot.Common.Exec.{is_ok}
use node_pilot.Task.World.{lifecycle}
use node_pilot.Vm.Model.{VmStatus, stopped, running, paused, creating, VirtualMachine, VmDisk}
use node_pilot.Nodes.Model.{Node}
use node_pilot.Quota.Check.{gib}
use node_pilot.Vm.Services.{
  Site, Lifecycle, starts, stops, reboots, pauses, resumes, deletes, type_of, allowed_from,
  is_allowed, start_lifecycle_job, resize_disk, migrate_vm,
}

-- The statuses from which each operation makes sense: a stopped VM starts, a running one stops,
-- reboots or pauses, a paused one resumes or is forced; only one that does not run is deleted.
abbrev pub MakesSense : Lifecycle → VmStatus → Type 0
MakesSense starts s = s ≡ stopped
MakesSense (stops false) s = s ≡ running
MakesSense (stops true) s = (s ≡ running) ⊎ (s ≡ paused)
MakesSense (reboots false) s = s ≡ running
MakesSense (reboots true) s = (s ≡ running) ⊎ (s ≡ paused)
MakesSense pauses s = s ≡ running
MakesSense resumes s = s ≡ paused
MakesSense deletes s = (s ≡ stopped) ⊎ (s ≡ VmStatus.error) ⊎ (s ≡ creating)

allowed_sense : (o : Lifecycle) (s : VmStatus) → (is_allowed (type_of o) s ≡ true) ↔ MakesSense o s
unfolding type_of allowed_from
allowed_sense starts s = ground arith
allowed_sense (stops false) s = ground arith
allowed_sense (stops true) s = ground arith
allowed_sense (reboots false) s = ground arith
allowed_sense (reboots true) s = ground arith
allowed_sense pauses s = ground arith
allowed_sense resumes s = ground arith
allowed_sense deletes s = ground arith

started_iff :
    (o : Lifecycle) (label : String) (vm : VirtualMachine) (user : Option ℕ) (site : Site)
    → (is_ok (start_lifecycle_job (type_of o) label vm user site).0 ≡ true)
      ↔ ((is_allowed (type_of o) vm.status ≡ true) × (site.busy lifecycle ≡ false))
unfolding start_lifecycle_job is_ok
started_iff o label vm user site = ground arith

-- A lifecycle request is admitted exactly when the operation makes sense for the VM's status and
-- nobody holds the VM's lifecycle lock.
pub lifecycle_admitted :
    (o : Lifecycle) (label : String) (vm : VirtualMachine) (user : Option ℕ) (site : Site)
    → (is_ok (start_lifecycle_job (type_of o) label vm user site).0 ≡ true)
      ↔ (MakesSense o vm.status × (site.busy lifecycle ≡ false))
lifecycle_admitted o label vm user site =
    let (a, b) = started_iff o label vm user site in
    let (c, d) = allowed_sense o vm.status in (λ h. (c (a h).0, (a h).1), λ h. b (d h.0, h.1))

-- A migration is never carried out: it raises in every case and leaves jobs and queue as they are.
pub migration_refused :
    (now threshold : ℕ) (vm : VirtualMachine) (disks : List VmDisk) (target : Node) (site : Site)
    → (is_ok (migrate_vm now threshold vm disks target site).0 ≡ false)
      × ((migrate_vm now threshold vm disks target site).1 ≡ site)
unfolding migrate_vm is_ok
migration_refused now threshold vm disks target site = ground arith

-- A resize that is admitted makes the disk larger.
pub resize_grows :
    (label : String) (vm : VirtualMachine) (disk : VmDisk) (gb : ℕ) (user : Option ℕ) (site : Site)
    → is_ok (resize_disk label vm disk gb user site).0 ≡ true
    → disk.size_bytes < gb * gib
unfolding resize_disk is_ok
resize_grows label vm disk gb user site h = ground arith
