-- ===== src/Vm/Placed.antt =====
-- What a creation leaves: the rows, the quota and the node.
use node_pilot.Common.{ℕ, ◌≡◌, true, Option, none, some, List, [], ◌∷◌, ◌++◌, sum_of, length}
use mathlib.Core.List.{Memᴰ}
use node_pilot.Common.Exec.{Result, ok, err}
use node_pilot.Nodes.Model.{Node}
use node_pilot.Nodes.Scheduler.{Inventory, fits, candidates}
use node_pilot.Quota.Check.{Quota}
use node_pilot.Quota.Admission.{request_of}
use node_pilot.Vm.Model.{VmDisk}
use node_pilot.Vm.Services.{Site}
use node_pilot.Vm.Inserted.{IsJobFor, IsVmFor, IsDiskFor, IsNicFor, AllAt}
use node_pilot.Vm.Creation.{Creation, Fresh, disks_of, asked, scheduling_request, new_vm, Created}

-- The bytes of the disks that were made.
abbrev size_of : Result (List VmDisk) → ℕ
size_of (ok disks) = sum_of (λ d. d.size_bytes) disks
size_of (err e) = 0

-- The rows that were made for a VM on a node.
abbrev pub IsInserted : Fresh → Creation → Node → Site → Created → Site → Type 0
IsInserted fresh args node s (entry, nics, job) s' =
    (s'.entries ≡ s.entries ++ entry ∷ [])
    × (s'.jobs ≡ s.jobs ++ job ∷ [])
    × (s'.queued ≡ s.queued ++ length s.jobs ∷ [])
    × (s'.quotas ≡ s.quotas)
    × (entry.vm ≡ new_vm fresh args node)
    × (request_of entry ≡ asked args)
    × (entry.snapshot_count ≡ 0)
    × IsVmFor fresh args node entry.vm
    × AllAt (IsDiskFor fresh) 0 (disks_of args) entry.disks
    × AllAt (IsNicFor fresh) 0 args.nics nics
    × IsJobFor fresh args node job

-- The node is the one that was asked for, or one of the organization's that fits.
abbrev pub IsPlaced : Inventory → List Node → Creation → Option Node → Node → Type 0
IsPlaced inv nodes args (some asked_node) node = node ≡ asked_node
IsPlaced inv nodes args none node =
    Memᴰ node (candidates nodes (scheduling_request args))
    × (fits inv (scheduling_request args) node ≡ true)
