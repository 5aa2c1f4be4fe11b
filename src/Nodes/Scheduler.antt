-- ===== src/Nodes/Scheduler.antt =====
-- The capacity-weighted scheduler (backend/apps/virtual_machines/scheduler.py).
use node_pilot.Common.{
  ℕ, ◌+◌, ◌-◌, ◌*◌, ◌/◌, Bool, false, not, ◌&&◌, Option, none, some, List, [], ◌∷◌, if◌then◌else◌,
  ltb, leb, ◌==◌, sum_of, filter_by,
}
use node_pilot.Common.Error.{no_schedulable_node}
use node_pilot.Common.Exec.{Result, ok, err}
use node_pilot.Vm.Model.{running, same_status, VirtualMachine}
use node_pilot.Nodes.Model.{Node, effective_status, is_online, is_schedulable}

-- Python's floats, as far as a score uses them: true division of whole numbers, product, sum,
-- `round(x, 2)` and the order.
pub record Floats : Type 1 where
  pub Float : Type 0
  pub over : ℕ → ℕ → Float
  pub times : Float → Float → Float
  pub add : Float → Float → Float
  pub round_2 : Float → Float
  pub below : Float → Float → Bool

pub record SchedulingRequest : Type 0 where
  pub organization : ℕ
  pub cpu_count : ℕ
  pub memory_mb : ℕ
  pub disk_gb : ℕ

-- A disk of some VM, with the VM's node and the time at which its row was created.
pub record PlacedDisk : Type 0 where
  pub node : ℕ
  pub created_at : ℕ
  pub size_bytes : ℕ

-- What the scheduler reads beside the nodes: the clock, the threshold, VMs and disks.
pub record Inventory : Type 0 where
  pub now : ℕ
  pub threshold : ℕ
  pub vms : List VirtualMachine
  pub disks : List PlacedDisk

abbrev pub on_node : ℕ → Option ℕ → Bool
on_node uuid none = false
on_node uuid (some n) = n == uuid

abbrev pub at_least_one : ℕ → ℕ
at_least_one n = if ltb n 1 then 1 else n

-- `_used_vcpu`
unfoldable pub used_vcpu : Inventory → Node → ℕ
used_vcpu inv node =
    sum_of (λ v. v.cpu_count)
      (filter_by (λ v. on_node node.uuid v.node && same_status v.status running) inv.vms)

-- `-(-total // 1024**3)`
unfoldable pub ceil_gib : ℕ → ℕ
ceil_gib total = (total + 1073741823) / 1073741824

-- `_pending_storage_gb`
unfoldable pub pending_storage_gb : Inventory → Node → ℕ
unfolding ceil_gib
pending_storage_gb inv node = elim node.last_seen [
  | none ↦ 0
  | some seen ↦ ceil_gib (
      sum_of (λ d. d.size_bytes)
        (filter_by (λ d. d.node == node.uuid && leb seen d.created_at) inv.disks))
]

-- `CPU_OVERCOMMIT_RATIO` is 4.
abbrev pub max_vcpu : Node → ℕ
max_vcpu node = at_least_one node.cpu_threads * 4

-- The `continue`s of the loop. Free capacity may be negative in the source, so each test
-- `free < wanted` is written without the subtraction.
unfoldable pub fits : Inventory → SchedulingRequest → Node → Bool
unfolding used_vcpu pending_storage_gb
fits inv request node =
    is_online (effective_status inv.now inv.threshold node)
    && is_schedulable inv.now inv.threshold node
    && not (ltb (max_vcpu node) (used_vcpu inv node + request.cpu_count))
    && not (ltb node.memory_available_mb request.memory_mb)
    && not (ltb node.storage_available_gb (pending_storage_gb inv node + request.disk_gb))

-- `Node.objects.filter(organization_id=…)`
abbrev pub candidates : List Node → SchedulingRequest → List Node
candidates nodes request = filter_by (λ n. n.organization == request.organization) nodes

module _ (fl : Floats) where
  -- `round(100 * (0.4 * cpu + 0.4 * mem + 0.2 * storage), 2)`
  unfoldable pub score : Inventory → SchedulingRequest → Node → fl.Float
  unfolding used_vcpu pending_storage_gb
  score inv request node =
      let cpu = fl.over (max_vcpu node - used_vcpu inv node - request.cpu_count) (max_vcpu node) in
      let mem =
        fl.over (node.memory_available_mb - request.memory_mb)
          (at_least_one node.memory_total_mb) in
      let disk =
        fl.over (node.storage_available_gb - pending_storage_gb inv node - request.disk_gb)
          (at_least_one node.storage_total_gb) in
      fl.round_2 (
        fl.times (fl.over 100 1) (
          fl.add (fl.add (fl.times (fl.over 4 10) cpu) (fl.times (fl.over 4 10) mem))
            (fl.times (fl.over 2 10) disk)))

  pub record NodeScore : Type 0 where
    pub node : Node
    pub value : fl.Float

  -- The loop over the candidates.
  unfoldable pub scored : Inventory → SchedulingRequest → List Node → List NodeScore
  unfolding fits score
  scored inv request [] = []
  scored inv request (node ∷ nodes) =
      let rest = scored inv request nodes in
      if fits inv request node
      then record { node = node; value = score inv request node } ∷ rest
      else rest

  -- `sort(key=…, reverse=True)`, which is stable.
  unfoldable pub place : NodeScore → List NodeScore → List NodeScore
  place s [] = s ∷ []
  place s (t ∷ ts) =
      let rest = place s ts in if fl.below s.value t.value then t ∷ rest else s ∷ t ∷ ts

  unfoldable pub sort_descending : List NodeScore → List NodeScore
  unfolding place
  sort_descending [] = []
  sort_descending (s ∷ ss) = place s (sort_descending ss)

  abbrev pub first_node : List NodeScore → Result Node
  first_node [] = err no_schedulable_node
  first_node (s ∷ _) = ok s.node

  -- `CapacityWeightedScheduler.select_node`
  unfoldable pub select_node : Inventory → List Node → SchedulingRequest → Result Node
  unfolding scored sort_descending
  select_node inv nodes request =
      first_node (sort_descending (scored inv request (candidates nodes request)))
