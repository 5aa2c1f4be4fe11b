-- ===== src/Vm/Tasks/CloneMade.antt =====
-- The rows after a cloning, step by step.
use mathlib.Core.Path.{subst}
use mathlib.Core.List.{append-nil, append_assoc}
use mathlib.Core.Option.{map as option_map}
use node_pilot.Common.{◌≡◌, refl, sym, ap, String, Bool, Option, List, [], ◌∷◌, ◌++◌, arith}
use node_pilot.Common.Error.{integrity_error}
use node_pilot.Common.Exec.{raise_if, for_each, ◌>>=◌, ◌>>◌}
use node_pilot.Task.World.{update, read}
use node_pilot.Task.Agent.{send_operation, rpc_timeout}
use node_pilot.Task.Protocol.{clone_disk}
use node_pilot.Task.Keeps.{Ends, Runs, Runs-bind, Runs-weaken, Runs-pure}
use node_pilot.Task.Rows.{OnRows, IsFrame, frame-Runs, send-IsFrame}
use node_pilot.Vm.Model.{
  VirtualMachine, VmDisk, VmNic, stopped, ready, disk_created, network_created,
}
use node_pilot.Vm.Payload.{cloned, volume_ref}
use node_pilot.Vm.Tasks.Clone.{
  CloneRows, CloneTask, Draws, with_clone, save_clone, clone_one_disk, clone_disks, clone_one_nic,
  clone_nics, send_domain, define_clone,
}
use node_pilot.Vm.Tasks.CloneEnds.{with_clone-Runs}
use node_pilot.Vm.Tasks.Cloned.{
  IsBuilt, IsCloneOf, disk_added, disk_added-IsBuilt, nic_added, nic_added-IsBuilt,
}

abbrev pub Leads : {A : Type 0} → (CloneRows → Type 0) → (CloneRows → Type 0) → CloneTask A → Type 0
Leads G H d = Runs (OnRows G) (OnRows H) (λ _. OnRows (λ _. Unit)) d

pub frame-Leads : {A : Type 0} (G : CloneRows → Type 0) (d : CloneTask A) → IsFrame d → Leads G G d
frame-Leads G d f = Runs-weaken d (λ w h. h) (λ w h. h) (λ e w h. tt) (frame-Runs G d f)

-- A read of rows that are known.
pub read_known :
    {A B : Type 0} (G H : CloneRows → Type 0) (f : CloneRows → A) (v : A) (k : A → CloneTask B)
    → ((r : CloneRows) → G r → f r ≡ v)
    → Leads G H (k v)
    → Leads G H (read f >>= k)
read_known {B = B} G H f v k e h = record {
  at = λ w g.
      subst (λ a. Ends {A = B} (OnRows H) (λ _. OnRows (λ _. Unit)) (k a w)) (sym (e w.res g))
        (h.at w g);
}

pub update-Leads :
    (G H : CloneRows → Type 0) (f : CloneRows → CloneRows)
    → ((r : CloneRows) → G r → H (f r))
    → Leads G H (update f)
update-Leads G H f k = record { at = λ w g. k w.res g }

module _ (draws : Draws) (first : CloneRows) (new_name : String) where
  -- The rows with clones of some disks and NICs, and the clone so far.
  abbrev pub Made :
      List VmDisk → List VmNic → (VirtualMachine → VirtualMachine) → CloneRows → Type 0
  Made disks nics change r =
      IsBuilt draws first disks nics r × IsCloneOf draws first new_name change r

  module _ (change : VirtualMachine → VirtualMachine) where
    one_disk-Leads :
        (clone : VirtualMachine) (linked : Bool) (disks : List VmDisk) (d : VmDisk)
        → Leads
            (Made disks [] change)
            (Made (disks ++ d ∷ []) [] change)
            (clone_one_disk draws clone linked d)
    unfolding clone_one_disk disk_added
    one_disk-Leads clone linked disks d =
        Runs-bind
          (send_operation clone_disk (cloned (volume_ref d) clone.uuid d.name linked) rpc_timeout) _
          (frame-Leads (Made disks [] change) _
            (send-IsFrame clone_disk (cloned (volume_ref d) clone.uuid d.name linked) rpc_timeout))
          λ answer.
            update-Leads (Made disks [] change) (Made (disks ++ d ∷ []) [] change) _
              λ r h. (disk_added-IsBuilt draws first disks r d answer h.0, h.1)

    all_disks-Leads :
        (clone : VirtualMachine) (linked : Bool) (disks more : List VmDisk)
        → Leads
            (Made disks [] change)
            (Made (disks ++ more) [] change)
            (for_each more (clone_one_disk draws clone linked))
    unfolding for_each
    all_disks-Leads clone linked disks [] = rw (append-nil disks) (Runs-pure tt)
    all_disks-Leads clone linked disks (d ∷ more) =
        Runs-bind (clone_one_disk draws clone linked d) _ (one_disk-Leads clone linked disks d) λ _.
          subst
            (λ l.
              Leads (Made (disks ++ d ∷ []) [] change) (Made l [] change)
                (for_each more (clone_one_disk draws clone linked)))
            (append_assoc disks (d ∷ []) more) (all_disks-Leads clone linked (disks ++ d ∷ []) more)

    one_nic-Leads :
        (disks : List VmDisk) (nics : List VmNic) (n : VmNic)
        → Leads
            (Made disks nics change)
            (Made disks (nics ++ n ∷ []) change)
            (clone_one_nic draws n)
    unfolding clone_one_nic nic_added
    one_nic-Leads disks nics n =
        Runs-bind (read λ (r : CloneRows). r) _
          (frame-Leads (Made disks nics change) _ (record { same_rows = λ w. refl }))
          λ rows.
            Runs-bind (raise_if (draws.mac_taken (draws.mac rows.macs)) integrity_error) _
              (frame-Leads (Made disks nics change) _ (record { same_rows = λ w. refl }))
              λ _.
                update-Leads (Made disks nics change) (Made disks (nics ++ n ∷ []) change) _
                  λ r h. (nic_added-IsBuilt draws first disks nics r n h.0, h.1)

    all_nics-Leads :
        (disks : List VmDisk) (nics more : List VmNic)
        → Leads
            (Made disks nics change)
            (Made disks (nics ++ more) change)
            (for_each more (clone_one_nic draws))
    unfolding for_each
    all_nics-Leads disks nics [] = rw (append-nil nics) (Runs-pure tt)
    all_nics-Leads disks nics (n ∷ more) =
        Runs-bind (clone_one_nic draws n) _ (one_nic-Leads disks nics n) λ _.
          subst
            (λ l.
              Leads (Made disks (nics ++ n ∷ []) change) (Made disks l change)
                (for_each more (clone_one_nic draws)))
            (append_assoc nics (n ∷ []) more) (all_nics-Leads disks (nics ++ n ∷ []) more)

    save-Leads :
        (disks : List VmDisk) (nics : List VmNic) (f : VirtualMachine → VirtualMachine)
        → Leads
            (Made disks nics change)
            (Made disks nics (λ vm. f (change vm)))
            (save_clone draws f)
    save-Leads disks nics f =
        update-Leads (Made disks nics change) (Made disks nics (λ vm. f (change vm))) _
          λ r (built, (by, e)). (same_built built, (by, ap (option_map f) e))
      where
        same_built :
            {r : CloneRows} {o : Option VirtualMachine}
            → IsBuilt draws first disks nics r
            → IsBuilt draws first disks nics (record r { clone = o })
        same_built h = record {
          source_kept = h.source_kept;
          source_disks_kept = h.source_disks_kept;
          source_nics_kept = h.source_nics_kept;
          disks_copied = h.disks_copied;
          disks_fresh = h.disks_fresh;
          nics_copied = h.nics_copied;
          nics_fresh = h.nics_fresh;
          macs_fresh = h.macs_fresh;
          uuids_drawn = h.uuids_drawn;
          macs_drawn = h.macs_drawn;
        }

    use_clone-Leads :
        (disks more : List VmDisk) (nics : List VmNic)
        (body : VirtualMachine → CloneTask (Unit {0}))
        → ((clone : VirtualMachine)
            → Leads (Made disks nics change) (Made more nics change) (body clone))
        → Leads (Made disks nics change) (Made more nics change) (with_clone draws body)
    use_clone-Leads disks more nics body k =
        with_clone-Runs draws body (λ w h. tt)
          λ clone. Runs-weaken (body clone) (λ w h. h.0) (λ w h. h) (λ e w h. h) (k clone)

  pub with_disks : VirtualMachine → VirtualMachine
  with_disks vm = record vm { provisioning_state = disk_created }

  pub with_nics : VirtualMachine → VirtualMachine
  with_nics vm = record vm { provisioning_state = network_created }

  pub clone_disks-Leads :
      (linked : Bool)
      → Leads
          (Made [] [] λ vm. vm)
          (Made first.source_disks [] with_disks)
          (clone_disks draws linked)
  unfolding clone_disks with_disks
  clone_disks-Leads linked =
      read_known (Made [] [] λ vm. vm) (Made first.source_disks [] with_disks)
        (λ (r : CloneRows). r.source_disks) first.source_disks
        (λ disks.
          with_clone draws (λ clone. for_each disks (clone_one_disk draws clone linked))
          >> save_clone draws with_disks)
        (λ r h. h.0.source_disks_kept)
        (Runs-bind _ _
          (use_clone-Leads (λ vm. vm) [] first.source_disks [] _
            λ clone. all_disks-Leads (λ vm. vm) clone linked [] first.source_disks)
          λ _. save-Leads (λ vm. vm) first.source_disks [] with_disks)

  pub clone_nics-Leads :
      Leads
        (Made first.source_disks [] with_disks)
        (Made first.source_disks first.source_nics with_nics)
        (clone_nics draws)
  unfolding clone_nics with_disks with_nics
  clone_nics-Leads =
      read_known (Made first.source_disks [] with_disks)
        (Made first.source_disks first.source_nics with_nics) (λ (r : CloneRows). r.source_nics)
        first.source_nics
        (λ nics. for_each nics (clone_one_nic draws) >> save_clone draws with_nics)
        (λ r h. h.0.source_nics_kept)
        (Runs-bind _ _ (all_nics-Leads with_disks first.source_disks [] first.source_nics)
          λ _. save-Leads with_disks first.source_disks first.source_nics with_nics)

  abbrev pub finished : VirtualMachine → VirtualMachine
  finished vm = record vm { provisioning_state = ready; status = stopped }

  abbrev pub Done : CloneRows → Type 0
  Done = Made first.source_disks first.source_nics finished

  send_domain-IsFrame : (clone : VirtualMachine) → IsFrame (send_domain draws clone)
  unfolding send_domain send_operation
  send_domain-IsFrame clone = record { same_rows = λ w. ground arith }

  pub define_clone-Leads :
      Leads (Made first.source_disks first.source_nics with_nics) Done (define_clone draws)
  unfolding define_clone with_nics
  define_clone-Leads =
      Runs-bind _ _
        (use_clone-Leads with_nics first.source_disks first.source_disks first.source_nics _
          λ clone.
            frame-Leads (Made first.source_disks first.source_nics with_nics)
              (send_domain draws clone) (send_domain-IsFrame clone))
        λ _. save-Leads with_nics first.source_disks first.source_nics finished
