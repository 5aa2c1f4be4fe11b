-- ===== src/Vm/Tasks/Cloned.antt =====
-- What the cloning of a VM leaves when it returns.
use node_pilot.Common.{
  ℕ, zero, suc, ◌+◌, ◌≡◌, refl, sym, ap, ◌∙◌, String, Option, none, some, List, [], ◌∷◌, ◌++◌, map,
  length, length-append, arith,
}
use node_pilot.Task.Protocol.{AgentData}
use node_pilot.Vm.Model.{VirtualMachine, VmDisk, VmNic}
use node_pilot.Vm.Tasks.Clone.{CloneRows, Draws, new_clone, new_disk_of, new_nic_of}

-- `count` draws from number `start` on.
abbrev pub draws_from {ℓ} : {A : Type ℓ} → (ℕ → A) → ℕ → ℕ → List A
draws_from f start zero = []
draws_from f start (suc count) = f start ∷ draws_from f (suc start) count

draws_from-append {ℓ} :
    {A : Type ℓ} (f : ℕ → A) (start count : ℕ)
    → draws_from f start count ++ f (start + count) ∷ [] ≡ draws_from f start (suc count)
draws_from-append f start zero = ap (λ n. f n ∷ []) (omega arith)
draws_from-append f start (suc count) =
    ap (λ n. f start ∷ (draws_from f (suc start) count ++ f n ∷ [])) (omega arith)
    ∙ ap (λ l. f start ∷ l) (draws_from-append f (suc start) count)

-- One more draw, with the number that the rows hold.
one_more {ℓ} :
    {A : Type ℓ} (f : ℕ → A) (start count next longer : ℕ) (l : List A)
    → l ≡ draws_from f start count
    → next ≡ start + count
    → longer ≡ suc count
    → l ++ f next ∷ [] ≡ draws_from f start longer
one_more f start count next longer l h n m =
    ap (λ k. k ++ f next ∷ []) h
    ∙ ap (λ k. draws_from f start count ++ f k ∷ []) n
    ∙ draws_from-append f start count
    ∙ ap (draws_from f start) (sym m)

map-append {ℓ κ} :
    {A : Type ℓ} {B : Type κ} (f : A → B) (xs ys : List A) → map f (xs ++ ys) ≡ map f xs ++ map f ys
map-append f [] ys = refl
map-append f (x ∷ xs) ys = ap (λ l. f x ∷ l) (map-append f xs ys)

-- A disk or a NIC without what identifies it.
abbrev pub anonymous_disk : VmDisk → VmDisk
anonymous_disk d = record d { uuid = 0; volume_id = ""; source_image = none }

abbrev pub anonymous_nic : VmNic → VmNic
anonymous_nic n = record n { uuid = 0; mac_address = ""; rate_limit_mbps = none }

-- The rows after the clones of `disks` and `nics` were written; `first` are the rows at the start.
pub record IsBuilt (draws : Draws) (first : CloneRows) (disks : List VmDisk) (nics : List VmNic)
    (r : CloneRows) : Type 0 where
  pub source_kept : r.source ≡ first.source
  pub source_disks_kept : r.source_disks ≡ first.source_disks
  pub source_nics_kept : r.source_nics ≡ first.source_nics
  pub disks_copied : map anonymous_disk r.disks ≡ map anonymous_disk disks
  pub disks_fresh :
      map (λ (d : VmDisk). d.uuid) r.disks ≡ draws_from draws.uuid4 (first.uuids + 2) (length disks)
  pub nics_copied : map anonymous_nic r.nics ≡ map anonymous_nic nics
  pub nics_fresh :
      map (λ (n : VmNic). n.uuid) r.nics
      ≡ draws_from draws.uuid4 (first.uuids + 2 + length disks) (length nics)
  pub macs_fresh :
      map (λ (n : VmNic). n.mac_address) r.nics ≡ draws_from draws.mac first.macs (length nics)
  pub uuids_drawn : r.uuids ≡ first.uuids + 2 + length disks + length nics
  pub macs_drawn : r.macs ≡ first.macs + length nics

-- The clone is made of the source, with a UUID and a domain UUID of its own.
abbrev pub IsCloneOf :
    Draws → CloneRows → String → (VirtualMachine → VirtualMachine) → CloneRows → Type 0
IsCloneOf draws first new_name change r =
    (by : Option ℕ) × (r.clone
      ≡ some (change (new_clone draws first.source by new_name first.uuids)))

length-snoc {ℓ} : {A : Type ℓ} (xs : List A) (x : A) → length (xs ++ x ∷ []) ≡ suc (length xs)
length-snoc xs x = omega (arith, length-append xs (x ∷ []))

-- Mapped lists that agree still agree after elements that agree.
snoc_agrees {ℓ κ} :
    {A : Type ℓ} {B : Type κ} (f : A → B) (xs ys : List A) (x y : A)
    → map f xs ≡ map f ys
    → f x ≡ f y
    → map f (xs ++ x ∷ []) ≡ map f (ys ++ y ∷ [])
snoc_agrees f xs ys x y h e =
    map-append f xs (x ∷ [])
    ∙ ap (λ l. l ++ f x ∷ []) h
    ∙ ap (λ b. map f ys ++ b ∷ []) e
    ∙ sym (map-append f ys (y ∷ []))

module _ (draws : Draws) (first : CloneRows) where
  unfoldable pub disk_added : CloneRows → VmDisk → AgentData → CloneRows
  unfolding new_disk_of
  disk_added r d answer = record r {
    disks = r.disks ++ new_disk_of draws d answer r.uuids ∷ [];
    uuids = r.uuids + 1;
  }

  pub disk_added-IsBuilt :
      (disks : List VmDisk) (r : CloneRows) (d : VmDisk) (answer : AgentData)
      → IsBuilt draws first disks [] r
      → IsBuilt draws first (disks ++ d ∷ []) [] (disk_added r d answer)
  unfolding disk_added new_disk_of
  disk_added-IsBuilt disks r d answer h = record {
    source_kept = h.source_kept;
    source_disks_kept = h.source_disks_kept;
    source_nics_kept = h.source_nics_kept;
    disks_copied =
        snoc_agrees anonymous_disk r.disks disks (new_disk_of draws d answer r.uuids) d
          h.disks_copied refl;
    disks_fresh =
        map-append (λ (x : VmDisk). x.uuid) r.disks (new_disk_of draws d answer r.uuids ∷ [])
        ∙ one_more draws.uuid4 (first.uuids + 2) (length disks) r.uuids (length (disks ++ d ∷ [])) _
            h.disks_fresh (omega (arith, h.uuids_drawn)) (length-snoc disks d);
    nics_copied = h.nics_copied;
    nics_fresh = h.nics_fresh;
    macs_fresh = h.macs_fresh;
    uuids_drawn = omega (arith, h.uuids_drawn, length-snoc disks d);
    macs_drawn = h.macs_drawn;
  }

  unfoldable pub nic_added : CloneRows → VmNic → CloneRows
  unfolding new_nic_of
  nic_added r n = record r {
    nics = r.nics ++ new_nic_of draws n r.uuids r.macs ∷ [];
    uuids = r.uuids + 1;
    macs = r.macs + 1;
  }

  pub nic_added-IsBuilt :
      (disks : List VmDisk) (nics : List VmNic) (r : CloneRows) (n : VmNic)
      → IsBuilt draws first disks nics r
      → IsBuilt draws first disks (nics ++ n ∷ []) (nic_added r n)
  unfolding nic_added new_nic_of
  nic_added-IsBuilt disks nics r n h = record {
    source_kept = h.source_kept;
    source_disks_kept = h.source_disks_kept;
    source_nics_kept = h.source_nics_kept;
    disks_copied = h.disks_copied;
    disks_fresh = h.disks_fresh;
    nics_copied =
        snoc_agrees anonymous_nic r.nics nics (new_nic_of draws n r.uuids r.macs) n h.nics_copied
          refl;
    nics_fresh =
        map-append (λ (x : VmNic). x.uuid) r.nics (new_nic_of draws n r.uuids r.macs ∷ [])
        ∙ one_more draws.uuid4 (first.uuids + 2 + length disks) (length nics) r.uuids
            (length (nics ++ n ∷ [])) _ h.nics_fresh (omega (arith, h.uuids_drawn))
            (length-snoc nics n);
    macs_fresh =
        map-append (λ (x : VmNic). x.mac_address) r.nics (new_nic_of draws n r.uuids r.macs ∷ [])
        ∙ one_more draws.mac first.macs (length nics) r.macs (length (nics ++ n ∷ [])) _
            h.macs_fresh (omega (arith, h.macs_drawn)) (length-snoc nics n);
    uuids_drawn = omega (arith, h.uuids_drawn, length-snoc nics n);
    macs_drawn = omega (arith, h.macs_drawn, length-snoc nics n);
  }
