-- ===== src/Host/Reached.antt =====
-- The ids of new volumes, and the guards of the backends (agent/nodepilot_agent/storage/).
use mathlib.Core.List.{append_assoc}
use node_pilot.Common.{
  ℕ, Bool, true, false, not, List, [], ◌∷◌, ◌++◌, ◌==◌, ◌≡◌, refl, sym, ap, ◌∙◌, all, arith,
}
use node_pilot.Common.Error.{storage_operation_error}
use node_pilot.Common.Exec.{Result, ok, err, raise_if, lift, pure, ◌>>=◌, ◌>>◌}
use node_pilot.Storage.Model.{StorageType, directory, lvm, lvm_thin, zfs, nfs, ceph_rbd}
use node_pilot.Hypervisor.Text.{Text}
use node_pilot.Hypervisor.DomainXml.{is_block_backed}
use node_pilot.Host.Names.{text_before, text_behind, same_text, safe_name, append_path, path_join}
use node_pilot.Hypervisor.Network.{is_alphanumeric}
use node_pilot.Host.Facts.{same_text_refl, starts_with_self}
use node_pilot.Host.Shell.{
  Command, lvremove, zfs_destroy_all, Action, command, Machine, Did, argv, checked, run,
}
use node_pilot.Host.Backends.{
  VolumeInfo, Backend, directory_backend, lvm_backend, lvm_thin_backend, zfs_backend, below,
  new_lvm_thin, get_backend, guard_passes, assert_within, create_volume,
}
use node_pilot.Host.Volumes.{delete_volume, resizing, resize_volume}
use node_pilot.Host.Confined.{volume_named}
use node_pilot.Host.Created.{create_volume-IsVolumeOf}

abbrev pub not_slash : ℕ → Bool
not_slash c = not (c == b'/')

text_before-all : (s : Text) → all not_slash (text_before b'/' s) ≡ true
text_before-all [] = refl
text_before-all (c ∷ s) = ground (arith, text_before-all s)

text_before-below : (s rest : Text) → all not_slash s ≡ true → text_before b'/' (below s rest) ≡ s
text_before-below [] rest h = refl
text_before-below (c ∷ s) rest h = ground (arith, text_before-below s rest)

longer : (s : Text) (c : ℕ) (t : Text) → same_text (s ++ c ∷ t) s ≡ false
longer [] c t = refl
longer (d ∷ s) c t = ground (arith, longer s c t)

ok-eq : {A : Type 0} {x y : A} → ok x ≡ ok y → x ≡ y
ok-eq h = cc

-- The backends of block devices, their group without a slash.
abbrev IsBlock : Backend → Type 0
IsBlock (directory_backend pool) = ⊥
IsBlock (lvm_backend vg) = all not_slash vg ≡ true
IsBlock (lvm_thin_backend vg thinpool) = all not_slash vg ≡ true
IsBlock (zfs_backend pool) = Unit

-- The command that deletes a volume.
abbrev removal : Backend → Text → Command
removal (zfs_backend pool) volume = zfs_destroy_all volume
removal _ volume = lvremove volume

module _ (m : Machine) where
  named-guard_passes :
      (b : Backend) (name : Text) (did : List Action)
      → IsBlock b
      → guard_passes m b (volume_named b name) did ≡ ok true
  unfolding guard_passes
  named-guard_passes (directory_backend pool) name did h = absurd h
  named-guard_passes (lvm_backend vg) name did h =
      rw (text_before-below vg name h, same_text_refl vg) refl
  named-guard_passes (lvm_thin_backend vg thinpool) name did h =
      rw (text_before-below vg name h, same_text_refl vg) refl
  named-guard_passes (zfs_backend pool) name did h =
      rw
        (
          longer pool b'/' name,
          sym (append_assoc pool (b'/' ∷ []) name),
          starts_with_self (below pool []) name,
        )
        refl

  passed :
      {A : Type 0} (r : Result Bool) (k : Did A) (did : List Action)
      → r ≡ ok true
      → ((lift r >>= λ passes. raise_if (not passes) storage_operation_error) >> k) did ≡ k did
  passed (ok true) k did h = refl
  passed (ok false) k did h = absurd cc
  passed (err e) k did h = absurd cc

  assert_passes :
      {A : Type 0} (b : Backend) (volume : Text) (k : Did A) (did : List Action)
      → guard_passes m b volume did ≡ ok true
      → (assert_within m b volume >> k) did ≡ k did
  unfolding assert_within
  assert_passes b volume k did h = passed (guard_passes m b volume did) k did h

  acted :
      {A : Type 0} (r : Result A) (a : Action) (did : List Action)
      → (((λ (s : List Action). (r, a ∷ s)) >> pure tt) did).1 ≡ a ∷ did
  acted (ok x) a did = refl
  acted (err e) a did = refl

  run_once : (c : Command) (did : List Action) → ((run m c >> pure tt) did).1 ≡ command c ∷ did
  run_once c did = acted (checked (m.run_argv did (argv c))) (command c) did

  deleted :
      (b : Backend) (volume : Text) (did : List Action)
      → IsBlock b
      → guard_passes m b volume did ≡ ok true
      → (delete_volume m b volume did).1 ≡ command (removal b volume) ∷ did
  unfolding delete_volume
  deleted (directory_backend pool) volume did block h = absurd block
  deleted (lvm_backend vg) volume did block h =
      ap (λ x. x.1)
        (assert_passes (lvm_backend vg) volume (run m (lvremove volume) >> pure tt) did h)
      ∙ run_once (lvremove volume) did
  deleted (lvm_thin_backend vg thinpool) volume did block h =
      ap (λ x. x.1)
        (assert_passes (lvm_thin_backend vg thinpool) volume (run m (lvremove volume) >> pure tt)
          did h)
      ∙ run_once (lvremove volume) did
  deleted (zfs_backend pool) volume did block h =
      ap (λ x. x.1)
        (assert_passes (zfs_backend pool) volume (run m (zfs_destroy_all volume) >> pure tt) did h)
      ∙ run_once (zfs_destroy_all volume) did

  resized :
      (b : Backend) (volume : Text) (size : ℕ) (did : List Action)
      → guard_passes m b volume did ≡ ok true
      → (resize_volume m b volume size did).1 ≡ command (resizing m b volume size) ∷ did
  unfolding resize_volume
  resized b volume size did h =
      ap (λ x. x.1) (assert_passes b volume (run m (resizing m b volume size) >> pure tt) did h)
      ∙ run_once (resizing m b volume size) did

  found-IsBlock :
      (type : StorageType) (path : Text) (b : Backend)
      → get_backend type path ≡ ok b
      → is_block_backed type ≡ true
      → (type ≡ lvm → all not_slash path ≡ true)
      → IsBlock b
  unfolding get_backend new_lvm_thin
  found-IsBlock directory path b h block slashless = absurd cc
  found-IsBlock nfs path b h block slashless = absurd cc
  found-IsBlock ceph_rbd path b h block slashless = absurd cc
  found-IsBlock lvm path b h block slashless = rw (sym (ok-eq h)) (slashless refl)
  found-IsBlock zfs path b h block slashless = rw (sym (ok-eq h)) tt
  found-IsBlock lvm_thin path b h block slashless = thin (text_behind b'/' path) h
    where
      thin :
          (behind : Text)
          → elim behind as (λ _. Result Backend) [
            | [] ↦ err storage_operation_error
            | c ∷ s ↦ ok (lvm_thin_backend (text_before b'/' path) (c ∷ s))
          ]
            ≡ ok b
          → IsBlock b
      thin [] h = absurd cc
      thin (c ∷ s) h = rw (sym (ok-eq h)) (text_before-all path)

-- A volume that was created in a pool of block devices (LVM with a group name that has no slash,
-- LVM-thin or ZFS) passes the pool's guard ever after: DELETE_DISK and RESIZE_DISK of the volume id
-- that the creation returned run the one command that deletes or resizes just this volume.
pub created_reached :
    (m : Machine) (type : StorageType) (path name format : Text) (size new_size : ℕ) (b : Backend)
    (did later : List Action) (info : VolumeInfo)
    → get_backend type path ≡ ok b
    → is_block_backed type ≡ true
    → (type ≡ lvm → all not_slash path ≡ true)
    → (create_volume m b name size format did).0 ≡ ok info
    → ((delete_volume m b info.volume_id later).1 ≡ command (removal b info.volume_id) ∷ later)
      × ((resize_volume m b info.volume_id new_size later).1
          ≡ command (resizing m b info.volume_id new_size) ∷ later)
created_reached m type path name format size new_size b did later info found block slashless made =
    let is_block = found-IsBlock m type path b found block slashless in
    let (_, named) = create_volume-IsVolumeOf m b name size format did info made in
    let passes : guard_passes m b info.volume_id later ≡ ok true =
      rw named (named-guard_passes m b name later is_block) in
    (
      deleted m b info.volume_id later is_block passes,
      resized m b info.volume_id new_size later passes,
    )

append_path-cancel : (pool a b : Text) → append_path pool a ≡ append_path pool b → a ≡ b
append_path-cancel [] a b h = h
append_path-cancel (c ∷ []) a b h = ground (arith, h)
append_path-cancel (c ∷ d ∷ s) a b h = append_path-cancel (d ∷ s) a b (ground (arith, h))

-- A safe name does not begin with a slash.
path_join-append_path :
    (pool name : Text) → safe_name name ≡ true → path_join pool name ≡ append_path pool name
unfolding safe_name is_alphanumeric
path_join-append_path pool [] h = refl
path_join-append_path pool (c ∷ s) h = ground (arith, h)

below-cancel : (pool a b : Text) → below pool a ≡ below pool b → a ≡ b
below-cancel [] a b h = cc
below-cancel (c ∷ s) a b h = below-cancel s a b (ground (arith, h))

volume_named-cancel :
    (b : Backend) (x y : Text)
    → safe_name x ≡ true
    → safe_name y ≡ true
    → volume_named b x ≡ volume_named b y
    → x ≡ y
volume_named-cancel (directory_backend pool) x y safe other h =
    append_path-cancel pool x y
      (sym (path_join-append_path pool x safe) ∙ h ∙ path_join-append_path pool y other)
volume_named-cancel (lvm_backend vg) x y safe other h = below-cancel vg x y h
volume_named-cancel (lvm_thin_backend vg thinpool) x y safe other h = below-cancel vg x y h
volume_named-cancel (zfs_backend pool) x y safe other h = below-cancel pool x y h

-- Two volumes that `create_volume` of one backend made, at whatever times, under the same volume id
-- were made under the same name, which is a safe one.
pub created_apart :
    (m : Machine) (b : Backend) (x y format other : Text) (size room : ℕ) (did later : List Action)
    (one two : VolumeInfo)
    → (create_volume m b x size format did).0 ≡ ok one
    → (create_volume m b y room other later).0 ≡ ok two
    → one.volume_id ≡ two.volume_id
    → (x ≡ y) × (safe_name x ≡ true)
created_apart m b x y format other size room did later one two h k e =
    let (safe, named) = create_volume-IsVolumeOf m b x size format did one h in
    let (safe_too, named_too) = create_volume-IsVolumeOf m b y room other later two k in
    (volume_named-cancel b x y safe safe_too (sym named ∙ e ∙ named_too), safe)
