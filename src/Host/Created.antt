-- ===== src/Host/Created.antt =====
-- What a backend's new volume is called.
use node_pilot.Common.{ℕ, true, List, ◌≡◌, refl, sym, ap, ◌∙◌, arith}
use node_pilot.Common.Exec.{ok, pure, lift, bind-ok, ◌>>=◌, ◌>>◌}
use node_pilot.Hypervisor.Text.{Text}
use node_pilot.Host.Names.{safe_name, validate_name, path_join}
use node_pilot.Host.Shell.{
  Action, Command, qemu_create, lvcreate, lvcreate_thin, zfs_create, Machine, run,
}
use node_pilot.Host.Backends.{
  VolumeInfo, Backend, directory_backend, lvm_backend, lvm_thin_backend, zfs_backend, below,
  info_of, raw, create_volume,
}
use node_pilot.Host.Confined.{volume_named}

validate_name-ok :
    (name n : Text) → validate_name name ≡ ok n → (name ≡ n) × (safe_name name ≡ true)
unfolding validate_name
validate_name-ok name n h = ground (arith, h)

abbrev pub IsVolumeOf : Backend → Text → VolumeInfo → Type 0
IsVolumeOf b name info = (safe_name name ≡ true) × (info.volume_id ≡ volume_named b name)

module _ (m : Machine) where
  made :
      (b : Backend) (name : Text) (c : Text → Command) (made_info : Text → VolumeInfo)
      (did : List Action) (info : VolumeInfo)
      → ((n : Text) → (made_info n).volume_id ≡ volume_named b n)
      → ((lift (validate_name name) >>= λ n. run m (c n) >> pure (made_info n)) did).0 ≡ ok info
      → IsVolumeOf b name info
  made b name c made_info did info named h =
      let (n, valid, h') =
        bind-ok (lift (validate_name name)) (λ n. run m (c n) >> pure (made_info n)) did info h in
      let (out, ran, h'') = bind-ok (run m (c n)) (λ _. pure (made_info n)) did info h' in
      let (same, safe) = validate_name-ok name n valid in
      (
        safe,
        ap (λ (i : VolumeInfo). i.volume_id) (sym (ok-eq h''))
            ∙ named n
            ∙ ap (volume_named b) (sym same),
      )
    where
      ok-eq : {A : Type 0} {x y : A} → ok x ≡ ok y → x ≡ y
      ok-eq h = cc

  pub create_volume-IsVolumeOf :
      (b : Backend) (name : Text) (size : ℕ) (format : Text) (did : List Action) (info : VolumeInfo)
      → (create_volume m b name size format did).0 ≡ ok info
      → IsVolumeOf b name info
  unfolding create_volume
  create_volume-IsVolumeOf (directory_backend pool) name size format did info h =
      made (directory_backend pool) name (λ n. qemu_create format (path_join pool n) size)
        (λ n. info_of (path_join pool n) size format) did info (λ n. refl) h
  create_volume-IsVolumeOf (lvm_backend vg) name size format did info h =
      made (lvm_backend vg) name (λ n. lvcreate size n vg) (λ n. info_of (below vg n) size raw) did
        info (λ n. refl) h
  create_volume-IsVolumeOf (lvm_thin_backend vg thinpool) name size format did info h =
      made (lvm_thin_backend vg thinpool) name (λ n. lvcreate_thin (below vg thinpool) size n)
        (λ n. info_of (below vg n) size raw) did info (λ n. refl) h
  create_volume-IsVolumeOf (zfs_backend pool) name size format did info h =
      made (zfs_backend pool) name (λ n. zfs_create size (below pool n))
        (λ n. info_of (below pool n) size raw) did info (λ n. refl) h
