-- ===== src/Host/Cloned.antt =====
-- Clones of volumes (agent/nodepilot_agent/storage/) against what is allowed.
use node_pilot.Common.{Bool, true, false, ◌&&◌, List, ◌∷◌, ◌≡◌, refl, ◌++◌}
use node_pilot.Common.Error.{value_error, os_error}
use node_pilot.Common.Exec.{Result, ok, err, lift, ◌>>◌}
use node_pilot.Task.Keeps.{Ends, Runs-bind, Runs-pure}
use node_pilot.Hypervisor.Text.{Text, codes}
use node_pilot.Host.Names.{safe_name, validate_name, path_join}
use node_pilot.Host.Shell.{
  Command, qemu_info, lvcreate, lvcreate_thin, lvcreate_snapshot, dd, lvs_size, zfs_snapshot,
  zfs_clone, zfs_destroy, zfs_send, zfs_receive, zfs_get_volsize, Action, command, Answer,
  not_started, Machine, Did, argv, unchecked, run_unchecked,
}
use node_pilot.Host.Backends.{
  Backend, directory_backend, lvm_backend, lvm_thin_backend, zfs_backend, below, at_snapshot,
  size_by,
}
use node_pilot.Host.Volumes.{
  always, received, receive_after, pipe, pipe_send_receive, thin_clone, zfs_copy, clone_size,
  clone_command, file_clone, clone_volume, full_clone_tmp, contains_qcow2, format_in,
}
use node_pilot.Host.Confined.{
  leaves, fills, command_effect, IsNew, IsOwned, IsConfined, IsZfs, Stays, act-Stays, lift-Stays,
}
use node_pilot.Host.Safe.{validated, same, run-Stays, need-Stays_end, assert-Stays}

module _ (m : Machine) (b : Backend) where
  pub size_by-Stays :
      (c : Command) → command_effect c ≡ leaves → Stays m b (IsConfined m b) (size_by m c)
  size_by-Stays c e =
      run-Stays m b c _ (λ did h. (rw e tt, h)) λ out. need-Stays_end m b value_error (m.int_of out)

  pub always-Stays :
      (d f : Did (Unit {0}))
      → Stays m b (IsConfined m b) d
      → Stays m b (IsConfined m b) f
      → Stays m b (IsConfined m b) (always d f)
  always-Stays d f h k = record { at = λ did p. after (d did) (h.at did p) }
    where
      after :
          (x : Result (Unit {0}) × List Action)
          → Ends {A = Unit {0}} (IsConfined m b) (λ _. IsConfined m b) x
          → Ends {A = Unit {0}} (IsConfined m b) (λ _. IsConfined m b) ((f >> lift x.0) x.1)
      after (ok a, s) p = (Runs-bind f (λ _. lift (ok a)) k (λ _. record { at = λ _ q. q })).at s p
      after (err e, s) p =
          (Runs-bind f (λ _. lift (err e)) k (λ _. record { at = λ _ q. q })).at s p

  receive_after-Stays :
      (a : Answer) (dest : Text)
      → IsNew m b dest
      → Stays m b (IsConfined m b) (receive_after m a dest)
  receive_after-Stays a dest new =
      elim a as (λ a. Stays m b (IsConfined m b) (receive_after m a dest)) [
        | not_started ↦ record { at = λ did h. h }
        | _ ↦
            act-Stays m b (command (zfs_receive dest))
              (λ did. received (m.run_argv did (argv (zfs_receive dest)))) λ did h. (new, h)
      ]

  pipe-Stays : (snap dest : Text) → IsNew m b dest → Stays m b (IsConfined m b) (pipe m snap dest)
  unfolding pipe
  pipe-Stays snap dest new = record {
    at = λ did p.
        (receive_after-Stays (m.run_argv did (argv (zfs_send snap))) dest new).at
          (command (zfs_send snap) ∷ did) (tt, p);
  }

  pipe_send_receive-Stays :
      (source dest : Text)
      → IsZfs m b
      → IsNew m b dest
      → Stays m b (IsConfined m b) (pipe_send_receive m source dest)
  unfolding pipe_send_receive
  pipe_send_receive-Stays source dest in_zfs new =
      run-Stays m b (zfs_snapshot (at_snapshot source full_clone_tmp)) _ (λ did h. (in_zfs, h))
        λ _.
          always-Stays (pipe m (at_snapshot source full_clone_tmp) dest)
            (run_unchecked m (zfs_destroy (at_snapshot source full_clone_tmp)))
            (pipe-Stays (at_snapshot source full_clone_tmp) dest new)
            (act-Stays m b (command (zfs_destroy (at_snapshot source full_clone_tmp)))
              (λ did.
                unchecked (m.run_argv did (argv (zfs_destroy (at_snapshot source full_clone_tmp)))))
              λ did h. (in_zfs, h))

module _ (m : Machine) where
  clone_size-Stays :
      (b : Backend) (linked : Bool) (dest : Text)
      → Stays m b (IsConfined m b) (clone_size m linked dest)
  unfolding clone_size
  clone_size-Stays b true dest =
      run-Stays m b (qemu_info dest) _ (λ did h. (tt, h))
        λ out. need-Stays_end m b value_error (m.virtual_size out)
  clone_size-Stays b false dest = record {
    at = λ did. (need-Stays_end m b os_error (m.file_size did dest)).at did;
  }

  clone_command-fills :
      (linked_qcow2 : Bool) (format source dest : Text)
      → command_effect (clone_command m linked_qcow2 format source dest) ≡ fills dest
  clone_command-fills true format source dest = refl
  clone_command-fills false format source dest = refl

  thin_clone-Stays :
      (linked : Bool) (vg thinpool source name : Text)
      → safe_name name ≡ true
      → Stays m
          (lvm_thin_backend vg thinpool)
          (IsConfined m (lvm_thin_backend vg thinpool))
          (thin_clone m linked vg thinpool source name)
  unfolding thin_clone
  thin_clone-Stays true vg thinpool source name safe =
      run-Stays m (lvm_thin_backend vg thinpool) (lvcreate_snapshot name source) _
        (λ did h. ((tt, safe), h)) λ _. Runs-pure tt
  thin_clone-Stays false vg thinpool source name safe =
      let b = lvm_thin_backend vg thinpool in
      Runs-bind (size_by m (lvs_size source)) _ (size_by-Stays m b (lvs_size source) refl) λ size.
        run-Stays m b (lvcreate_thin (below vg thinpool) size name) _ (λ did h. ((refl, safe), h))
          λ _.
            run-Stays m b (dd source (below vg name)) _ (λ did h. ((name, safe, refl), h))
              λ _. Runs-pure tt

  zfs_copy-Stays :
      (linked : Bool) (pool source name : Text)
      → safe_name name ≡ true
      → Stays m
          (zfs_backend pool)
          (IsConfined m (zfs_backend pool))
          (zfs_copy m linked source name (below pool name))
  unfolding zfs_copy
  zfs_copy-Stays true pool source name safe =
      let b = zfs_backend pool in
      run-Stays m b (zfs_snapshot (at_snapshot source (codes "clone-base-" ++ name))) _
        (λ did h. (tt, h))
        λ _.
          run-Stays m b
            (zfs_clone (at_snapshot source (codes "clone-base-" ++ name)) (below pool name)) _
            (λ did h. ((name, safe, refl), h)) λ _. Runs-pure tt
  zfs_copy-Stays false pool source name safe =
      pipe_send_receive-Stays m (zfs_backend pool) source (below pool name) tt (name, safe, refl)

  file_clone-Stays :
      (pool source new_name : Text) (linked : Bool)
      → Stays m
          (directory_backend pool)
          (λ did.
            IsConfined m (directory_backend pool) did
            × IsOwned m (directory_backend pool) did source)
          (file_clone m pool source new_name linked)
  unfolding file_clone
  file_clone-Stays pool source new_name linked =
      let b = directory_backend pool in
      lift-Stays m b (validate_name new_name) _ (λ _ h. h.0)
        λ n is.
          run-Stays m b (qemu_info source) _ (λ did h. (tt, h.0))
            λ out.
              run-Stays m b
                (clone_command m (linked && contains_qcow2 out) (format_in out) source
                  (path_join pool n))
                _
                (λ did h. (
                  rw
                      (clone_command-fills (linked && contains_qcow2 out) (format_in out) source
                        (path_join pool n))
                      (n, validated new_name n is, refl),
                  h,
                ))
                λ _.
                  Runs-bind (clone_size m linked (path_join pool n)) _
                    (clone_size-Stays b linked (path_join pool n)) λ _. Runs-pure _

  pub clone_volume-Stays :
      (b : Backend) (source new_name : Text) (linked : Bool)
      → Stays m b (IsConfined m b) (clone_volume m b source new_name linked)
  unfolding clone_volume
  clone_volume-Stays (directory_backend pool) source new_name linked =
      assert-Stays m (directory_backend pool) source (file_clone m pool source new_name linked)
        (file_clone-Stays pool source new_name linked)
  clone_volume-Stays (lvm_backend vg) source new_name true = record { at = λ did h. h }
  clone_volume-Stays (lvm_backend vg) source new_name false =
      let b = lvm_backend vg in
      lift-Stays m b (validate_name new_name) _ (same m b) λ n is.
        Runs-bind (size_by m (lvs_size source)) _ (size_by-Stays m b (lvs_size source) refl) λ size.
          run-Stays m b (lvcreate size n vg) _ (λ did h. ((refl, validated new_name n is), h))
            λ _.
              run-Stays m b (dd source (below vg n)) _
                (λ did h. ((n, validated new_name n is, refl), h)) λ _. Runs-pure _
  clone_volume-Stays (lvm_thin_backend vg thinpool) source new_name linked =
      let b = lvm_thin_backend vg thinpool in
      lift-Stays m b (validate_name new_name) _ (same m b) λ n is.
        Runs-bind (thin_clone m linked vg thinpool source n) _
          (thin_clone-Stays linked vg thinpool source n (validated new_name n is))
          λ _.
            Runs-bind (size_by m (lvs_size (below vg n))) _
              (size_by-Stays m b (lvs_size (below vg n)) refl) λ _. Runs-pure _
  clone_volume-Stays (zfs_backend pool) source new_name linked =
      let b = zfs_backend pool in
      lift-Stays m b (validate_name new_name) _ (same m b) λ n is.
        Runs-bind (zfs_copy m linked source n (below pool n)) _
          (zfs_copy-Stays linked pool source n (validated new_name n is))
          λ _.
            Runs-bind (size_by m (zfs_get_volsize (below pool n))) _
              (size_by-Stays m b (zfs_get_volsize (below pool n)) refl) λ _. Runs-pure _
