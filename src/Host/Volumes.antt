-- ===== src/Host/Volumes.antt =====
-- What the backends do with volumes that exist (agent/nodepilot_agent/storage/).
use node_pilot.Common.{ℕ, Bool, true, false, ◌&&◌, ◌∷◌, ◌++◌, if◌then◌else◌}
use node_pilot.Common.Error.{storage_operation_error, not_implemented_error, os_error, value_error}
use node_pilot.Common.Exec.{Result, ok, err, pure, raise, lift, gets, when, ◌>>=◌, ◌>>◌}
use node_pilot.Hypervisor.Text.{Text, codes}
use node_pilot.Host.Names.{validate_name, contains, path_join}
use node_pilot.Host.Shell.{
  Command, qemu_info, qemu_create_backed, qemu_convert, qemu_resize, lvcreate, lvcreate_thin,
  lvcreate_snapshot, lvremove, lvs_size, lvextend, dd, zfs_set_volsize, zfs_destroy_all,
  zfs_destroy, zfs_snapshot, zfs_clone, zfs_get_volsize, zfs_send, zfs_receive, command,
  remove_file, Answer, succeeded, exit_failed, timed_out, not_started, Machine, Did, argv, run,
  run_unchecked, do_change, need,
}
use node_pilot.Host.Backends.{
  VolumeInfo, Backend, directory_backend, lvm_backend, lvm_thin_backend, zfs_backend, raw, qcow2,
  below, at_snapshot, info_of, assert_within, size_by,
}

-- `try: m` with `finally: f`, where `f` may raise too.
abbrev pub always : Did (Unit {0}) → Did (Unit {0}) → Did (Unit {0})
always m f did = let (r, did') = m did in (f >> lift r) did'

-- What `_pipe_send_receive` makes of the answer of `zfs run_receive`.
abbrev pub received : Answer → Result (Unit {0})
received (succeeded out) = ok tt
received exit_failed = err storage_operation_error
received timed_out = err storage_operation_error
received not_started = err os_error

-- `'"format": "qcow2"' in info.stdout`
abbrev pub contains_qcow2 : Text → Bool
contains_qcow2 out = contains (codes "\"format\": \"qcow2\"") out

-- `fmt` of `DirectoryBackend.clone_volume`
abbrev pub format_in : Text → Text
format_in out = if contains_qcow2 out then qcow2 else raw

abbrev pub full_clone_tmp : Text
full_clone_tmp = codes "full-clone-tmp"

module _ (m : Machine) where
  -- `DirectoryBackend.delete_volume`
  abbrev pub delete_file_volume : Text → Text → Did (Unit {0})
  delete_file_volume pool volume = do
    assert_within m (directory_backend pool) volume
    exists ← gets (λ did. m.exists did volume)
    when exists (do_change m (remove_file volume))

  -- `LVMBackend.delete_volume`
  abbrev pub delete_lv : Text → Text → Did (Unit {0})
  delete_lv vg volume = do assert_within m (lvm_backend vg) volume; run m (lvremove volume); pure tt

  -- `LVMThinBackend.delete_volume`
  abbrev pub delete_thin_lv : Text → Text → Text → Did (Unit {0})
  delete_thin_lv vg thinpool volume = do
    assert_within m (lvm_thin_backend vg thinpool) volume
    run m (lvremove volume)
    pure tt

  -- `ZFSBackend.delete_volume`
  abbrev pub delete_zvol : Text → Text → Did (Unit {0})
  delete_zvol pool volume = do
    assert_within m (zfs_backend pool) volume
    run m (zfs_destroy_all volume)
    pure tt

  unfoldable pub delete_volume : Backend → Text → Did (Unit {0})
  unfolding assert_within
  delete_volume (directory_backend pool) volume = delete_file_volume pool volume
  delete_volume (lvm_backend vg) volume = delete_lv vg volume
  delete_volume (lvm_thin_backend vg thinpool) volume = delete_thin_lv vg thinpool volume
  delete_volume (zfs_backend pool) volume = delete_zvol pool volume

  -- The command that sets a volume's size.
  unfoldable pub resizing : Backend → Text → ℕ → Command
  resizing (directory_backend pool) volume size = qemu_resize volume size
  resizing (lvm_backend vg) volume size = lvextend size volume
  resizing (lvm_thin_backend vg thinpool) volume size = lvextend size volume
  resizing (zfs_backend pool) volume size = zfs_set_volsize size volume

  unfoldable pub resize_volume : Backend → Text → ℕ → Did (Unit {0})
  unfolding assert_within resizing
  resize_volume b volume size = do assert_within m b volume; run m (resizing b volume size); pure tt

  -- `zfs run_receive`, which runs unless `zfs send` was not started.
  abbrev pub run_receive : Text → Did (Unit {0})
  run_receive dest did =
      (received (m.run_argv did (argv (zfs_receive dest))), command (zfs_receive dest) ∷ did)

  abbrev pub receive_after : Answer → Text → Did (Unit {0})
  receive_after not_started dest = raise os_error
  receive_after (succeeded out) dest = run_receive dest
  receive_after exit_failed dest = run_receive dest
  receive_after timed_out dest = run_receive dest

  -- `zfs send | zfs run_receive`; the exit code of `zfs send` is not read.
  unfoldable pub pipe : Text → Text → Did (Unit {0})
  pipe snap dest did =
      receive_after (m.run_argv did (argv (zfs_send snap))) dest (command (zfs_send snap) ∷ did)

  -- `_pipe_send_receive`
  unfoldable pub pipe_send_receive : Text → Text → Did (Unit {0})
  unfolding pipe
  pipe_send_receive source dest = do
    run m (zfs_snapshot (at_snapshot source full_clone_tmp))
    always (pipe (at_snapshot source full_clone_tmp) dest)
        (run_unchecked m (zfs_destroy (at_snapshot source full_clone_tmp)))

  -- How a thin volume is cloned.
  unfoldable pub thin_clone : Bool → Text → Text → Text → Text → Did (Unit {0})
  thin_clone true vg thinpool source name = do run m (lvcreate_snapshot name source); pure tt
  thin_clone false vg thinpool source name = do
    size ← size_by m (lvs_size source)
    run m (lvcreate_thin (below vg thinpool) size name)
    run m (dd source (below vg name))
    pure tt

  -- How a dataset is cloned.
  unfoldable pub zfs_copy : Bool → Text → Text → Text → Did (Unit {0})
  unfolding pipe_send_receive
  zfs_copy true source name dest = do
    run m (zfs_snapshot (at_snapshot source (codes "clone-base-" ++ name)))
    run m (zfs_clone (at_snapshot source (codes "clone-base-" ++ name)) dest)
    pure tt
  zfs_copy false source name dest = pipe_send_receive source dest

  -- `os.path.getsize(dest)`, or `_qcow2_virtual_size(dest)` of a linked clone.
  unfoldable pub clone_size : Bool → Text → Did ℕ
  clone_size false dest = λ did. need os_error (m.file_size did dest) did
  clone_size true dest = do out ← run m (qemu_info dest); need value_error (m.virtual_size out)

  -- The command that fills the new file of a directory.
  abbrev pub clone_command : Bool → Text → Text → Text → Command
  clone_command linked_qcow2 format source dest =
      if linked_qcow2 then qemu_create_backed source dest else qemu_convert format source dest

  -- `DirectoryBackend.clone_volume`, after the guard.
  unfoldable pub file_clone : Text → Text → Text → Bool → Did VolumeInfo
  unfolding validate_name clone_size
  file_clone pool source new_name linked = do
    name ← lift (validate_name new_name)
    out ← run m (qemu_info source)
    run m
        (clone_command (linked && contains_qcow2 out) (format_in out) source (path_join pool name))
    size ← clone_size linked (path_join pool name)
    pure (info_of (path_join pool name) size (format_in out))

  -- `DirectoryBackend.clone_volume`
  abbrev pub clone_file_volume : Text → Text → Text → Bool → Did VolumeInfo
  clone_file_volume pool source new_name linked = do
    assert_within m (directory_backend pool) source
    file_clone pool source new_name linked

  -- `LVMThinBackend.clone_volume`
  abbrev pub clone_thin_lv : Text → Text → Text → Text → Bool → Did VolumeInfo
  clone_thin_lv vg thinpool source new_name linked = do
    name ← lift (validate_name new_name)
    thin_clone linked vg thinpool source name
    size ← size_by m (lvs_size (below vg name))
    pure (info_of (below vg name) size raw)

  -- `ZFSBackend.clone_volume`
  abbrev pub clone_zvol : Text → Text → Text → Bool → Did VolumeInfo
  clone_zvol pool source new_name linked = do
    name ← lift (validate_name new_name)
    zfs_copy linked source name (below pool name)
    size ← size_by m (zfs_get_volsize (below pool name))
    pure (info_of (below pool name) size raw)

  -- `LVMBackend.clone_volume`
  abbrev pub clone_lv : Text → Text → Text → Bool → Did VolumeInfo
  clone_lv vg source new_name true = raise not_implemented_error
  clone_lv vg source new_name false = do
    name ← lift (validate_name new_name)
    size ← size_by m (lvs_size source)
    run m (lvcreate size name vg)
    run m (dd source (below vg name))
    pure (info_of (below vg name) size raw)

  unfoldable pub clone_volume : Backend → Text → Text → Bool → Did VolumeInfo
  unfolding assert_within validate_name file_clone thin_clone zfs_copy
  clone_volume (directory_backend pool) source new_name linked =
      clone_file_volume pool source new_name linked
  clone_volume (lvm_backend vg) source new_name linked = clone_lv vg source new_name linked
  clone_volume (lvm_thin_backend vg thinpool) source new_name linked =
      clone_thin_lv vg thinpool source new_name linked
  clone_volume (zfs_backend pool) source new_name linked = clone_zvol pool source new_name linked
