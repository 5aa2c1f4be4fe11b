-- ===== src/Host/Disks.antt =====
-- agent/nodepilot_agent/operations/disk_ops.py and storage_ops.py, image_fetch.py.
use node_pilot.Common.{ℕ, Bool, false, not, Option, none, some, List, [], ◌∷◌, ◌==◌, if◌then◌else◌}
use node_pilot.Common.Error.{storage_operation_error, not_implemented_error}
use node_pilot.Common.Exec.{Result, ok, err, pure, raise, lift, gets, ◌>>=◌, ◌>>◌}
use node_pilot.Storage.Model.{StorageType, directory}
use node_pilot.Hypervisor.Text.{Text, codes}
use node_pilot.Host.Names.{same_text, path_join}
use node_pilot.Host.Shell.{
  qemu_seed, make_directories, make_temp_dir, remove_tree, Fetched, http_error, status, Machine,
  Did, run, do_change,
}
use node_pilot.Host.Backends.{VolumeInfo, PoolInfo, get_backend, create_volume}
use node_pilot.Host.PoolSizes.{pool_info}
use node_pilot.Host.Volumes.{delete_volume, resize_volume, clone_volume, always}

-- The pool that a payload names.
pub record PoolRef : Type 0 where
  pub storage_type : StorageType
  pub storage_path : Text

-- `image_uuid`, `image_format` and `image_sha256`
pub record ImageRef : Type 0 where
  pub image_uuid : ℕ
  pub image_format : Text
  pub image_sha256 : Text

pub record DiskSpec : Type 0 where
  pub disk_uuid : Text
  pub size_bytes : ℕ
  pub format : Text
  pub image : Option ImageRef

-- CREATE_DISK, DELETE_DISK, RESIZE_DISK and CLONE_DISK, without the pool.
pub data DiskRequest : Type 0 where
  create : DiskSpec → DiskRequest
  delete : Text → DiskRequest
  resize : Text → ℕ → DiskRequest
  clone : Text → Text → Bool → DiskRequest

module _ (m : Machine) where
  -- `shutil.rmtree(..., ignore_errors=True)`
  abbrev pub drop_tree : Text → Did (Unit {0})
  drop_tree path did = (ok tt, remove_tree path ∷ did)

  -- The transfer: a response other than 200 raises, as HTTP errors do.
  abbrev pub transfer : Fetched → Result (List Text)
  transfer http_error = err storage_operation_error
  transfer (status code chunks) = if code == 200 then ok chunks else err storage_operation_error

  -- `expected_sha256 and expected_sha256.lower() != actual_sha256`
  abbrev pub mismatched : Text → Text → Bool
  mismatched [] actual = false
  mismatched (c ∷ s) actual = not (same_text (m.lower (c ∷ s)) actual)

  -- What becomes of a transfer: the directory is removed where it failed or has another digest.
  unfoldable pub finished : Text → Text → Result (List Text) → Did Text
  finished tmp_dir expected (err e) = drop_tree tmp_dir >> raise e
  finished tmp_dir expected (ok chunks) =
      if mismatched expected (m.sha256 chunks)
      then (drop_tree tmp_dir >> raise storage_operation_error)
      else pure tmp_dir

  -- The directory that `download_image` made, which holds the file `image`.
  unfoldable pub download_image : ImageRef → Did Text
  unfolding finished
  download_image image = do
    tmp_dir ← gets m.temp_dir
    do_change m (make_temp_dir tmp_dir)
    response ← gets (λ did. m.fetch did image.image_uuid)
    finished tmp_dir image.image_sha256 (transfer response)

  unfoldable pub seed_from_image : Text → Text → ImageRef → Did (Unit {0})
  unfolding download_image
  seed_from_image volume_id target_format image = do
    tmp_dir ← download_image image
    always
        (do
          run m (
              qemu_seed image.image_format target_format (path_join tmp_dir (codes "image"))
                volume_id)
          pure tt)
        (drop_tree tmp_dir)

  abbrev pub seed_if : Option ImageRef → VolumeInfo → Did (Unit {0})
  seed_if none info = pure tt
  seed_if (some image) info = seed_from_image info.volume_id info.format image

  -- `create_disk`: the backend's volume, seeded where the payload names an image.
  unfoldable pub create_disk : PoolRef → DiskSpec → Did VolumeInfo
  unfolding get_backend create_volume seed_from_image
  create_disk pool spec = do
    backend ← lift (get_backend pool.storage_type pool.storage_path)
    info ← create_volume m backend spec.disk_uuid spec.size_bytes spec.format
    seed_if spec.image info
    pure info

  unfoldable pub delete_disk : PoolRef → Text → Did (Unit {0})
  unfolding get_backend delete_volume
  delete_disk pool volume_id = do
    backend ← lift (get_backend pool.storage_type pool.storage_path)
    delete_volume m backend volume_id

  unfoldable pub resize_disk : PoolRef → Text → ℕ → Did (Unit {0})
  unfolding get_backend resize_volume
  resize_disk pool volume_id new_size_bytes = do
    backend ← lift (get_backend pool.storage_type pool.storage_path)
    resize_volume m backend volume_id new_size_bytes

  unfoldable pub clone_disk : PoolRef → Text → Text → Bool → Did VolumeInfo
  unfolding get_backend clone_volume
  clone_disk pool source_volume_id new_name linked = do
    backend ← lift (get_backend pool.storage_type pool.storage_path)
    clone_volume m backend source_volume_id new_name linked

  unfoldable pub get_storage_pool_info : PoolRef → Did PoolInfo
  unfolding get_backend pool_info
  get_storage_pool_info pool = do
    backend ← lift (get_backend pool.storage_type pool.storage_path)
    pool_info m backend

  -- Pools of other types are made on the host.
  unfoldable pub create_storage_pool : PoolRef → Did (Unit {0})
  create_storage_pool pool = elim pool.storage_type [
    | directory ↦ do_change m (make_directories pool.storage_path)
    | _ ↦ raise not_implemented_error
  ]

  unfoldable pub delete_storage_pool : PoolRef → Did (Unit {0})
  delete_storage_pool pool = raise not_implemented_error

  -- The handler that the dispatcher calls, and the volume that its answer describes.
  unfoldable pub disk_operation : PoolRef → DiskRequest → Did (Option VolumeInfo)
  unfolding create_disk delete_disk resize_disk clone_disk
  disk_operation pool (create spec) = do info ← create_disk pool spec; pure (some info)
  disk_operation pool (delete volume_id) = do delete_disk pool volume_id; pure none
  disk_operation pool (resize volume_id size) = do resize_disk pool volume_id size; pure none
  disk_operation pool (clone source new_name linked) = do
    info ← clone_disk pool source new_name linked
    pure (some info)
