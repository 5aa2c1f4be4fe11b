-- ===== src/Host/Shell.antt =====
-- Commands and files of the node (agent/nodepilot_agent/storage/base.py and the argument lists of
-- the other files of storage/). What a command answers, and what the file system is like, is a
-- parameter that may depend on everything that was done before.
use node_pilot.Common.{ℕ, String, Bool, Option, none, some, List, [], ◌∷◌, ◌++◌}
use node_pilot.Common.Error.{Error, storage_operation_error, os_error}
use node_pilot.Common.Exec.{Result, ok, err, Exec}
use node_pilot.Hypervisor.Text.{Text, codes, decimal}

-- The commands, each with what the code puts into its argument list.
pub data Command : Type 0 where
  qemu_create : Text → Text → ℕ → Command
  qemu_create_backed : Text → Text → Command
  qemu_convert : Text → Text → Text → Command
  qemu_seed : Text → Text → Text → Text → Command
  qemu_info : Text → Command
  qemu_resize : Text → ℕ → Command
  lvcreate : ℕ → Text → Text → Command
  lvcreate_thin : Text → ℕ → Text → Command
  lvcreate_snapshot : Text → Text → Command
  lvremove lvconvert_merge lvs_size lvs_usage vgs : Text → Command
  lvextend : ℕ → Text → Command
  dd : Text → Text → Command
  zfs_create zfs_set_volsize : ℕ → Text → Command
  zfs_destroy_all zfs_destroy zfs_snapshot zfs_rollback : Text → Command
  zfs_clone : Text → Text → Command
  zfs_list zfs_get_volsize zfs_send zfs_receive : Text → Command

abbrev bytes_word : ℕ → Text
bytes_word n = decimal n ++ codes "B"

-- `-f image_format`, which is left out where the format is not known.
abbrev format_words : Text → List Text
format_words [] = []
format_words (c ∷ s) = codes "-f" ∷ (c ∷ s) ∷ []

abbrev lvs_words : String → Text → List Text
lvs_words columns volume =
    codes "lvs"
    ∷ codes "--noheadings"
    ∷ codes "--units"
    ∷ codes "b"
    ∷ codes "--nosuffix"
    ∷ codes "-o"
    ∷ codes columns
    ∷ volume
    ∷ []

-- The argument list.
unfoldable pub argv : Command → List Text
unfolding decimal
argv (qemu_create format path size) =
    codes "qemu-img" ∷ codes "create" ∷ codes "-f" ∷ format ∷ path ∷ decimal size ∷ []
argv (qemu_create_backed source dest) =
    codes "qemu-img"
    ∷ codes "create"
    ∷ codes "-f"
    ∷ codes "qcow2"
    ∷ codes "-b"
    ∷ source
    ∷ codes "-F"
    ∷ codes "qcow2"
    ∷ dest
    ∷ []
argv (qemu_convert format source dest) =
    codes "qemu-img" ∷ codes "convert" ∷ codes "-O" ∷ format ∷ source ∷ dest ∷ []
argv (qemu_seed image_format target_format downloaded volume) =
    codes "qemu-img"
    ∷ codes "convert"
    ∷ codes "-n"
    ∷ (format_words image_format ++ codes "-O" ∷ target_format ∷ downloaded ∷ volume ∷ [])
argv (qemu_info path) = codes "qemu-img" ∷ codes "info" ∷ codes "--output=json" ∷ path ∷ []
argv (qemu_resize path size) = codes "qemu-img" ∷ codes "resize" ∷ path ∷ decimal size ∷ []
argv (lvcreate size name vg) =
    codes "lvcreate" ∷ codes "-y" ∷ codes "-L" ∷ bytes_word size ∷ codes "-n" ∷ name ∷ vg ∷ []
argv (lvcreate_thin pool size name) =
    codes "lvcreate"
    ∷ codes "-y"
    ∷ codes "-T"
    ∷ pool
    ∷ codes "-V"
    ∷ bytes_word size
    ∷ codes "-n"
    ∷ name
    ∷ []
argv (lvcreate_snapshot name source) =
    codes "lvcreate" ∷ codes "-y" ∷ codes "-s" ∷ codes "-n" ∷ name ∷ source ∷ []
argv (lvremove volume) = codes "lvremove" ∷ codes "-f" ∷ volume ∷ []
argv (lvconvert_merge volume) = codes "lvconvert" ∷ codes "--merge" ∷ volume ∷ []
argv (lvs_size volume) = lvs_words "lv_size" volume
argv (lvs_usage volume) = lvs_words "lv_size,data_percent" volume
argv (vgs vg) =
    codes "vgs"
    ∷ codes "--noheadings"
    ∷ codes "--units"
    ∷ codes "b"
    ∷ codes "--nosuffix"
    ∷ codes "-o"
    ∷ codes "vg_size,vg_free"
    ∷ vg
    ∷ []
argv (lvextend size volume) = codes "lvextend" ∷ codes "-L" ∷ bytes_word size ∷ volume ∷ []
argv (dd source dest) =
    codes "dd"
    ∷ (codes "if=" ++ source)
    ∷ (codes "of=" ++ dest)
    ∷ codes "bs=4M"
    ∷ codes "conv=fsync"
    ∷ []
argv (zfs_create size dataset) =
    codes "zfs" ∷ codes "create" ∷ codes "-V" ∷ bytes_word size ∷ codes "-s" ∷ dataset ∷ []
argv (zfs_set_volsize size dataset) =
    codes "zfs" ∷ codes "set" ∷ (codes "volsize=" ++ decimal size) ∷ dataset ∷ []
argv (zfs_destroy_all dataset) = codes "zfs" ∷ codes "destroy" ∷ codes "-r" ∷ dataset ∷ []
argv (zfs_destroy snap) = codes "zfs" ∷ codes "destroy" ∷ snap ∷ []
argv (zfs_snapshot snap) = codes "zfs" ∷ codes "snapshot" ∷ snap ∷ []
argv (zfs_rollback snap) = codes "zfs" ∷ codes "rollback" ∷ codes "-r" ∷ snap ∷ []
argv (zfs_clone snap dest) = codes "zfs" ∷ codes "clone" ∷ snap ∷ dest ∷ []
argv (zfs_list dataset) =
    codes "zfs"
    ∷ codes "list"
    ∷ codes "-H"
    ∷ codes "-p"
    ∷ codes "-o"
    ∷ codes "avail,used"
    ∷ dataset
    ∷ []
argv (zfs_get_volsize dataset) =
    codes "zfs"
    ∷ codes "get"
    ∷ codes "-H"
    ∷ codes "-p"
    ∷ codes "-o"
    ∷ codes "value"
    ∷ codes "volsize"
    ∷ dataset
    ∷ []
argv (zfs_send snap) = codes "zfs" ∷ codes "send" ∷ snap ∷ []
argv (zfs_receive dataset) = codes "zfs" ∷ codes "receive" ∷ dataset ∷ []

-- What is done on the node: a command that runs, or a change of the file system.
pub data Action : Type 0 where
  command : Command → Action
  remove_file make_directories make_temp_dir remove_tree : Text → Action

-- Exit code 0 with what was printed, another exit code, a time-out, or an OSError.
pub data Answer : Type 0 where
  succeeded : Text → Answer
  exit_failed timed_out not_started : Answer

pub data Fetched : Type 0 where
  http_error : Fetched
  status : ℕ → List Text → Fetched

-- The node's tools and files, and the libraries: each answers from what was done so far, the last
-- action first.
pub record Machine : Type 0 where
  pub run_argv : List Action → List Text → Answer
  pub change : List Action → Action → Answer
  pub exists : List Action → Text → Bool
  pub file_size : List Action → Text → Option ℕ
  -- total, used, free
  pub disk_usage : List Action → Text → Option (ℕ × ℕ × ℕ)
  pub realpath : List Action → Text → Text
  -- `os.path.commonpath` of two paths, which may raise ValueError
  pub commonpath : Text → Text → Option Text
  -- `tempfile.mkdtemp`
  pub temp_dir : List Action → Text
  pub fetch : List Action → ℕ → Fetched
  pub sha256 : List Text → Text
  pub lower : Text → Text
  pub int_of : Text → Option ℕ
  -- `int(total * (float(text) / 100))`
  pub percent_of : ℕ → Text → Option ℕ
  -- `json.loads(text).get("virtual-size", 0)`
  pub virtual_size : Text → Option ℕ

-- The actions so far, the last one first.
abbrev pub Did : Type 0 → Type 0
Did A = Exec (List Action) A

-- `run`: what is raised for an answer.
unfoldable pub checked : Answer → Result Text
checked (succeeded out) = ok out
checked exit_failed = err storage_operation_error
checked timed_out = err storage_operation_error
checked not_started = err os_error

-- `run(..., check=False)`, whose result the code does not read.
unfoldable pub unchecked : Answer → Result (Unit {0})
unchecked (succeeded out) = ok tt
unchecked exit_failed = ok tt
unchecked timed_out = err storage_operation_error
unchecked not_started = err os_error

-- A change of the file system through `os`.
unfoldable pub changed : Answer → Result (Unit {0})
changed (succeeded out) = ok tt
changed exit_failed = err os_error
changed timed_out = err os_error
changed not_started = err os_error

module _ (m : Machine) where
  abbrev pub run : Command → Did Text
  run c did = (checked (m.run_argv did (argv c)), command c ∷ did)

  abbrev pub run_unchecked : Command → Did (Unit {0})
  run_unchecked c did = (unchecked (m.run_argv did (argv c)), command c ∷ did)

  abbrev pub do_change : Action → Did (Unit {0})
  do_change a did = (changed (m.change did a), a ∷ did)

-- The result of a parser, which raises `e` where there is none.
abbrev pub need : {A : Type 0} → Error → Option A → Did A
need e none did = (err e, did)
need e (some a) did = (ok a, did)
