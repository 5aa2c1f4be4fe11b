-- ===== src/Host/Safe.antt =====
-- The operations on volumes (agent/nodepilot_agent/storage/) against what is allowed.
use mathlib.Core.List.{append_assoc}
use node_pilot.Common.Error.{Error, storage_operation_error}
use node_pilot.Common.{
  ℕ, Bool, true, false, not, Option, none, some, List, [], ◌∷◌, ◌≡◌, refl, ap, ◌∙◌, inl, inr,
  Option-cases, arith,
}
use node_pilot.Common.Exec.{raise_if, Result, ok, err, lift, gets, when, ◌>>=◌, ◌>>◌}
use node_pilot.Task.Keeps.{Ends, Runs-bind, Runs-pure, Runs-gets}
use node_pilot.Hypervisor.Text.{Text}
use node_pilot.Host.Names.{path_join, safe_name, validate_name, text_before}
use node_pilot.Host.Facts.{same_text-eq, starts_with-append, text_before-cases}
use node_pilot.Host.Shell.{
  lvremove, zfs_destroy_all, Command, qemu_create, lvcreate, lvcreate_thin, zfs_create, Action,
  command, remove_file, Machine, Did, argv, checked, run, do_change, need,
}
use node_pilot.Host.Backends.{
  Backend, directory_backend, lvm_backend, lvm_thin_backend, zfs_backend, below, guard_passes,
  within_directory, assert_within, create_volume,
}
use node_pilot.Host.Volumes.{delete_volume, resizing, resize_volume}
use node_pilot.Host.Confined.{
  Allows, command_effect, IsOwned, IsConfined, Stays, InGroup, act-Stays, lift-Stays,
}

pub validated : (name n : Text) → validate_name name ≡ ok n → safe_name n ≡ true
unfolding validate_name
validated name n h = ground (arith, h)

module _ (m : Machine) where
  in_group : (b : Backend) (vg volume : Text) → text_before b'/' volume ≡ vg → InGroup m b vg volume
  in_group b vg volume h = elim (text_before-cases b'/' volume) [
    | inl e ↦ inl (e ∙ h)
    | inr (rest, e) ↦ inr (rest, e ∙ ap (λ g. below g rest) h)
  ]

  guard-IsOwned :
      (b : Backend) (volume : Text) (did : List Action)
      → guard_passes m b volume did ≡ ok true
      → IsOwned m b did volume
  unfolding guard_passes within_directory
  guard-IsOwned (directory_backend pool) volume did h =
      elim (Option-cases (m.commonpath (m.realpath did pool) (m.realpath did volume))) [
        | inl e ↦ let k = (rw (e, within_directory) at h) in absurd cc
        | inr (common, e) ↦
            let k = (rw (e, within_directory) at h) in
            e ∙ ap some (same_text-eq common (m.realpath did pool) cc)
      ]
  guard-IsOwned (lvm_backend vg) volume did h =
      in_group (lvm_backend vg) vg volume (same_text-eq (text_before b'/' volume) vg (cc))
  guard-IsOwned (lvm_thin_backend vg thinpool) volume did h =
      in_group (lvm_thin_backend vg thinpool) vg volume
        (same_text-eq (text_before b'/' volume) vg (cc))
  guard-IsOwned (zfs_backend pool) volume did h =
      let (rest, e) = starts_with-append volume (below pool []) (ground arith) in
      (rest, e ∙ append_assoc pool (b'/' ∷ []) rest)

  guarded-Ends :
      (b : Backend) (volume : Text) (did : List Action) (r : Result Bool)
      → IsConfined m b did
      → (r ≡ ok true → IsOwned m b did volume)
      → Ends {A = Unit {0}}
          (λ s. IsConfined m b s × IsOwned m b s volume)
          (λ _. IsConfined m b)
          ((lift r >>= λ passes. raise_if (not passes) storage_operation_error) did)
  guarded-Ends b volume did (err e) p o = p
  guarded-Ends b volume did (ok true) p o = (p, o refl)
  guarded-Ends b volume did (ok false) p o = p

  pub assert-Stays :
      {A : Type 0} (b : Backend) (volume : Text) (k : Did A)
      → Stays m b (λ did. IsConfined m b did × IsOwned m b did volume) k
      → Stays m b (IsConfined m b) (assert_within m b volume >> k)
  unfolding assert_within
  assert-Stays b volume k h =
      Runs-bind (assert_within m b volume) (λ _. k)
        (record {
          at = λ did p.
              guarded-Ends b volume did (guard_passes m b volume did) p
                (guard-IsOwned b volume did);
        })
        λ _. h

  module _ (b : Backend) where
    abbrev pub Conf : List Action → Type 0
    Conf = IsConfined m b

    -- A command, and what follows it whatever it prints.
    pub run-Stays :
        {A : Type 0} {P : List Action → Type 0} (c : Command) (f : Text → Did A)
        → ((did : List Action) → P did → Allows m b did (command_effect c) × Conf did)
        → ((out : Text) → Stays m b Conf (f out))
        → Stays m b P (run m c >>= f)
    run-Stays c f h k =
        Runs-bind (run m c) f
          (act-Stays m b (command c) (λ did. checked (m.run_argv did (argv c))) h) k

    pub when-Stays :
        {P : List Action → Type 0} (c : Bool) (d : Did (Unit {0}))
        → ((did : List Action) → P did → Conf did)
        → Stays m b P d
        → Stays m b P (when c d)
    when-Stays true d p k = k
    when-Stays false d p k = record { at = p }

    -- A query of the tools, which changes nothing.
    pub need-Stays :
        {A B : Type 0} {P : List Action → Type 0} (e : Error) (o : Option B) (f : B → Did A)
        → ((did : List Action) → P did → Conf did)
        → ((x : B) → Stays m b P (f x))
        → Stays m b P (need e o >>= f)
    need-Stays e none f p k = record { at = p }
    need-Stays e (some x) f p k = k x

    pub need-Stays_end : {B : Type 0} (e : Error) (o : Option B) → Stays m b Conf (need e o)
    need-Stays_end e none = record { at = λ did h. h }
    need-Stays_end e (some x) = record { at = λ did h. h }

  abbrev pub same : (b : Backend) (did : List Action) → IsConfined m b did → IsConfined m b did
  same b did h = h

  pub create_volume-Stays :
      (b : Backend) (name : Text) (size : ℕ) (format : Text)
      → Stays m b (IsConfined m b) (create_volume m b name size format)
  unfolding create_volume
  create_volume-Stays (directory_backend pool) name size format =
      let b = directory_backend pool in
      lift-Stays m b (validate_name name) _ (same b) λ n is.
        run-Stays b (qemu_create format (path_join pool n) size) _
          (λ did h. ((n, validated name n is, refl), h)) λ _. Runs-pure _
  create_volume-Stays (lvm_backend vg) name size format =
      let b = lvm_backend vg in
      lift-Stays m b (validate_name name) _ (same b) λ n is.
        run-Stays b (lvcreate size n vg) _ (λ did h. ((refl, validated name n is), h))
          λ _. Runs-pure _
  create_volume-Stays (lvm_thin_backend vg thinpool) name size format =
      let b = lvm_thin_backend vg thinpool in
      lift-Stays m b (validate_name name) _ (same b) λ n is.
        run-Stays b (lvcreate_thin (below vg thinpool) size n) _
          (λ did h. ((refl, validated name n is), h)) λ _. Runs-pure _
  create_volume-Stays (zfs_backend pool) name size format =
      let b = zfs_backend pool in
      lift-Stays m b (validate_name name) _ (same b) λ n is.
        run-Stays b (zfs_create size (below pool n)) _
          (λ did h. ((n, validated name n is, refl), h)) λ _. Runs-pure _

  pub delete_volume-Stays :
      (b : Backend) (volume : Text) → Stays m b (IsConfined m b) (delete_volume m b volume)
  unfolding delete_volume
  delete_volume-Stays (directory_backend pool) volume =
      let b = directory_backend pool in
      assert-Stays b volume _ (
        Runs-bind (gets λ did. m.exists did volume) _ (Runs-gets _) λ there.
          when-Stays b there (do_change m (remove_file volume)) (λ _ h. h.0)
            (act-Stays m b (remove_file volume) _ (λ did h. (h.1, h.0))))
  delete_volume-Stays (lvm_backend vg) volume =
      let b = lvm_backend vg in
      assert-Stays b volume _
        (run-Stays b (lvremove volume) _ (λ did h. (h.1, h.0)) λ _. Runs-pure tt)
  delete_volume-Stays (lvm_thin_backend vg thinpool) volume =
      let b = lvm_thin_backend vg thinpool in
      assert-Stays b volume _
        (run-Stays b (lvremove volume) _ (λ did h. (h.1, h.0)) λ _. Runs-pure tt)
  delete_volume-Stays (zfs_backend pool) volume =
      let b = zfs_backend pool in
      assert-Stays b volume _
        (run-Stays b (zfs_destroy_all volume) _ (λ did h. (h.1, h.0)) λ _. Runs-pure tt)

  resizing-Allows :
      (b : Backend) (volume : Text) (size : ℕ) (did : List Action)
      → IsOwned m b did volume
      → Allows m b did (command_effect (resizing m b volume size))
  unfolding resizing
  resizing-Allows (directory_backend pool) volume size did h = h
  resizing-Allows (lvm_backend vg) volume size did h = h
  resizing-Allows (lvm_thin_backend vg thinpool) volume size did h = h
  resizing-Allows (zfs_backend pool) volume size did h = h

  pub resize_volume-Stays :
      (b : Backend) (volume : Text) (size : ℕ)
      → Stays m b (IsConfined m b) (resize_volume m b volume size)
  unfolding resize_volume
  resize_volume-Stays b volume size = assert-Stays b volume _ (
      run-Stays b (resizing m b volume size) _
        (λ did h. (resizing-Allows b volume size did h.1, h.0)) λ _. Runs-pure tt)
