-- ===== src/Backups/Retention.antt =====
-- What the retention sweep deletes.
use node_pilot.Common.{
  ℕ, ◌≡◌, refl, sym, ◌∙◌, Bool-cases, inl, inr, Bool, true, false, not, ◌&&◌, List, [], ◌∷◌, any,
  map, arith, if◌then◌else◌,
}
use node_pilot.Backups.Model.{Backup, BackupTarget}
use node_pilot.Backups.Services.{is_expired, delete_backup, apply_retention_all}

-- A backup that is expired for some enabled target.
abbrev pub must_go : ℕ → List BackupTarget → Backup → Bool
must_go now targets b = any (λ t. t.enabled && is_expired now t.id b) targets

expired_once :
    (now t u : ℕ) (b : Backup)
    → is_expired now u (if is_expired now t b then delete_backup b else b)
      ≡ (is_expired now u b && not (is_expired now t b))
unfolding is_expired
expired_once now t u b = ground arith

must_go-deleted :
    (now t : ℕ) (ts : List BackupTarget) (b : Backup)
    → is_expired now t b ≡ true
    → must_go now ts (delete_backup b) ≡ false
unfolding is_expired
must_go-deleted now t [] b h = refl
must_go-deleted now t (u ∷ ts) b h = ground (arith, must_go-deleted now t ts b h)

map-fuse :
    (f g h : Backup → Backup)
    → ((b : Backup) → g (f b) ≡ h b)
    → (bs : List Backup) → map g (map f bs) ≡ map h bs
map-fuse f g h same [] = refl
map-fuse f g h same (b ∷ bs) = cc (same b, map-fuse f g h same bs)

map-same :
    (g h : Backup → Backup) → ((b : Backup) → g b ≡ h b) → (bs : List Backup) → map g bs ≡ map h bs
map-same g h same [] = refl
map-same g h same (b ∷ bs) = cc (same b, map-same g h same bs)

map-keep : (bs : List Backup) → map (λ b. b) bs ≡ bs
map-keep [] = refl
map-keep (b ∷ bs) = cc (map-keep bs)

abbrev pub swept : ℕ → List BackupTarget → Backup → Backup
swept now targets b = if must_go now targets b then delete_backup b else b

abbrev swept_by : ℕ → ℕ → Backup → Backup
swept_by now t b = if is_expired now t b then delete_backup b else b

swept-step :
    (now : ℕ) (t : BackupTarget) (ts : List BackupTarget) (b : Backup)
    → t.enabled ≡ true
    → swept now ts (swept_by now t.id b) ≡ swept now (t ∷ ts) b
swept-step now t ts b on = ground (arith, on, must_go-deleted now t.id ts b)

swept-skip :
    (now : ℕ) (t : BackupTarget) (ts : List BackupTarget) (b : Backup)
    → t.enabled ≡ false
    → swept now ts b ≡ swept now (t ∷ ts) b
swept-skip now t ts b off = ground (arith, off)

all-enabled :
    (now : ℕ) (t : BackupTarget) (ts : List BackupTarget) (backups : List Backup)
    → t.enabled ≡ true
    → (apply_retention_all now (t ∷ ts) backups).1
      ≡ (apply_retention_all now ts (map (swept_by now t.id) backups)).1
unfolding apply_retention_all
all-enabled now t ts backups on = rw on refl

all-disabled :
    (now : ℕ) (t : BackupTarget) (ts : List BackupTarget) (backups : List Backup)
    → t.enabled ≡ false
    → (apply_retention_all now (t ∷ ts) backups).1 ≡ (apply_retention_all now ts backups).1
unfolding apply_retention_all
all-disabled now t ts backups off = rw off refl

-- The sweep over all targets deletes exactly the completed backups of enabled targets whose
-- retention is over, and changes no other.
pub sweeps_expired :
    (now : ℕ) (targets : List BackupTarget) (backups : List Backup)
    → (apply_retention_all now targets backups).1 ≡ map (swept now targets) backups
unfolding apply_retention_all
sweeps_expired now [] backups = sym (map-keep backups)
sweeps_expired now (t ∷ ts) backups = elim (Bool-cases t.enabled) [
  | inl on ↦
      all-enabled now t ts backups on
      ∙ sweeps_expired now ts (map (swept_by now t.id) backups)
      ∙ map-fuse (swept_by now t.id) (swept now ts) (swept now (t ∷ ts))
          (λ b. swept-step now t ts b on) backups
  | inr off ↦
      all-disabled now t ts backups off
      ∙ sweeps_expired now ts backups
      ∙ map-same (swept now ts) (swept now (t ∷ ts)) (λ b. swept-skip now t ts b off) backups
]
