-- ===== src/Storage/Model.antt =====
-- backend/apps/storage/models.py.
use node_pilot.Common.{ℕ, String, Bool, List, [], ◌∷◌, any, ◌==◌}

pub data StorageType : Type 0 where
  directory lvm lvm_thin zfs nfs ceph_rbd : StorageType

pub data StorageCapability : Type 0 where
  vm_disk iso backup snapshot template : StorageCapability

pub data StoragePoolStatus : Type 0 where
  online offline warning error : StoragePoolStatus

abbrev pub capability_index : StorageCapability → ℕ
capability_index vm_disk = 0
capability_index iso = 1
capability_index backup = 2
capability_index snapshot = 3
capability_index template = 4

abbrev pub same_capability : StorageCapability → StorageCapability → Bool
same_capability a b = capability_index a == capability_index b

-- `DEFAULT_CAPABILITIES_BY_TYPE`
unfoldable pub default_capabilities : StorageType → List StorageCapability
default_capabilities directory = vm_disk ∷ iso ∷ backup ∷ template ∷ []
default_capabilities lvm = vm_disk ∷ []
default_capabilities lvm_thin = vm_disk ∷ snapshot ∷ []
default_capabilities zfs = vm_disk ∷ snapshot ∷ template ∷ []
default_capabilities nfs = vm_disk ∷ iso ∷ backup ∷ template ∷ []
default_capabilities ceph_rbd = vm_disk ∷ snapshot ∷ []

pub record StoragePool : Type 0 where
  pub uuid : ℕ
  pub node : ℕ
  pub name : String
  pub type : StorageType
  pub path : String
  pub capacity_bytes : ℕ
  pub used_bytes : ℕ
  pub available_bytes : ℕ
  pub status : StoragePoolStatus
  pub shared : Bool
  pub enabled : Bool
  pub capabilities : List StorageCapability

-- `StoragePool.save`: a pool with no capabilities gets those of its type.
unfoldable pub saved : StoragePool → StoragePool
unfolding default_capabilities
saved pool = elim pool.capabilities [
  | [] ↦ record pool { capabilities = default_capabilities pool.type }
  | _ ∷ _ ↦ pool
]

-- `StoragePool.supports`
unfoldable pub supports : StoragePool → StorageCapability → Bool
supports pool capability = any (same_capability capability) pool.capabilities
