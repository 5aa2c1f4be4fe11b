-- ===== src/Hypervisor/DomainXml.antt =====
-- agent/nodepilot_agent/domain_xml.py, on the payload that the controller sends. How an
-- identifier is written is a parameter.
use node_pilot.Common.{
  ℕ, zero, suc, ◌+◌, ◌*◌, ◌/◌, Bool, true, false, Option, none, some, List, [], ◌∷◌, ◌++◌, String,
  str_eq, if◌then◌else◌,
}
use node_pilot.Common.Exec.{Result, ok, err}
use node_pilot.Storage.Model.{StorageType, directory, lvm, lvm_thin, zfs, nfs, ceph_rbd}
use node_pilot.Vm.Model.{DiskBus, virtio_scsi, sata, ide, NicModel, e1000}
use node_pilot.Vm.Payload.{DiskEntry, NicEntry}
use node_pilot.Hypervisor.Text.{Text, codes, join, replace, decimal}
use node_pilot.Hypervisor.Network.{vlan_bridge_name}

-- `_BUS_DEVICE_PREFIX`
abbrev pub bus_device_prefix : DiskBus → Text
bus_device_prefix DiskBus.virtio = codes "vd"
bus_device_prefix virtio_scsi = codes "sd"
bus_device_prefix sata = codes "sd"
bus_device_prefix ide = codes "hd"

-- `_BUS_XML_NAME`
abbrev pub bus_xml_name : DiskBus → Text
bus_xml_name DiskBus.virtio = codes "virtio"
bus_xml_name virtio_scsi = codes "scsi"
bus_xml_name sata = codes "sata"
bus_xml_name ide = codes "ide"

-- `_BOOT_DEV_XML_NAME.get(d, "hd")`
abbrev pub boot_dev_xml_name : String → Text
boot_dev_xml_name d =
    if str_eq d "disk"
    then codes "hd"
    else if str_eq d "cdrom"
    then codes "cdrom"
    else if str_eq d "network"
    then codes "network"
    else if str_eq d "floppy"
    then codes "fd"
    else codes "hd"

-- `_BLOCK_BACKED_STORAGE_TYPES`
abbrev pub is_block_backed : StorageType → Bool
is_block_backed directory = false
is_block_backed lvm = true
is_block_backed lvm_thin = true
is_block_backed zfs = true
is_block_backed nfs = false
is_block_backed ceph_rbd = true

-- `escape`: that of the library, which replaces `&`, `>` and `<`, and then the quotes.
unfoldable pub escape : Text → Text
unfolding replace
escape value = replace 39 (codes "&apos;") (
    replace 34 (codes "&quot;")
      (replace 60 (codes "&lt;") (replace 62 (codes "&gt;") (replace 38 (codes "&amp;") value))))

abbrev pub or_text : Text → Text → Text
or_text [] d = d
or_text (c ∷ s) d = c ∷ s

-- `_resolve_nic_bridge`
unfoldable pub resolve_nic_bridge : Text → Option ℕ → Result Text
unfolding vlan_bridge_name
resolve_nic_bridge bridge none = ok bridge
resolve_nic_bridge bridge (some zero) = ok bridge
resolve_nic_bridge bridge (some (suc n)) = vlan_bridge_name bridge (suc n)

unfoldable pub bandwidth_xml : Option ℕ → Text
bandwidth_xml none = []
bandwidth_xml (some zero) = []
bandwidth_xml (some (suc n)) =
    let average = decimal (suc n * 1000 / 8) in
    join (
      codes "<bandwidth><inbound average=\""
      ∷ average
      ∷ codes "\"/><outbound average=\""
      ∷ average
      ∷ codes "\"/></bandwidth>"
      ∷ [])

-- The three values of `_disk_source`.
unfoldable pub disk_source : StorageType → Text → Text → Text × Text × Text
unfolding escape
disk_source storage_type volume_id format =
    if is_block_backed storage_type
    then (
      codes "block",
      codes "<source dev=\"" ++ (escape volume_id ++ codes "\"/>"),
      or_text format (codes "raw"),
    )
    else (
      codes "file",
      codes "<source file=\"" ++ (escape volume_id ++ codes "\"/>"),
      or_text format (codes "qcow2"),
    )

unfoldable pub next_device_name : Text → ℕ → Text
next_device_name prefix index = prefix ++ (97 + index) ∷ []

-- One round of the loop over the disks.
unfoldable pub domain_disk_xml : ℕ → DiskEntry → Text
unfolding disk_source next_device_name
domain_disk_xml index disk =
    let device_name =
      or_text (codes disk.device) (next_device_name (bus_device_prefix disk.bus) index) in
    let (type_attr, source_xml, driver_format) =
      disk_source disk.storage_type (codes disk.volume_id) (codes disk.format) in
    join (
      codes "<disk type=\""
      ∷ type_attr
      ∷ codes "\" device=\"disk\"><driver name=\"qemu\" type=\""
      ∷ driver_format
      ∷ codes "\""
      ∷ (if disk.discard then codes " discard=\"unmap\"" else [])
      ∷ (if disk.iothread then codes " iothread=\"1\"" else [])
      ∷ codes "/>"
      ∷ source_xml
      ∷ codes "<target dev=\""
      ∷ device_name
      ∷ codes "\" bus=\""
      ∷ bus_xml_name disk.bus
      ∷ codes "\"/>"
      ∷ (if disk.readonly then codes "<readonly/>" else [])
      ∷ codes "</disk>"
      ∷ [])

abbrev pub disks_xml_from : ℕ → List DiskEntry → Text
disks_xml_from index [] = []
disks_xml_from index (d ∷ disks) = domain_disk_xml index d ++ disks_xml_from (index + 1) disks

-- `nic["model"].lower()`
abbrev pub model_name : NicModel → Text
model_name NicModel.virtio = codes "virtio"
model_name e1000 = codes "e1000"

-- `build_nic_xml`, of which the loop over the NICs writes the same but for escaping the model.
unfoldable pub build_nic_xml : Text → Text → Text → Option ℕ → Text
unfolding escape bandwidth_xml
build_nic_xml bridge mac_address model rate_limit_mbps = join (
    codes "<interface type=\"bridge\"><source bridge=\""
    ∷ escape bridge
    ∷ codes "\"/><mac address=\""
    ∷ escape mac_address
    ∷ codes "\"/><model type=\""
    ∷ escape model
    ∷ codes "\"/>"
    ∷ bandwidth_xml rate_limit_mbps
    ∷ codes "</interface>"
    ∷ [])

-- One round of the loop over the NICs.
unfoldable pub domain_nic_xml : Text → NicEntry → Text
unfolding escape bandwidth_xml
domain_nic_xml bridge nic = join (
    codes "<interface type=\"bridge\"><source bridge=\""
    ∷ escape bridge
    ∷ codes "\"/><mac address=\""
    ∷ escape (codes nic.mac_address)
    ∷ codes "\"/><model type=\""
    ∷ model_name nic.model
    ∷ codes "\"/>"
    ∷ bandwidth_xml nic.rate_limit_mbps
    ∷ codes "</interface>"
    ∷ [])

abbrev pub put_before : Text → Result Text → Result Text
put_before xml (ok rest) = ok (xml ++ rest)
put_before xml (err e) = err e

-- The loop over the NICs; a bad VLAN bridge name raises.
unfoldable pub nics_xml_of : List NicEntry → Result Text
unfolding resolve_nic_bridge domain_nic_xml
nics_xml_of [] = ok []
nics_xml_of (n ∷ nics) = elim (resolve_nic_bridge (codes n.bridge) n.vlan) [
  | err e ↦ err e
  | ok bridge ↦ put_before (domain_nic_xml bridge n) (nics_xml_of nics)
]
