-- ===== src/Hypervisor/Domain.antt =====
-- The whole documents of agent/nodepilot_agent/domain_xml.py: a domain, a disk and a CD-ROM.
use node_pilot.Common.{ℕ, List, [], ◌∷◌, ◌++◌, map, any, String, if◌then◌else◌}
use node_pilot.Common.Exec.{Result, ok, err}
use node_pilot.Storage.Model.{StorageType}
use node_pilot.Vm.Model.{FirmwareType, bios, uefi, DiskBus}
use node_pilot.Vm.Payload.{DomainPayload}
use node_pilot.Hypervisor.Text.{Text, codes, join, decimal}
use node_pilot.Hypervisor.DomainXml.{
  bus_xml_name, boot_dev_xml_name, escape, disk_source, disks_xml_from, nics_xml_of,
}

abbrev boot_order_of : List String → List String
boot_order_of [] = "disk" ∷ []
boot_order_of (d ∷ order) = d ∷ order

abbrev boot_tag : String → Text
boot_tag d = codes "<boot dev=\"" ++ (boot_dev_xml_name d ++ codes "\"/>")

abbrev os_tag : FirmwareType → Text
os_tag bios = codes "<os>"
os_tag uefi = codes "<os firmware=\"efi\">"

-- `os_xml`
unfoldable pub os_xml : DomainPayload → Text
unfolding escape
os_xml payload = join (
    os_tag payload.firmware
    ∷ codes "<type arch=\"x86_64\" machine=\""
    ∷ escape (codes payload.machine_type)
    ∷ codes "\">hvm</type>"
    ∷ join (map boot_tag (boot_order_of payload.boot_order))
    ∷ codes "</os>"
    ∷ [])

-- The text that `build_domain_xml` returns, from the XML of the NICs.
unfoldable pub domain_xml_with : (ℕ → Text) → DomainPayload → Text → Text
unfolding escape os_xml decimal
domain_xml_with uuid_text payload nics_xml = join (
    codes "<domain type=\"kvm\"><name>"
    ∷ escape (codes payload.name)
    ∷ codes "</name><uuid>"
    ∷ uuid_text payload.domain_uuid
    ∷ codes "</uuid><memory unit=\"MiB\">"
    ∷ decimal payload.memory_mb
    ∷ codes "</memory><currentMemory unit=\"MiB\">"
    ∷ decimal payload.memory_mb
    ∷ codes "</currentMemory><vcpu placement=\"static\">"
    ∷ decimal payload.cpu_count
    ∷ codes "</vcpu>"
    ∷ (if any (λ d. d.iothread) payload.disks then codes "<iothreads>1</iothreads>" else [])
    ∷ os_xml payload
    ∷ codes "<cpu mode=\"host-passthrough\"/><on_poweroff>destroy</on_poweroff>"
    ∷ codes "<on_reboot>restart</on_reboot><on_crash>restart</on_crash><devices>"
    ∷ codes "<emulator>/usr/bin/qemu-system-x86_64</emulator>"
    ∷ disks_xml_from 0 payload.disks
    ∷ nics_xml
    ∷ codes "<console type=\"pty\"><target type=\"serial\" port=\"0\"/></console>"
    ∷ codes "<graphics type=\"vnc\" port=\"-1\" autoport=\"yes\" listen=\"127.0.0.1\"/>"
    ∷ (if payload.ballooning_enabled
        then codes "<memballoon model=\"virtio\"/>"
        else codes "<memballoon model=\"none\"/>")
    ∷ codes "</devices></domain>"
    ∷ [])

unfoldable pub build_domain_xml : (ℕ → Text) → DomainPayload → Result Text
unfolding nics_xml_of domain_xml_with
build_domain_xml uuid_text payload = elim (nics_xml_of payload.nics) [
  | err e ↦ err e
  | ok nics_xml ↦ ok (domain_xml_with uuid_text payload nics_xml)
]

unfoldable pub build_disk_xml : Text → Text → DiskBus → StorageType → Text → Text
unfolding disk_source
build_disk_xml volume_path device bus storage_type format =
    let (type_attr, source_xml, driver_format) = disk_source storage_type volume_path format in
    join (
      codes "<disk type=\""
      ∷ type_attr
      ∷ codes "\" device=\"disk\"><driver name=\"qemu\" type=\""
      ∷ driver_format
      ∷ codes "\"/>"
      ∷ source_xml
      ∷ codes "<target dev=\""
      ∷ escape device
      ∷ codes "\" bus=\""
      ∷ bus_xml_name bus
      ∷ codes "\"/></disk>"
      ∷ [])

unfoldable pub build_cdrom_xml : Text → Text → Text
unfolding escape
build_cdrom_xml iso_path device = join (
    codes "<disk type=\"file\" device=\"cdrom\"><driver name=\"qemu\" type=\"raw\"/><source file=\""
    ∷ escape iso_path
    ∷ codes "\"/><target dev=\""
    ∷ escape device
    ∷ codes "\" bus=\"sata\"/><readonly/></disk>"
    ∷ [])
