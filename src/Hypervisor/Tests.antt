-- ===== src/Hypervisor/Tests.antt =====
-- The theorems on the agent's texts at values that try to break out, and tests.
use node_pilot.Common.{ℕ, ◌≡◌, ◌≢◌, refl, inl, none, some, [], ◌∷◌, ◌++◌}
use node_pilot.Common.Error.{network_operation_error}
use node_pilot.Common.Exec.{ok, err}
use node_pilot.Storage.Model.{StorageType}
use node_pilot.Vm.Model.{DiskBus}
use node_pilot.Hypervisor.Text.{Text, codes, digits, decimal}
use node_pilot.Hypervisor.DomainXml.{escape, bandwidth_xml, next_device_name}
use node_pilot.Hypervisor.Domain.{build_disk_xml, build_cdrom_xml}
use node_pilot.Hypervisor.Quoted.{is_char, normal_char, read_value, escaped_read}
use node_pilot.Hypervisor.Network.{validate_iface, vlan_interface_name, vlan_bridge_name}
use node_pilot.Hypervisor.Isolation.{vlan_bridges_apart}

-- A path that would close its attribute and add an element.
abbrev hostile : Text
hostile = codes "/a\"/>\t<host dev='b'/>"

escaped_read_example :
    read_value 34 none (escape hostile ++ 34 ∷ codes "/>")
    ≡ some (codes "/a\"/> <host dev='b'/>", codes "/>")
unfolding is_char normal_char
escaped_read_example = escaped_read 34 hostile (codes "/>") (inl refl) refl

vlan_bridges_apart_example :
    (codes "vmbr0" ≡ codes "vmbr0")
    × (◌≡◌ {A = ℕ} 20 20)
    × (vlan_interface_name (codes "vmbr0") 20 ≢ ok (codes "vmbr0.20b"))
unfolding vlan_bridge_name decimal digits
vlan_bridges_apart_example =
    vlan_bridges_apart (codes "vmbr0") (codes "vmbr0") (codes "vmbr0") 20 20 20 (codes "vmbr0.20b")
      refl refl

cdrom_document :
    build_cdrom_xml (codes "/iso/a&b.iso") (codes "sda")
    ≡ codes
        "<disk type=\"file\" device=\"cdrom\"><driver name=\"qemu\" type=\"raw\"/><source file=\"/iso/a&amp;b.iso\"/><target dev=\"sda\" bus=\"sata\"/><readonly/></disk>"
unfolding build_cdrom_xml
cdrom_document = refl

disk_document :
    build_disk_xml (codes "/dev/vg/d") (codes "vda") DiskBus.virtio StorageType.lvm []
    ≡ codes
        "<disk type=\"block\" device=\"disk\"><driver name=\"qemu\" type=\"raw\"/><source dev=\"/dev/vg/d\"/><target dev=\"vda\" bus=\"virtio\"/></disk>"
unfolding build_disk_xml
disk_document = refl

bandwidth_document :
    bandwidth_xml (some 100)
    ≡ codes "<bandwidth><inbound average=\"12500\"/><outbound average=\"12500\"/></bandwidth>"
unfolding bandwidth_xml decimal digits
bandwidth_document = refl

-- The twenty-seventh disk gets a name that is no device.
after_the_letters : next_device_name (codes "vd") 26 ≡ codes "vd{"
unfolding next_device_name
after_the_letters = refl

-- The pattern's `$` lets a line feed through at the end.
line_feed_accepted : validate_iface (codes "eth0\n") ≡ ok (codes "eth0\n")
unfolding validate_iface
line_feed_accepted = refl

long_name_refused : vlan_bridge_name (codes "bridge-name") 1000 ≡ err network_operation_error
unfolding vlan_bridge_name decimal digits
long_name_refused = refl
