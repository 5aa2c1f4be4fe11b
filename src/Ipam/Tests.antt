-- ===== src/Ipam/Tests.antt =====
-- The theorems on addresses at concrete subnets.
use node_pilot.Common.{◌≡◌, refl, true, false, none, some, List, [], ◌∷◌}
use node_pilot.Ipam.Addresses.{
  allocated, reserved, IpAddress, Subnet, find_address, is_free, allocate_ip, find_free_ip,
}
use node_pilot.Ipam.Allocation.{in_pools, IsTaken, allocated_free}
use node_pilot.Ipam.Agreement.{
  answer_of, allocates_shown, Operation, allocates, releases, reserves, operate_all, allocated_kept,
}

abbrev gateway : IpAddress
gateway = record { address = 10; state = reserved; note = "gateway" }

abbrev lab : Subnet
lab = record {
  first = 8;
  last = 15;
  pools = record { start_address = 10; end_address = 12 } ∷ [];
  addresses = gateway ∷ [];
}

abbrev given : IpAddress
given = record { address = 11; state = allocated; note = "web" }

abbrev lab_after : Subnet
lab_after = record lab { addresses = gateway ∷ given ∷ [] }

allocated_free_example :
    (in_pools 11 lab.pools ≡ true) × IsTaken lab.addresses lab_after.addresses given
unfolding allocate_ip
allocated_free_example = allocated_free false none "web" lab lab_after given refl

allocates_shown_example : answer_of (allocate_ip false none "web" lab) ≡ find_free_ip lab
allocates_shown_example = allocates_shown "web" lab

abbrev later : List Operation
later = allocates false none "db" ∷ reserves false (some 11) "" ∷ releases gateway ∷ []

allocated_kept_example :
    (find_address 11 (operate_all later lab_after).addresses ≡ some given)
    × (is_free (operate_all later lab_after).addresses 11 ≡ false)
unfolding find_address
allocated_kept_example = allocated_kept later 11 given lab_after refl refl refl
