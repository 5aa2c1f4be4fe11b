-- ===== src/Ipam/Agreement.antt =====
-- `find_free_ip` and `allocate_ip` (backend/apps/networks/services.py), and histories of operations
-- and requests on a subnet's addresses.
use node_pilot.Common.{
  ℕ, ◌≡◌, refl, ◌∙◌, ◌++◌, inl, inr, Bool-cases, Option-cases, ◌≢◌, String, Bool, false, Option,
  none, some, List, [], ◌∷◌, any, arith, if◌then◌else◌, ◌==◌,
}
use node_pilot.Common.Error.{Error}
use node_pilot.Common.Exec.{Result, ok, err}
use node_pilot.Ipam.Addresses.{
  allocated, available, reserved, IpAddress, IpPool, Subnet, address_range, find_address, is_free,
  try_address, try_addresses, try_pools, allocate_ip, release_ip, reserve_ip, first_free,
  find_in_pools, find_free_ip, create_address, replace_address, update_address, remove_address,
  destroy_address,
}
use node_pilot.Ipam.Allocation.{allocated_free, find-set, find-put}

abbrev address_of : Option (IpAddress × List IpAddress) → Option ℕ
address_of none = none
address_of (some (row, _)) = some row.address

address_of-try :
    (note : String) (a : ℕ) (rows : List IpAddress)
    → address_of (try_address note a rows) ≡ (if is_free rows a then some a else none)
unfolding try_address is_free
address_of-try note a rows = ground arith

address_of-addresses :
    (note : String) (xs : List ℕ) (rows : List IpAddress)
    → address_of (try_addresses note xs rows) ≡ first_free rows xs
unfolding try_addresses first_free
address_of-addresses note [] rows = refl
address_of-addresses note (a ∷ xs) rows =
    ground (arith, address_of-try note a rows, address_of-addresses note xs rows)

address_of-pools :
    (note : String) (pools : List IpPool) (rows : List IpAddress)
    → address_of (try_pools note pools rows) ≡ find_in_pools rows pools
unfolding try_pools find_in_pools
address_of-pools note [] rows = refl
address_of-pools note (p ∷ pools) rows =
    ground
      (arith, address_of-addresses note (address_range p) rows, address_of-pools note pools rows)

-- The address in the answer of an operation.
abbrev pub answer_of : Result IpAddress × Subnet → Option ℕ
answer_of (ok row, _) = some row.address
answer_of (err _, _) = none

-- With the lock free, `allocate_ip` over all pools hands out the very address that `find_free_ip`
-- shows, and raises exactly when it shows none.
pub allocates_shown :
    (note : String) (subnet : Subnet)
    → answer_of (allocate_ip false none note subnet) ≡ find_free_ip subnet
unfolding allocate_ip find_free_ip
allocates_shown note subnet = ground (arith, address_of-pools note subnet.pools subnet.addresses)

pub data Operation : Type 0 where
  allocates : Bool → Option IpPool → String → Operation
  releases : IpAddress → Operation
  reserves : Bool → Option ℕ → String → Operation
  creates : ℕ → String → Operation
  updates : ℕ → ℕ → String → Operation
  destroys : ℕ → Operation
  -- What requests on the subnet's pools leave.
  sets_pools : List IpPool → Operation

-- Whether it releases the address, or edits or deletes its row.
abbrev pub touches_address : ℕ → Operation → Bool
touches_address a (releases ip) = ip.address == a
touches_address a (updates b c note) = b == a
touches_address a (destroys b) = b == a
touches_address a _ = false

-- The subnet after an operation, whether or not it raised.
unfoldable pub operate : Operation → Subnet → Subnet
unfolding allocate_ip release_ip reserve_ip create_address update_address destroy_address
operate (allocates busy pool note) subnet = (allocate_ip busy pool note subnet).1
operate (releases ip) subnet = (release_ip ip subnet).1
operate (reserves busy a note) subnet = (reserve_ip busy a note subnet).1
operate (creates a note) subnet = (create_address a note subnet).1
operate (updates a b note) subnet = (update_address a b note subnet).1
operate (destroys a) subnet = (destroy_address a subnet).1
operate (sets_pools pools) subnet = record subnet { pools = pools }

unfoldable pub operate_all : List Operation → Subnet → Subnet
unfolding operate
operate_all [] subnet = subnet
operate_all (o ∷ os) subnet = operate_all os (operate o subnet)

allocate_err :
    (busy : Bool) (pool : Option IpPool) (note : String) (subnet subnet' : Subnet) (e : Error)
    → allocate_ip busy pool note subnet ≡ (err e, subnet')
    → subnet' ≡ subnet
unfolding allocate_ip
allocate_err busy pool note subnet subnet' e h = ground arith

not_free :
    (a : ℕ) (row : IpAddress) (rows : List IpAddress)
    → find_address a rows ≡ some row
    → row.state ≡ allocated
    → is_free rows a ≡ false
unfolding is_free
not_free a row rows h s = ground arith

allocate-keeps :
    (busy : Bool) (pool : Option IpPool) (note : String) (a : ℕ) (row : IpAddress) (subnet : Subnet)
    → find_address a subnet.addresses ≡ some row
    → row.state ≡ allocated
    → (x : Result IpAddress × Subnet) → allocate_ip busy pool note subnet ≡ x
    → find_address a x.1.addresses ≡ some row
allocate-keeps busy pool note a row subnet h s (err e, subnet') p =
    rw (allocate_err busy pool note subnet subnet' e p) h
allocate-keeps busy pool note a row subnet h s (ok r, subnet') p =
    let taken = (allocated_free busy pool note subnet subnet' r p).1 in
    let other : r.address ≢ a =
      λ q. ground (arith, q, not_free a row subnet.addresses h s, taken.was_free) in
    taken.others a other ∙ h

reserve-keeps :
    (busy : Bool) (b : Option ℕ) (note : String) (a : ℕ) (row : IpAddress) (subnet : Subnet)
    → find_address a subnet.addresses ≡ some row
    → row.state ≡ allocated
    → find_address a (reserve_ip busy b note subnet).1.addresses ≡ some row
unfolding reserve_ip
reserve-keeps busy none note a row subnet h s = h
reserve-keeps busy (some b) note a row subnet h s =
    ground
      (arith, find-put a (record { address = b; state = reserved; note = note }) subnet.addresses)

find-append :
    (a : ℕ) (row new : IpAddress) (rows : List IpAddress)
    → find_address a rows ≡ some row
    → find_address a (rows ++ new ∷ []) ≡ some row
unfolding find_address
find-append a row new [] h = cc
find-append a row new (r ∷ rows) h = ground (arith, find-append a row new rows)

find-replace :
    (a b : ℕ) (new : IpAddress) (rows : List IpAddress)
    → b == a ≡ false
    → new.address == a ≡ false
    → find_address a (replace_address b new rows) ≡ find_address a rows
unfolding find_address replace_address
find-replace a b new [] h k = refl
find-replace a b new (r ∷ rows) h k = ground (arith, find-replace a b new rows)

find-remove :
    (a b : ℕ) (rows : List IpAddress)
    → b == a ≡ false
    → find_address a (remove_address b rows) ≡ find_address a rows
unfolding find_address remove_address
find-remove a b [] h = refl
find-remove a b (r ∷ rows) h = ground (arith, find-remove a b rows)

create-keeps :
    (a b : ℕ) (note : String) (row : IpAddress) (subnet : Subnet)
    → find_address a subnet.addresses ≡ some row
    → find_address a (create_address b note subnet).1.addresses ≡ some row
unfolding create_address
create-keeps a b note row subnet h = ground (
  arith,
  find-append a row (record { address = b; state = available; note = note }) subnet.addresses h,
)

-- Another row cannot be moved to an address that has one.
update-keeps :
    (a b c : ℕ) (note : String) (row : IpAddress) (subnet : Subnet)
    → find_address a subnet.addresses ≡ some row
    → b == a ≡ false
    → find_address a (update_address b c note subnet).1.addresses ≡ some row
unfolding update_address
update-keeps a b c note row subnet h k = elim (Bool-cases (c == a)) [
  | inl here ↦ ground (arith, k, here, h)
  | inr other ↦ elim (Option-cases (find_address b subnet.addresses)) [
    | inl none_is ↦ ground (arith, none_is, h)
    | inr (old, some_is) ↦
        ground (
          arith,
          find-replace a b (record old { address = c; note = note }) subnet.addresses k other,
        )
  ]
]

operate-keeps :
    (o : Operation) (a : ℕ) (row : IpAddress) (subnet : Subnet)
    → find_address a subnet.addresses ≡ some row
    → row.state ≡ allocated
    → touches_address a o ≡ false
    → find_address a (operate o subnet).addresses ≡ some row
unfolding operate release_ip destroy_address
operate-keeps (allocates busy pool note) a row subnet h s r =
    allocate-keeps busy pool note a row subnet h s (allocate_ip busy pool note subnet) refl
operate-keeps (releases ip) a row subnet h s r =
    ground (arith, find-set a (record ip { state = available; note = "" }) subnet.addresses)
operate-keeps (reserves busy b note) a row subnet h s r = reserve-keeps busy b note a row subnet h s
operate-keeps (creates b note) a row subnet h s r = create-keeps a b note row subnet h
operate-keeps (updates b c note) a row subnet h s r = update-keeps a b c note row subnet h r
operate-keeps (destroys b) a row subnet h s r = find-remove a b subnet.addresses r ∙ h
operate-keeps (sets_pools pools) a row subnet h s r = h

-- An address that is ALLOCATED keeps its row through any allocations, reservations, releases and
-- requests on the addresses and pools of its subnet, those that raise included, as long as none of
-- them releases it, edits its row or deletes it; so it is handed out to nobody else meanwhile.
pub allocated_kept :
    (os : List Operation) (a : ℕ) (row : IpAddress) (subnet : Subnet)
    → find_address a subnet.addresses ≡ some row
    → row.state ≡ allocated
    → any (touches_address a) os ≡ false
    → (find_address a (operate_all os subnet).addresses ≡ some row)
      × (is_free (operate_all os subnet).addresses a ≡ false)
unfolding operate_all
allocated_kept [] a row subnet h s r = (h, not_free a row subnet.addresses h s)
allocated_kept (o ∷ os) a row subnet h s r =
    allocated_kept os a row (operate o subnet)
      (operate-keeps o a row subnet h s (ground (arith, r))) s (ground (arith, r))
