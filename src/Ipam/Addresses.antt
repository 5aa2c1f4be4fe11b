-- ===== src/Ipam/Addresses.antt =====
-- Subnets, pools and addresses (backend/apps/networks/models.py, services.py). An address is the
-- number that `int(ip_address(…))` gives; `parsed` in `reserve_ip` is the result of the standard
-- library's parser.
use node_pilot.Common.{
  ℕ, zero, suc, ◌-◌, String, Bool, true, false, not, ◌&&◌, Option, none, some, List, [], ◌∷◌, ◌++◌,
  if◌then◌else◌, leb, ◌==◌, is_some,
}
use node_pilot.Common.Error.{
  no_available_ip_address, invalid_reservation, lock_acquisition, validation_error, row_gone,
}
use node_pilot.Common.Exec.{Result, ok, err, Exec}

pub data IpAddressState : Type 0 where
  available allocated reserved blocked : IpAddressState

-- A row of the subnet's addresses.
pub record IpAddress : Type 0 where
  pub address : ℕ
  pub state : IpAddressState
  pub note : String

pub record IpPool : Type 0 where
  pub start_address : ℕ
  pub end_address : ℕ

-- A subnet: its network's first and last address, its pools in order, and the rows of its
-- addresses.
pub record Subnet : Type 0 where
  pub first : ℕ
  pub last : ℕ
  pub pools : List IpPool
  pub addresses : List IpAddress

-- `range(start, start + n)`
abbrev pub range_from : ℕ → ℕ → List ℕ
range_from start zero = []
range_from start (suc n) = start ∷ range_from (suc start) n

-- `IPPool.address_range`
unfoldable pub address_range : IpPool → List ℕ
address_range pool = range_from pool.start_address (suc pool.end_address - pool.start_address)

-- `IPAddress.objects.filter(subnet=…, address=…).first()`
unfoldable pub find_address : ℕ → List IpAddress → Option IpAddress
find_address a [] = none
find_address a (row ∷ rows) = if row.address == a then some row else find_address a rows

-- `save` of the row of an address.
unfoldable pub set_address : IpAddress → List IpAddress → List IpAddress
set_address new [] = []
set_address new (row ∷ rows) =
    if row.address == new.address then new ∷ rows else row ∷ set_address new rows

-- `update_or_create`
unfoldable pub put_address : IpAddress → List IpAddress → List IpAddress
put_address new [] = new ∷ []
put_address new (row ∷ rows) =
    if row.address == new.address then new ∷ rows else row ∷ put_address new rows

abbrev pub is_available : IpAddressState → Bool
is_available available = true
is_available _ = false

abbrev pub is_allocated : IpAddressState → Bool
is_allocated allocated = true
is_allocated _ = false

-- Whether an address may be handed out: it has no row, or an AVAILABLE one.
unfoldable pub is_free : List IpAddress → ℕ → Bool
unfolding find_address
is_free rows a = elim (find_address a rows) [ none ↦ true | some row ↦ is_available row.state ]

-- One address of the loop of `allocate_ip`: what it returns, if it does, and the rows.
unfoldable pub try_address : String → ℕ → List IpAddress → Option (IpAddress × List IpAddress)
unfolding find_address set_address
try_address note a rows =
    let taken : IpAddress = record { address = a; state = allocated; note = note } in
    elim (find_address a rows) [
      | none ↦ some (taken, rows ++ taken ∷ [])
      | some row ↦ if is_available row.state then some (taken, set_address taken rows) else none
    ]

unfoldable pub try_addresses :
    String → List ℕ → List IpAddress → Option (IpAddress × List IpAddress)
unfolding try_address
try_addresses note [] rows = none
try_addresses note (a ∷ as') rows = elim (try_address note a rows) [
  | some found ↦ some found
  | none ↦ try_addresses note as' rows
]

unfoldable pub try_pools :
    String → List IpPool → List IpAddress → Option (IpAddress × List IpAddress)
unfolding try_addresses address_range
try_pools note [] rows = none
try_pools note (pool ∷ pools) rows = elim (try_addresses note (address_range pool) rows) [
  | some found ↦ some found
  | none ↦ try_pools note pools rows
]

abbrev pub pools_of : Option IpPool → Subnet → List IpPool
pools_of none subnet = subnet.pools
pools_of (some pool) subnet = pool ∷ []

-- `allocate_ip`, under the subnet's lock, which `busy` says stays taken.
unfoldable pub allocate_ip : Bool → Option IpPool → String → Exec Subnet IpAddress
unfolding try_pools
allocate_ip busy pool note subnet =
    if busy
    then (err (lock_acquisition "subnet"), subnet)
    else elim (try_pools note (pools_of pool subnet) subnet.addresses) [
      | none ↦ (err no_available_ip_address, subnet)
      | some (row, rows) ↦ (ok row, record subnet { addresses = rows })
    ]

-- `release_ip`
unfoldable pub release_ip : IpAddress → Exec Subnet (Unit {0})
unfolding set_address
release_ip ip subnet = (
  ok tt,
  record subnet {
    addresses = set_address (record ip { state = available; note = "" }) subnet.addresses;
  },
)

-- `reserve_ip`
unfoldable pub reserve_ip : Bool → Option ℕ → String → Exec Subnet IpAddress
unfolding find_address put_address
reserve_ip busy none note subnet = (err invalid_reservation, subnet)
reserve_ip busy (some a) note subnet =
    if not (leb subnet.first a && leb a subnet.last)
    then (err invalid_reservation, subnet)
    else if busy
    then (err (lock_acquisition "subnet"), subnet)
    else (let new : IpAddress = record { address = a; state = reserved; note = note } in
        let put : Result IpAddress × Subnet =
          (ok new, record subnet { addresses = put_address new subnet.addresses }) in
        elim (find_address a subnet.addresses) [
          | none ↦ put
          | some row ↦ if is_allocated row.state then (err invalid_reservation, subnet) else put
        ])

-- `find_free_ip`
unfoldable pub first_free : List IpAddress → List ℕ → Option ℕ
unfolding is_free
first_free rows [] = none
first_free rows (a ∷ as') = if is_free rows a then some a else first_free rows as'

unfoldable pub find_in_pools : List IpAddress → List IpPool → Option ℕ
unfolding first_free address_range
find_in_pools rows [] = none
find_in_pools rows (pool ∷ pools) = elim (first_free rows (address_range pool)) [
  | some a ↦ some a
  | none ↦ find_in_pools rows pools
]

unfoldable pub find_free_ip : Subnet → Option ℕ
unfolding find_in_pools
find_free_ip subnet = find_in_pools subnet.addresses subnet.pools

-- The generic requests of `IPAddressViewSet` (backend/apps/networks/views.py): POST, PUT or PATCH,
-- and DELETE. `state` is read-only, and a subnet has an address once.
unfoldable pub create_address : ℕ → String → Exec Subnet (Unit {0})
unfolding find_address
create_address a note subnet = elim (find_address a subnet.addresses) [
  | some row ↦ (err validation_error, subnet)
  | none ↦ (
    ok tt,
    record subnet {
      addresses = subnet.addresses ++ (record { address = a; state = available; note = note }) ∷ [];
    },
  )
]

unfoldable pub replace_address : ℕ → IpAddress → List IpAddress → List IpAddress
replace_address a new [] = []
replace_address a new (row ∷ rows) =
    if row.address == a then new ∷ rows else row ∷ replace_address a new rows

-- The row of `a` gets another address or note.
unfoldable pub update_address : ℕ → ℕ → String → Exec Subnet (Unit {0})
unfolding find_address replace_address
update_address a b note subnet =
    let taken = is_some (find_address b subnet.addresses) in
    elim (find_address a subnet.addresses) [
      | none ↦ (err row_gone, subnet)
      | some row ↦ if not (a == b) && taken then (err validation_error, subnet) else (
        ok tt,
        record subnet {
          addresses = replace_address a (record row { address = b; note = note }) subnet.addresses;
        },
      )
    ]

unfoldable pub remove_address : ℕ → List IpAddress → List IpAddress
remove_address a [] = []
remove_address a (row ∷ rows) = if row.address == a then rows else row ∷ remove_address a rows

unfoldable pub destroy_address : ℕ → Exec Subnet (Unit {0})
unfolding remove_address
destroy_address a subnet = (ok tt, record subnet { addresses = remove_address a subnet.addresses })
