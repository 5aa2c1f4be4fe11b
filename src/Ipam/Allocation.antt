-- ===== src/Ipam/Allocation.antt =====
-- What the operations on addresses do to the table, and which address is handed out.
use node_pilot.Common.{
  ℕ, ◌≡◌, refl, ◌≢◌, ◌⊎◌, inl, inr, String, Bool, true, false, Option, none, some, List, [], ◌∷◌,
  ◌++◌, any, arith, ◌==◌, Option-cases,
}
use node_pilot.Common.Exec.{ok}
use node_pilot.Ipam.Addresses.{
  allocated, IpAddress, IpPool, Subnet, address_range, find_address, set_address, put_address,
  is_available, is_free, try_address, try_addresses, try_pools, pools_of, allocate_ip,
}

pub find-set :
    (b : ℕ) (new : IpAddress) (rows : List IpAddress)
    → new.address ≢ b
    → find_address b (set_address new rows) ≡ find_address b rows
unfolding find_address set_address
find-set b new [] h = refl
find-set b new (row ∷ rows) h = ground (arith, find-set b new rows h)

pub find-put :
    (b : ℕ) (new : IpAddress) (rows : List IpAddress)
    → new.address ≢ b
    → find_address b (put_address new rows) ≡ find_address b rows
unfolding find_address put_address
find-put b new [] h = ground arith
find-put b new (row ∷ rows) h = ground (arith, find-put b new rows h)

find-append :
    (b : ℕ) (new : IpAddress) (rows : List IpAddress)
    → new.address ≢ b
    → find_address b (rows ++ new ∷ []) ≡ find_address b rows
unfolding find_address
find-append b new [] h = ground arith
find-append b new (row ∷ rows) h = ground (arith, find-append b new rows h)

find_new-set :
    (new row : IpAddress) (rows : List IpAddress)
    → find_address new.address rows ≡ some row
    → find_address new.address (set_address new rows) ≡ some new
unfolding find_address set_address
find_new-set new row [] h = ground arith
find_new-set new row (r ∷ rows) h = ground (arith, find_new-set new row rows)

find_new-append :
    (new : IpAddress) (rows : List IpAddress)
    → find_address new.address rows ≡ none
    → find_address new.address (rows ++ new ∷ []) ≡ some new
unfolding find_address
find_new-append new [] h = ground arith
find_new-append new (r ∷ rows) h = ground (arith, find_new-append new rows)

-- What handing out `row` makes of the table.
pub record IsTaken (before after : List IpAddress) (row : IpAddress) : Type 0 where
  pub was_free : is_free before row.address ≡ true
  pub now_row : find_address row.address after ≡ some row
  pub now_allocated : row.state ≡ allocated
  pub others : (b : ℕ) → row.address ≢ b → find_address b after ≡ find_address b before

-- The two ways in which an address is handed out.
try_address-cases :
    (note : String) (a : ℕ) (rows after : List IpAddress) (row : IpAddress)
    → try_address note a rows ≡ some (row, after)
    → (row ≡ record { address = a; state = allocated; note = note })
      × (((find_address a rows ≡ none) × (after ≡ rows ++ row ∷ []))
          ⊎ ((old : IpAddress) × (find_address a rows ≡ some old)
              × (is_available old.state ≡ true)
              × (after ≡ set_address row rows)))
unfolding try_address
try_address-cases note a rows after row h = elim (Option-cases (find_address a rows)) [
  | inl p ↦ (ground (arith, p, h), inl (p, ground (arith, p, h)))
  | inr (old, p) ↦ (ground (arith, p, h), inr (old, p, ground (arith, p, h), ground (arith, p, h)))
]

added-IsTaken :
    (rows : List IpAddress) (row : IpAddress)
    → row.state ≡ allocated
    → find_address row.address rows ≡ none
    → IsTaken rows (rows ++ row ∷ []) row
unfolding is_free
added-IsTaken rows row s p = record {
  was_free = ground (arith, p);
  now_row = find_new-append row rows p;
  now_allocated = s;
  others = λ b d. find-append b row rows d;
}

reused-IsTaken :
    (rows : List IpAddress) (row old : IpAddress)
    → row.state ≡ allocated
    → find_address row.address rows ≡ some old
    → is_available old.state ≡ true
    → IsTaken rows (set_address row rows) row
unfolding is_free
reused-IsTaken rows row old s p free = record {
  was_free = ground (arith, p, free);
  now_row = find_new-set row old rows p;
  now_allocated = s;
  others = λ b d. find-set b row rows d;
}

try_address-IsTaken :
    (note : String) (a : ℕ) (rows after : List IpAddress) (row : IpAddress)
    → try_address note a rows ≡ some (row, after)
    → (row.address ≡ a) × IsTaken rows after row
try_address-IsTaken note a rows after row h =
    let (made, ways) = try_address-cases note a rows after row h in
    let here : row.address ≡ a = ground (arith, made) in
    let state : row.state ≡ allocated = ground (arith, made) in
    (
      here,
      elim ways [
        | inl (p, q) ↦ rw q (added-IsTaken rows row state (rw here p))
        | inr (old, p, free, q) ↦ rw q (reused-IsTaken rows row old state (rw here p) free)
      ],
    )

-- Whether an address is in one of the pools.
abbrev pub in_pools : ℕ → List IpPool → Bool
unfolding address_range
in_pools a pools = any (λ p. any (λ b. b == a) (address_range p)) pools

try_addresses-IsTaken :
    (note : String) (xs : List ℕ) (rows after : List IpAddress) (row : IpAddress)
    → try_addresses note xs rows ≡ some (row, after)
    → (any (λ b. b == row.address) xs ≡ true) × IsTaken rows after row
unfolding try_addresses
try_addresses-IsTaken note [] rows after row h = ground arith
try_addresses-IsTaken note (a ∷ xs) rows after row h =
    elim (Option-cases (try_address note a rows)) [
      | inl p ↦
          let rest = try_addresses-IsTaken note xs rows after row (ground (arith, p, h)) in
          (ground (arith, rest.0), rest.1)
      | inr (found, p) ↦
          let taken = try_address-IsTaken note a rows after row (ground (arith, p, h)) in
          (ground (arith, taken.0), taken.1)
    ]

try_pools-IsTaken :
    (note : String) (pools : List IpPool) (rows after : List IpAddress) (row : IpAddress)
    → try_pools note pools rows ≡ some (row, after)
    → (in_pools row.address pools ≡ true) × IsTaken rows after row
unfolding try_pools
try_pools-IsTaken note [] rows after row h = ground arith
try_pools-IsTaken note (p ∷ pools) rows after row h =
    elim (Option-cases (try_addresses note (address_range p) rows)) [
      | inl q ↦
          let rest = try_pools-IsTaken note pools rows after row (ground (arith, q, h)) in
          (ground (arith, rest.0), rest.1)
      | inr (found, q) ↦
          let taken =
            try_addresses-IsTaken note (address_range p) rows after row (ground (arith, q, h)) in
          (ground (arith, taken.0), taken.1)
    ]

-- An address that `allocate_ip` returns lies in one of the pools asked for and was free: it had no
-- row, or an AVAILABLE one. It is then ALLOCATED, with the row returned, and no other address
-- changed.
pub allocated_free :
    (busy : Bool) (pool : Option IpPool) (note : String) (subnet subnet' : Subnet) (row : IpAddress)
    → allocate_ip busy pool note subnet ≡ (ok row, subnet')
    → (in_pools row.address (pools_of pool subnet) ≡ true)
      × IsTaken subnet.addresses subnet'.addresses row
unfolding allocate_ip
allocated_free true pool note subnet subnet' row h = ground arith
allocated_free false pool note subnet subnet' row h =
    elim (Option-cases (try_pools note (pools_of pool subnet) subnet.addresses)) [
      | inl p ↦ ground (arith, p, h)
      | inr ((r, after), p) ↦
          let same_row : r ≡ row = ground (arith, p, h) in
          let same_rows : after ≡ subnet'.addresses = ground (arith, p, h) in
          rw (← same_rows) (
            try_pools-IsTaken note (pools_of pool subnet) subnet.addresses after row
              (rw (← same_row) p))
    ]
