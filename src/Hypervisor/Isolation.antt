-- ===== src/Hypervisor/Isolation.antt =====
-- The names of the bridges of VLANs.
use node_pilot.Common.{
  ℕ, zero, suc, ◌+◌, ◌*◌, ◌-◌, ◌/◌, ◌%◌, ◌<◌, ◌≡◌, ◌≢◌, refl, sym, ap, ◌∙◌, Bool, true, false, not,
  Option, none, some, [], ◌∷◌, ◌++◌, ◌==◌, ltb, if◌then◌else◌, arith, Bool-cases, inl, inr, all,
}
use node_pilot.Common.Exec.{ok}
use node_pilot.Hypervisor.Text.{Text, digits, decimal}
use node_pilot.Hypervisor.Network.{validate_iface, vlan_interface_name, vlan_bridge_name}

-- The number that digits spell, after those read so far.
abbrev spelled : ℕ → Text → ℕ
spelled n [] = n
spelled n (c ∷ s) = spelled (n * 10 + (c - 48)) s

spelled-append : (n : ℕ) (s t : Text) → spelled n (s ++ t) ≡ spelled (spelled n s) t
spelled-append n [] t = refl
spelled-append n (c ∷ s) t = spelled-append (n * 10 + (c - 48)) s t

spelled-digits :
    (fuel n : ℕ) (later : Text) → n < fuel → spelled 0 (digits fuel n later) ≡ spelled n later
unfolding digits
spelled-digits zero n later h = absurd (omega arith)
spelled-digits (suc fuel) n later h = elim (Bool-cases (ltb n 10)) [
  | inl last ↦ rw last (ap (λ k. spelled k later) (ground arith))
  | inr more ↦ rw more (
      spelled-digits fuel (n / 10) ((48 + n % 10) ∷ later) (ground arith)
      ∙ ap (λ k. spelled k later) (omega arith))
]

abbrev not_dot : ℕ → Bool
not_dot c = not (c == 46)

-- The digits and what stands behind them pass any test that all digits pass.
digits-all :
    (p : ℕ → Bool) (fuel n : ℕ) (later : Text)
    → ((k : ℕ) → k < 10 → p (48 + k) ≡ true)
    → all p later ≡ true
    → all p (digits fuel n later) ≡ true
unfolding digits
digits-all p zero n later ok_digit h = h
digits-all p (suc fuel) n later ok_digit h =
    let first : p (48 + n % 10) ≡ true = ok_digit (n % 10) (omega arith) in
    elim (Bool-cases (ltb n 10)) [
      | inl last ↦ rw (last, first) h
      | inr more ↦
          rw more (digits-all p fuel (n / 10) ((48 + n % 10) ∷ later) ok_digit (rw first h))
    ]

all-append_end : (p : ℕ → Bool) (s : Text) (c : ℕ) → p c ≡ false → all p (s ++ c ∷ []) ≡ false
all-append_end p [] c h = rw h
all-append_end p (d ∷ s) c h = ground (arith, all-append_end p s c h)

-- What stands before and behind the last dot.
abbrev with_first : ℕ → Text × Text → Text × Text
with_first c (before, behind) = (c ∷ before, behind)

abbrev at_last_dot : Text → Option (Text × Text)
at_last_dot [] = none
at_last_dot (c ∷ s) = elim (at_last_dot s) [
  | some p ↦ some (with_first c p)
  | none ↦ if c == 46 then some ([], s) else none
]

at_last_dot-none : (s : Text) → all not_dot s ≡ true → at_last_dot s ≡ none
at_last_dot-none [] h = refl
at_last_dot-none (c ∷ s) h = ground (arith, at_last_dot-none s)

at_last_dot-append : (p s : Text) → all not_dot s ≡ true → at_last_dot (p ++ 46 ∷ s) ≡ some (p, s)
at_last_dot-append [] s h = rw (at_last_dot-none s h)
at_last_dot-append (c ∷ p) s h = rw (at_last_dot-append p s h)

spelled-decimal : (n : ℕ) → spelled 0 (decimal n) ≡ n
unfolding decimal
spelled-decimal n = spelled-digits (suc n) n [] (omega arith)

decimal-all :
    (p : ℕ → Bool) (n : ℕ) → ((k : ℕ) → k < 10 → p (48 + k) ≡ true) → all p (decimal n) ≡ true
unfolding decimal
decimal-all p n ok_digit = digits-all p (suc n) n [] ok_digit refl

all-append : (p : ℕ → Bool) (s t : Text) → all p s ≡ true → all p t ≡ true → all p (s ++ t) ≡ true
all-append p [] t h k = k
all-append p (c ∷ s) t h k = ground (arith, all-append p s t)

-- What stands behind the last dot of a bridge's name, and of an uplink's.
bridge_tail : (v : ℕ) → all not_dot (decimal v ++ 98 ∷ []) ≡ true
bridge_tail v =
    all-append not_dot (decimal v) (98 ∷ []) (decimal-all not_dot v (λ k h. ground arith)) refl

pub validated : (name b : Text) → validate_iface name ≡ ok b → name ≡ b
unfolding validate_iface
validated name b h = ground (arith, h)

named_bridge :
    (p : Text) (v : ℕ) (b : Text)
    → vlan_bridge_name p v ≡ ok b
    → at_last_dot b ≡ some (p, decimal v ++ 98 ∷ [])
unfolding vlan_bridge_name
named_bridge p v b h =
    ap at_last_dot (sym (validated (p ++ 46 ∷ (decimal v ++ 98 ∷ [])) b h))
    ∙ at_last_dot-append p (decimal v ++ 98 ∷ []) (bridge_tail v)

named_uplink :
    (p : Text) (v : ℕ) (b : Text)
    → vlan_interface_name p v ≡ ok b
    → at_last_dot b ≡ some (p, decimal v)
unfolding vlan_interface_name
named_uplink p v b h =
    ap at_last_dot (sym (validated (p ++ 46 ∷ decimal v) b h))
    ∙ at_last_dot-append p (decimal v) (decimal-all not_dot v (λ k h. ground arith))

some-eq : {a b : Text × Text} → some a ≡ some b → a ≡ b
some-eq h = cc

below_b : (c : ℕ) → Bool
below_b c = ltb c 98

same_tail : (v w : ℕ) → decimal v ++ 98 ∷ [] ≡ decimal w ++ 98 ∷ [] → v ≡ w
same_tail v w h = omega (
  arith,
  ap (spelled 0) h,
  spelled-append 0 (decimal v) (98 ∷ []),
  spelled-append 0 (decimal w) (98 ∷ []),
  spelled-decimal v,
  spelled-decimal w,
)

uplink_tail : (v w : ℕ) → decimal w ≢ decimal v ++ 98 ∷ []
unfolding below_b
uplink_tail v w h = ground (
  arith,
  decimal-all below_b w (λ k l. ground arith),
  ap (all below_b) h,
  all-append_end below_b (decimal v) 98 refl,
)

-- Where the agent accepts the names, two VLAN networks have the same bridge only if they have the
-- same parent bridge and the same VLAN, and no network's uplink, of whatever parent and VLAN, has
-- the name of such a bridge.
pub vlan_bridges_apart :
    (parent other third : Text) (v w x : ℕ) (bridge : Text)
    → vlan_bridge_name parent v ≡ ok bridge
    → vlan_bridge_name other w ≡ ok bridge
    → (parent ≡ other) × (v ≡ w) × (vlan_interface_name third x ≢ ok bridge)
vlan_bridges_apart parent other third v w x bridge h k =
    let one = named_bridge parent v bridge h in
    let same = some-eq (sym one ∙ named_bridge other w bridge k) in
    (
      ap (λ p. p.0) same,
      same_tail v w (ap (λ p. p.1) same),
      λ u. uplink_tail v x (ap (λ p. p.1) (some-eq (sym (named_uplink third x bridge u) ∙ one))),
    )
