-- ===== src/Hypervisor/Text.antt =====
-- Texts as lists of code points, which tactics read, and what the agent does with them.
use node_pilot.Common.{
  ℕ, zero, suc, ◌+◌, ◌/◌, ◌%◌, List, [], ◌∷◌, ◌++◌, String, ltb, ◌==◌, if◌then◌else◌,
}
use Prim.Native.Char.{code}

abbrev pub Text : Type 0
Text = List ℕ

abbrev pub codes : String → Text
codes String.[] = []
codes (String.◌∷◌ c s) = code c ∷ codes s

-- `"".join(...)`, and what an f-string of such parts gives.
abbrev pub join : List Text → Text
join [] = []
join (part ∷ parts) = part ++ join parts

-- `str.replace` of one character.
unfoldable pub replace : ℕ → Text → Text → Text
replace old new [] = []
replace old new (c ∷ s) = (if c == old then new else c ∷ []) ++ replace old new s

-- `str` of a number: `fuel` bounds its digits.
unfoldable pub digits : ℕ → ℕ → Text → Text
digits zero n later = later
digits (suc fuel) n later =
    let rest = digits fuel (n / 10) ((48 + n % 10) ∷ later) in
    if ltb n 10 then (48 + n % 10) ∷ later else rest

unfoldable pub decimal : ℕ → Text
unfolding digits
decimal n = digits (suc n) n []
