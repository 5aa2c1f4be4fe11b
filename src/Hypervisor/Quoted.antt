-- ===== src/Hypervisor/Quoted.antt =====
-- What a reader of XML sees of an escaped value.
use node_pilot.Common.{
  ℕ, ◌≡◌, refl, sym, ap, ◌∙◌, ◌⊎◌, inl, inr, Bool, true, false, Option, none, some, [], ◌∷◌, ◌++◌,
  ◌==◌, ◌&&◌, ◌||◌, all, map, leb, if◌then◌else◌, arith, Bool-cases,
}
use mathlib.Core.List.{append_assoc}
use node_pilot.Hypervisor.Text.{Text, codes, replace}
use node_pilot.Hypervisor.DomainXml.{escape}

abbrev pub same_text : Text → Text → Bool
same_text [] [] = true
same_text [] (d ∷ t) = false
same_text (c ∷ s) [] = false
same_text (c ∷ s) (d ∷ t) = c == d && same_text s t

-- The predefined entities of XML.
abbrev pub entity : Text → Option ℕ
entity name =
    if same_text name (codes "amp")
    then some 38
    else if same_text name (codes "lt")
    then some 60
    else if same_text name (codes "gt")
    then some 62
    else if same_text name (codes "quot")
    then some 34
    else if same_text name (codes "apos")
    then some 39
    else none

abbrev pub prepend : ℕ → Option (Text × Text) → Option (Text × Text)
prepend c none = none
prepend c (some (value, rest)) = some (c ∷ value, rest)

abbrev pub decode : Option ℕ → Option (Text × Text) → Option (Text × Text)
decode none rest = none
decode (some d) rest = prepend d rest

-- The characters of XML 1.0 once the line ends are normalised, which leaves no carriage return.
unfoldable pub is_char : ℕ → Bool
is_char c =
    c == 9
    || (c == 10
        || (leb 32 c && leb c 55295
            || (leb 57344 c && leb c 65533 || leb 65536 c && leb c 1114111)))

-- The normalisation of an attribute's value: a tab and a line feed become spaces.
unfoldable pub normal_char : ℕ → ℕ
normal_char c = if c == 9 || c == 10 then 32 else c

-- An XML reader inside an attribute's value, up to the quote that ends it, the line ends of its
-- text being normalised: the value, and the text behind. `<` and what is no character are not
-- allowed there, and `&` begins the name of an entity, which is read so far; references by number
-- are left out.
unfoldable pub read_value : ℕ → Option Text → Text → Option (Text × Text)
read_value quote name [] = none
read_value quote none (c ∷ s) =
    let rest = read_value quote none s in
    let reference = read_value quote (some []) s in
    if c == quote
    then some ([], s)
    else if c == 60
    then none
    else if c == 38
    then reference
    else if is_char c
    then prepend (normal_char c) rest
    else none
read_value quote (some name) (c ∷ s) =
    let decoded = decode (entity name) (read_value quote none s) in
    let longer = read_value quote (some (name ++ c ∷ [])) s in if c == 59 then decoded else longer

abbrev pub escape_char : ℕ → Text
escape_char c =
    if c == 38
    then codes "&amp;"
    else if c == 62
    then codes "&gt;"
    else if c == 60
    then codes "&lt;"
    else if c == 34
    then codes "&quot;"
    else if c == 39
    then codes "&apos;"
    else c ∷ []

replace-append :
    (old : ℕ) (new s t : Text) → replace old new (s ++ t) ≡ replace old new s ++ replace old new t
unfolding replace
replace-append old new [] t = refl
replace-append old new (c ∷ s) t =
    ap (λ r. (if c == old then new else c ∷ []) ++ r) (replace-append old new s t)
    ∙ sym (append_assoc (if c == old then new else c ∷ []) (replace old new s) (replace old new t))

escape-append : (s t : Text) → escape (s ++ t) ≡ escape s ++ escape t
unfolding escape
escape-append s t = simp replace-append

escape-char : (c : ℕ) → escape (c ∷ []) ≡ escape_char c
unfolding escape replace
escape-char c = ground arith

escape-cons : (c : ℕ) (s : Text) → escape (c ∷ s) ≡ escape_char c ++ escape s
escape-cons c s = escape-append (c ∷ []) s ∙ ap (λ e. e ++ escape s) (escape-char c)

-- A quote character.
abbrev pub IsQuote : ℕ → Type 0
IsQuote q = (q ≡ 34) ⊎ (q ≡ 39)

-- A character is one of the five that are escaped, or stands for itself.
IsPlain : ℕ → Type 0
IsPlain c =
    (escape_char c ≡ c ∷ [])
    × (c == 38 ≡ false)
    × (c == 60 ≡ false)
    × (c == 34 ≡ false)
    × (c == 39 ≡ false)

char_cases : (c : ℕ) → (c ≡ 38) ⊎ ((c ≡ 62) ⊎ ((c ≡ 60) ⊎ ((c ≡ 34) ⊎ ((c ≡ 39) ⊎ IsPlain c))))
unfolding IsPlain
char_cases c = elim (Bool-cases (c == 38)) [
  | inl p ↦ inl (ground arith)
  | inr a ↦ elim (Bool-cases (c == 62)) [
    | inl p ↦ inr (inl (ground arith))
    | inr b ↦ elim (Bool-cases (c == 60)) [
      | inl p ↦ inr (inr (inl (ground arith)))
      | inr d ↦ elim (Bool-cases (c == 34)) [
        | inl p ↦ inr (inr (inr (inl (ground arith))))
        | inr e ↦ elim (Bool-cases (c == 39)) [
          | inl p ↦ inr (inr (inr (inr (inl (ground arith)))))
          | inr f ↦ inr (inr (inr (inr (inr (rw (a, b, d, e, f) refl, a, d, e, f)))))
        ]
      ]
    ]
  ]
]

read-char :
    (quote c : ℕ) (t : Text)
    → IsQuote quote
    → is_char c ≡ true
    → read_value quote none (escape_char c ++ t) ≡ prepend (normal_char c) (read_value quote none t)
unfolding read_value IsPlain normal_char
read-char quote c t (inl double) h = rw double (elim (char_cases c) [
  | inl p ↦ rw p refl
  | inr (inl p) ↦ rw p refl
  | inr (inr (inl p)) ↦ rw p refl
  | inr (inr (inr (inl p))) ↦ rw p refl
  | inr (inr (inr (inr (inl p)))) ↦ rw p refl
  | inr (inr (inr (inr (inr (own, amp, lt, d, s))))) ↦
      rw (own, read_value) (rw (d, lt, amp, h) refl)
])
read-char quote c t (inr single) h = rw single (elim (char_cases c) [
  | inl p ↦ rw p refl
  | inr (inl p) ↦ rw p refl
  | inr (inr (inl p)) ↦ rw p refl
  | inr (inr (inr (inl p))) ↦ rw p refl
  | inr (inr (inr (inr (inl p)))) ↦ rw p refl
  | inr (inr (inr (inr (inr (own, amp, lt, d, s))))) ↦
      rw (own, read_value) (rw (s, lt, amp, h) refl)
])

-- An escaped value between quotes of either kind, of characters that XML allows and without carriage
-- returns, is read back with its tabs and line feeds as spaces and all else exactly, and the reading
-- ends at the closing quote, whatever stands behind: a value cannot break out of its attribute.
pub escaped_read :
    (quote : ℕ) (value rest : Text)
    → IsQuote quote
    → all is_char value ≡ true
    → read_value quote none (escape value ++ quote ∷ rest) ≡ some (map normal_char value, rest)
unfolding read_value escape replace
escaped_read quote [] rest q h = ground arith
escaped_read quote (c ∷ value) rest q h =
    ap (λ e. read_value quote none (e ++ quote ∷ rest)) (escape-cons c value)
    ∙ ap (read_value quote none) (append_assoc (escape_char c) (escape value) (quote ∷ rest))
    ∙ read-char quote c (escape value ++ quote ∷ rest) q (ground (arith, h))
    ∙ ap (prepend (normal_char c)) (escaped_read quote value rest q (ground (arith, h)))
