-- ===== src/Host/Facts.antt =====
-- What Python's tests of texts mean.
use node_pilot.Common.{
  ℕ, true, [], ◌∷◌, ◌++◌, ◌==◌, ◌≡◌, refl, ap, ◌⊎◌, inl, inr, arith, Bool-cases,
}
use node_pilot.Hypervisor.Text.{Text}
use node_pilot.Host.Names.{same_text, starts_with, text_before}

pub same_text-eq : (s t : Text) → same_text s t ≡ true → s ≡ t
same_text-eq [] [] h = refl
same_text-eq [] (d ∷ t) h = cc
same_text-eq (c ∷ s) [] h = cc
same_text-eq (c ∷ s) (d ∷ t) h = ground (arith, same_text-eq s t)

pub same_text_refl : (s : Text) → same_text s s ≡ true
same_text_refl [] = refl
same_text_refl (c ∷ s) = ground (arith, same_text_refl s)

pub starts_with-append : (s t : Text) → starts_with s t ≡ true → (rest : Text) × (s ≡ t ++ rest)
starts_with-append s [] h = (s, refl)
starts_with-append [] (d ∷ t) h = absurd cc
starts_with-append (c ∷ s) (d ∷ t) h =
    let (rest, e) = starts_with-append s t (ground arith) in (rest, ground (arith, e))

pub starts_with_self : (t rest : Text) → starts_with (t ++ rest) t ≡ true
starts_with_self [] [] = refl
starts_with_self [] (c ∷ rest) = refl
starts_with_self (d ∷ t) rest = ground (arith, starts_with_self t rest)

-- A volume whose text up to the first slash is `vg`: the group itself, or something in it.
pub text_before-cases :
    (c : ℕ) (s : Text) → (s ≡ text_before c s) ⊎ ((rest : Text) × (s ≡ text_before c s ++ c ∷ rest))
text_before-cases c [] = inl refl
text_before-cases c (d ∷ s) = elim (Bool-cases (d == c)) [
  | inl here ↦ inr (s, rw here (ground arith))
  | inr later ↦ elim (text_before-cases c s) [
    | inl e ↦ inl (rw later (ap (λ t. d ∷ t) e))
    | inr (rest, e) ↦ inr (rest, rw later (ap (λ t. d ∷ t) e))
  ]
]
