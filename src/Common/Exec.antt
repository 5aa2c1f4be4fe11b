-- ===== src/Common/Exec.antt =====
-- Code that reads and writes rows and may raise. What was written before a raise stays written,
-- so the state comes back beside the error too.
use mathlib.Core.Bool.{Bool, true, false}
use mathlib.Core.List.{List, [], ◌∷◌}
use mathlib.Core.Path.{◌≡◌, refl, ap}
use mathlib.Core.Logic.{◌⊎◌, inl, inr}
use node_pilot.Common.Tests.{if◌then◌else◌}
use node_pilot.Common.Error.{Error}

pub data Result {ℓ} (A : Type ℓ) : Type ℓ where
  ok : A → Result A
  err : Error → Result A

abbrev pub Exec : Type 0 → Type 0 → Type 0
Exec S A = S → Result A × S

module _ {S A : Type 0} where
  abbrev pub pure : A → Exec S A
  pure a s = (ok a, s)

  abbrev pub raise : Error → Exec S A
  raise e s = (err e, s)

  abbrev pub lift : Result A → Exec S A
  lift r s = (r, s)

  abbrev pub gets : (S → A) → Exec S A
  gets f s = (ok (f s), s)

  -- `try: m` with `except Exception as e: handler e`, the handler from the state that `m` left.
  abbrev pub catch : Exec S A → (Error → Exec S A) → Exec S A
  catch m handler s = let (r, s') = m s in elim r [ ok a ↦ (ok a, s') | err e ↦ handler e s' ]

  -- `try: m` with `finally: f`, on return and on raise.
  abbrev pub finally : Exec S A → (S → S) → Exec S A
  finally m f s = let (r, s') = m s in (r, f s')

abbrev pub modify : {S : Type 0} → (S → S) → Exec S (Unit {0})
modify f s = (ok tt, f s)

abbrev pub raise_if : {S : Type 0} → Bool → Error → Exec S (Unit {0})
raise_if c e s = (if c then err e else ok tt, s)

infixl 5 ◌>>=◌ ◌>>◌
abbrev pub ◌>>=◌ : {S A B : Type 0} → Exec S A → (A → Exec S B) → Exec S B
◌>>=◌ m f s = let (r, s') = m s in elim r [ ok a ↦ f a s' | err e ↦ (err e, s') ]

abbrev pub ◌>>◌ : {S A B : Type 0} → Exec S A → Exec S B → Exec S B
m >> k = m >>= λ _. k

abbrev pub when : {S : Type 0} → Bool → Exec S (Unit {0}) → Exec S (Unit {0})
when true m = m
when false m = pure tt

-- `for x in xs: body x`
unfoldable pub for_each : {S A : Type 0} → List A → (A → Exec S (Unit {0})) → Exec S (Unit {0})
for_each [] body = pure tt
for_each (x ∷ xs) body = body x >> for_each xs body

unfoldable pub is_ok {ℓ} : {A : Type ℓ} → Result A → Bool
is_ok (ok _) = true
is_ok (err _) = false

pub Result-cases :
    {A : Type 0} (r : Result A) → ((e : Error) × (r ≡ err e)) ⊎ ((a : A) × (r ≡ ok a))
Result-cases (err e) = inl (e, refl)
Result-cases (ok a) = inr (a, refl)

module _ {S A B : Type 0} where
  bound-ok :
      (x : Result A × S) (f : A → Exec S B) (b : B)
      → (elim x.0 as (λ _. Result B × S) [ ok a ↦ f a x.1 | err e ↦ (err e, x.1) ]).0 ≡ ok b
      → (a : A) × (x.0 ≡ ok a) × ((f a x.1).0 ≡ ok b)
  bound-ok (ok a, s) f b h = (a, refl, h)
  bound-ok (err e, s) f b h = absurd cc

  -- Where `m >>= f` returns, `m` returned what `f` went on from.
  pub bind-ok :
      (m : Exec S A) (f : A → Exec S B) (s : S) (b : B)
      → ((m >>= f) s).0 ≡ ok b
      → (a : A) × ((m s).0 ≡ ok a) × ((f a (m s).1).0 ≡ ok b)
  bind-ok m f s b = bound-ok (m s) f b

  -- What `m >>= f` does where it is known how `m` ends.
  pub bind_step :
      (m : Exec S A) (f : A → Exec S B) (s : S) (a : A) (s' : S)
      → m s ≡ (ok a, s')
      → (m >>= f) s ≡ f a s'
  bind_step m f s a s' h =
      ap
        (λ (x : Result A × S). elim x.0 as (λ _. Result B × S) [
          | ok a ↦ f a x.1
          | err e ↦ (err e, x.1)
        ])
        h

  pub bind_stop :
      (m : Exec S A) (f : A → Exec S B) (s : S) (e : Error) (s' : S)
      → m s ≡ (err e, s')
      → (m >>= f) s ≡ (err e, s')
  bind_stop m f s e s' h =
      ap
        (λ (x : Result A × S). elim x.0 as (λ _. Result B × S) [
          | ok a ↦ f a x.1
          | err e ↦ (err e, x.1)
        ])
        h
