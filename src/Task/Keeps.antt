-- ===== src/Task/Keeps.antt =====
-- Postconditions of task code, by how it ends, with one rule for each way to build it.
use node_pilot.Common.{◌≡◌, refl, inl, inr, Bool, true, false, List, [], ◌∷◌, Bool-cases}
use node_pilot.Common.Error.{Error}
use node_pilot.Common.Exec.{Result, ok, err, Exec, pure, gets, catch, when, for_each, ◌>>=◌}
use node_pilot.Task.World.{World, Lock, with_lock, acquired, released}

abbrev pub Ends : {S A : Type 0} → (S → Type 0) → (Error → S → Type 0) → Result A × S → Type 0
Ends Q E (ok _, s) = Q s
Ends Q E (err e, s) = E e s

pub Ends-by :
    {S A : Type 0} (Q : S → Type 0) (E : Error → S → Type 0) (x : Result A × S)
    → ((a : A) → x.0 ≡ ok a → Q x.1)
    → ((e : Error) → x.0 ≡ err e → E e x.1)
    → Ends {A = A} Q E x
Ends-by Q E (ok a, s) q e = q a refl
Ends-by Q E (err x, s) q e = e x refl

-- `m` from a state with `P` ends in one with `Q` if it returns, with `E` if it raises.
pub record Runs {S A : Type 0} (P Q : S → Type 0) (E : Error → S → Type 0) (m : Exec S A)
    : Type 0 where
  pub at : (s : S) → P s → Ends Q E (m s)

pub Runs-by :
    {S A : Type 0} {P Q : S → Type 0} {E : Error → S → Type 0} (m : Exec S A)
    → ((s : S) → P s → (a : A) → (m s).0 ≡ ok a → Q (m s).1)
    → ((s : S) → P s → (e : Error) → (m s).0 ≡ err e → E e (m s).1)
    → Runs P Q E m
Runs-by {Q = Q} {E = E} m q e = record { at = λ s h. Ends-by Q E (m s) (q s h) (e s h) }

module _ {S A B : Type 0} {M Q : S → Type 0} {E : Error → S → Type 0} where
  bind-Ends :
      (x : Result A × S) (f : A → Exec S B)
      → Ends {A = A} M E x
      → ((a : A) → Runs M Q E (f a))
      → Ends {A = B} Q E (elim x.0 [ ok a ↦ f a x.1 | err e ↦ (err e, x.1) ])
  bind-Ends (ok a, s) f h k = (k a).at s h
  bind-Ends (err e, s) f h k = h

  bind_value-Ends :
      (x : Result A × S) (f : A → Exec S B)
      → Ends {A = A} M E x
      → ((a : A) → x.0 ≡ ok a → Runs M Q E (f a))
      → Ends {A = B} Q E (elim x.0 [ ok a ↦ f a x.1 | err e ↦ (err e, x.1) ])
  bind_value-Ends (ok a, s) f h k = (k a refl).at s h
  bind_value-Ends (err e, s) f h k = h

module _ {S A B : Type 0} {P M Q : S → Type 0} {E : Error → S → Type 0} where
  pub Runs-bind :
      (m : Exec S A) (f : A → Exec S B)
      → Runs P M E m
      → ((a : A) → Runs M Q E (f a))
      → Runs P Q E (m >>= f)
  Runs-bind m f km kf = record { at = λ s h. bind-Ends (m s) f (km.at s h) kf }

module _ {S A B : Type 0} {P M Q : S → Type 0} {E : Error → S → Type 0} (V : A → Type 0) where
  -- The rule for `>>=` where what follows relies on the value.
  pub Runs-bind_value :
      (m : Exec S A) (f : A → Exec S B)
      → ((s : S) (a : A) → (m s).0 ≡ ok a → V a)
      → Runs P M E m
      → ((a : A) → V a → Runs M Q E (f a))
      → Runs P Q E (m >>= f)
  Runs-bind_value m f v km kf = record {
    at = λ s h. bind_value-Ends (m s) f (km.at s h) (λ a e. kf a (v s a e));
  }

module _ {S A : Type 0} {Q : S → Type 0} {M E : Error → S → Type 0} where
  catch-Ends :
      (x : Result A × S) (f : Error → Exec S A)
      → Ends {A = A} Q M x
      → ((e : Error) → Runs (M e) Q E (f e))
      → Ends {A = A} Q E (elim x.0 [ ok a ↦ (ok a, x.1) | err e ↦ f e x.1 ])
  catch-Ends (ok a, s) f h k = h
  catch-Ends (err e, s) f h k = (k e).at s h

module _ {S A : Type 0} {P Q : S → Type 0} {M E : Error → S → Type 0} where
  pub Runs-catch :
      (m : Exec S A) (f : Error → Exec S A)
      → Runs P Q M m
      → ((e : Error) → Runs (M e) Q E (f e))
      → Runs P Q E (catch m f)
  Runs-catch m f km kf = record { at = λ s h. catch-Ends (m s) f (km.at s h) kf }

module _ {S A : Type 0} {Q Q' : S → Type 0} {E E' : Error → S → Type 0} where
  weaken-Ends :
      (x : Result A × S)
      → ((s : S) → Q s → Q' s)
      → ((x : Error) (s : S) → E x s → E' x s)
      → Ends {A = A} Q E x
      → Ends {A = A} Q' E' x
  weaken-Ends (ok a, s) q e h = q s h
  weaken-Ends (err x, s) q e h = e x s h

module _ {S A : Type 0} {P Q P' Q' : S → Type 0} {E E' : Error → S → Type 0} where
  pub Runs-weaken :
      (m : Exec S A)
      → ((s : S) → P' s → P s)
      → ((s : S) → Q s → Q' s)
      → ((x : Error) (s : S) → E x s → E' x s)
      → Runs P Q E m
      → Runs P' Q' E' m
  Runs-weaken m p q e k = record { at = λ s h. weaken-Ends (m s) q e (k.at s (p s h)) }

module _ {S A : Type 0} {P : S → Type 0} {E : Error → S → Type 0} where
  pub Runs-pure : (a : A) → Runs P P E (pure a)
  Runs-pure a = record { at = λ s h. h }

  pub Runs-gets : (f : S → A) → Runs P P E (gets f)
  Runs-gets f = record { at = λ s h. h }

module _ {S : Type 0} {P : S → Type 0} {E : Error → S → Type 0} where
  pub Runs-when : (c : Bool) (m : Exec S (Unit {0})) → Runs P P E m → Runs P P E (when c m)
  Runs-when true m k = k
  Runs-when false m k = Runs-pure tt

  pub Runs-for_each :
      {A : Type 0} (xs : List A) (body : A → Exec S (Unit {0}))
      → ((x : A) → Runs P P E (body x))
      → Runs P P E (for_each xs body)
  unfolding for_each
  Runs-for_each [] body k = Runs-pure tt
  Runs-for_each (x ∷ xs) body k =
      Runs-bind (body x) (λ _. for_each xs body) (k x) (λ _. Runs-for_each xs body k)

module _ {S A : Type 0} {Q : S → Type 0} {E : Error → S → Type 0} (Q' : S → Type 0)
    (E' : Error → S → Type 0) where
  finally-Ends :
      (x : Result A × S) (f : S → S)
      → ((s : S) → Q s → Q' (f s))
      → ((e : Error) (s : S) → E e s → E' e (f s))
      → Ends {A = A} Q E x
      → Ends {A = A} Q' E' (x.0, f x.1)
  finally-Ends (ok a, s) f q e h = q s h
  finally-Ends (err x, s) f q e h = e x s h

module _ {P R A : Type 0} {B I Q J : World P R → Type 0} {D E : Error → World P R → Type 0} where
  -- `with_lock` from its body, which begins in `I` and ends in `J` or `D`.
  pub lock-Runs :
      (l : Lock) (body : Exec (World P R) A)
      → ((w : World P R) → B w → I (acquired l w))
      → ((w : World P R) → J w → Q (released l w))
      → ((e : Error) (w : World P R) → D e w → E e (released l w))
      → ((e : Error) (w : World P R) → B w → E e w)
      → Runs I J D body
      → Runs B Q E (with_lock l body)
  unfolding with_lock
  lock-Runs l body b q e fails k = record {
    at = λ w h. elim (Bool-cases (w.busy l)) [
      | inl taken ↦ rw taken (fails _ w h)
      | inr free ↦
          rw free
            (finally-Ends Q E (body (acquired l w)) (released l) q e (k.at (acquired l w) (b w h)))
    ];
  }

module _ {S A : Type 0} (Q Q' : S → Type 0) (E E' : Error → S → Type 0) where
  both-Ends :
      (x : Result A × S)
      → Ends {A = A} Q E x
      → Ends {A = A} Q' E' x
      → Ends {A = A} (λ s. Q s × Q' s) (λ e s. E e s × E' e s) x
  both-Ends (ok a, s) h k = (h, k)
  both-Ends (err x, s) h k = (h, k)

module _ {S A : Type 0} {P Q P' Q' : S → Type 0} {E E' : Error → S → Type 0} where
  pub Runs-both :
      (m : Exec S A)
      → Runs P Q E m
      → Runs P' Q' E' m
      → Runs (λ s. P s × P' s) (λ s. Q s × Q' s) (λ e s. E e s × E' e s) m
  Runs-both m k k' = record { at = λ s h. both-Ends Q Q' E E' (m s) (k.at s h.0) (k'.at s h.1) }
