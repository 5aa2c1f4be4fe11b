-- ===== src/Host/LinkRules.antt =====
-- What the code of the agent's networks relies on of `ip`, and rules for commands.
use node_pilot.Common.{ℕ, Bool, true, false, not, List, ◌∷◌, ◌≡◌, refl}
use node_pilot.Common.Exec.{Result, ok, err, lift, when, ◌>>=◌}
use node_pilot.Task.Keeps.{Ends, Ends-by, Runs, Runs-bind, Runs-pure}
use node_pilot.Hypervisor.Text.{Text}
use node_pilot.Host.Links.{
  LinkCommand, show_bridge, show, add_bridge, add_vlan, set_up, remove_bridge, remove_link, ip_argv,
  Linked, Ip, must, shows, do_link, ask_link, add_new,
}

abbrev pub removes : LinkCommand → Bool
removes (remove_bridge name) = true
removes (remove_link name) = true
removes _ = false

abbrev pub IsShown : Ip → List LinkCommand → LinkCommand → Type 0
IsShown ip done query = shows (ip done (ip_argv query)) ≡ ok true

-- What the code relies on: `ip link` shows a link that was added, and shows it as long as nothing
-- is deleted.
pub record IsIp (ip : Ip) : Type 0 where
  pub bridge_added :
      (done : List LinkCommand) (name : Text)
      → must (ip done (ip_argv (add_bridge name))) ≡ ok tt
      → IsShown ip (add_bridge name ∷ done) (show_bridge name)
  pub vlan_added :
      (done : List LinkCommand) (parent name : Text) (vlan_id : ℕ)
      → must (ip done (ip_argv (add_vlan parent name vlan_id))) ≡ ok tt
      → IsShown ip (add_vlan parent name vlan_id ∷ done) (show name)
  pub kept_shown :
      (done : List LinkCommand) (c : LinkCommand) (name : Text)
      → removes c ≡ false
      → (IsShown ip done (show name) → IsShown ip (c ∷ done) (show name))
        × (IsShown ip done (show_bridge name) → IsShown ip (c ∷ done) (show_bridge name))

module _ (ip : Ip) (law : IsIp ip) where
  -- A property of the commands so far that stays as long as nothing is deleted.
  abbrev pub IsLasting : (List LinkCommand → Type 0) → Type 0
  IsLasting P =
      (done : List LinkCommand) (c : LinkCommand) → removes c ≡ false → P done → P (c ∷ done)

  abbrev pub Makes : {A : Type 0} → (P Q : List LinkCommand → Type 0) → Linked A → Type 0
  Makes P Q d = Runs P Q (λ _ _. Unit) d

  module _ {A : Type 0} (Q : List LinkCommand → Type 0) where
    lift-Ends :
        {B : Type 0} (r : Result B) (f : B → Linked A) (done : List LinkCommand)
        → ((x : B) → r ≡ ok x → Ends {A = A} Q (λ _ _. Unit) (f x done))
        → Ends {A = A} Q (λ _ _. Unit) ((lift r >>= f) done)
    lift-Ends (err e) f done k = tt
    lift-Ends (ok x) f done k = k x refl

  module _ {A : Type 0} {P Q : List LinkCommand → Type 0} where
    pub lift-Makes :
        {B : Type 0} (r : Result B) (f : B → Linked A)
        → ((x : B) → r ≡ ok x → Makes P Q (f x))
        → Makes P Q (lift r >>= f)
    lift-Makes r f k = record { at = λ done h. lift-Ends Q r f done (λ x is. (k x is).at done h) }

    pub ask-Makes :
        (q : LinkCommand) (f : Bool → Linked A)
        → removes q ≡ false
        → IsLasting P
        → IsLasting (λ done. IsShown ip done q)
        → Makes (λ done. P done × IsShown ip done q) Q (f true)
        → Makes P Q (f false)
        → Makes P Q (ask_link ip q >>= f)
    ask-Makes q f query lasts shown_lasts k l = record {
      at = λ done h.
          lift-Ends Q (shows (ip done (ip_argv q))) f (q ∷ done) λ x is. either x done h is;
    }
      where
        either :
            (x : Bool) (done : List LinkCommand)
            → P done
            → shows (ip done (ip_argv q)) ≡ ok x
            → Ends {A = A} Q (λ _ _. Unit) (f x (q ∷ done))
        either true done h is = k.at (q ∷ done) (lasts done q query h, shown_lasts done q query is)
        either false done h is = l.at (q ∷ done) (lasts done q query h)

  -- A command that must succeed.
  pub do_link-Makes :
      {P Q : List LinkCommand → Type 0} (c : LinkCommand)
      → ((done : List LinkCommand) → must (ip done (ip_argv c)) ≡ ok tt → P done → Q (c ∷ done))
      → Makes P Q (do_link ip c)
  do_link-Makes {Q = Q} c k = record {
    at = λ done h. Ends-by Q (λ _ _. Unit) (do_link ip c done) (λ _ e. k done e h) (λ _ _. tt);
  }

  -- Where a query shows no link it is added; afterwards the query shows it.
  module _ (P : List LinkCommand → Type 0) (add q : LinkCommand) (name : Text)
      (adds : removes add ≡ false) (query : removes q ≡ false) (lasts : IsLasting P)
      (shown_lasts : IsLasting (λ done. IsShown ip done q))
      (added : (done : List LinkCommand)
        → must (ip done (ip_argv add)) ≡ ok tt
        → IsShown ip (add ∷ done) q) where
    abbrev pub ThenShown : List LinkCommand → Type 0
    ThenShown done = P done × IsShown ip done q

    pub add_new-Makes : Makes P ThenShown (add_new ip add name)
    add_new-Makes =
        Runs-bind {M = ThenShown} (do_link ip add) (λ _. do_link ip (set_up name))
          (do_link-Makes {Q = ThenShown} add λ done e h. (lasts done add adds h, added done e))
          λ _.
            do_link-Makes {Q = ThenShown} (set_up name) λ done _ h.
              (lasts done (set_up name) refl h.0, shown_lasts done (set_up name) refl h.1)

    abbrev pub unless_shown : Linked (Unit {0})
    unless_shown = ask_link ip q >>= λ exists. when (not exists) (add_new ip add name)

    pub unless_shown-Makes : Makes P ThenShown unless_shown
    unless_shown-Makes =
        ask-Makes q (λ exists. when (not exists) (add_new ip add name)) query lasts shown_lasts
          (Runs-pure tt) add_new-Makes
