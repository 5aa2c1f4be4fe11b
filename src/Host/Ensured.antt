-- ===== src/Host/Ensured.antt =====
-- The interfaces that the agent makes for a network (agent/nodepilot_agent/network.py).
use node_pilot.Common.{
  ℕ, Bool, true, ◌&&◌, not, List, ◌≡◌, refl, sym, ap, ◌∙◌, inl, inr, leb, arith, if◌then◌else◌,
}
use node_pilot.Common.Error.{Error, network_operation_error}
use node_pilot.Common.Exec.{ok, err, pure, when, ◌>>=◌, ◌>>◌, Result-cases}
use node_pilot.Task.Keeps.{Runs-bind, Runs-weaken}
use node_pilot.Hypervisor.Text.{Text}
use node_pilot.Hypervisor.Network.{validate_iface, vlan_interface_name}
use node_pilot.Hypervisor.Isolation.{validated}
use node_pilot.Host.Links.{
  LinkCommand, show_bridge, show, add_bridge, add_vlan, Linked, Ip, ask_link, bridge_exists,
  add_new, create_bridge, create_vlan_interface,
}
use node_pilot.Host.LinkRules.{
  IsShown, IsIp, IsLasting, Makes, lift-Makes, ask-Makes, add_new-Makes, unless_shown-Makes,
}

abbrev pub in_range : ℕ → Bool
in_range vlan_id = leb 1 vlan_id && leb vlan_id 4094

module _ (ip : Ip) (law : IsIp ip) where
  pub bridge_lasts : (name : Text) → IsLasting ip law (λ done. IsShown ip done (show_bridge name))
  bridge_lasts name done c stays = (law.kept_shown done c name stays).1

  pub link_lasts : (name : Text) → IsLasting ip law (λ done. IsShown ip done (show name))
  link_lasts name done c stays = (law.kept_shown done c name stays).0

  pub valid_self : (name x : Text) → validate_iface name ≡ ok x → validate_iface name ≡ ok name
  valid_self name x h = h ∙ ap ok (sym (validated name x h))

  exists_valid :
      (name : Text)
      → validate_iface name ≡ ok name
      → bridge_exists ip name ≡ ask_link ip (show_bridge name)
  unfolding bridge_exists
  exists_valid name h = rw h refl

  -- `create_bridge`, once the name is known to be valid.
  abbrev pub create_named : Text → Linked (Unit {0})
  create_named name = ask_link ip (show_bridge name) >>= λ exists.
      when (not exists) (add_new ip (add_bridge name) name)

  pub create_valid :
      (name : Text) → validate_iface name ≡ ok name → create_bridge ip name ≡ create_named name
  unfolding create_bridge
  create_valid name h = rw h (
      ap (λ d. d >>= λ exists. when (not exists) (add_new ip (add_bridge name) name))
        (exists_valid name h))

  abbrev pub BridgeMade : Text → List LinkCommand → Type 0
  BridgeMade name done = (validate_iface name ≡ ok name) × IsShown ip done (show_bridge name)

  create_named-Makes :
      (P : List LinkCommand → Type 0) (name : Text)
      → IsLasting ip law P
      → Makes ip law P (λ done. P done × IsShown ip done (show_bridge name)) (create_named name)
  create_named-Makes P name lasts =
      unless_shown-Makes ip law P (add_bridge name) (show_bridge name) name refl refl lasts
        (bridge_lasts name) (λ done e. law.bridge_added done name e)

  create_invalid :
      (P Q : List LinkCommand → Type 0) (name : Text) (e : Error)
      → validate_iface name ≡ err e
      → Makes ip law P Q (create_bridge ip name)
  unfolding create_bridge
  create_invalid P Q name e is = rw is (record { at = λ done h. tt })

  pub create_bridge-Makes :
      (P : List LinkCommand → Type 0) (name : Text)
      → IsLasting ip law P
      → Makes ip law P (λ done. P done × BridgeMade name done) (create_bridge ip name)
  create_bridge-Makes P name lasts = elim (Result-cases (validate_iface name)) [
    | inl (e, is) ↦ create_invalid P (λ done. P done × BridgeMade name done) name e is
    | inr (x, is) ↦
        let valid = valid_self name x is in
        rw (create_valid name valid) (
          Runs-weaken (create_named name) (λ _ h. h) (λ _ h. (h.0, (valid, h.1))) (λ _ _ h. h)
            (create_named-Makes P name lasts))
  ]

  pub BridgeMade-lasts : (name : Text) → IsLasting ip law (BridgeMade name)
  BridgeMade-lasts name done c stays h = (h.0, bridge_lasts name done c stays h.1)

  pub both_last :
      (P Q : List LinkCommand → Type 0)
      → IsLasting ip law P
      → IsLasting ip law Q
      → IsLasting ip law (λ done. P done × Q done)
  both_last P Q p q done c stays h = (p done c stays h.0, q done c stays h.1)

  -- An uplink with its name.
  abbrev pub UplinkMade : Text → ℕ → List LinkCommand → Type 0
  UplinkMade parent vlan_id done =
      (in_range vlan_id ≡ true)
      × ((uplink : Text) × (vlan_interface_name parent vlan_id ≡ ok uplink)
          × IsShown ip done (show uplink))

  pub UplinkMade-lasts :
      (parent : Text) (vlan_id : ℕ) → IsLasting ip law (UplinkMade parent vlan_id)
  UplinkMade-lasts parent vlan_id done c stays (fits, (u, named, seen)) =
      (fits, (u, named, link_lasts u done c stays seen))

  module _ (P : List LinkCommand → Type 0) (parent : Text) (vlan_id : ℕ)
      (lasts : IsLasting ip law P) where
    abbrev vlan_after : Text → Text → Linked Text
    vlan_after x iface = do
      exists ← ask_link ip (show iface)
      when (not exists) (add_new ip (add_vlan x iface vlan_id) iface)
      pure iface

    vlan_after-Makes :
        (x iface : Text)
        → in_range vlan_id ≡ true
        → vlan_interface_name parent vlan_id ≡ ok iface
        → Makes ip law P (λ done. P done × UplinkMade parent vlan_id done) (vlan_after x iface)
    vlan_after-Makes x iface fits named =
        ask-Makes ip law (show iface)
          (λ exists. when (not exists) (add_new ip (add_vlan x iface vlan_id) iface) >> pure iface)
          refl lasts (link_lasts iface)
          (record { at = λ done h. (h.0, (fits, (iface, named, h.1))) })
          (Runs-bind (add_new ip (add_vlan x iface vlan_id) iface) (λ _. pure iface)
            (add_new-Makes ip law P (add_vlan x iface vlan_id) (show iface) iface refl refl lasts
              (link_lasts iface) λ done e. law.vlan_added done x iface vlan_id e)
            λ _. record { at = λ done h. (h.0, (fits, (iface, named, h.1))) })

    pub create_vlan_interface-Makes :
        Makes ip law P
          (λ done. P done × UplinkMade parent vlan_id done)
          (create_vlan_interface ip parent vlan_id)
    unfolding create_vlan_interface
    create_vlan_interface-Makes = lift-Makes ip law (validate_iface parent) _ λ x valid.
        lift-Makes ip law (if not (in_range vlan_id) then err network_operation_error else ok tt) _
          λ _ fits. lift-Makes ip law (vlan_interface_name x vlan_id) (vlan_after x) λ iface named.
            vlan_after-Makes x iface (let h = fits in ground (arith, h))
              (ap (λ y. vlan_interface_name y vlan_id) (validated parent x valid) ∙ named)
