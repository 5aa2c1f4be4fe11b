-- ===== src/Host/Again.antt =====
-- Making a network with a VLAN again.
use node_pilot.Common.{◌++◌, ℕ, suc, some, true, not, List, ◌∷◌, ◌≡◌, refl, sym, ap, ◌∙◌}
use node_pilot.Common.Exec.{Result, ok, err, pure, lift, when, ◌>>=◌, ◌>>◌, bind_step, bind-ok}
use node_pilot.Task.Keeps.{Ends, Runs-bind, Runs-pure, Runs-weaken}
use node_pilot.Hypervisor.Text.{Text, codes, decimal}
use node_pilot.Hypervisor.Network.{validate_iface, vlan_interface_name, vlan_bridge_name}
use node_pilot.Hypervisor.Isolation.{validated}
use node_pilot.Host.Links.{
  LinkCommand, show_bridge, show, add_bridge, add_vlan, set_master, ip_argv, Linked, Ip, must,
  do_link, ask_link, add_new, create_bridge, create_vlan_interface, attach_to_bridge,
  ensure_vlan_network, create_network,
}
use node_pilot.Host.LinkRules.{IsShown, IsIp, IsLasting, Makes, lift-Makes, do_link-Makes}
use node_pilot.Host.Ensured.{
  BridgeMade, UplinkMade, in_range, create_bridge-Makes, create_vlan_interface-Makes,
  BridgeMade-lasts, UplinkMade-lasts, both_last, bridge_lasts, link_lasts, create_valid,
}

module _ (ip : Ip) (law : IsIp ip) (parent : Text) (vlan_id : ℕ) where
  abbrev DedicatedMade : List LinkCommand → Type 0
  DedicatedMade done =
      (bridge : Text) × (vlan_bridge_name parent vlan_id ≡ ok bridge)
      × BridgeMade ip law bridge done

  abbrev ParentMade : List LinkCommand → Type 0
  ParentMade done = Unit × BridgeMade ip law parent done

  abbrev LinksMade : List LinkCommand → Type 0
  LinksMade done = ParentMade done × UplinkMade ip law parent vlan_id done

  abbrev AllMade : List LinkCommand → Type 0
  AllMade done = LinksMade done × DedicatedMade done

  ParentMade-lasts : IsLasting ip law ParentMade
  ParentMade-lasts done c stays h = (tt, BridgeMade-lasts ip law parent done c stays h.1)

  LinksMade-lasts : IsLasting ip law LinksMade
  LinksMade-lasts =
      both_last ip law ParentMade (UplinkMade ip law parent vlan_id) ParentMade-lasts
        (UplinkMade-lasts ip law parent vlan_id)

  AllMade-lasts : IsLasting ip law AllMade
  AllMade-lasts done c stays (links, (bridge, named, made)) = (
    LinksMade-lasts done c stays links,
    (bridge, named, BridgeMade-lasts ip law bridge done c stays made),
  )

  attach_to_bridge-Makes :
      (iface bridge : Text) → Makes ip law AllMade AllMade (attach_to_bridge ip iface bridge)
  unfolding attach_to_bridge
  attach_to_bridge-Makes iface bridge = lift-Makes ip law (validate_iface iface) _ λ i _.
      lift-Makes ip law (validate_iface bridge) _ λ b _.
        do_link-Makes ip law (set_master i b) λ done _ h. AllMade-lasts done (set_master i b) refl h

  ensured : Makes ip law (λ _. Unit) AllMade (ensure_vlan_network ip parent vlan_id)
  unfolding ensure_vlan_network
  ensured =
      Runs-bind {M = ParentMade} (create_bridge ip parent) _
        (create_bridge-Makes ip law (λ _. Unit) parent (λ _ _ _ _. tt))
        λ _.
          Runs-bind {M = LinksMade} (create_vlan_interface ip parent vlan_id) _
            (create_vlan_interface-Makes ip law ParentMade parent vlan_id ParentMade-lasts)
            λ uplink. lift-Makes ip law (vlan_bridge_name parent vlan_id) _ λ bridge named.
              Runs-bind {M = AllMade} (create_bridge ip bridge) _
                (Runs-weaken (create_bridge ip bridge) (λ _ h. h)
                  (λ _ h. (h.0, (bridge, named, h.1))) (λ _ _ h. h)
                  (create_bridge-Makes ip law LinksMade bridge LinksMade-lasts))
                λ _.
                  Runs-bind {M = AllMade} (attach_to_bridge ip uplink bridge) _
                    (attach_to_bridge-Makes uplink bridge) λ _. Runs-pure bridge

  bridge_again :
      (name : Text) (done : List LinkCommand)
      → BridgeMade ip law name done
      → create_bridge ip name done ≡ (ok tt, show_bridge name ∷ done)
  bridge_again name done (valid, seen) =
      ap (λ d. d done) (create_valid ip law name valid)
      ∙ bind_step (ask_link ip (show_bridge name))
          (λ exists. when (not exists) (add_new ip (add_bridge name) name)) done true
          (show_bridge name ∷ done) (ap (λ r. (r, show_bridge name ∷ done)) seen)

  vlan_again :
      (uplink : Text) (done : List LinkCommand)
      → validate_iface parent ≡ ok parent
      → in_range vlan_id ≡ true
      → vlan_interface_name parent vlan_id ≡ ok uplink
      → IsShown ip done (show uplink)
      → create_vlan_interface ip parent vlan_id done ≡ (ok uplink, show uplink ∷ done)
  unfolding create_vlan_interface
  vlan_again uplink done valid fits named seen =
      rw (valid, fits, named)
        (bind_step (ask_link ip (show uplink))
          (λ exists.
            when (not exists) (add_new ip (add_vlan parent uplink vlan_id) uplink) >> pure uplink)
          done true (show uplink ∷ done) (ap (λ r. (r, show uplink ∷ done)) seen))

  -- The last step, which is not skipped.
  attach_again :
      (uplink bridge : Text) (done : List LinkCommand)
      → validate_iface uplink ≡ ok uplink
      → validate_iface bridge ≡ ok bridge
      → (attach_to_bridge ip uplink bridge >> pure bridge) done
        ≡ ((do_link ip (set_master uplink bridge) >> pure bridge) done)
  unfolding attach_to_bridge
  attach_again uplink bridge done valid_uplink valid_bridge = rw (valid_uplink, valid_bridge) refl

  done_after :
      (c : LinkCommand) (bridge : Text) (done : List LinkCommand)
      → ((do_link ip c >> pure bridge) done).1 ≡ c ∷ done
  done_after c bridge done = after (must (ip done (ip_argv c)))
    where
      after :
          (r : Result (Unit {0}))
          → (((λ (s : List LinkCommand). (r, c ∷ s)) >> pure bridge) done).1 ≡ c ∷ done
      after (ok _) = refl
      after (err _) = refl

  named_valid :
      (uplink : Text)
      → vlan_interface_name parent vlan_id ≡ ok uplink
      → validate_iface uplink ≡ ok uplink
  unfolding vlan_interface_name
  named_valid uplink h =
      ap validate_iface (sym (validated (parent ++ (codes "." ++ decimal vlan_id)) uplink h)) ∙ h

  -- What `ensure_vlan_network` does after each of its steps.
  abbrev after_bridge : Text → Text → Linked Text
  after_bridge uplink bridge = attach_to_bridge ip uplink bridge >> pure bridge

  abbrev after_name : Text → Text → Linked Text
  after_name uplink bridge = create_bridge ip bridge >> after_bridge uplink bridge

  abbrev after_vlan : Text → Linked Text
  after_vlan uplink = lift (vlan_bridge_name parent vlan_id) >>= after_name uplink

  abbrev after_parent : Linked Text
  after_parent = create_vlan_interface ip parent vlan_id >>= after_vlan

  -- What is returned is the name of the network's own bridge.
  returns_bridge :
      (done : List LinkCommand) (bridge : Text)
      → (ensure_vlan_network ip parent vlan_id done).0 ≡ ok bridge
      → vlan_bridge_name parent vlan_id ≡ ok bridge
  unfolding ensure_vlan_network
  returns_bridge done bridge h =
      let (_, _, h1) = bind-ok (create_bridge ip parent) (λ _. after_parent) done bridge h in
      let one = (create_bridge ip parent done).1 in
      let (uplink, _, h2) =
        bind-ok (create_vlan_interface ip parent vlan_id) after_vlan one bridge h1 in
      let two = (create_vlan_interface ip parent vlan_id one).1 in
      let (b, named, h3) =
        bind-ok (lift (vlan_bridge_name parent vlan_id)) (after_name uplink) two bridge h2 in
      let (_, _, h4) = bind-ok (create_bridge ip b) (λ _. after_bridge uplink b) two bridge h3 in
      let three = (create_bridge ip b two).1 in
      let (_, _, h5) = bind-ok (attach_to_bridge ip uplink b) (λ _. pure b) three bridge h4 in
      named ∙ h5

  again :
      (done : List LinkCommand)
      → AllMade done
      → (uplink bridge : Text) × (vlan_interface_name parent vlan_id ≡ ok uplink)
        × (vlan_bridge_name parent vlan_id ≡ ok bridge)
        × ((ensure_vlan_network ip parent vlan_id done).1
            ≡ set_master uplink bridge
              ∷ show_bridge bridge
              ∷ show uplink
              ∷ show_bridge parent
              ∷ done)
  unfolding ensure_vlan_network
  again done
        (((_, made), (fits, (uplink, named, seen))), (bridge, bridge_named, (valid, bridge_seen))) =
      let one = show_bridge parent ∷ done in
      let two = show uplink ∷ one in
      let three = show_bridge bridge ∷ two in
      (
        uplink,
        bridge,
        named,
        bridge_named,
        ap (λ x. x.1)
              (bind_step (create_bridge ip parent) (λ _. after_parent) done tt one
                  (bridge_again parent done made)
                ∙ bind_step (create_vlan_interface ip parent vlan_id) after_vlan one uplink two (
                    vlan_again uplink one made.0 fits named
                      (link_lasts ip law uplink done (show_bridge parent) refl seen))
                ∙ bind_step (lift (vlan_bridge_name parent vlan_id)) (after_name uplink) two bridge
                    two (ap (λ r. (r, two)) bridge_named)
                ∙ bind_step (create_bridge ip bridge) (λ _. after_bridge uplink bridge) two tt three
                    (bridge_again bridge two (
                      valid,
                      bridge_lasts ip law bridge one (show uplink) refl
                          (bridge_lasts ip law bridge done (show_bridge parent) refl bridge_seen),
                    ))
                ∙ attach_again uplink bridge three (named_valid uplink named) valid)
            ∙ done_after (set_master uplink bridge) bridge three,
      )

-- With an `ip` that shows what was added as long as nothing is deleted: after CREATE_NETWORK of a
-- VLAN has returned, the same operation adds no link, whatever its commands answer. It asks for the
-- three links of the network and attaches the uplink to the network's own bridge once more.
pub network_again :
    (ip : Ip) (parent bridge : Text) (vlan_id : ℕ) (done : List LinkCommand)
    → IsIp ip
    → (create_network ip parent (some (suc vlan_id)) done).0 ≡ ok bridge
    → (uplink : Text) × (vlan_interface_name parent (suc vlan_id) ≡ ok uplink)
      × ((create_network ip parent
            (some (suc vlan_id))
            (create_network ip parent (some (suc vlan_id)) done).1).1
          ≡ set_master uplink bridge
            ∷ show_bridge bridge
            ∷ show uplink
            ∷ show_bridge parent
            ∷ (create_network ip parent (some (suc vlan_id)) done).1)
unfolding create_network
network_again ip parent bridge vlan_id done law made =
    let v = suc vlan_id in
    let first = ensure_vlan_network ip parent v done in
    let stands =
      returned_Ends (AllMade ip law parent v) first bridge made
        ((ensured ip law parent v).at done tt) in
    let (uplink, b, named, bridge_named, e) = again ip law parent v first.1 stands in
    let same = ok-eq (sym bridge_named ∙ returns_bridge ip law parent v done bridge made) in
    (
      uplink,
      named,
      e
          ∙ ap
              (λ x.
                set_master uplink x ∷ show_bridge x ∷ show uplink ∷ show_bridge parent ∷ first.1)
              same,
    )
  where
    ok-eq : {A : Type 0} {x y : A} → ok x ≡ ok y → x ≡ y
    ok-eq h = cc

    returned_Ends :
        (Q : List LinkCommand → Type 0) (x : Result Text × List LinkCommand) (b : Text)
        → x.0 ≡ ok b
        → Ends {A = Text} Q (λ _ _. Unit) x
        → Q x.1
    returned_Ends Q (ok a, s) b h q = q
    returned_Ends Q (err e, s) b h q = absurd cc
