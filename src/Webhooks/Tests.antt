-- ===== src/Webhooks/Tests.antt =====
-- The theorem on deliveries at a receiver that fails, and tests.
use node_pilot.Common.{◌≡◌, refl, true, false, some, [], ◌∷◌, arith, if◌then◌else◌}
use node_pilot.Webhooks.Security.{Address, candidates, pinned_dns}
use node_pilot.Webhooks.Delivery.{
  Webhook, WebhookDelivery, success, Attempt, retry, new_delivery, dispatch_event, deliver_webhook,
  conclude, deliver_all,
}
use node_pilot.Webhooks.Outcome.{IsDone, delivery_ends}

abbrev far : Address
far = record {
  text = "203.0.113.9";
  is_private = false;
  is_loopback = false;
  is_link_local = false;
  is_reserved = false;
}

abbrev near : Address
near = record far { text = "10.0.0.1"; is_private = true }

abbrev hook : Webhook
hook = record { pk = 4; organization = 1; events = "vm.created" ∷ []; enabled = true }

abbrev created : WebhookDelivery
created = new_delivery "vm.created" hook

-- The client follows a redirect to a private address where it may. The receiver fails, while its name already leads elsewhere for the client; then it answers.
abbrev failing : Attempt
failing = record {
  now = 0;
  resolution = candidates (far ∷ []);
  own_lookup = λ host. near;
  requested = λ redirects lookup host. lookup host ∷ (if redirects then near ∷ [] else []);
  response = some 500;
}

abbrev answering : Attempt
answering = record failing { now = 2; response = some 204 }

-- The name was pointed at a private address.
abbrev rebound : Attempt
rebound = record failing { resolution = candidates (far ∷ near ∷ []); response = some 204 }

delivery_ends_example : IsDone 2 0 (deliver_all 2 "hooks" (failing ∷ rebound ∷ []) created)
delivery_ends_example =
    delivery_ends 2 "hooks" (failing ∷ rebound ∷ []) created
      (
        record { once = λ lookup. omega arith; there = λ lookup. (refl, tt) },
        (record { once = λ lookup. omega arith; there = λ lookup. (refl, tt) }, tt),
      )
      (omega arith) (omega arith)

retried : (deliver_webhook 5 "hooks" failing created).1 ≡ retry 2
unfolding deliver_webhook
retried = refl

delivered : (deliver_all 5 "hooks" (failing ∷ answering ∷ []) created).0.status ≡ success
unfolding deliver_all deliver_webhook conclude
delivered = refl

pinned : (deliver_all 5 "hooks" (failing ∷ answering ∷ []) created).2 ≡ far ∷ far ∷ []
unfolding deliver_all deliver_webhook conclude pinned_dns
pinned = refl

rebound_not_contacted : (deliver_webhook 5 "hooks" rebound created).2 ≡ []
unfolding deliver_webhook
rebound_not_contacted = refl

other_events_not_dispatched : dispatch_event 1 "vm.deleted" (hook ∷ []) ≡ []
unfolding dispatch_event
other_events_not_dispatched = refl
