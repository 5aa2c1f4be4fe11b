-- ===== src/Webhooks/Delivery.antt =====
-- backend/apps/webhooks/models.py, tasks.py and services.py. Celery runs the task again after the
-- countdown that `self.retry` names. What the HTTP client does, and the receiver's answer, is input.
use node_pilot.Common.{
  ℕ, ◌+◌, ◌^◌, Bool, true, false, ◌&&◌, ◌||◌, Option, none, some, List, [], ◌∷◌, ◌++◌, String,
  str_eq, any, filter_by, map, ltb, leb, ◌==◌, if◌then◌else◌,
}
use node_pilot.Common.Exec.{ok, err}
use node_pilot.Webhooks.Security.{Address, Resolution, resolve_safe_ip, pinned_dns}

pub record Webhook : Type 0 where
  pub pk : ℕ
  pub organization : ℕ
  pub events : List String
  pub enabled : Bool

pub data DeliveryStatus : Type 0 where
  pending success failed retrying : DeliveryStatus

pub record WebhookDelivery : Type 0 where
  pub webhook : ℕ
  pub event_type : String
  pub status : DeliveryStatus
  pub attempt : ℕ
  pub response_status : Option ℕ
  pub delivered_at : Option ℕ

unfoldable pub subscribes_to : String → Webhook → Bool
subscribes_to event_type webhook =
    webhook.enabled && (any (str_eq "*") webhook.events || any (str_eq event_type) webhook.events)

abbrev pub new_delivery : String → Webhook → WebhookDelivery
new_delivery event_type webhook = record {
  webhook = webhook.pk;
  event_type = event_type;
  status = pending;
  attempt = 0;
  response_status = none;
  delivered_at = none;
}

-- `dispatch_event`: the rows that it creates; a delivery of each is queued.
unfoldable pub dispatch_event : ℕ → String → List Webhook → List WebhookDelivery
unfolding subscribes_to
dispatch_event organization event_type webhooks = map (new_delivery event_type) (
    filter_by (subscribes_to event_type)
      (filter_by (λ w. w.organization == organization && w.enabled) webhooks))

-- What happens in an attempt: its time, how the hostname resolves then, what the worker's lookup of
-- a host would give without the pin, and the status that the receiver answers, if it does.
-- `requested` is the client: from `allow_redirects`, a way to look hosts up and the URL's hostname,
-- the addresses that `requests.post` connects to.
pub record Attempt : Type 0 where
  pub now : ℕ
  pub resolution : Resolution
  pub own_lookup : String → Address
  pub requested : Bool → (String → Address) → String → List Address
  pub response : Option ℕ

-- How a run of the task ends: it returns, or asks for another run after some seconds.
pub data Ending : Type 0 where
  returned : Ending
  retry : ℕ → Ending

abbrev pub min : ℕ → ℕ → ℕ
min a b = if leb a b then a else b

-- The branch `except Exception`.
unfoldable pub give_up_or_retry : ℕ → WebhookDelivery → WebhookDelivery × Ending
give_up_or_retry max_retries delivery =
    if leb max_retries delivery.attempt
    then (record delivery { status = failed }, returned)
    else (record delivery { status = retrying }, retry (min (2 ^ delivery.attempt) 300))

-- What follows the request: an answer's status is kept, and one outside 200 to 299 is an error.
unfoldable pub after_request : ℕ → Attempt → WebhookDelivery → WebhookDelivery × Ending
unfolding give_up_or_retry
after_request max_retries a delivery = elim a.response [
  | none ↦ give_up_or_retry max_retries delivery
  | some code ↦
      let answered = record delivery { response_status = some code } in
      if leb 200 code && ltb code 300
      then (record answered { status = success; delivered_at = some a.now }, returned)
      else give_up_or_retry max_retries answered
]

-- `deliver_webhook`, of a webhook whose URL has this hostname: the row, how the run ends, and the
-- addresses that were contacted.
unfoldable pub deliver_webhook :
    ℕ → String → Attempt → WebhookDelivery → WebhookDelivery × Ending × List Address
unfolding after_request resolve_safe_ip pinned_dns
deliver_webhook max_retries hostname a delivery =
    let counted = record delivery { attempt = delivery.attempt + 1 } in
    elim (resolve_safe_ip a.resolution) [
      | err _ ↦ (record counted { status = failed }, returned, [])
      | ok safe_ip ↦
          let (row, ending) = after_request max_retries a counted in
          (row, ending, a.requested false (pinned_dns hostname safe_ip a.own_lookup) hostname)
    ]

-- What comes of a run that ended so: nothing more, or the later runs.
unfoldable pub conclude :
    Ending
    → WebhookDelivery
    → List Address
    → WebhookDelivery × Bool × List Address
    → WebhookDelivery × Bool × List Address
conclude returned row contacted later = (row, true, contacted)
conclude (retry _) row contacted (last, done, others) = (last, done, contacted ++ others)

-- All runs of a delivery, while attempts are left: the row, whether the task is done, and the
-- addresses that were contacted.
unfoldable pub deliver_all :
    ℕ → String → List Attempt → WebhookDelivery → WebhookDelivery × Bool × List Address
deliver_all max_retries hostname [] delivery = (delivery, false, [])
deliver_all max_retries hostname (a ∷ attempts) delivery =
    let (row, ending, contacted) = deliver_webhook max_retries hostname a delivery in
    let later = deliver_all max_retries hostname attempts row in conclude ending row contacted later
