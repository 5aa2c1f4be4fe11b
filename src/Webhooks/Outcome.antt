-- ===== src/Webhooks/Outcome.antt =====
-- How a delivery ends, and which addresses it contacts.
use node_pilot.Common.{
  ℕ, ◌+◌, ◌≤◌, ◌<◌, ◌≡◌, refl, inl, inr, Bool, true, false, ◌&&◌, some, List, [], ◌∷◌, ◌++◌, All,
  length, length-append, String, ltb, leb, arith, Bool-cases, Option-cases,
}
use node_pilot.Common.Exec.{ok, Result-cases}
use node_pilot.Channels.Redis.{str_eq_self}
use node_pilot.Webhooks.Security.{
  Address, Resolution, literal, unresolved, candidates, is_unsafe_ip, resolve_safe_ip, pinned_dns,
}
use node_pilot.Webhooks.Delivery.{
  WebhookDelivery, DeliveryStatus, success, failed, Attempt, Ending, returned, retry,
  give_up_or_retry, after_request, deliver_webhook, conclude, deliver_all,
}

abbrev pub is_final : DeliveryStatus → Bool
is_final success = true
is_final failed = true
is_final _ = false

abbrev pub IsPublic : Address → Type 0
IsPublic ip = is_unsafe_ip ip ≡ false

-- A run is the last one and leaves a final status, or asks for another that is still allowed.
abbrev pub Ends : ℕ → WebhookDelivery → Ending → Type 0
Ends max row returned = is_final row.status ≡ true
Ends max row (retry seconds) = (row.attempt < max) × (seconds ≤ 300)

resolved-IsPublic : (r : Resolution) (ip : Address) → resolve_safe_ip r ≡ ok ip → IsPublic ip
unfolding resolve_safe_ip
resolved-IsPublic (literal a) ip h = ground (arith, h)
resolved-IsPublic unresolved ip h = ground (arith, h)
resolved-IsPublic (candidates []) ip h = ground (arith, h)
resolved-IsPublic (candidates (a ∷ ips)) ip h = ground (arith, h)

-- What `requests` does without redirects, for a hostname that it looks up as it stands (one in
-- ASCII): it connects at most once, to where that hostname leads.
pub record SendsTo (hostname : String) (a : Attempt) : Type 0 where
  pub once : (lookup : String → Address) → length (a.requested false lookup hostname) ≤ 1
  pub there :
      (lookup : String → Address)
      → All (λ ip. ip ≡ lookup hostname) (a.requested false lookup hostname)

All-same :
    (ips : List Address) (ip : Address) → All (λ x. x ≡ ip) ips → IsPublic ip → All IsPublic ips
All-same [] ip h p = tt
All-same (x ∷ ips) ip h p = (rw h.0 p, All-same ips ip h.1 p)

pinned :
    (hostname : String) (ip : Address) (lookup : String → Address)
    → pinned_dns hostname ip lookup hostname ≡ ip
unfolding pinned_dns
pinned hostname ip lookup = rw (str_eq_self hostname) refl

module _ (max : ℕ) (a : Attempt) where
  give_up-Ends :
      (d : WebhookDelivery)
      → ((give_up_or_retry max d).0.attempt ≡ d.attempt)
        × Ends max (give_up_or_retry max d).0 (give_up_or_retry max d).1
  unfolding give_up_or_retry
  give_up-Ends d = elim (Bool-cases (leb max d.attempt)) [
    | inl last ↦ rw last (refl, refl)
    | inr more ↦ rw more (refl, (ground arith, ground arith))
  ]

  after_request-Ends :
      (d : WebhookDelivery)
      → ((after_request max a d).0.attempt ≡ d.attempt)
        × Ends max (after_request max a d).0 (after_request max a d).1
  unfolding after_request
  after_request-Ends d = elim (Option-cases a.response) [
    | inl silent ↦ rw silent (give_up-Ends d)
    | inr (code, answered) ↦ elim (Bool-cases (leb 200 code && ltb code 300)) [
      | inl good ↦ rw (answered, good) (refl, refl)
      | inr bad ↦ rw (answered, bad) (give_up-Ends (record d { response_status = some code }))
    ]
  ]

  -- One run counts one attempt, contacts at most one address, a public one, and ends.
  run-Ends :
      (hostname : String) (d : WebhookDelivery)
      → SendsTo hostname a
      → let (row, ending, contacted) = deliver_webhook max hostname a d in
        (row.attempt ≡ d.attempt + 1)
        × Ends max row ending
        × All IsPublic contacted
        × (length contacted ≤ 1)
  unfolding deliver_webhook
  run-Ends hostname d sends = elim (Result-cases (resolve_safe_ip a.resolution)) [
    | inl (e, unsafe) ↦ rw (unsafe, deliver_webhook) (refl, refl, tt, omega arith)
    | inr (ip, safe) ↦
        let (counted, ends) = after_request-Ends (record d { attempt = d.attempt + 1 }) in
        let lookup = pinned_dns hostname ip a.own_lookup in
        let public : IsPublic (lookup hostname) =
          rw (pinned hostname ip a.own_lookup) (resolved-IsPublic a.resolution ip safe) in
        rw (safe, deliver_webhook)
          (
            counted,
            ends,
            All-same (a.requested false lookup hostname) (lookup hostname) (sends.there lookup)
                public,
            sends.once lookup,
          )
  ]

-- A task that is done left a final status.
abbrev pub IsDone : ℕ → ℕ → WebhookDelivery × Bool × List Address → Type 0
IsDone max before (row, done, contacted) =
    (done ≡ true)
    × (is_final row.status ≡ true)
    × (row.attempt ≤ max)
    × (before + length contacted ≤ row.attempt)
    × All IsPublic contacted

All-append :
    (these ips : List Address) → All IsPublic these → All IsPublic ips → All IsPublic (these ++ ips)
All-append [] ips h k = k
All-append (ip ∷ these) ips h k = (h.0, All-append these ips h.1 k)

module _ (max : ℕ) where
  conclude-IsDone :
      (ending : Ending) (row : WebhookDelivery) (contacted : List Address)
      (later : WebhookDelivery × Bool × List Address) (before : ℕ)
      → row.attempt ≡ before + 1
      → before < max
      → All IsPublic contacted
      → length contacted ≤ 1
      → Ends max row ending
      → (row.attempt < max → IsDone max row.attempt later)
      → IsDone max before (conclude ending row contacted later)
  unfolding conclude
  conclude-IsDone returned row contacted later before counted few public one ends rest =
      (refl, ends, omega arith, omega arith, public)
  conclude-IsDone (retry seconds) row contacted (last, done, others) before counted few public one
        ends rest =
      let (finished, final, bounded, used, all) = rest ends.0 in
      (
        finished,
        final,
        bounded,
        omega (arith, length-append contacted others),
        All-append contacted others public all,
      )

  -- A delivery that has runs left to its limit ends, whatever the receiver and the resolver answer
  -- in each run, once as many runs were made as the limit allows: it is delivered or failed, no
  -- run was made past the limit, at most one address was contacted in a run, and every address
  -- that was contacted is public, whatever the worker's own lookup would have given. Of the HTTP
  -- client this needs that without redirects it connects once, to where the URL's hostname leads,
  -- and that it looks this hostname up as it stands.
  pub delivery_ends :
      (hostname : String) (attempts : List Attempt) (d : WebhookDelivery)
      → All (SendsTo hostname) attempts
      → d.attempt < max
      → max ≤ d.attempt + length attempts
      → IsDone max d.attempt (deliver_all max hostname attempts d)
  unfolding deliver_all
  delivery_ends hostname [] d sends few enough = absurd (omega arith)
  delivery_ends hostname (a ∷ attempts) d sends few enough =
      let (row, ending, contacted) = deliver_webhook max hostname a d in
      let (counted, ends, public, one) = run-Ends max a hostname d sends.0 in
      conclude-IsDone ending row contacted (deliver_all max hostname attempts row) d.attempt counted
        few public one ends (λ more. delivery_ends hostname attempts row sends.1 more (omega arith))
