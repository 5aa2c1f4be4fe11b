-- ===== src/Channels/SingleUse.antt =====
-- What the redemptions of one ticket answer, among any other uses of tickets.
use node_pilot.Common.{
  ℕ, ◌+◌, ◌≡◌, ◌≢◌, refl, ap, ◌∙◌, true, Option, none, some, List, [], ◌∷◌, map, All, String,
  str_eq, ltb, if◌then◌else◌, arith, eq_iff, Bool-cases, inl, inr,
}
use node_pilot.Channels.Redis.{
  Redis, IsRedis, live, str_eq_self, str_eq-other, str_eq-false→ne, prefixed-ne,
}
use node_pilot.Channels.Tickets.{Account, ticket_key, issue_ticket, redeem_ticket}

-- Somebody redeems a ticket, or a ticket is issued to a user, at a time.
pub data Use : Type 0 where
  redeems : ℕ → String → Use
  issues : ℕ → String → Account → Use

-- The times at which a ticket is redeemed.
abbrev pub attempts : String → List Use → List ℕ
attempts ticket [] = []
attempts ticket (redeems now t ∷ uses) =
    let rest = attempts ticket uses in if str_eq t ticket then now ∷ rest else rest
attempts ticket (issues now t user ∷ uses) = attempts ticket uses

-- The first attempt before the expiry succeeds, and no other.
abbrev pub first_only : String → ℕ → List ℕ → List (Option String)
first_only uuid expiry [] = []
first_only uuid expiry (now ∷ times) =
    let none_left = map (λ _. none) times in
    let rest = first_only uuid expiry times in
    if ltb now expiry then some uuid ∷ none_left else none ∷ rest

-- The use issues no such ticket.
abbrev pub Spares : String → Use → Type 0
Spares ticket (redeems now t) = Unit
Spares ticket (issues now t user) = t ≢ ticket

module _ (redis : Redis) where
  -- The answers to the redemptions of a ticket, in their order.
  unfoldable pub answers : String → List Use → redis.Db → List (Option String)
  unfolding redeem_ticket issue_ticket
  answers ticket [] db = []
  answers ticket (redeems now t ∷ uses) db =
      let (answer, db') = redeem_ticket redis now t db in
      let rest = answers ticket uses db' in if str_eq t ticket then answer ∷ rest else rest
  answers ticket (issues now t user ∷ uses) db =
      answers ticket uses (issue_ticket redis now t user db)

  module _ (laws : IsRedis redis) (ticket : String) where
    -- Other tickets do not touch the entry.
    entry-issue :
        (now : ℕ) (t : String) (user : Account) (db : redis.Db)
        → t ≢ ticket
        → laws.entry (ticket_key ticket) (issue_ticket redis now t user db)
          ≡ laws.entry (ticket_key ticket) db
    unfolding issue_ticket
    entry-issue now t user db other =
        rw (laws.entry-set_ex now (ticket_key t) user.uuid 30 db (ticket_key ticket))
          (rw (str_eq-other (ticket_key t) (ticket_key ticket) (prefixed-ne _ t ticket other)))

    entry-redeem :
        (now : ℕ) (t : String) (db : redis.Db)
        → t ≢ ticket
        → laws.entry (ticket_key ticket) (redeem_ticket redis now t db).1
          ≡ laws.entry (ticket_key ticket) db
    unfolding redeem_ticket
    entry-redeem now t db other = ground (
      arith,
      laws.entry-del (ticket_key t) db (ticket_key ticket),
      str_eq-other (ticket_key t) (ticket_key ticket)
          (prefixed-ne "nodepilot:ws_ticket:" t ticket other),
    )

    -- An attempt on an entry that is there.
    redeem-live :
        (now : ℕ) (uuid : String) (expiry : ℕ) (db : redis.Db)
        → laws.entry (ticket_key ticket) db ≡ some (uuid, expiry)
        → ltb now expiry ≡ true
        → ((redeem_ticket redis now ticket db).0 ≡ some uuid)
          × (laws.entry (ticket_key ticket) (redeem_ticket redis now ticket db).1 ≡ none)
    unfolding redeem_ticket
    redeem-live now uuid expiry db e h = (
      ground (arith, laws.get-live now (ticket_key ticket) db, e, h),
      ground (
        arith,
        laws.get-live now (ticket_key ticket) db,
        e,
        h,
        laws.entry-del (ticket_key ticket) db (ticket_key ticket),
        str_eq_self (ticket_key ticket),
      ),
    )

    redeem-dead :
        (now : ℕ) (db : redis.Db)
        → live now (laws.entry (ticket_key ticket) db) ≡ none
        → redeem_ticket redis now ticket db ≡ (none, db)
    unfolding redeem_ticket
    redeem-dead now db h = ground (arith, laws.get-live now (ticket_key ticket) db, h)

    used_up :
        (uses : List Use) (db : redis.Db)
        → All (Spares ticket) uses
        → laws.entry (ticket_key ticket) db ≡ none
        → answers ticket uses db ≡ map (λ _. none) (attempts ticket uses)
    unfolding answers
    used_up [] db s e = refl
    used_up (issues now t user ∷ uses) db s e =
        used_up uses (issue_ticket redis now t user db) s.1 (entry-issue now t user db s.0 ∙ e)
    used_up (redeems now t ∷ uses) db s e = elim (Bool-cases (str_eq t ticket)) [
      | inl same ↦ rw ((eq_iff t ticket).0 same) (
          rw (str_eq_self ticket, redeem-dead now db (ap (live now) e))
            (ap (λ l. none ∷ l) (used_up uses db s.1 e)))
      | inr other ↦ rw other (
          used_up uses (redeem_ticket redis now t db).1 s.1
            (entry-redeem now t db (str_eq-false→ne t ticket other) ∙ e))
    ]

    answers-first_only :
        (uuid : String) (expiry : ℕ) (uses : List Use) (db : redis.Db)
        → All (Spares ticket) uses
        → laws.entry (ticket_key ticket) db ≡ some (uuid, expiry)
        → answers ticket uses db ≡ first_only uuid expiry (attempts ticket uses)
    unfolding answers
    answers-first_only uuid expiry [] db s e = refl
    answers-first_only uuid expiry (issues now t user ∷ uses) db s e =
        answers-first_only uuid expiry uses (issue_ticket redis now t user db) s.1
          (entry-issue now t user db s.0 ∙ e)
    answers-first_only uuid expiry (redeems now t ∷ uses) db s e =
        elim (Bool-cases (str_eq t ticket)) [
          | inr other ↦ rw other (
              answers-first_only uuid expiry uses (redeem_ticket redis now t db).1 s.1
                (entry-redeem now t db (str_eq-false→ne t ticket other) ∙ e))
          | inl same ↦ rw ((eq_iff t ticket).0 same) (
              rw (str_eq_self ticket) (elim (Bool-cases (ltb now expiry)) [
                | inl early ↦
                    let (answer, gone) = redeem-live now uuid expiry db e early in
                    rw (early, answer)
                      (ap (λ l. some uuid ∷ l)
                        (used_up uses (redeem_ticket redis now ticket db).1 s.1 gone))
                | inr late ↦
                    rw (late, redeem-dead now db (ap (live now) e ∙ (rw late)))
                      (ap (λ l. none ∷ l) (answers-first_only uuid expiry uses db s.1 e))
              ]))
        ]

    entry-issued :
        (now : ℕ) (user : Account) (db : redis.Db)
        → laws.entry (ticket_key ticket) (issue_ticket redis now ticket user db)
          ≡ some (user.uuid, now + 30)
    unfolding issue_ticket
    entry-issued now user db =
        rw (laws.entry-set_ex now (ticket_key ticket) user.uuid 30 db (ticket_key ticket))
          (rw (str_eq_self (ticket_key ticket)))

    -- After a ticket was issued, and as long as it is not issued again, among any redemptions of
    -- it and of other tickets, and any issuing of others, in any order and number: the first
    -- redemption of it within 30 seconds answers its user, and every other answers nothing.
    pub ticket_once :
        (now : ℕ) (user : Account) (db : redis.Db) (uses : List Use)
        → All (Spares ticket) uses
        → answers ticket uses (issue_ticket redis now ticket user db)
          ≡ first_only user.uuid (now + 30) (attempts ticket uses)
    ticket_once now user db uses spared =
        answers-first_only user.uuid (now + 30) uses (issue_ticket redis now ticket user db) spared
          (entry-issued now user db)
