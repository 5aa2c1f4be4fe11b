-- ===== src/Nodes/Choice.antt =====
-- Which node the scheduler chooses.
use node_pilot.Common.{
  ◌≡◌, refl, sym, ◌↔◌, inl, inr, true, false, List, [], ◌∷◌, All, Bool-cases, arith,
}
use node_pilot.Common.Error.{no_schedulable_node}
use node_pilot.Common.Exec.{ok, err}
use mathlib.Core.List.{Memᴰ}
use node_pilot.Nodes.Model.{Node}
use node_pilot.Nodes.Scheduler.{
  Floats, SchedulingRequest, Inventory, NodeScore, fits, score, scored, place, sort_descending,
  first_node, candidates, select_node,
}

-- The order of the floats that are no NaN.
pub record IsOrder (fl : Floats) : Type 0 where
  pub asym : (a b : fl.Float) → fl.below a b ≡ true → fl.below b a ≡ false
  pub step : (a b c : fl.Float) → fl.below a b ≡ false → fl.below b c ≡ false → fl.below a c ≡ false

module _ (fl : Floats) where
  abbrev NotAbove : fl.Float → List (NodeScore fl) → Type 0
  NotAbove x ss = All (λ (s : NodeScore fl). fl.below x s.value ≡ false) ss

  -- No element is above the head.
  abbrev HeadMax : List (NodeScore fl) → Type 0
  HeadMax [] = Unit
  HeadMax (t ∷ ts) = NotAbove t.value (t ∷ ts)

  place-All :
      (P : NodeScore fl → Type 0) (s : NodeScore fl) (ts : List (NodeScore fl))
      → P s
      → All P ts
      → All P (place fl s ts)
  unfolding place
  place-All P s [] p h = (p, tt)
  place-All P s (t ∷ ts) p h = elim (Bool-cases (fl.below s.value t.value)) [
    | inl b ↦ rw b (h.0, place-All P s ts p h.1)
    | inr b ↦ rw b (p, h)
  ]

  place-All_back :
      (P : NodeScore fl → Type 0) (s : NodeScore fl) (ts : List (NodeScore fl))
      → All P (place fl s ts)
      → P s × All P ts
  unfolding place
  place-All_back P s [] h = h
  place-All_back P s (t ∷ ts) h = elim (Bool-cases (fl.below s.value t.value)) [
    | inl b ↦
        let h' : All P (t ∷ place fl s ts) = rw b at h in
        let back = place-All_back P s ts h'.1 in (back.0, (h'.0, back.1))
    | inr b ↦ let h' : All P (s ∷ t ∷ ts) = rw b at h in h'
  ]

  sort-All :
      (P : NodeScore fl → Type 0) (ss : List (NodeScore fl))
      → All P ss
      → All P (sort_descending fl ss)
  unfolding sort_descending
  sort-All P [] h = h
  sort-All P (s ∷ ss) h = place-All P s (sort_descending fl ss) h.0 (sort-All P ss h.1)

  sort-All_back :
      (P : NodeScore fl → Type 0) (ss : List (NodeScore fl))
      → All P (sort_descending fl ss)
      → All P ss
  unfolding sort_descending
  sort-All_back P [] h = h
  sort-All_back P (s ∷ ss) h =
      let back = place-All_back P s (sort_descending fl ss) h in (back.0, sort-All_back P ss back.1)

  below_irrefl : IsOrder fl → (a : fl.Float) → fl.below a a ≡ false
  below_irrefl o a = elim (Bool-cases (fl.below a a)) [ inl b ↦ o.asym a a b | inr b ↦ b ]

  NotAbove-mono :
      IsOrder fl
      → (x y : fl.Float) (ss : List (NodeScore fl)) → fl.below x y ≡ false
      → NotAbove y ss
      → NotAbove x ss
  NotAbove-mono o x y [] b h = tt
  NotAbove-mono o x y (s ∷ ss) b h = (o.step x y s.value b h.0, NotAbove-mono o x y ss b h.1)

  place-HeadMax :
      IsOrder fl
      → (s : NodeScore fl) (ts : List (NodeScore fl)) → HeadMax ts
      → HeadMax (place fl s ts)
  unfolding place
  place-HeadMax o s [] h = (below_irrefl o s.value, tt)
  place-HeadMax o s (t ∷ ts) h = elim (Bool-cases (fl.below s.value t.value)) [
    | inl b ↦
        rw b (
          h.0,
          place-All (λ x. fl.below t.value x.value ≡ false) s ts (o.asym s.value t.value b) h.1,
        )
    | inr b ↦ rw b (below_irrefl o s.value, NotAbove-mono o s.value t.value (t ∷ ts) b h)
  ]

  sort-HeadMax : IsOrder fl → (ss : List (NodeScore fl)) → HeadMax (sort_descending fl ss)
  unfolding sort_descending
  sort-HeadMax o [] = tt
  sort-HeadMax o (s ∷ ss) = place-HeadMax o s (sort_descending fl ss) (sort-HeadMax o ss)

  module _ (inv : Inventory) (request : SchedulingRequest) where
    -- An entry of the list is a candidate that fits, with its score.
    abbrev IsEntry : List Node → NodeScore fl → Type 0
    IsEntry nodes s =
        Memᴰ s.node nodes
        × (fits inv request s.node ≡ true)
        × (s.value ≡ score fl inv request s.node)

    All-mono :
        (P Q : NodeScore fl → Type 0)
        → ((s : NodeScore fl) → P s → Q s)
        → (ss : List (NodeScore fl)) → All P ss
        → All Q ss
    All-mono P Q f [] h = tt
    All-mono P Q f (s ∷ ss) h = (f s h.0, All-mono P Q f ss h.1)

    scored-entries : (nodes : List Node) → All (IsEntry nodes) (scored fl inv request nodes)
    unfolding scored
    scored-entries [] = tt
    scored-entries (n ∷ ns) =
        let rest =
          All-mono (IsEntry ns) (IsEntry (n ∷ ns)) (λ s e. (Memᴰ.tail e.0, e.1, e.2))
            (scored fl inv request ns) (scored-entries ns) in
        elim (Bool-cases (fits inv request n)) [
          | inl b ↦ rw b ((Memᴰ.head refl, b, refl), rest)
          | inr b ↦ rw b rest
        ]

    scored-has :
        (P : NodeScore fl → Type 0) (m : Node) (nodes : List Node)
        → Memᴰ m nodes
        → fits inv request m ≡ true
        → All P (scored fl inv request nodes)
        → P (record { node = m; value = score fl inv request m })
    unfolding scored
    scored-has P m [] mem f h = elim mem [ ]
    scored-has P m (n ∷ ns) (Memᴰ.head p) f h =
        let f' : fits inv request n ≡ true = rw p at f in
        let h' : All P
            (record { node = n; value = score fl inv request n } ∷ scored fl inv request ns) =
          rw f' at h in
        rw p h'.0
    scored-has P m (n ∷ ns) (Memᴰ.tail p) f h = elim (Bool-cases (fits inv request n)) [
      | inl b ↦
          let h' : All P
              (record { node = n; value = score fl inv request n } ∷ scored fl inv request ns) =
            rw b at h in
          scored-has P m ns p f h'.1
      | inr b ↦ let h' : All P (scored fl inv request ns) = rw b at h in scored-has P m ns p f h'
    ]

    first_ok :
        (ss : List (NodeScore fl)) (n : Node)
        → first_node fl ss ≡ ok n
        → (s : NodeScore fl) × (ts : List (NodeScore fl)) × (ss ≡ s ∷ ts) × (s.node ≡ n)
    first_ok [] n h = ground arith
    first_ok (s ∷ ts) n h = (s, ts, refl, ground arith)

    first_err : (ss : List (NodeScore fl)) → first_node fl ss ≡ err no_schedulable_node → ss ≡ []
    first_err [] h = refl
    first_err (s ∷ ts) h = ground arith

    -- The node of an entry that no entry is above.
    abbrev IsBest : List Node → Node → Type 0
    IsBest nodes n =
        Memᴰ n (candidates nodes request)
        × (fits inv request n ≡ true)
        × ((m : Node)
            → Memᴰ m (candidates nodes request)
            → fits inv request m ≡ true
            → fl.below (score fl inv request n) (score fl inv request m) ≡ false)

    head-IsBest :
        (nodes : List Node) (s : NodeScore fl)
        → IsEntry (candidates nodes request) s
        → NotAbove s.value (scored fl inv request (candidates nodes request))
        → IsBest nodes s.node
    head-IsBest nodes s e top = (
      e.0,
      e.1,
      λ m mem f. rw (sym e.2) (
          scored-has (λ x. fl.below s.value x.value ≡ false) m (candidates nodes request) mem f
            top),
    )

    -- The node that the scheduler returns is a candidate of the organization that fits, and no
    -- candidate that fits has a higher score.
    pub chosen_best :
        IsOrder fl
        → (nodes : List Node) (n : Node) → select_node fl inv nodes request ≡ ok n
        → Memᴰ n (candidates nodes request)
          × (fits inv request n ≡ true)
          × ((m : Node)
              → Memᴰ m (candidates nodes request)
              → fits inv request m ≡ true
              → fl.below (score fl inv request n) (score fl inv request m) ≡ false)
    unfolding select_node
    chosen_best o nodes n h =
        let cs = candidates nodes request in
        let ss = scored fl inv request cs in
        let (s, ts, split, same) = first_ok (sort_descending fl ss) n h in
        let entries : All (IsEntry cs) (s ∷ ts) =
          rw split at (sort-All (IsEntry cs) ss (scored-entries cs)) in
        let top : HeadMax (s ∷ ts) = rw split at (sort-HeadMax o ss) in
        let tops : NotAbove s.value (sort_descending fl ss) = rw split top in
        rw (← same) (
          head-IsBest nodes s entries.0
            (sort-All_back (λ x. fl.below s.value x.value ≡ false) ss tops))

    none_fit-sort :
        (cs : List Node)
        → ((m : Node) → Memᴰ m cs → fits inv request m ≡ false)
        → scored fl inv request cs ≡ []
    unfolding scored
    none_fit-sort [] h = refl
    none_fit-sort (c ∷ cs) h =
        rw (h c (Memᴰ.head refl)) (none_fit-sort cs (λ m mem. h m (Memᴰ.tail mem)))

    sort_nil : (ss : List (NodeScore fl)) → sort_descending fl ss ≡ [] → All (λ _. ⊥) ss
    sort_nil ss h = sort-All_back (λ _. ⊥) ss (rw h tt)

    -- It raises exactly when no candidate fits.
    pub raises_iff :
        (nodes : List Node)
        → (select_node fl inv nodes request ≡ err no_schedulable_node)
          ↔ ((m : Node) → Memᴰ m (candidates nodes request) → fits inv request m ≡ false)
    unfolding select_node
    raises_iff nodes = (
      λ h m mem. elim (Bool-cases (fits inv request m)) [
        | inl f ↦ absurd (
            scored-has (λ _. ⊥) m (candidates nodes request) mem f
              (sort_nil (scored fl inv request (candidates nodes request)) (first_err _ h)))
        | inr f ↦ f
      ],
      λ h. rw (none_fit-sort (candidates nodes request) h) refl,
    )
