-- ===== src/Proxy/Service/Isolation.antt =====
-- The connections of the proxy in any interleaving of their turns.
use zk_prompt.Base.{
  ℕ, zero, suc, ◌+◌, ◌≤◌, ◌<◌, ◌≡◌, ◌≢◌, refl, ap, sym, ◌∙◌, true, ◌&&◌, Option, none, some, List,
  [], ◌∷◌, ◌++◌, length, get_elem?, set, get_elem?-append, length-append, length-set, ◌==◌, ==_iff,
  ltb, arith, if◌then◌else◌, Bool-cases, inl, inr,
}
use native.Mathlib.Decide.{ℕ_discrete}
use zk_prompt.Field.{PrimeField}
use zk_prompt.Proxy.Service.{
  Copy, Connection, connecting, Turn, handle_client, ServiceEvent, accepted, accept_failed, turn,
  serving, turn_of, serve,
}

module _ {ℓ} {A : Type ℓ} where
  get_elem?-set :
      (xs : List A) (i : ℕ) (x y : A) → get_elem? xs i ≡ some x → get_elem? (set xs i y) i ≡ some y
  get_elem?-set [] i x y h = cc
  get_elem?-set (z ∷ xs) zero x y h = refl
  get_elem?-set (z ∷ xs) (suc i) x y h = get_elem?-set xs i x y h

  get_elem?-set_other :
      (xs : List A) (i j : ℕ) (y : A) → i ≢ j → get_elem? (set xs j y) i ≡ get_elem? xs i
  get_elem?-set_other [] i j y h = refl
  get_elem?-set_other (z ∷ xs) zero zero y h = absurd (h refl)
  get_elem?-set_other (z ∷ xs) zero (suc j) y h = refl
  get_elem?-set_other (z ∷ xs) (suc i) zero y h = refl
  get_elem?-set_other (z ∷ xs) (suc i) (suc j) y h =
      get_elem?-set_other xs i j y (λ e. h (ap suc e))

  get_elem?-append_left :
      (xs ys : List A) (i : ℕ) (x : A) → get_elem? xs i ≡ some x → get_elem? (xs ++ ys) i ≡ some x
  get_elem?-append_left [] ys i x h = cc
  get_elem?-append_left (z ∷ xs) ys zero x h = h
  get_elem?-append_left (z ∷ xs) ys (suc i) x h = get_elem?-append_left xs ys i x h

  get_elem?-lt : (xs : List A) (i : ℕ) (x : A) → get_elem? xs i ≡ some x → i < length xs
  get_elem?-lt [] i x h = cc
  get_elem?-lt (z ∷ xs) zero x h = omega arith
  get_elem?-lt (z ∷ xs) (suc i) x h = omega (arith, get_elem?-lt xs i x h)

  get_elem?-ge : (xs : List A) (i : ℕ) → length xs ≤ i → get_elem? xs i ≡ none
  get_elem?-ge [] i h = refl
  get_elem?-ge (z ∷ xs) zero h = absurd (omega arith)
  get_elem?-ge (z ∷ xs) (suc i) h = get_elem?-ge xs i (omega arith)

module _ (f : PrimeField) (copy : Copy) where
  -- One connection by itself.
  abbrev pub alone : List (Turn f copy) → Connection f copy → Connection f copy
  alone [] c = c
  alone (e ∷ es) c = alone es (handle_client f copy e c)

  -- The turns of connection `i`, when `n` connections have been accepted before.
  unfoldable pub own : ℕ → ℕ → List (ServiceEvent f copy) → List (Turn f copy)
  own i n [] = []
  own i n (accepted ∷ events) = own i (n + 1) events
  own i n (accept_failed ∷ events) = []
  own i n (turn j e ∷ events) =
      let later = own i n events in if j == i && ltb i n then e ∷ later else later

  abbrev Ends :
      List (ServiceEvent f copy) → List (Connection f copy) → List (Connection f copy) → Type 0
  Ends events cs cs' = serve f copy events cs ≡ serving cs'

  length-turn_of :
      (cs : List (Connection f copy)) (j : ℕ) (e : Turn f copy) (o : Option (Connection f copy))
      → length (turn_of f copy o j e cs) ≡ length cs
  length-turn_of cs j e none = refl
  length-turn_of cs j e (some c) = length-set cs j (handle_client f copy e c)

  turn_of_other :
      (cs : List (Connection f copy)) (i j : ℕ) (e : Turn f copy) (o : Option (Connection f copy))
      → i ≢ j
      → get_elem? (turn_of f copy o j e cs) i ≡ get_elem? cs i
  turn_of_other cs i j e none h = refl
  turn_of_other cs i j e (some c) h = get_elem?-set_other cs i j (handle_client f copy e c) h

  abbrev grown : List (Connection f copy) → List (Connection f copy)
  grown cs = cs ++ connecting ∷ []

  length-grown : (cs : List (Connection f copy)) → length (grown cs) ≡ length cs + 1
  length-grown cs = length-append cs (connecting ∷ [])

  own-same :
      (i j n : ℕ) (e : Turn f copy) (events : List (ServiceEvent f copy))
      → j ≡ i
      → i < n
      → own i n (turn j e ∷ events) ≡ e ∷ own i n events
  unfolding own
  own-same i j n e events h k =
      let same : (j == i) ≡ true = (==_iff j i).1 h in
      let there : ltb i n ≡ true = ground (arith, k) in rw (same, there) refl

  own-other :
      (i j n : ℕ) (e : Turn f copy) (events : List (ServiceEvent f copy))
      → ¬ ((j ≡ i) × (i < n))
      → own i n (turn j e ∷ events) ≡ own i n events
  unfolding own
  own-other i j n e events h = elim (Bool-cases (j == i && ltb i n)) [
    | inl both ↦ absurd (h (ground (arith, both, ==_iff j i)))
    | inr not_both ↦ rw not_both refl
  ]

  -- A connection that is there meets its own turns.
  serve_known :
      (events : List (ServiceEvent f copy)) (cs cs' : List (Connection f copy)) (i : ℕ)
      (c : Connection f copy)
      → Ends events cs cs'
      → get_elem? cs i ≡ some c
      → get_elem? cs' i ≡ some (alone (own i (length cs) events) c)
  unfolding serve own
  serve_known [] cs cs' i c ends here =
      let same : cs ≡ cs' = cc (ends) in
      ap (λ (l : List (Connection f copy)). get_elem? l i) (sym same) ∙ here
  serve_known (accepted ∷ events) cs cs' i c ends here =
      serve_known events (grown cs) cs' i c ends
        (get_elem?-append_left cs (connecting ∷ []) i c here)
      ∙ ap (λ (n : ℕ). some (alone (own i n events) c)) (length-grown cs)
  serve_known (accept_failed ∷ events) cs cs' i c ends here = cc (ends)
  serve_known (turn j e ∷ events) cs cs' i c ends here = elim (ℕ_discrete j i) [
    | yes e' ↦
        let c' = handle_client f copy e c in
        let there : get_elem? cs j ≡ some c = ap (get_elem? cs) e' ∙ here in
        let ends' : Ends events (set cs j c') cs' = rw there at ends in
        serve_known events (set cs j c') cs' i c' ends'
          (ap (get_elem? (set cs j c')) (sym e') ∙ get_elem?-set cs j c c' there)
        ∙ ap (λ (n : ℕ). some (alone (own i n events) c')) (length-set cs j c')
        ∙ ap (λ (ts : List (Turn f copy)). some (alone ts c))
            (sym (own-same i j (length cs) e events e' (get_elem?-lt cs i c here)))
    | no other ↦
        let moved = turn_of f copy (get_elem? cs j) j e cs in
        serve_known events moved cs' i c ends
          (turn_of_other cs i j e (get_elem? cs j) (λ e'. other (sym e')) ∙ here)
        ∙ ap (λ (n : ℕ). some (alone (own i n events) c)) (length-turn_of cs j e (get_elem? cs j))
        ∙ ap (λ (ts : List (Turn f copy)). some (alone ts c))
            (sym (own-other i j (length cs) e events (λ both. other (both.0))))
  ]

  -- A connection that is accepted later starts with no turn behind it.
  serve_new :
      (events : List (ServiceEvent f copy)) (cs cs' : List (Connection f copy)) (i : ℕ)
      (c : Connection f copy)
      → Ends events cs cs'
      → length cs ≤ i
      → get_elem? cs' i ≡ some c
      → c ≡ alone (own i (length cs) events) connecting
  unfolding serve own
  serve_new [] cs cs' i c ends new here =
      let same : cs ≡ cs' = cc (ends) in
      let absent =
        ap (λ (l : List (Connection f copy)). get_elem? l i) (sym same) ∙ get_elem?-ge cs i new in
      cc (absent, here)
  serve_new (accepted ∷ events) cs cs' i c ends new here = elim (ℕ_discrete (length cs) i) [
    | yes e ↦
        let there : get_elem? (grown cs) i ≡ some connecting =
          ap (get_elem? (grown cs)) (sym e) ∙ get_elem?-append cs [] connecting in
        let known = serve_known events (grown cs) cs' i connecting ends there in
        let same : c ≡ alone (own i (length (grown cs)) events) connecting = cc (here, known) in
        same ∙ ap (λ (n : ℕ). alone (own i n events) connecting) (length-grown cs)
    | no other ↦
        let new' : length (grown cs) ≤ i = omega (arith, length-grown cs, new, other) in
        serve_new events (grown cs) cs' i c ends new' here
        ∙ ap (λ (n : ℕ). alone (own i n events) connecting) (length-grown cs)
  ]
  serve_new (accept_failed ∷ events) cs cs' i c ends new here = cc (ends)
  serve_new (turn j e ∷ events) cs cs' i c ends new here =
      let moved = turn_of f copy (get_elem? cs j) j e cs in
      let size = length-turn_of cs j e (get_elem? cs j) in
      serve_new events moved cs' i c ends (omega (arith, size, new)) here
      ∙ ap (λ (n : ℕ). alone (own i n events) connecting) size
      ∙ ap (λ (ts : List (Turn f copy)). alone ts connecting)
          (sym (own-other i j (length cs) e events (λ both. omega (arith, both.1, new))))

  -- While the proxy serves, each connection is what its own turns make of it, in whatever order the
  -- turns of the connections and the acceptances of others come, and whether others fail or not.
  pub serve-alone :
      (events : List (ServiceEvent f copy)) (cs : List (Connection f copy)) (i : ℕ)
      (c : Connection f copy)
      → serve f copy events [] ≡ serving cs
      → get_elem? cs i ≡ some c
      → c ≡ alone (own i 0 events) connecting
  serve-alone events cs i c ends here = serve_new events [] cs i c ends (omega arith) here
