-- ===== src/Etl/Merge/Schedule.antt =====
-- The events that each processor's buffers hold, and lists of events in the order of their times.
use snail_server.Common.{
  ℕ, zero, suc, ◌+◌, ◌≤◌, ◌<◌, ◌≡◌, ◌≢◌, refl, ap, subst, false, List, [], ◌∷◌, Option, none, some,
  ◌==◌, arith, Bool-cases, ==_refl, inl, inr, if◌then◌else◌, length,
}
use snail_server.Common.Run.{Run, finished}
use snail_server.Etl.Merge.{Delivered}

-- `Good` are the file streams that no read has failed on.
module _ {E S V W : Type 0} (advance : W → S → Run E ((V × Option S) × W)) (peek : S → Run E ℕ)
    (time : V → ℕ) (Good : W → Type 0) where
  abbrev pub Advances : S → V → Option S → Type 0
  Advances s e after =
      (w : W) → Good w → (w' : W) × (advance w s ≡ finished ((e, after), w')) × Good w'

  -- A processor whose buffers give some events, without errors, each queued by its own time.
  pub data Plays : S → List V → Type 0 where
    last : (s : S) (e : V) → peek s ≡ finished (time e) → Advances s e none → Plays s (e ∷ [])
    more :
        (s s' : S) (e : V) (rest : List V)
        → peek s ≡ finished (time e)
        → Advances s e (some s')
        → Plays s' rest
        → Plays s (e ∷ rest)

  abbrev pub GoesOn : Option S → List V → Type 0
  GoesOn none es = es ≡ []
  GoesOn (some s) es = Plays s es

  -- What the next event is and what follows.
  pub record Next (s : S) (es : List V) : Type 0 where
    pub event : V
    pub tail : List V
    pub split : es ≡ event ∷ tail
    pub at_time : peek s ≡ finished (time event)
    pub after : Option S
    pub advances : Advances s event after
    pub goes_on : GoesOn after tail

  pub Plays-Next : (s : S) (es : List V) → Plays s es → Next s es
  Plays-Next s _ (last _ e p a) = record {
    event = e;
    tail = [];
    split = refl;
    at_time = p;
    after = none;
    advances = a;
    goes_on = refl;
  }
  Plays-Next s _ (more _ s' e rest p a l) = record {
    event = e;
    tail = rest;
    split = refl;
    at_time = p;
    after = some s';
    advances = a;
    goes_on = l;
  }

  pub Plays-peek : (s : S) (e : V) (rest : List V) → Plays s (e ∷ rest) → peek s ≡ finished (time e)
  Plays-peek s e _ (last _ _ p _) = p
  Plays-peek s e _ (more _ _ _ _ p _ _) = p

module _ {V : Type 0} (time : V → ℕ) where
  abbrev pub Above : ℕ → List V → Type 0
  Above t [] = Unit {0}
  Above t (e ∷ es) = t ≤ time e

  abbrev pub IsSorted : List V → Type 0
  IsSorted [] = Unit {0}
  IsSorted (e ∷ es) = Above (time e) es × IsSorted es

  -- Nothing is earlier than what is delivered already.
  abbrev pub IsLater : List (Delivered V) → List V → Type 0
  IsLater [] es = Unit {0}
  IsLater (d ∷ ds) es = Above (time d.event) es

  -- In the order of the times; the newest comes first.
  abbrev pub IsInOrder : List (Delivered V) → Type 0
  IsInOrder [] = Unit {0}
  IsInOrder (d ∷ ds) = IsLater ds (d.event ∷ []) × IsInOrder ds

  pub IsLater-head :
      (ds : List (Delivered V)) (e : V) (es : List V) → IsLater ds (e ∷ es) → IsLater ds (e ∷ [])
  IsLater-head [] e es h = tt
  IsLater-head (d ∷ ds) e es h = h

module _ {V : Type 0} where
  -- The events of one processor among the delivered ones, oldest first, and others behind them.
  abbrev pub played : ℕ → List (Delivered V) → List V → List V
  played i [] rest = rest
  played i (d ∷ ds) rest = played i ds (if i == d.from then d.event ∷ rest else rest)

  pub played_same :
      (d : Delivered V) (ds : List (Delivered V)) (rest : List V)
      → played d.from (d ∷ ds) rest ≡ played d.from ds (d.event ∷ rest)
  played_same d ds rest =
      ap (λ b. played d.from ds (if b then d.event ∷ rest else rest)) (==_refl d.from)

  pub played_other :
      (i : ℕ) (d : Delivered V) (ds : List (Delivered V)) (rest : List V)
      → i ≢ d.from
      → played i (d ∷ ds) rest ≡ played i ds rest
  played_other i d ds rest h =
      let e : (i == d.from) ≡ false = ground arith in
      ap (λ b. played i ds (if b then d.event ∷ rest else rest)) e

  abbrev pub override : ℕ → List V → (ℕ → List V) → ℕ → List V
  override i es rest j = if j == i then es else rest j

  pub override_same : (i : ℕ) (es : List V) (rest : ℕ → List V) → override i es rest i ≡ es
  override_same i es rest = rw (==_refl i) refl

  pub override_other :
      (i j : ℕ) (es : List V) (rest : ℕ → List V) → j ≢ i → override i es rest j ≡ rest j
  override_other i j es rest h = let e : (j == i) ≡ false = ground arith in rw e refl

  -- What holds of the new list and of the others holds of all.
  pub override-all :
      (P : ℕ → List V → Type 0) (i : ℕ) (es : List V) (rest : ℕ → List V)
      → P i es
      → ((j : ℕ) → j ≢ i → P j (rest j))
      → (j : ℕ) → P j (override i es rest j)
  override-all P i es rest h k j = elim (Bool-cases (j == i)) [
    | inl b ↦ rw b (subst (λ x. P x es) (ground arith) h)
    | inr b ↦ rw b (k j (ground arith))
  ]

  -- The number of events of the processors below `n`.
  abbrev pub total : ℕ → (ℕ → List V) → ℕ
  total zero rest = 0
  total (suc n) rest = length (rest n) + total n rest

  total-override_above :
      (n i : ℕ) (es : List V) (rest : ℕ → List V)
      → n ≤ i
      → total n (override i es rest) ≡ total n rest
  total-override_above zero i es rest h = refl
  total-override_above (suc n) i es rest h =
      rw (override_other i n es rest (ground arith), total-override_above n i es rest (omega arith))
        refl

  pub total-override :
      (n i : ℕ) (e : V) (es : List V) (rest : ℕ → List V)
      → i < n
      → rest i ≡ e ∷ es
      → suc (total n (override i es rest)) ≡ total n rest
  total-override zero i e es rest h k = absurd (omega arith)
  total-override (suc n) i e es rest h k = elim (Bool-cases (n == i)) [
    | inl b ↦
        let same : n ≡ i = ground arith in
        rw (same, override_same i es rest, total-override_above i i es rest (omega arith), k)
          (omega arith)
    | inr b ↦
        let ih = total-override n i e es rest (ground arith) k in
        rw (override_other i n es rest (ground arith)) (omega arith)
  ]
