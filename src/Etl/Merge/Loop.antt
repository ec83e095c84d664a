-- ===== src/Etl/Merge/Loop.antt =====
-- The two loops end, and keep the order.
use snail_server.Common.{
  ℕ, zero, suc, ◌≤◌, ◌<◌, ◌≡◌, refl, sym, ◌∙◌, Bool, false, List, ◌∷◌, Option, none, some, ltb,
  arith, Bool-cases, Option-cases, inl, inr,
}
use snail_server.Common.Run.{Run, finished}
use snail_server.Etl.Queue.{PriorityQueue}
use snail_server.Etl.Merge.{Merge, extract_events, deliver, wait, continue_with, is_earlier}
use snail_server.Etl.Merge.Schedule.{Plays-Next, GoesOn, override, total, total-override}
use snail_server.Etl.Merge.Order.{
  IsMerged, AllQueued, IsRunning, Least, deliver-IsMerged, deliver-IsRunning, deliver-AllQueued,
  wait-IsMerged, wait-AllQueued,
}

module _ {E S V W : Type 0} (Q : PriorityQueue) (advance : W → S → Run E ((V × Option S) × W))
    (peek : S → Run E ℕ) (is_canceled : ℕ → Bool) (time : V → ℕ) (Good : W → Type 0) (n : ℕ)
    (schedule : ℕ → List V) where
  abbrev State : Type 0
  State = Merge Q advance peek is_canceled

  abbrev Merged : State → (ℕ → List V) → Type 0
  Merged = IsMerged Q advance peek is_canceled time Good n schedule

  abbrev Queued : State → (ℕ → List V) → Type 0
  Queued = AllQueued Q advance peek is_canceled time Good n schedule

  abbrev Running : ℕ → S → State → (ℕ → List V) → Type 0
  Running = IsRunning Q advance peek is_canceled time Good n schedule

  pub record HasExtracted (r : Run E State) (before : ℕ) : Type 0 where
    pub reached : State
    pub rest : ℕ → List V
    pub result : r ≡ finished reached
    pub merged : Merged reached rest
    pub queued : Queued reached rest
    pub fewer : total n rest < before

  -- Where the running processor is not later than any other, nothing else is queued earlier.
  is_earlier-Least :
      (t : ℕ) (m : State)
      → is_earlier Q advance peek is_canceled (Q.top m.event_queue) t ≡ false
      → Least Q advance peek is_canceled time Good n schedule t m
  is_earlier-Least t m h j u w = elim (Option-cases (Q.top m.event_queue)) [
    | inl e ↦ absurd (ground (arith, sym w ∙ Q.top_none m.event_queue e j))
    | inr (x, e) ↦
        let b : ltb x.next_event_time t ≡ false = rw e at h in
        let l : x.next_event_time ≤ u = rw w at (Q.top_least m.event_queue x e j) in ground arith
  ]

  -- The running processor's index is one of the vector's, as it has an event left.
  running_inside :
      (i : ℕ) (m : State) (rest : ℕ → List V) (e : V) (es : List V)
      → Merged m rest
      → rest i ≡ e ∷ es
      → i < n
  running_inside i m rest e es k h = elim (Bool-cases (ltb i n)) [
    | inl b ↦ ground arith
    | inr b ↦ absurd (ground (arith, sym h ∙ k.inside i (ground arith)))
  ]

  abbrev pub Extracts : (S → State → Run E State) → ℕ → ℕ → Type 0
  Extracts next fuel i =
      (s : S) (m : State) (rest : ℕ → List V)
      → Merged m rest
      → (r : Running i s m rest) → Least Q advance peek is_canceled time Good n schedule r.t m
      → total n rest < fuel
      → HasExtracted (next s m) (total n rest)

  continue_with-HasExtracted :
      (next : S → State → Run E State) (fuel i : ℕ) (s : S) (m : State) (rest : ℕ → List V) (e : V)
      (es : List V) (after : Option S) (w : W)
      → Good w
      → Extracts next fuel i
      → Merged m rest
      → (r : Running i s m rest) → Least Q advance peek is_canceled time Good n schedule r.t m
      → rest i ≡ e ∷ es
      → GoesOn advance peek time Good after es
      → total n rest < suc fuel
      → HasExtracted
          (continue_with Q advance peek is_canceled next i after
            (deliver Q advance peek is_canceled i e w m))
          (total n rest)
  continue_with-HasExtracted next fuel i s m rest e es none w good ih k r least h g f =
      let one_less = total-override n i e es rest (running_inside i m rest e es k h) h in
      record {
        reached = deliver Q advance peek is_canceled i e w m;
        rest = override i es rest;
        result = refl;
        merged =
            deliver-IsMerged Q advance peek is_canceled time Good n schedule i s m rest e es w good
              k r least h;
        queued =
            rw g
              (deliver-AllQueued Q advance peek is_canceled time Good n schedule i s m rest e w r);
        fewer = omega arith;
      }
  continue_with-HasExtracted next fuel i s m rest e es (some s') w good ih k r least h g f =
      let one_less = total-override n i e es rest (running_inside i m rest e es k h) h in
      let m' = deliver Q advance peek is_canceled i e w m in
      let k' =
        deliver-IsMerged Q advance peek is_canceled time Good n schedule i s m rest e es w good k r
          least h in
      let r' =
        deliver-IsRunning Q advance peek is_canceled time Good n schedule i s s' m rest e es w r
          g in
      elim (Bool-cases (is_earlier Q advance peek is_canceled (Q.top m.event_queue) r'.t)) [
        | inl b ↦
            rw (r'.next, b)
              (record {
                reached = wait Q advance peek is_canceled i r'.t s' m';
                rest = override i es rest;
                result = refl;
                merged =
                    wait-IsMerged Q advance peek is_canceled time Good n schedule i s' m'
                      (override i es rest) k' r';
                queued =
                    wait-AllQueued Q advance peek is_canceled time Good n schedule i s' m'
                      (override i es rest) r';
                fewer = omega arith;
              })
        | inr b ↦
            let x =
              ih s' m' (override i es rest) k' r' (is_earlier-Least r'.t m' b) (omega arith) in
            rw (r'.next, b)
              (record {
                reached = x.reached;
                rest = x.rest;
                result = x.result;
                merged = x.merged;
                queued = x.queued;
                fewer = omega (arith, x.fewer);
              })
      ]

  pub extract_events-HasExtracted :
      (fuel i : ℕ) → Extracts (extract_events Q advance peek is_canceled fuel i) fuel i
  unfolding extract_events
  extract_events-HasExtracted zero i s m rest k r least f = absurd (omega arith)
  extract_events-HasExtracted (suc fuel) i s m rest k r least f =
      let x = Plays-Next advance peek time Good s (rest i) r.runs in
      let (w, a, good) = x.advances m.file_stream k.healthy in
      rw a (
        continue_with-HasExtracted _ fuel i s m rest x.event x.tail x.after w good
          (extract_events-HasExtracted fuel i) k r least x.split x.goes_on f)
