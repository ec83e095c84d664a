-- ===== src/Etl/Merge/Turns.antt =====
-- The whole merge.
use snail_server.Common.{
  ℕ, zero, suc, ◌+◌, ◌<◌, ◌≡◌, refl, sym, ◌∙◌, ap, Bool, false, List, [], Option, some, arith,
  Bool-cases, Option-cases, inl, inr, ◌==◌,
}
use snail_server.Common.Run.{Run, finished}
use snail_server.Etl.Queue.{NextEventPriorityInfo, PriorityQueue}
use snail_server.Etl.Merge.{Merge, process_events, pop_event}
use snail_server.Etl.Merge.Schedule.{total}
use snail_server.Etl.Merge.Order.{IsMerged, AllQueued, IsRunning, IsReady, Least}
use snail_server.Etl.Merge.Loop.{extract_events-HasExtracted}

module _ {E S V W : Type 0} (Q : PriorityQueue) (advance : W → S → Run E ((V × Option S) × W))
    (peek : S → Run E ℕ) (is_canceled : ℕ → Bool) (time : V → ℕ) (Good : W → Type 0) (n : ℕ)
    (schedule : ℕ → List V) where
  abbrev State : Type 0
  State = Merge Q advance peek is_canceled

  abbrev Merged : State → (ℕ → List V) → Type 0
  Merged = IsMerged Q advance peek is_canceled time Good n schedule

  abbrev Queued : State → (ℕ → List V) → Type 0
  Queued = AllQueued Q advance peek is_canceled time Good n schedule

  abbrev Running : ℕ → S → State → (ℕ → List V) → Type 0
  Running = IsRunning Q advance peek is_canceled time Good n schedule

  abbrev Ready : State → ℕ → ℕ → List V → Type 0
  Ready = IsReady Q advance peek is_canceled time Good n schedule

  pub record HasMerged (r : Run E State) : Type 0 where
    pub reached : State
    pub rest : ℕ → List V
    pub result : r ≡ finished reached
    pub merged : Merged reached rest
    pub all : ((k : ℕ) → is_canceled k ≡ false) → (i : ℕ) → rest i ≡ []

  asked-IsMerged :
      (a : ℕ) (m : State) (rest : ℕ → List V) → Merged m rest → Merged (record m { asked = a }) rest
  asked-IsMerged a m rest k = record {
    ready = λ i t w.
        let c = k.ready i t w in
        record { processor = c.processor; stored = c.stored; plays = c.plays; at_time = c.at_time };
    healthy = k.healthy;
    sorted = k.sorted;
    complete = k.complete;
    in_order = k.in_order;
    later = k.later;
    inside = k.inside;
  }

  -- The processor on top is taken out of the queue.
  module _ (m : State) (rest : ℕ → List V) (x : NextEventPriorityInfo)
      (top : Q.top m.event_queue ≡ some x) where
    abbrev popped : State
    popped = pop_event Q advance peek is_canceled m

    waits : (j u : ℕ) → Q.waiting popped.event_queue j ≡ some u → Q.waiting m.event_queue j ≡ some u
    waits j u w = elim (Bool-cases (j == x.processor_index)) [
      | inl b ↦
          let e : j ≡ x.processor_index = ground arith in
          absurd (
            ground
              (arith, sym w ∙ ap (Q.waiting popped.event_queue) e ∙ Q.pop_same m.event_queue x top))
      | inr b ↦ sym (Q.pop_other m.event_queue x j top (ground arith)) ∙ w
    ]

    pop_event-IsMerged : Merged m rest → Merged popped rest
    pop_event-IsMerged k = record {
      ready = λ i t w.
          let c = k.ready i t (waits i t w) in
          record {
            processor = c.processor;
            stored = c.stored;
            plays = c.plays;
            at_time = c.at_time;
          };
      healthy = k.healthy;
      sorted = k.sorted;
      complete = k.complete;
      in_order = k.in_order;
      later = k.later;
      inside = k.inside;
    }

    pop_event-IsRunning :
        Queued m rest
        → (c : Ready m x.processor_index x.next_event_time (rest x.processor_index))
        → (r : Running x.processor_index c.processor popped rest) × Least Q advance peek is_canceled
            time Good n schedule r.t popped
    pop_event-IsRunning q c = (
      record {
        out_of_queue = Q.pop_same m.event_queue x top;
        others = λ j d w. q j (sym (Q.pop_other m.event_queue x j top d) ∙ w);
        runs = c.plays;
        slot = c.processor;
        stored = c.stored;
        t = x.next_event_time;
        next = c.at_time;
      },
      λ j u w. rw (waits j u w) at (Q.top_least m.event_queue x top j),
    )

  pub process_events-HasMerged :
      (fuel : ℕ) (m : State) (rest : ℕ → List V)
      → Merged m rest
      → Queued m rest
      → total n rest < fuel
      → HasMerged (process_events Q advance peek is_canceled fuel m)
  unfolding process_events
  process_events-HasMerged zero m rest k q f = absurd (omega arith)
  process_events-HasMerged (suc fuel) m rest k q f = elim (Option-cases (Q.top m.event_queue)) [
    | inl e ↦ rw e (record {
      reached = m;
      rest = rest;
      result = refl;
      merged = k;
      all = λ _ i. q i (Q.top_none m.event_queue e i);
    })
    | inr (x, e) ↦ elim (Bool-cases (is_canceled m.asked)) [
      | inl b ↦
          rw (e, b)
            (record {
              reached = record m { asked = m.asked + 1 };
              rest = rest;
              result = refl;
              merged = asked-IsMerged (m.asked + 1) m rest k;
              all = λ h. absurd (ground (arith, sym b ∙ h m.asked));
            })
      | inr b ↦
          let c = k.ready x.processor_index x.next_event_time (Q.top_waiting m.event_queue x e) in
          let running = pop_event-IsRunning m rest x e q c in
          let r =
            extract_events-HasExtracted Q advance peek is_canceled time Good n schedule (suc fuel)
              x.processor_index c.processor (pop_event Q advance peek is_canceled m) rest
              (pop_event-IsMerged m rest x e k) running.0 running.1 f in
          let h =
            process_events-HasMerged fuel r.reached r.rest r.merged r.queued
              (omega (arith, r.fewer)) in
          rw (e, b, c.stored, r.result)
            (record {
              reached = h.reached;
              rest = h.rest;
              result = h.result;
              merged = h.merged;
              all = h.all;
            })
    ]
  ]
