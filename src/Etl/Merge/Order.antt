-- ===== src/Etl/Merge/Order.antt =====
-- Every event is delivered once, and all in the order of their times.
use snail_server.Common.{
  ℕ, ◌≤◌, ◌≡◌, ◌≢◌, refl, sym, ◌∙◌, ap, subst, Bool, List, [], ◌∷◌, Option, none, some, ◌==◌, arith,
  Bool-cases, Option-cases, inl, inr, get_elem?, get_elem?-set_same, get_elem?-set_other,
}
use snail_server.Common.Run.{Run, finished}
use snail_server.Etl.Queue.{NextEventPriorityInfo, PriorityQueue}
use snail_server.Etl.Merge.{Delivered, Merge, deliver, wait}
use snail_server.Etl.Merge.Schedule.{
  Plays, last, more, Plays-peek, Plays-Next, Above, IsSorted, IsLater, IsInOrder, played,
  played_same, played_other, IsLater-head, override, override_same, override-all,
}

module _ {E S V W : Type 0} (Q : PriorityQueue) (advance : W → S → Run E ((V × Option S) × W))
    (peek : S → Run E ℕ) (is_canceled : ℕ → Bool) (time : V → ℕ) (Good : W → Type 0) (n : ℕ)
    (schedule : ℕ → List V) where
  abbrev State : Type 0
  State = Merge Q advance peek is_canceled

  -- A processor that is queued by the time of its next event.
  pub record IsReady (m : State) (i t : ℕ) (es : List V) : Type 0 where
    pub processor : S
    pub stored : get_elem? m.per_processor_data i ≡ some processor
    pub plays : Plays advance peek time Good processor es
    pub at_time : peek processor ≡ finished t

  -- `rest` are the events of each processor that are not delivered.
  pub record IsMerged (m : State) (rest : ℕ → List V) : Type 0 where
    pub healthy : Good m.file_stream
    pub ready : (i t : ℕ) → Q.waiting m.event_queue i ≡ some t → IsReady m i t (rest i)
    pub sorted : (i : ℕ) → IsSorted time (rest i)
    pub complete : (i : ℕ) → played i m.delivered (rest i) ≡ schedule i
    pub in_order : IsInOrder time m.delivered
    pub later : (i : ℕ) → IsLater time m.delivered (rest i)
    pub inside : (i : ℕ) → n ≤ i → rest i ≡ []

  -- Between two rounds of the outer loop.
  abbrev pub AllQueued : State → (ℕ → List V) → Type 0
  AllQueued m rest = (i : ℕ) → Q.waiting m.event_queue i ≡ none → rest i ≡ []

  -- In a round for processor `i`.
  pub record IsRunning (i : ℕ) (s : S) (m : State) (rest : ℕ → List V) : Type 0 where
    pub out_of_queue : Q.waiting m.event_queue i ≡ none
    pub others : (j : ℕ) → j ≢ i → Q.waiting m.event_queue j ≡ none → rest j ≡ []
    pub runs : Plays advance peek time Good s (rest i)
    pub slot : S
    pub stored : get_elem? m.per_processor_data i ≡ some slot
    pub t : ℕ
    pub next : peek s ≡ finished t

  abbrev pub Least : ℕ → State → Type 0
  Least t m = (j u : ℕ) → Q.waiting m.event_queue j ≡ some u → t ≤ u

  Plays-Above :
      (s : S) (es : List V) (t u : ℕ)
      → Plays advance peek time Good s es
      → peek s ≡ finished u
      → t ≤ u
      → Above time t es
  Plays-Above s _ t u (last _ e p _) q h = ground arith
  Plays-Above s _ t u (more _ _ e _ p _ _) q h = ground arith

  running-Above :
      (i : ℕ) (s : S) (m : State) (rest : ℕ → List V)
      → IsMerged m rest
      → (r : IsRunning i s m rest) → Least r.t m
      → (j : ℕ) → Above time r.t (rest j)
  running-Above i s m rest k r least j = elim (Bool-cases (j == i)) [
    | inl b ↦
        let e : i ≡ j = ground arith in
        subst (λ x. Above time r.t (rest x)) e
          (Plays-Above s (rest i) r.t r.t r.runs r.next (omega arith))
    | inr b ↦ elim (Option-cases (Q.waiting m.event_queue j)) [
      | inl e ↦ rw (r.others j (ground arith) e) tt
      | inr (u, e) ↦
          let d = k.ready j u e in
          Plays-Above d.processor (rest j) r.t u d.plays d.at_time (least j u e)
    ]
  ]

  -- The next event of the running processor is delivered.
  pub deliver-IsMerged :
      (i : ℕ) (s : S) (m : State) (rest : ℕ → List V) (e : V) (es : List V) (w : W)
      → Good w
      → IsMerged m rest
      → (r : IsRunning i s m rest) → Least r.t m
      → rest i ≡ e ∷ es
      → IsMerged (deliver Q advance peek is_canceled i e w m) (override i es rest)
  deliver-IsMerged i s m rest e es w g k r least h =
      let m' = deliver Q advance peek is_canceled i e w m in
      let now_delivered : Delivered V = record { from = i; event = e } in
      let at : peek s ≡ finished (time e) =
        Plays-peek advance peek time Good s e es
          (subst (Plays advance peek time Good s) h r.runs) in
      let now : r.t ≡ time e = ground (arith, sym at ∙ r.next) in
      let tail : Above time (time e) es × IsSorted time es = subst (IsSorted time) h (k.sorted i) in
      record {
        ready =
            override-all (λ j xs. (t : ℕ) → Q.waiting m.event_queue j ≡ some t → IsReady m' j t xs)
              i es rest (λ t w. absurd (ground (arith, sym w ∙ r.out_of_queue)))
              (λ j d t w.
                let c = k.ready j t w in
                record {
                  processor = c.processor;
                  stored = c.stored;
                  plays = c.plays;
                  at_time = c.at_time;
                });
        healthy = g;
        sorted = override-all (λ _ xs. IsSorted time xs) i es rest tail.1 (λ j d. k.sorted j);
        complete =
            override-all (λ j xs. played j m'.delivered xs ≡ schedule j) i es rest
              (played_same now_delivered m.delivered es
                ∙ ap (played i m.delivered) (sym h)
                ∙ k.complete i)
              (λ j d. played_other j now_delivered m.delivered (rest j) d ∙ k.complete j);
        in_order = (
          IsLater-head time m.delivered e es (subst (IsLater time m.delivered) h (k.later i)),
          k.in_order,
        );
        later =
            override-all (λ _ xs. Above time (time e) xs) i es rest tail.0
              (λ j d.
                subst (λ t. Above time t (rest j)) now (running-Above i s m rest k r least j));
        inside =
            override-all (λ j xs. n ≤ j → xs ≡ []) i es rest
              (λ b. absurd (ground (arith, sym h ∙ k.inside i b))) (λ j d b. k.inside j b);
      }

  -- The processor goes on with what its buffers still hold.
  pub deliver-IsRunning :
      (i : ℕ) (s s' : S) (m : State) (rest : ℕ → List V) (e : V) (es : List V) (w : W)
      → IsRunning i s m rest
      → Plays advance peek time Good s' es
      → IsRunning i s' (deliver Q advance peek is_canceled i e w m) (override i es rest)
  deliver-IsRunning i s s' m rest e es w r p =
      let x = Plays-Next advance peek time Good s' es p in
      record {
        out_of_queue = r.out_of_queue;
        others =
            override-all (λ j xs. j ≢ i → Q.waiting m.event_queue j ≡ none → xs ≡ []) i es rest
              (λ d. absurd (d refl)) (λ j _. r.others j);
        runs = rw (sym (override_same i es rest)) at p;
        slot = r.slot;
        stored = r.stored;
        t = time x.event;
        next = x.at_time;
      }

  pub deliver-AllQueued :
      (i : ℕ) (s : S) (m : State) (rest : ℕ → List V) (e : V) (w : W)
      → IsRunning i s m rest
      → AllQueued (deliver Q advance peek is_canceled i e w m) (override i [] rest)
  deliver-AllQueued i s m rest e w r =
      override-all (λ j xs. Q.waiting m.event_queue j ≡ none → xs ≡ []) i [] rest (λ _. refl)
        r.others

  -- Where another processor is earlier, the running one is queued again.
  pub wait-IsMerged :
      (i : ℕ) (s : S) (m : State) (rest : ℕ → List V)
      → IsMerged m rest
      → (r : IsRunning i s m rest) → IsMerged (wait Q advance peek is_canceled i r.t s m) rest
  wait-IsMerged i s m rest k r =
      let m' = wait Q advance peek is_canceled i r.t s m in
      let entry : NextEventPriorityInfo = record { next_event_time = r.t; processor_index = i } in
      record {
        ready = λ j u w. elim (Bool-cases (j == i)) [
          | inl b ↦
              let e : i ≡ j = ground arith in
              let same = Q.push_same m.event_queue entry r.out_of_queue in
              let mine : IsReady m' i r.t (rest i) = record {
                processor = s;
                stored = get_elem?-set_same m.per_processor_data i r.slot s r.stored;
                plays = r.runs;
                at_time = r.next;
              } in
              subst (λ x. (u : ℕ) → Q.waiting m'.event_queue x ≡ some u → IsReady m' x u (rest x)) e
                (λ u w. subst (λ x. IsReady m' i x (rest i)) (ground (arith, sym same ∙ w)) mine) u
                w
          | inr b ↦
              let d : j ≢ i = ground arith in
              let c = k.ready j u (sym (Q.push_other m.event_queue entry j r.out_of_queue d) ∙ w) in
              record {
                processor = c.processor;
                stored = get_elem?-set_other m.per_processor_data i j s d ∙ c.stored;
                plays = c.plays;
                at_time = c.at_time;
              }
        ];
        healthy = k.healthy;
        sorted = k.sorted;
        complete = k.complete;
        in_order = k.in_order;
        later = k.later;
        inside = k.inside;
      }

  pub wait-AllQueued :
      (i : ℕ) (s : S) (m : State) (rest : ℕ → List V)
      → (r : IsRunning i s m rest) → AllQueued (wait Q advance peek is_canceled i r.t s m) rest
  wait-AllQueued i s m rest r j w =
      let entry : NextEventPriorityInfo = record { next_event_time = r.t; processor_index = i } in
      elim (Bool-cases (j == i)) [
        | inl b ↦
            let e : i ≡ j = ground arith in
            absurd (
              ground (
                arith,
                sym w
                    ∙ ap (Q.waiting (Q.push entry m.event_queue)) (sym e)
                    ∙ Q.push_same m.event_queue entry r.out_of_queue,
              ))
        | inr b ↦
            let d : j ≢ i = ground arith in
            r.others j d (sym (Q.push_other m.event_queue entry j r.out_of_queue d) ∙ w)
      ]
