-- ===== src/Etl/Merge/Results.antt =====
-- What the observer gets from the merge.
use snail_server.Common.{ℕ, ◌≤◌, ◌<◌, ◌≡◌, ap, subst, Bool, false, List, [], Option, none, some}
use snail_server.Common.Run.{Run, finished}
use snail_server.Etl.Queue.{PriorityQueue}
use snail_server.Etl.Merge.{Merge, process_events}
use snail_server.Etl.Merge.Schedule.{played, IsInOrder, IsSorted, total}
use snail_server.Etl.Merge.Order.{IsMerged, IsReady}
use snail_server.Etl.Merge.Turns.{process_events-HasMerged}

module _ {E S V W : Type 0} (Q : PriorityQueue) (advance : W → S → Run E ((V × Option S) × W))
    (peek : S → Run E ℕ) (is_canceled : ℕ → Bool) (time : V → ℕ) (Good : W → Type 0) (n : ℕ)
    (schedule : ℕ → List V) where
  abbrev State : Type 0
  State = Merge Q advance peek is_canceled

  -- Before the first event: `n` processors, of which each with events is queued by its first one, and
  -- has them in the order of their times.
  pub record IsStarted (m : State) : Type 0 where
    pub nothing : m.delivered ≡ []
    pub healthy : Good m.file_stream
    pub ready :
        (i t : ℕ)
        → Q.waiting m.event_queue i ≡ some t
        → IsReady Q advance peek is_canceled time Good n schedule m i t (schedule i)
    pub absent : (i : ℕ) → Q.waiting m.event_queue i ≡ none → schedule i ≡ []
    pub sorted : (i : ℕ) → IsSorted time (schedule i)
    pub inside : (i : ℕ) → n ≤ i → schedule i ≡ []

  IsStarted-IsMerged :
      (m : State)
      → IsStarted m
      → IsMerged Q advance peek is_canceled time Good n schedule m schedule
  IsStarted-IsMerged m h = record {
    healthy = h.healthy;
    ready = h.ready;
    sorted = h.sorted;
    complete = λ i. ap (λ ds. played i ds (schedule i)) h.nothing;
    in_order = rw h.nothing tt;
    later = λ i. rw h.nothing tt;
    inside = h.inside;
  }

  -- With more fuel than there are events, the merge ends without an error, and the observer gets the
  -- events of all processors in the order of their times, also where it is canceled on the way, if each
  -- processor's own events are in that order.
  pub process_events-IsInOrder :
      (fuel : ℕ) (m : State)
      → IsStarted m
      → total n schedule < fuel
      → (m' : State) × (process_events Q advance peek is_canceled fuel m ≡ finished m')
        × IsInOrder time m'.delivered
  process_events-IsInOrder fuel m h f =
      let r =
        process_events-HasMerged Q advance peek is_canceled time Good n schedule fuel m schedule
          (IsStarted-IsMerged m h) h.absent f in
      (r.reached, r.result, r.merged.in_order)

  -- Where it is not canceled, the observer gets of each processor exactly its events, each once and in
  -- their own order.
  pub process_events-played :
      (fuel : ℕ) (m : State)
      → IsStarted m
      → total n schedule < fuel
      → ((k : ℕ) → is_canceled k ≡ false)
      → (m' : State) × (process_events Q advance peek is_canceled fuel m ≡ finished m')
        × ((i : ℕ) → played i m'.delivered [] ≡ schedule i)
  process_events-played fuel m h f never =
      let r =
        process_events-HasMerged Q advance peek is_canceled time Good n schedule fuel m schedule
          (IsStarted-IsMerged m h) h.absent f in
      (
        r.reached,
        r.result,
        λ i.
            subst (λ xs. played i r.reached.delivered xs ≡ schedule i) (r.all never i)
              (r.merged.complete i),
      )
