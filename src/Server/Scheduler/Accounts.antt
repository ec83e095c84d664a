-- ===== src/Server/Scheduler/Accounts.antt =====
-- What holds of document_task_scheduler.cpp in whatever order the closures end.
use snail_server.Common.{
  ℕ, ◌+◌, ◌≤◌, ◌≡◌, inl, inr, Bool, true, false, not, ◌&&◌, List, [], ◌∷◌, some, length,
  length-append, take_at, count_if, count_if-append, count_if-take_at, ◌==◌, if◌then◌else◌, arith,
  Option-cases, ap, ==_refl, ◌≢◌,
}
use snail_server.Server.Scheduler.{
  AccessType, is_read, DocumentTask, DocumentQueue, Submitted, Scheduler, Round, fault, started,
  queue_of, initial, Event, schedules, dispatches, completes, emplace, begin_task, end_task,
  shuts_down, is_queue_ready, front_is_ready, schedule, complete, complete_task, dispatch, step,
  run, after_round, shutdown,
}
use snail_server.Common.AssocMap.{lookup}
use snail_server.Server.Scheduler.Views.{
  queue_of-schedule, ready-schedule, in_flight-schedule, queue_of-complete_task, Starts, IsRound,
  waits, finishes, faults, starts, dispatch-IsRound, started-Starts,
}

abbrev pub ready_count : List ℕ → ℕ → ℕ
ready_count ready j = count_if (λ i. i == j) ready

-- The closures in flight for a document, of those that pass a test.
abbrev pub flights : (Submitted → Bool) → List Submitted → ℕ → ℕ
flights p fs j = count_if (λ f. f.document == j && p f) fs

abbrev pub reads : Submitted → Bool
reads f = is_read f.document_task.access_type

abbrev pub writes : Submitted → Bool
writes f = not (reads f)

abbrev pub blocks : Submitted → Bool
blocks f = not f.was_still_ready

abbrev pub one_if : Bool → ℕ
one_if b = if b then 1 else 0

-- The books of one document: its place on the ready list or one closure that has to wake it,
-- never both nor twice; a ready document has a task; the counters count the closures in flight.
pub record Books (r : ℕ) (q : DocumentQueue) (fs : List Submitted) (j : ℕ) : Type 0 where
  pub token : r + flights blocks fs j ≤ 1
  pub nonempty : r ≤ length q.queue
  pub reads_counted : q.running_reads ≡ flights reads fs j
  pub writes_counted : one_if q.running_write ≡ flights writes fs j
  pub writes_block : flights (λ f. writes f && f.was_still_ready) fs j ≡ 0

abbrev pub IsAccounted : Scheduler → ℕ → Type 0
IsAccounted s j = Books (ready_count s.ready_documents j) (queue_of s j) s.in_flight j

writes-le-blocks :
    (fs : List Submitted) (j : ℕ)
    → flights writes fs j ≤ flights blocks fs j + flights (λ f. writes f && f.was_still_ready) fs j
writes-le-blocks [] j = omega arith
writes-le-blocks (f ∷ fs) j = ground (arith, writes-le-blocks fs j)

-- A document without closures in flight shows in its counters.
idle_blocks :
    (fs : List Submitted) (j : ℕ) → flights blocks fs j ≤ flights reads fs j + flights writes fs j
idle_blocks [] j = omega arith
idle_blocks (f ∷ fs) j = ground (arith, idle_blocks fs j)

schedule-IsAccounted :
    (s : Scheduler) (id : ℕ) (a : AccessType) (t j : ℕ)
    → IsAccounted s j
    → IsAccounted (schedule s id a t) j
unfolding emplace
schedule-IsAccounted s id a t j b =
    rw (queue_of-schedule s id a t j, ready-schedule s id a t, in_flight-schedule s id a t)
      (ground (
        arith,
        idle_blocks s.in_flight j,
        length-append (queue_of s j).queue (record { access_type = a; task = t } ∷ []),
        count_if-append (λ i. i == j) s.ready_documents (id ∷ []),
      ))

complete_task-IsAccounted :
    (s : Scheduler) (i : ℕ) (f : Submitted) (rest : List Submitted) (j : ℕ)
    → take_at i s.in_flight ≡ some (f, rest)
    → IsAccounted s j
    → IsAccounted (complete_task s f rest) j
unfolding complete_task end_task
complete_task-IsAccounted s i f rest j e b = rw (queue_of-complete_task s f rest j) (
    ground (
      arith,
      count_if-take_at (λ f. f.document == j && blocks f) i s.in_flight f rest e,
      count_if-take_at (λ f. f.document == j && reads f) i s.in_flight f rest e,
      count_if-take_at (λ f. f.document == j && writes f) i s.in_flight f rest e,
      count_if-take_at (λ f. f.document == j && (writes f && f.was_still_ready)) i s.in_flight f
          rest e,
      writes-le-blocks s.in_flight j,
      count_if-append (λ i. i == j) s.ready_documents (f.document ∷ []),
    ))

-- A ready queue has no write running, and has a task.
pub front_is_ready_needs :
    (w : Bool) (r : ℕ) (ts : List DocumentTask)
    → front_is_ready w r ts ≡ true
    → (w ≡ false) × (1 ≤ length ts)
unfolding front_is_ready
front_is_ready_needs w r [] h = cc
front_is_ready_needs w r (t ∷ ts) h = ground arith

Starts-IsAccounted :
    (s : Scheduler) (f : Submitted) (s' : Scheduler) (j : ℕ)
    → Starts s f s'
    → IsAccounted s j
    → IsAccounted s' j
unfolding begin_task is_queue_ready
Starts-IsAccounted s f s' j w b =
    let q' = begin_task (queue_of s f.document) f.document_task w.later in
    rw (w.queues j, w.ready, w.flying)
      (ground (
        arith,
        ap (λ l. ready_count l j) w.was_first,
        ap length w.was_queued,
        writes-le-blocks s.in_flight j,
        front_is_ready_needs q'.running_write q'.running_reads q'.queue,
        count_if-append (λ i. i == j) w.others (f.document ∷ []),
        count_if-append (λ f. f.document == j && blocks f) s.in_flight (f ∷ []),
        count_if-append (λ f. f.document == j && reads f) s.in_flight (f ∷ []),
        count_if-append (λ f. f.document == j && writes f) s.in_flight (f ∷ []),
        count_if-append (λ f. f.document == j && (writes f && f.was_still_ready)) s.in_flight
            (f ∷ []),
      ))

after_round-IsAccounted :
    (s : Scheduler) (r : Round) (j : ℕ)
    → IsRound s r
    → IsAccounted s j
    → IsAccounted (after_round s r) j
unfolding after_round
after_round-IsAccounted s r j (waits _) b = b
after_round-IsAccounted s r j (finishes _) b = b
after_round-IsAccounted s r j (faults _ _ _ _) b = b
after_round-IsAccounted s r j (starts f s' w) b = Starts-IsAccounted s f s' j w b

complete-IsAccounted : (s : Scheduler) (i j : ℕ) → IsAccounted s j → IsAccounted (complete s i) j
unfolding complete
complete-IsAccounted s i j b = elim (Option-cases (take_at i s.in_flight)) [
  | inl e ↦ rw (e, complete) b
  | inr ((f, rest), e) ↦ rw (e, complete) (complete_task-IsAccounted s i f rest j e b)
]

pub step-IsAccounted :
    (s : Scheduler) (e : Event) (j : ℕ) → IsAccounted s j → IsAccounted (step s e) j
unfolding step shutdown
step-IsAccounted s (schedules id a t) j b = schedule-IsAccounted s id a t j b
step-IsAccounted s dispatches j b = after_round-IsAccounted s (dispatch s) j (dispatch-IsRound s) b
step-IsAccounted s (completes i) j b = complete-IsAccounted s i j b
step-IsAccounted s shuts_down j b = b

run_from-IsAccounted :
    (s : Scheduler) (es : List Event) (j : ℕ) → IsAccounted s j → IsAccounted (run s es) j
unfolding run
run_from-IsAccounted s [] j b = b
run_from-IsAccounted s (e ∷ es) j b =
    run_from-IsAccounted (step s e) es j (step-IsAccounted s e j b)

-- After any history from the initial state the books of every document are right: it is on the
-- ready list at most once, and then no closure in flight has to wake it; it is ready only with a
-- queued task; `running_reads_` is the number of its reads in flight, `running_write_` tells
-- whether its one write is in flight, and no write in flight left the document ready.
pub run-IsAccounted : (es : List Event) (j : ℕ) → IsAccounted (run initial es) j
unfolding lookup
run-IsAccounted es j = run_from-IsAccounted initial es j (ground arith)

IsRound-ne-fault :
    (s : Scheduler) (r : Round) → ((j : ℕ) → IsAccounted s j) → IsRound s r → r ≢ fault
IsRound-ne-fault s r b (waits _) = λ e. cc
IsRound-ne-fault s r b (finishes _) = λ e. cc
IsRound-ne-fault s r b (faults id others first empty) = λ _.
    ground (arith, (b id).nonempty, ap (λ l. ready_count l id) first, ap length empty, ==_refl id)
IsRound-ne-fault s r b (starts f s' w) = λ e. cc

-- After any history, in release builds too, the dispatcher thread never looks up a document that
-- is not there and never takes the front of an empty queue.
pub dispatch-ne-fault : (es : List Event) → dispatch (run initial es) ≢ fault
dispatch-ne-fault es =
    IsRound-ne-fault (run initial es) (dispatch (run initial es)) (run-IsAccounted es)
      (dispatch-IsRound (run initial es))

-- After any history, a task that the dispatcher starts has no write of its document running beside
-- it: the flag is off and no write of that document is in flight.
pub dispatch_beside_no_write :
    (es : List Event) (f : Submitted) (s' : Scheduler)
    → dispatch (run initial es) ≡ started f s'
    → ((queue_of (run initial es) f.document).running_write ≡ false)
      × (flights writes (run initial es).in_flight f.document ≡ 0)
dispatch_beside_no_write es f s' e =
    let s = run initial es in
    let w = started-Starts s f s' e in
    let b = run-IsAccounted es f.document in
    let first = ap (λ l. ready_count l f.document) w.was_first in
    let no_writes : flights writes s.in_flight f.document ≡ 0 =
      ground (arith, b.token, b.writes_block, first, writes-le-blocks s.in_flight f.document) in
    (ground (arith, no_writes, b.writes_counted), no_writes)
