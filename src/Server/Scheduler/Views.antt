-- ===== src/Server/Scheduler/Views.antt =====
-- document_task_scheduler.cpp seen from one document: what a step makes of its entry, and of the
-- list of ready documents.
use snail_server.Common.{
  ℕ, ◌≡◌, refl, inl, inr, Bool, true, false, not, ◌&&◌, ◌||◌, List, [], ◌∷◌, ◌++◌, length,
  length-append, ◌==◌, if◌then◌else◌, arith, Option-cases, ap, sym, ◌∙◌,
}
use mathlib.Core.Path.{subst₂}
use snail_server.Common.AssocMap.{lookup, insert, lookup-insert}
use snail_server.Server.Scheduler.{
  AccessType, DocumentTask, DocumentQueue, Submitted, Scheduler, Round, started, waiting, finished,
  fault, queue_of, queue_or_empty, empty_queue, emplace, begin_task, end_task, is_queue_ready,
  schedule, complete_task, dispatch, dispatch_ready, dispatch_queue, has_any_task,
}

-- `schedule` puts a document on the ready list when nothing of it is queued or runs.
abbrev pub is_idle : DocumentQueue → Bool
is_idle q = length q.queue == 0 && (not q.running_write && q.running_reads == 0)

queue_of-insert :
    (s : Scheduler) (k j : ℕ) (q : DocumentQueue)
    → queue_or_empty (lookup j (insert k q s.document_queues))
      ≡ (if k == j then q else queue_of s j)
queue_of-insert s k j q = ground (arith, lookup-insert k j q s.document_queues)

module _ (s : Scheduler) (id : ℕ) (a : AccessType) (t : ℕ) where
  abbrev new_task : DocumentTask
  new_task = record { access_type = a; task = t }

  pub queue_of-schedule :
      (j : ℕ)
      → queue_of (schedule s id a t) j
        ≡ (if id == j then emplace (queue_of s id) new_task else queue_of s j)
  unfolding schedule
  queue_of-schedule j = elim (Option-cases (lookup id s.document_queues)) [
    | inl e ↦ rw (e, schedule) (queue_of-insert s id j (emplace empty_queue new_task))
    | inr (q, e) ↦ rw (e, schedule) (queue_of-insert s id j (emplace q new_task))
  ]

  pub ready-schedule :
      (schedule s id a t).ready_documents
      ≡ (if is_idle (queue_of s id) then s.ready_documents ++ id ∷ [] else s.ready_documents)
  unfolding schedule emplace
  ready-schedule = elim (Option-cases (lookup id s.document_queues)) [
    | inl e ↦ rw (e, schedule)
    | inr (q, e) ↦ rw (e, schedule) (ground (arith, length-append q.queue (new_task ∷ [])))
  ]

  pub in_flight-schedule : (schedule s id a t).in_flight ≡ s.in_flight
  unfolding schedule
  in_flight-schedule = elim (Option-cases (lookup id s.document_queues)) [
    | inl e ↦ rw (e, schedule)
    | inr (q, e) ↦ rw (e, schedule)
  ]

module _ (s : Scheduler) (f : Submitted) (rest : List Submitted) where
  abbrev ended : DocumentQueue
  ended = end_task (queue_of s f.document) f.document_task.access_type

  pub queue_of-complete_task :
      (j : ℕ)
      → queue_of (complete_task s f rest) j ≡ (if f.document == j then ended else queue_of s j)
  unfolding complete_task
  queue_of-complete_task j = queue_of-insert s f.document j ended

-- A round that starts a task: the first ready document has a queued task, which is begun.
pub record Starts (s : Scheduler) (f : Submitted) (s' : Scheduler) : Type 0 where
  pub others : List ℕ
  pub later : List DocumentTask
  pub was_first : s.ready_documents ≡ f.document ∷ others
  pub was_queued : (queue_of s f.document).queue ≡ f.document_task ∷ later
  pub still :
      f.was_still_ready ≡ is_queue_ready (begin_task (queue_of s f.document) f.document_task later)
  pub queues :
      (j : ℕ)
      → queue_of s' j ≡ (
          if f.document == j
          then begin_task (queue_of s f.document) f.document_task later
          else queue_of s j)
  pub ready : s'.ready_documents ≡ (if f.was_still_ready then others ++ f.document ∷ [] else others)
  pub flying : s'.in_flight ≡ s.in_flight ++ f ∷ []
  pub flags : (s'.stopped ≡ s.stopped) × (s'.returned ≡ s.returned)

-- The outcomes of a round, with what leads to each.
pub data IsRound (s : Scheduler) : Round → Type 0 where
  waits : s.ready_documents ≡ [] → IsRound s waiting
  finishes :
      s.returned || (s.stopped && not (has_any_task s.document_queues)) ≡ true → IsRound s finished
  faults :
      (id : ℕ) (others : List ℕ)
      → s.ready_documents ≡ id ∷ others
      → (queue_of s id).queue ≡ []
      → IsRound s fault
  starts : (f : Submitted) (s' : Scheduler) → Starts s f s' → IsRound s (started f s')

dispatch_queue-IsRound :
    (s : Scheduler) (id : ℕ) (others : List ℕ) (q : DocumentQueue) (ts : List DocumentTask)
    → s.ready_documents ≡ id ∷ others
    → queue_of s id ≡ q
    → q.queue ≡ ts
    → IsRound s (dispatch_queue s id others q ts)
unfolding dispatch_queue
dispatch_queue-IsRound s id others q [] r e h = faults id others r (ap (λ x. x.queue) e ∙ h)
dispatch_queue-IsRound s id others q (t ∷ ts) r e h = starts _ _ (record {
  others = others;
  later = ts;
  was_first = r;
  was_queued = ap (λ x. x.queue) e ∙ h;
  still = ap (λ x. is_queue_ready (begin_task x t ts)) (sym e);
  queues = λ j. rw e (queue_of-insert s id j _);
  ready = refl;
  flying = refl;
  flags = (refl, refl);
})

dispatch_ready-IsRound :
    (s : Scheduler) (rs : List ℕ) → s.ready_documents ≡ rs → IsRound s (dispatch_ready s rs)
unfolding dispatch_ready
dispatch_ready-IsRound s [] r = waits r
dispatch_ready-IsRound s (id ∷ others) r = elim (Option-cases (lookup id s.document_queues)) [
  | inl e ↦ rw (e, dispatch_ready) (faults id others r (rw e))
  | inr (q, e) ↦ rw (e, dispatch_ready) (dispatch_queue-IsRound s id others q q.queue r (rw e) refl)
]

if-IsRound :
    (s : Scheduler) (b : Bool) {x y : Round}
    → (b ≡ true → IsRound s x)
    → IsRound s y
    → IsRound s (if b then x else y)
if-IsRound s true hx hy = hx refl
if-IsRound s false hx hy = hy

pub dispatch-IsRound : (s : Scheduler) → IsRound s (dispatch s)
unfolding dispatch
dispatch-IsRound s =
    if-IsRound s s.returned (λ e. finishes (ground arith))
      (if-IsRound s (s.stopped && not (has_any_task s.document_queues))
        (λ e. finishes (ground arith)) (dispatch_ready-IsRound s s.ready_documents refl))

Starts-of_eq :
    (s : Scheduler) (r : Round) (f : Submitted) (s' : Scheduler)
    → IsRound s r
    → r ≡ started f s'
    → Starts s f s'
Starts-of_eq s r f s' (waits _) e = absurd (cc e)
Starts-of_eq s r f s' (finishes _) e = absurd (cc e)
Starts-of_eq s r f s' (faults _ _ _ _) e = absurd (cc e)
Starts-of_eq s r f s' (starts g t w) e = subst₂ (Starts s) (cc e) (cc e) w

pub started-Starts :
    (s : Scheduler) (f : Submitted) (s' : Scheduler) → dispatch s ≡ started f s' → Starts s f s'
started-Starts s f s' e = Starts-of_eq s (dispatch s) f s' (dispatch-IsRound s) e

Starts-of_round :
    (s : Scheduler) (id : ℕ) (others : List ℕ) (t : DocumentTask) (ts : List DocumentTask)
    → s.returned ≡ false
    → s.stopped ≡ false
    → s.ready_documents ≡ id ∷ others
    → (queue_of s id).queue ≡ t ∷ ts
    → (r : Round) → IsRound s r
    → (f : Submitted) × (s' : Scheduler) × (r ≡ started f s')
      × Starts s f s'
      × (f.document ≡ id)
      × (f.document_task ≡ t)
Starts-of_round s id others t ts run go first queued r (waits e) = absurd (cc e)
Starts-of_round s id others t ts run go first queued r (finishes e) = absurd (ground arith)
Starts-of_round s id others t ts run go first queued r (faults k os e h) = absurd (cc)
Starts-of_round s id others t ts run go first queued r (starts f s' w) =
    (f, s', refl, w, cc w.was_first, cc (w.was_first, w.was_queued))

-- When the thread still runs and the first ready document has a task, a round starts it.
pub dispatch-Starts :
    (s : Scheduler) (id : ℕ) (others : List ℕ) (t : DocumentTask) (ts : List DocumentTask)
    → s.returned ≡ false
    → s.stopped ≡ false
    → s.ready_documents ≡ id ∷ others
    → (queue_of s id).queue ≡ t ∷ ts
    → (f : Submitted) × (s' : Scheduler) × (dispatch s ≡ started f s')
      × Starts s f s'
      × (f.document ≡ id)
      × (f.document_task ≡ t)
dispatch-Starts s id others t ts run go first queued =
    Starts-of_round s id others t ts run go first queued (dispatch s) (dispatch-IsRound s)
