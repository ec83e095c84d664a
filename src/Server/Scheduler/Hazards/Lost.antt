-- ===== src/Server/Scheduler/Hazards/Lost.antt =====
-- A document of document_task_scheduler.cpp that nothing will wake.
use snail_server.Common.{
  ℕ, ◌<◌, ◌≡◌, ap, ◌∙◌, inl, inr, Bool, true, false, List, [], ◌∷◌, some, length, length-append,
  take_at, count_if, count_if-append, count_if-take_at, ◌==◌, arith, Option-cases,
}
use snail_server.Common.AssocMap.{lookup}
use snail_server.Server.Scheduler.{
  AccessType, DocumentQueue, Submitted, Scheduler, Round, queue_of, queue_or_empty, has_any_task,
  Event, schedules, dispatches, completes, shuts_down, emplace, schedule, complete, complete_task,
  dispatch, step, run, after_round, shutdown,
}
use snail_server.Server.Scheduler.Views.{
  queue_of-schedule, ready-schedule, in_flight-schedule, queue_of-complete_task, Starts, IsRound,
  waits, finishes, faults, starts, dispatch-IsRound,
}
use snail_server.Server.Scheduler.Accounts.{ready_count}

abbrev pub of_doc : ℕ → Submitted → Bool
of_doc j f = f.document == j

-- A task is queued, but the document is not on the ready list and no closure of it is in flight.
pub record IsLost (s : Scheduler) (j : ℕ) : Type 0 where
  pub unlisted : ready_count s.ready_documents j ≡ 0
  pub queued : 0 < length (queue_of s j).queue
  pub alone : count_if (of_doc j) s.in_flight ≡ 0

schedule-IsLost :
    (s : Scheduler) (id : ℕ) (a : AccessType) (t j : ℕ) → IsLost s j → IsLost (schedule s id a t) j
unfolding emplace
schedule-IsLost s id a t j l =
    let q = queue_of-schedule s id a t j in
    let r = ready-schedule s id a t in
    let n = length-append (queue_of s j).queue (record { access_type = a; task = t } ∷ []) in
    record {
      unlisted = ground (
        arith,
        r,
        l.queued,
        l.unlisted,
        count_if-append (λ i. i == j) s.ready_documents (id ∷ []),
      );
      queued = ground (arith, q, n, l.queued);
      alone = ap (count_if (of_doc j)) (in_flight-schedule s id a t) ∙ l.alone;
    }

complete_task-IsLost :
    (s : Scheduler) (i : ℕ) (f : Submitted) (rest : List Submitted) (j : ℕ)
    → take_at i s.in_flight ≡ some (f, rest)
    → IsLost s j
    → IsLost (complete_task s f rest) j
unfolding complete_task
complete_task-IsLost s i f rest j e l =
    let c = count_if-take_at (of_doc j) i s.in_flight f rest e in
    record {
      unlisted = ground (
        arith,
        c,
        l.alone,
        l.unlisted,
        count_if-append (λ i. i == j) s.ready_documents (f.document ∷ []),
      );
      queued = ground (arith, queue_of-complete_task s f rest j, c, l.alone, l.queued);
      alone = ground (arith, c, l.alone);
    }

Starts-IsLost :
    (s : Scheduler) (f : Submitted) (s' : Scheduler) (j : ℕ)
    → Starts s f s'
    → IsLost s j
    → IsLost s' j
Starts-IsLost s f s' j w l =
    let r = ap (λ x. ready_count x j) w.was_first in
    record {
      unlisted =
          ground (
            arith,
            r,
            w.ready,
            l.unlisted,
            count_if-append (λ i. i == j) w.others (f.document ∷ []),
          );
      queued = ground (arith, w.queues j, r, l.unlisted, l.queued);
      alone = ground (
        arith,
        r,
        w.flying,
        l.unlisted,
        l.alone,
        count_if-append (of_doc j) s.in_flight (f ∷ []),
      );
    }

after_round-IsLost :
    (s : Scheduler) (r : Round) (j : ℕ) → IsRound s r → IsLost s j → IsLost (after_round s r) j
unfolding after_round
after_round-IsLost s r j (waits _) l = l
after_round-IsLost s r j (finishes _) l = record {
  unlisted = l.unlisted;
  queued = l.queued;
  alone = l.alone;
}
after_round-IsLost s r j (faults _ _ _ _) l = l
after_round-IsLost s r j (starts f s' w) l = Starts-IsLost s f s' j w l

complete-IsLost : (s : Scheduler) (i j : ℕ) → IsLost s j → IsLost (complete s i) j
unfolding complete
complete-IsLost s i j l = elim (Option-cases (take_at i s.in_flight)) [
  | inl e ↦ rw (e, complete) l
  | inr ((f, rest), e) ↦ rw (e, complete) (complete_task-IsLost s i f rest j e l)
]

step-IsLost : (s : Scheduler) (e : Event) (j : ℕ) → IsLost s j → IsLost (step s e) j
unfolding step shutdown
step-IsLost s (schedules id a t) j l = schedule-IsLost s id a t j l
step-IsLost s dispatches j l = after_round-IsLost s (dispatch s) j (dispatch-IsRound s) l
step-IsLost s (completes i) j l = complete-IsLost s i j l
step-IsLost s shuts_down j l = record { unlisted = l.unlisted; queued = l.queued; alone = l.alone }

has_any_task_of :
    (docs : List (ℕ × DocumentQueue)) (j : ℕ)
    → 0 < length (queue_or_empty (lookup j docs)).queue
    → has_any_task docs ≡ true
unfolding has_any_task lookup
has_any_task_of [] j h = absurd (omega arith)
has_any_task_of ((i, q) ∷ docs) j h = ground (arith, has_any_task_of docs j)

stays_running :
    (s : Scheduler) (r : Round) (j : ℕ)
    → IsRound s r
    → IsLost s j
    → s.returned ≡ false
    → (after_round s r).returned ≡ false
unfolding after_round
stays_running s r j (waits _) l e = e
stays_running s r j (finishes h) l e =
    absurd (ground (arith, h, has_any_task_of s.document_queues j l.queued))
stays_running s r j (faults _ _ _ _) l e = e
stays_running s r j (starts f s' w) l e = w.flags.1 ∙ e

schedule_returned :
    (s : Scheduler) (id : ℕ) (a : AccessType) (t : ℕ) → (schedule s id a t).returned ≡ s.returned
unfolding schedule
schedule_returned s id a t = elim (Option-cases (lookup id s.document_queues)) [
  | inl e ↦ rw (e, schedule)
  | inr (q, e) ↦ rw (e, schedule)
]

complete_returned : (s : Scheduler) (i : ℕ) → (complete s i).returned ≡ s.returned
unfolding complete complete_task
complete_returned s i = elim (Option-cases (take_at i s.in_flight)) [
  | inl e ↦ rw (e, complete)
  | inr ((f, rest), e) ↦ rw (e, complete)
]

step_returned :
    (s : Scheduler) (e : Event) (j : ℕ)
    → IsLost s j
    → s.returned ≡ false
    → (step s e).returned ≡ false
unfolding step shutdown
step_returned s (schedules id a t) j l r = schedule_returned s id a t ∙ r
step_returned s dispatches j l r = stays_running s (dispatch s) j (dispatch-IsRound s) l r
step_returned s (completes i) j l r = complete_returned s i ∙ r
step_returned s shuts_down j l r = r

-- Once a document has a queued task, is not on the ready list and has no closure in flight, that
-- stays so whatever happens: its tasks never run, and the dispatcher's thread, which `shutdown`
-- joins, never returns.
pub IsLost-forever :
    (s : Scheduler) (es : List Event) (j : ℕ)
    → IsLost s j
    → s.returned ≡ false
    → IsLost (run s es) j × ((run s es).returned ≡ false)
unfolding run
IsLost-forever s [] j l r = (l, r)
IsLost-forever s (e ∷ es) j l r =
    IsLost-forever (step s e) es j (step-IsLost s e j l) (step_returned s e j l r)
