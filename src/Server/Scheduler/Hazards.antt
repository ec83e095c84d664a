-- ===== src/Server/Scheduler/Hazards.antt =====
-- What goes wrong in document_task_scheduler.cpp when a later read ends before an earlier one:
-- `was_still_ready` is fixed when a closure is submitted, and is out of date when it ends.
pub mod Lost
pub mod Wakeup
use snail_server.Common.{
  ℕ, zero, suc, ◌+◌, ◌<◌, ◌≡◌, refl, sym, ap, ap₂, ◌∙◌, inl, inr, Bool, true, false, not, ◌&&◌,
  List, [], ◌∷◌, ◌++◌, Option, none, some, length, length-append, take_at, take_at-append,
  take_at-append_end, count_if, count_if-append, count_if-take_at, ◌==◌, ltb, if◌then◌else◌, arith,
  Option-cases, append-nil, ==_refl,
}
use snail_server.Common.AssocMap.{lookup}
use snail_server.Server.Scheduler.{
  AccessType, read_only, write, is_read, DocumentTask, DocumentQueue, Submitted, Scheduler, Round,
  waiting, finished, fault, started, queue_of, has_any_task, Event, schedules, dispatches,
  completes, shuts_down, emplace, begin_task, end_task, is_queue_ready, front_is_ready, schedule,
  complete, complete_task, dispatch, step, run, after_round, shutdown,
}
use snail_server.Server.Scheduler.Views.{
  is_idle, queue_of-schedule, ready-schedule, in_flight-schedule, queue_of-complete_task, Starts,
  IsRound, waits, finishes, faults, starts, dispatch-IsRound, dispatch-Starts,
}
use snail_server.Server.Scheduler.Accounts.{ready_count}

-- What a round does, as equations on the state after it.
pub record Began (s : Scheduler) (j : ℕ) (others : List ℕ) (t : DocumentTask)
    (ts : List DocumentTask) (s' : Scheduler) : Type 0 where
  pub flight : Submitted
  pub its_document : flight.document ≡ j
  pub its_task : flight.document_task ≡ t
  pub its_mark : flight.was_still_ready ≡ is_queue_ready (begin_task (queue_of s j) t ts)
  pub entry : queue_of s' j ≡ begin_task (queue_of s j) t ts
  pub readied : s'.ready_documents ≡ (if flight.was_still_ready then others ++ j ∷ [] else others)
  pub flying : s'.in_flight ≡ s.in_flight ++ flight ∷ []
  pub flags : (s'.stopped ≡ s.stopped) × (s'.returned ≡ s.returned)

pub step_begins :
    (s : Scheduler) (j : ℕ) (others : List ℕ) (t : DocumentTask) (ts : List DocumentTask)
    → s.returned ≡ false
    → s.stopped ≡ false
    → s.ready_documents ≡ j ∷ others
    → (queue_of s j).queue ≡ t ∷ ts
    → Began s j others t ts (step s dispatches)
unfolding step after_round
step_begins s j others t ts run go first queued =
    let (f, s', e, w, d, k) = dispatch-Starts s j others t ts run go first queued in
    let its_queue : (queue_of s f.document).queue ≡ t ∷ ts =
      ap (λ x. (queue_of s x).queue) d ∙ queued in
    let later : w.later ≡ ts = cc (w.was_queued, its_queue) in
    let same : begin_task (queue_of s f.document) f.document_task w.later
        ≡ begin_task (queue_of s j) t ts =
      cc (d, k, later) in
    rw (e, after_round)
      (record {
        flight = f;
        its_document = d;
        its_task = k;
        its_mark = w.still ∙ ap is_queue_ready same;
        entry = ground (arith, w.queues j, d, same);
        readied = ground (arith, w.ready, w.was_first, first, d);
        flying = w.flying;
        flags = w.flags;
      })

pub complete_taken_lem :
    (s : Scheduler) (i : ℕ) (f : Submitted) (rest : List Submitted)
    → take_at i s.in_flight ≡ some (f, rest)
    → step s (completes i) ≡ complete_task s f rest
unfolding step complete
complete_taken_lem s i f rest e = rw (e, complete)

-- The rest of the state after a closure ends, its document's entry known.
pub complete_task_rest :
    (s : Scheduler) (f : Submitted) (rest : List Submitted) (q : DocumentQueue)
    → queue_of (complete_task s f rest) f.document ≡ q
    → ((complete_task s f rest).stopped ≡ s.stopped)
      × ((complete_task s f rest).returned ≡ s.returned)
      × ((complete_task s f rest).ready_documents ≡ (
          if not f.was_still_ready && ltb 0 (length q.queue)
          then s.ready_documents ++ f.document ∷ []
          else s.ready_documents))
unfolding complete_task
complete_task_rest s f rest q e =
    (refl, refl, ground (arith, queue_of-complete_task s f rest f.document, e, ==_refl f.document))

abbrev pub read_task : ℕ → DocumentTask
read_task t = record { access_type = read_only; task = t }

abbrev write_task : ℕ → DocumentTask
write_task t = record { access_type = write; task = t }

abbrev left : ℕ → ℕ → ℕ → List DocumentTask → DocumentQueue
left n k u more = record {
  running_write = false;
  running_reads = n + k;
  queue = write_task u ∷ more;
}

begin_left :
    (n t u : ℕ) (more : List DocumentTask)
    → begin_task
        (record {
          running_write = false;
          running_reads = n + 1;
          queue = read_task t ∷ write_task u ∷ more;
        })
        (read_task t)
        (write_task u ∷ more)
      ≡ left n 2 u more
unfolding begin_task
begin_left n t u more = ground arith

left_not_ready :
    (n t u : ℕ) (more : List DocumentTask)
    → is_queue_ready (
        begin_task
          (record {
            running_write = false;
            running_reads = n + 1;
            queue = read_task t ∷ write_task u ∷ more;
          })
          (read_task t)
          (write_task u ∷ more))
      ≡ false
unfolding begin_task is_queue_ready
left_not_ready n t u more = ground arith

end_left :
    (n u : ℕ) (more : List DocumentTask) → end_task (left n 2 u more) read_only ≡ left n 1 u more
unfolding end_task
end_left n u more = ground arith

-- A write that starts beside a read, in a scheduler that is neither stopped nor has returned. Some reads
-- of document `j` are running, the next task is a read and then comes a write; `j` is the one ready document. If that read is started, and ends
-- while an earlier one still runs, the next round starts the write: the write and `n + 1` reads of
-- one document then run together.
pub write_beside_reads :
    (s : Scheduler) (j n t u : ℕ) (more : List DocumentTask)
    → s.returned ≡ false
    → s.stopped ≡ false
    → s.ready_documents ≡ j ∷ []
    → queue_of s j ≡ record {
      running_write = false;
      running_reads = n + 1;
      queue =
          record { access_type = read_only; task = t }
          ∷ record { access_type = write; task = u }
          ∷ more;
    }
    → let s' = run s (dispatches ∷ completes (length s.in_flight) ∷ dispatches ∷ []) in
      ((queue_of s' j).running_write ≡ true) × ((queue_of s' j).running_reads ≡ n + 1)
unfolding run begin_task
write_beside_reads s j n t u more r g first q =
    let b =
      step_begins s j [] (read_task t) (write_task u ∷ more) r g first (ap (λ x. x.queue) q) in
    let s1 = step s dispatches in
    let taken : take_at (length s.in_flight) s1.in_flight ≡ some (b.flight, s.in_flight) =
      ap (take_at (length s.in_flight)) b.flying ∙ take_at-append_end s.in_flight b.flight in
    let s2 = complete_task s1 b.flight s.in_flight in
    let c = queue_of-complete_task s1 b.flight s.in_flight j in
    let entry1 : queue_of s1 j ≡ left n 2 u more =
      b.entry
      ∙ ap (λ x. begin_task x (read_task t) (write_task u ∷ more)) q
      ∙ begin_left n t u more in
    let mark : b.flight.was_still_ready ≡ false =
      b.its_mark
      ∙ ap (λ x. is_queue_ready (begin_task x (read_task t) (write_task u ∷ more))) q
      ∙ left_not_ready n t u more in
    let entry2 : queue_of s2 j ≡ left n 1 u more =
      c
      ∙ ground (arith, b.its_document)
      ∙ ap₂ (λ d k. end_task (queue_of s1 d) (DocumentTask.access_type k)) b.its_document b.its_task
      ∙ ap (λ x. end_task x read_only) entry1
      ∙ end_left n u more in
    let (stop2, ret2, ready2) =
      complete_task_rest s1 b.flight s.in_flight (left n 1 u more)
        (ap (queue_of s2) b.its_document ∙ entry2) in
    let first2 : s2.ready_documents ≡ j ∷ [] =
      ground (arith, ready2, mark, b.readied, b.its_document) in
    let b2 =
      step_begins s2 j [] (write_task u) more (ret2 ∙ b.flags.1 ∙ r) (stop2 ∙ b.flags.0 ∙ g) first2
        (ap (λ x. x.queue) entry2) in
    let entry3 : queue_of (step s2 dispatches) j
        ≡ begin_task (left n 1 u more) (write_task u) more =
      b2.entry ∙ ap (λ x. begin_task x (write_task u) more) entry2 in
    rw (complete_taken_lem s1 (length s.in_flight) b.flight s.in_flight taken)
      (ap (λ x. x.running_write) entry3, ap (λ x. x.running_reads) entry3)
