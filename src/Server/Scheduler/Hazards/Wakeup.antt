-- ===== src/Server/Scheduler/Hazards/Wakeup.antt =====
-- How a document of document_task_scheduler.cpp gets lost.
use snail_server.Common.{
  ℕ, suc, ◌≡◌, refl, ap, ap₂, ◌∙◌, true, false, List, [], ◌∷◌, some, length, take_at,
  take_at-append_end, count_if, count_if-take_at, arith, ==_refl,
}
use snail_server.Server.Scheduler.{
  AccessType, read_only, DocumentTask, DocumentQueue, Submitted, Scheduler, queue_of, schedules,
  dispatches, completes, emplace, begin_task, end_task, is_queue_ready, schedule, complete_task,
  step, run,
}
use snail_server.Server.Scheduler.Views.{
  queue_of-schedule, ready-schedule, in_flight-schedule, queue_of-complete_task,
}
use snail_server.Server.Scheduler.Hazards.{
  step_begins, complete_taken_lem, complete_task_rest, read_task,
}
use snail_server.Server.Scheduler.Hazards.Lost.{IsLost, of_doc}

-- Reads running, tasks queued.
abbrev entry_of : ℕ → List DocumentTask → DocumentQueue
entry_of n ts = record { running_write = false; running_reads = n; queue = ts }

step_schedules :
    (s : Scheduler) (j : ℕ) (a : AccessType) (u : ℕ) → step s (schedules j a u) ≡ schedule s j a u
unfolding step
step_schedules s j a u = refl

begins_second :
    (t : ℕ) → begin_task (entry_of 1 (read_task t ∷ [])) (read_task t) [] ≡ entry_of 2 []
unfolding begin_task
begins_second t = refl

second_blocks :
    (t : ℕ) → is_queue_ready (begin_task (entry_of 1 (read_task t ∷ [])) (read_task t) []) ≡ false
unfolding begin_task is_queue_ready
second_blocks t = refl

ends_read :
    (n : ℕ) (ts : List DocumentTask) → end_task (entry_of (suc n) ts) read_only ≡ entry_of n ts
unfolding end_task
ends_read n ts = ground arith

-- One read of the document runs, nothing of it is queued, and it is not on the ready list.
record OneLeft (s : Scheduler) (j : ℕ) (flying : List Submitted) (s' : Scheduler) : Type 0 where
  entry : queue_of s' j ≡ entry_of 1 []
  none_ready : s'.ready_documents ≡ []
  same_flying : s'.in_flight ≡ flying

second_ends_first :
    (s : Scheduler) (j t : ℕ)
    → s.returned ≡ false
    → s.stopped ≡ false
    → s.ready_documents ≡ j ∷ []
    → queue_of s j ≡ entry_of 1 (read_task t ∷ [])
    → OneLeft s j s.in_flight (step (step s dispatches) (completes (length s.in_flight)))
second_ends_first s j t r g first q =
    let b = step_begins s j [] (read_task t) [] r g first (ap (λ x. x.queue) q) in
    let s1 = step s dispatches in
    let taken : take_at (length s.in_flight) s1.in_flight ≡ some (b.flight, s.in_flight) =
      ap (take_at (length s.in_flight)) b.flying ∙ take_at-append_end s.in_flight b.flight in
    let entry1 : queue_of s1 j ≡ entry_of 2 [] =
      b.entry ∙ ap (λ x. begin_task x (read_task t) []) q ∙ begins_second t in
    let mark : b.flight.was_still_ready ≡ false =
      b.its_mark ∙ ap (λ x. is_queue_ready (begin_task x (read_task t) [])) q ∙ second_blocks t in
    let s2 = complete_task s1 b.flight s.in_flight in
    let entry2 : queue_of s2 j ≡ entry_of 1 [] =
      queue_of-complete_task s1 b.flight s.in_flight j
      ∙ ground (arith, b.its_document)
      ∙ ap₂ (λ x y. end_task (queue_of s1 x) (DocumentTask.access_type y)) b.its_document b.its_task
      ∙ ap (λ x. end_task x read_only) entry1
      ∙ ends_read 1 [] in
    let rest2 =
      complete_task_rest s1 b.flight s.in_flight (entry_of 1 [])
        (ap (queue_of s2) b.its_document ∙ entry2) in
    rw (complete_taken_lem s1 (length s.in_flight) b.flight s.in_flight taken) (record {
      entry = entry2;
      none_ready = ground (arith, rest2.2, b.readied, mark);
      same_flying = unfold complete_task in refl;
    })

-- The read that is left ends, after one more task came in.
last_ends :
    (s s2 : Scheduler) (j i u : ℕ) (a : AccessType) (f : Submitted) (rest : List Submitted)
    → OneLeft s j s.in_flight s2
    → take_at i s.in_flight ≡ some (f, rest)
    → f.document ≡ j
    → f.document_task.access_type ≡ read_only
    → f.was_still_ready ≡ true
    → count_if (of_doc j) s.in_flight ≡ 1
    → IsLost (complete_task (schedule s2 j a u) f rest) j
unfolding complete_task emplace
last_ends s s2 j i u a f rest o at d k still one =
    let new : DocumentTask = record { access_type = a; task = u } in
    let s3 = schedule s2 j a u in
    let entry3 : queue_of s3 j ≡ entry_of 1 (new ∷ []) =
      ground (arith, queue_of-schedule s2 j a u j, o.entry, ==_refl j) in
    let ready3 : s3.ready_documents ≡ [] =
      ground (arith, ready-schedule s2 j a u, o.entry, o.none_ready) in
    let entry4 : queue_of (complete_task s3 f rest) j ≡ entry_of 0 (new ∷ []) =
      queue_of-complete_task s3 f rest j
      ∙ ground (arith, d)
      ∙ ap₂ (λ x y. end_task (queue_of s3 x) y) d k
      ∙ ap (λ x. end_task x read_only) entry3
      ∙ ends_read 0 (new ∷ []) in
    record {
      unlisted = ground (arith, ready3, still);
      queued = ground (arith, entry4);
      alone = ground (arith, count_if-take_at (of_doc j) i s.in_flight f rest at, d, one);
    }

-- A lost wakeup, in a scheduler that is neither stopped nor has returned. One read `f` of document `j` is
-- running, its closure is the only one of `j` in flight, and it left the document ready; the one queued
-- task is a read; `j` is the one ready document. If that read is started and ends first, then a task is
-- scheduled, then `f` ends, the document has a queued task, is not on the ready list, and has no closure in
-- flight.
pub IsLost-wakeup :
    (s : Scheduler) (j i t u : ℕ) (a : AccessType) (f : Submitted) (rest : List Submitted)
    → s.returned ≡ false
    → s.stopped ≡ false
    → s.ready_documents ≡ j ∷ []
    → queue_of s j ≡ record {
      running_write = false;
      running_reads = 1;
      queue = record { access_type = read_only; task = t } ∷ [];
    }
    → take_at i s.in_flight ≡ some (f, rest)
    → f.document ≡ j
    → f.document_task.access_type ≡ read_only
    → f.was_still_ready ≡ true
    → count_if (of_doc j) s.in_flight ≡ 1
    → IsLost
        (run s (dispatches ∷ completes (length s.in_flight) ∷ schedules j a u ∷ completes i ∷ []))
        j
unfolding run
IsLost-wakeup s j i t u a f rest r g first q at d k still one =
    let o = second_ends_first s j t r g first q in
    let s2 = step (step s dispatches) (completes (length s.in_flight)) in
    let flying3 : (step s2 (schedules j a u)).in_flight ≡ s.in_flight =
      ap (λ x. x.in_flight) (step_schedules s2 j a u)
      ∙ in_flight-schedule s2 j a u
      ∙ o.same_flying in
    rw
      (
        complete_taken_lem (step s2 (schedules j a u)) i f rest (ap (take_at i) flying3 ∙ at),
        step_schedules s2 j a u,
      )
      (last_ends s s2 j i u a f rest o at d k still one)
