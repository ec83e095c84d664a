-- ===== src/Server/Scheduler/InOrder.antt =====
-- document_task_scheduler.cpp when the closures of each document end in the order in which they
-- were submitted, as with a pool of one worker: the conditions under which its asserts hold.
mod Flights
mod Document
mod Steps
pub use Steps.{InOrder, IsOldest}
use Steps.{IsOrderly, run-IsOrderly, of_document-Taken}
use Document.{
  Orderly, Orderly-cong, emplace-Orderly, end-Orderly, begin-Orderly, front_is_ready_idle,
}
use Flights.{
  of_document, of_document-append, InitsStill, ends_blocked, InitsStill-append, ends_blocked-append,
  nonempty_of_blocked, blocks_of_ends, count-length, count_if-of_document, Taken, take_at-Taken,
}
use snail_server.Common.{
  ℕ, suc, ◌+◌, ◌≤◌, ◌<◌, ◌≡◌, refl, sym, ap, ◌∙◌, inl, inr, ◌⊎◌, Bool, true, false, not, ◌&&◌, List,
  [], ◌∷◌, ◌++◌, Option, none, some, length, length-append, take, drop, take_at, count_if,
  count_if-append, ◌==◌, if◌then◌else◌, arith, Option-cases, ==_refl, append-nil, subst, ltb,
  Bool-cases,
}
use mathlib.Core.Path.{subst₃}
use native.Mathlib.Decide.{dec_lt}
use snail_server.Common.AssocMap.{lookup}
use snail_server.Server.Scheduler.{
  AccessType, is_read, DocumentTask, DocumentQueue, Submitted, Scheduler, Round, waiting, finished,
  fault, started, queue_of, initial, Event, schedules, dispatches, completes, shuts_down, emplace,
  begin_task, end_task, is_queue_ready, front_is_ready, schedule, complete, complete_task, dispatch,
  step, run, after_round, shutdown, dispatch_asserts, complete_asserts,
}
use snail_server.Server.Scheduler.Views.{
  is_idle, queue_of-schedule, ready-schedule, in_flight-schedule, queue_of-complete_task, Starts,
  IsRound, waits, finishes, faults, starts, dispatch-IsRound,
}
use snail_server.Server.Scheduler.Accounts.{
  front_is_ready_needs, ready_count, reads, writes, blocks, flights, one_if, run-IsAccounted,
}

-- If the closures of each document end in the order in which they were submitted, no read of a
-- document is in flight beside a write of it.
pub write_excludes_reads :
    (es : List Event) (j : ℕ)
    → InOrder initial es
    → 0 < flights writes (run initial es).in_flight j
    → flights reads (run initial es).in_flight j ≡ 0
write_excludes_reads es j h p =
    let b = run-IsAccounted es j in
    let o = run-IsOrderly es h j in ground (arith, b.writes_counted, b.reads_counted, o.exclusive)

-- If the closures of each document end in the order in which they were submitted, no task is
-- forgotten: a document with a queued task is on the ready list, or has a closure in flight that
-- puts it there when it ends.
pub queued_is_awaited :
    (es : List Event) (j : ℕ)
    → InOrder initial es
    → 0 < length (queue_of (run initial es) j).queue
    → (0 < ready_count (run initial es).ready_documents j)
      ⊎ (0 < flights blocks (run initial es).in_flight j)
queued_is_awaited es j h p =
    let s = run initial es in
    let o = run-IsOrderly es h j in
    elim (Bool-cases (ends_blocked (of_document j s.in_flight))) [
      | inl e ↦ inr (
          ground (
            arith,
            blocks_of_ends (of_document j s.in_flight) e,
            count_if-of_document blocks s.in_flight j,
          ))
      | inr e ↦ inl (ground (arith, o.free e))
    ]

front_is_asserted :
    (s : Scheduler) (rs : List ℕ)
    → s.ready_documents ≡ rs
    → ((j : ℕ) → IsOrderly s j)
    → dispatch_asserts s ≡ true
unfolding dispatch_asserts
front_is_asserted s [] e o = rw (e, dispatch_asserts)
front_is_asserted s (id ∷ others) e o =
    let p = o id in
    let c = ap (λ l. ready_count l id) e in
    let open_end : ends_blocked (of_document id s.in_flight) ≡ false =
      ground (arith, c, p.blocked, ==_refl id) in
    let some_task : 0 < length (queue_of s id).queue =
      ground (arith, c, p.free open_end, ==_refl id) in
    rw (e, dispatch_asserts) (p.ready open_end some_task)

-- If the closures of each document end in the order in which they were submitted, the asserts of
-- the dispatcher thread hold.
pub dispatch_asserts_hold :
    (es : List Event) → InOrder initial es → dispatch_asserts (run initial es) ≡ true
dispatch_asserts_hold es h =
    front_is_asserted (run initial es) (run initial es).ready_documents refl (run-IsOrderly es h)

end_is_asserted :
    (s : Scheduler) (f : Submitted) (rest : List Submitted)
    → Orderly (ready_count s.ready_documents f.document) (queue_of s f.document) (f ∷ rest)
    → complete_asserts s f ≡ true
unfolding complete_asserts
end_is_asserted s f [] o =
    let e = end-Orderly (ready_count s.ready_documents f.document) (queue_of s f.document) f [] o in
    ground (arith, o.reads_counted, o.writes_counted, e.ready refl)
end_is_asserted s f (g ∷ gs) o = ground (arith, o.inits, o.reads_counted, o.writes_counted)

-- If the closures of each document end in the order in which they were submitted, the asserts of
-- the next such closure hold too.
pub complete_asserts_hold :
    (es : List Event) (i : ℕ) (f : Submitted) (rest : List Submitted)
    → InOrder initial es
    → take_at i (run initial es).in_flight ≡ some (f, rest)
    → IsOldest i (run initial es).in_flight f
    → complete_asserts (run initial es) f ≡ true
complete_asserts_hold es i f rest h e old =
    let s = run initial es in
    let t = take_at-Taken i s.in_flight f rest e in
    end_is_asserted s f (of_document f.document rest) (
      Orderly-cong _ _ _ _ _ _ refl refl
        (ground (arith, of_document-Taken i f.document s.in_flight f rest t old))
        (run-IsOrderly es h f.document))
