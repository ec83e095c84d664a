-- ===== src/Server/Scheduler/Examples.antt =====
-- Runs of the document task scheduler, and its theorems at them.
use snail_server.Common.{◌+◌, ◌≡◌, refl, ◌⊎◌, true, false, List, [], ◌∷◌, ◌++◌, ◌<◌, length, arith}
use snail_server.Common.AssocMap.{lookup, insert}
use snail_server.Server.Scheduler.{
  read_only, write, Submitted, queue_of, initial, Event, schedules, dispatches, completes,
  shuts_down, step, run, has_any_task, is_queue_ready,
}
use snail_server.Server.Scheduler.Accounts.{
  IsAccounted, ready_count, flights, reads, blocks, run-IsAccounted,
}
use snail_server.Server.Scheduler.Fifo.{scheduled_tasks, started_tasks, started_in_order}
use snail_server.Server.Scheduler.InOrder.{write_excludes_reads, queued_is_awaited}
use snail_server.Server.Scheduler.Hazards.{write_beside_reads}
use snail_server.Server.Scheduler.Hazards.Lost.{IsLost}
use snail_server.Server.Scheduler.Hazards.Wakeup.{IsLost-wakeup}

-- Two reads and a write of document 7; the first read is started.
abbrev one_started : List Event
one_started =
    schedules 7 read_only 1 ∷ schedules 7 read_only 2 ∷ schedules 7 write 3 ∷ dispatches ∷ []

abbrev first_read : Submitted
first_read = record {
  document = 7;
  document_task = record { access_type = read_only; task = 1 };
  was_still_ready = true;
}

abbrev second_read : Submitted
second_read = record {
  document = 7;
  document_task = record { access_type = read_only; task = 2 };
  was_still_ready = false;
}

first_read_flies : (run initial one_started).in_flight ≡ first_read ∷ []
unfolding run step lookup insert has_any_task is_queue_ready
first_read_flies = refl

-- Both reads end in order, then the write starts.
abbrev all_started : List Event
all_started = one_started ++ dispatches ∷ completes 0 ∷ completes 0 ∷ dispatches ∷ shuts_down ∷ []

run-IsAccounted_example : IsAccounted (run initial all_started) 7
run-IsAccounted_example = run-IsAccounted all_started 7

started_in_order_example :
    scheduled_tasks 7 all_started
    ≡ started_tasks 7 initial all_started ++ (queue_of (run initial all_started) 7).queue
started_in_order_example = started_in_order all_started 7

write_excludes_reads_example : flights reads (run initial all_started).in_flight 7 ≡ 0
unfolding run step lookup insert has_any_task is_queue_ready
write_excludes_reads_example = write_excludes_reads all_started 7 (refl, (refl, tt)) (omega arith)

queued_is_awaited_example :
    (0 < ready_count (run initial one_started).ready_documents 7)
    ⊎ (0 < flights blocks (run initial one_started).in_flight 7)
unfolding run step lookup insert has_any_task is_queue_ready
queued_is_awaited_example = queued_is_awaited one_started 7 tt (omega arith)

write_beside_reads_example :
    let s = run initial one_started in
    let s' = run s (dispatches ∷ completes (length s.in_flight) ∷ dispatches ∷ []) in
    ((queue_of s' 7).running_write ≡ true) × ((queue_of s' 7).running_reads ≡ 0 + 1)
unfolding run step lookup insert has_any_task is_queue_ready
write_beside_reads_example =
    write_beside_reads (run initial one_started) 7 0 2 3 [] refl refl refl refl

-- Two reads of document 7; the first is started.
abbrev two_reads : List Event
two_reads = schedules 7 read_only 1 ∷ schedules 7 read_only 2 ∷ dispatches ∷ []

abbrev losing : List Event
losing = dispatches ∷ completes 1 ∷ schedules 7 write 3 ∷ completes 0 ∷ []

IsLost-wakeup_example : IsLost (run (run initial two_reads) losing) 7
unfolding run step lookup insert has_any_task is_queue_ready
IsLost-wakeup_example =
    IsLost-wakeup (run initial two_reads) 7 0 2 3 write first_read [] refl refl refl refl refl refl
      refl refl refl
