-- ===== src/Analysis/PerfContext/Examples.antt =====
-- A process with two threads and samples.
use snail_server.Common.{ℕ, ◌≡◌, refl, List, [], ◌∷◌, Option, none, some, arith}
use snail_server.Analysis.PerfContext.{PerfContext, empty_context, PerfEvent, sample_event}
use snail_server.Analysis.PerfContext.Events.{handle_events, handle_event, handle_sample}
use snail_server.Analysis.PerfContext.Finish.{assign_ids, process_lifetime, thread_lifetime}
use snail_server.Analysis.PerfContext.Ids.{AllFound, assign_ids-AllFound}
use snail_server.Analysis.PerfContext.Queries.{thread_samples}
use snail_server.Analysis.PerfContext.Samples.{filter, is_within}
use snail_server.Analysis.PerfContext.Stored.{stored}
use snail_server.Analysis.PerfContext.Timely.{thread_samples-filter}

abbrev sample_at : ℕ → PerfEvent
sample_at time = sample_event (record {
  id = none;
  attributes = 100;
  tid = some 8;
  time = some time;
  ip = some 77;
  ips = none;
})

abbrev two_samples : List PerfEvent
two_samples = sample_at 3 ∷ sample_at 5 ∷ []

abbrev after_two : Option PerfContext → PerfContext
after_two none = empty_context
after_two (some c) = c

abbrev sampled : PerfContext
sampled = after_two (handle_events (λ ip. ip) two_samples empty_context)

handled : handle_events (λ ip. ip) two_samples empty_context ≡ some sampled
unfolding handle_events handle_event handle_sample
handled = refl

thread_samples-filter_example :
    thread_samples 8 4 (some 9) 0 sampled ≡ filter (is_within 4 (some 9)) (stored 0 8 sampled)
thread_samples-filter_example =
    thread_samples-filter (λ ip. ip) two_samples sampled 8 4 (some 9) 0
      (omega arith, (omega arith, tt)) handled

abbrev forked : PerfContext
forked = record empty_context {
  processes =
      (
        8,
        record {
          id = 8;
          timestamp = 1;
          payload = record { name = none; end_time = none; unique_id = none };
        }
            ∷ [],
      )
      ∷ [];
}

assign_ids-AllFound_example :
    AllFound process_lifetime
      (λ d. d.unique_id)
      (assign_ids forked).unique_process_id_to_key
      (assign_ids forked).processes
    × AllFound thread_lifetime
        (λ d. d.unique_id)
        (assign_ids forked).unique_thread_id_to_key
        (assign_ids forked).threads
assign_ids-AllFound_example = assign_ids-AllFound forked
