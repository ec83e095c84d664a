-- ===== src/Analysis/PerfContext/Sampled.antt =====
-- `finish` of perf_data_file_process_context.cpp, the rest: the threads of each process, the events of
-- each source, and the processes that have samples.
use snail_server.Common.{
  ℕ, Bool, false, ◌||◌, ◌&&◌, List, [], ◌∷◌, ◌++◌, Option, none, some, ◌==◌, ltb, if◌then◌else◌,
}
use snail_server.Common.AssocMap.{lookup, insert}
use snail_server.Analysis.History.{Entry, find_at}
use snail_server.Analysis.PerfContext.{
  ProcessData, ThreadData, IdAt, SamplesStorage, PerfContext, or_empty,
}
use snail_server.Analysis.PerfContext.Finish.{
  for_each, for_entries, apply_process_name, apply_thread_name, assign_ids,
}

-- `std::set::insert` of numbers.
unfoldable pub add_id : ℕ → List ℕ → List ℕ
add_id n [] = n ∷ []
add_id n (m ∷ ms) =
    let later = add_id n ms in
    if ltb n m then n ∷ m ∷ ms else (if ltb m n then m ∷ later else m ∷ ms)

abbrev pub id_of_process : Option (Entry ProcessData) → Option ℕ
id_of_process none = none
id_of_process (some e) = e.payload.unique_id

abbrev pub id_of_thread : Option (Entry ThreadData) → Option ℕ
id_of_thread none = none
id_of_thread (some e) = e.payload.unique_id

abbrev pub add_process_thread : Option ℕ → Option ℕ → PerfContext → PerfContext
add_process_thread none thread c = c
add_process_thread (some process) none c = c
add_process_thread (some process) (some thread) c = record c {
  threads_per_process =
      insert process (add_id thread (or_empty (lookup process c.threads_per_process)))
        c.threads_per_process;
}

-- The searches are not strict.
abbrev pub place_thread : ℕ → IdAt → PerfContext → PerfContext
place_thread process_id key c =
    add_process_thread (id_of_process (find_at process_id key.time false c.processes))
      (id_of_thread (find_at key.id key.time false c.threads)) c

abbrev pub place_threads : List (ℕ × List IdAt) → PerfContext → PerfContext
place_threads [] c = c
place_threads ((process_id, keys) ∷ more) c =
    place_threads more (for_each (place_thread process_id) keys c)

abbrev pub revert_source : ℕ × ℕ → PerfContext → PerfContext
revert_source (event, source) c = record c {
  event_ids_per_sample_source =
      insert source (or_empty (lookup source c.event_ids_per_sample_source) ++ event ∷ [])
        c.event_ids_per_sample_source;
}

-- Whether no sample of the thread's id is in the time of the entry.
abbrev pub ends_before : Option ℕ → ℕ → Bool
ends_before none first = false
ends_before (some end) first = ltb end first

abbrev pub is_unsampled : SamplesStorage → Entry ThreadData → Bool
is_unsampled s e =
    ltb s.last_sample_time e.timestamp || ends_before e.payload.end_time s.first_sample_time

abbrev pub same_key : IdAt → IdAt → Bool
same_key a b = (a.id == b.id) && (a.time == b.time)

unfoldable pub add_key : IdAt → List IdAt → List IdAt
add_key k [] = k ∷ []
add_key k (l ∷ ls) = if same_key l k then l ∷ ls else l ∷ add_key k ls

abbrev pub mark_process : Option (Entry ProcessData) → PerfContext → PerfContext
mark_process none c = c
mark_process (some e) c = record c {
  sampled_processes = add_key (record { id = e.id; time = e.timestamp }) c.sampled_processes;
}

abbrev pub mark_sampled : SamplesStorage → Entry ThreadData → PerfContext → PerfContext
mark_sampled s e c =
    if is_unsampled s e
    then c
    else mark_process (find_at e.payload.process_id e.timestamp false c.processes) c

abbrev pub mark_thread : Option SamplesStorage → List (Entry ThreadData) → PerfContext → PerfContext
mark_thread none es c = c
mark_thread (some s) es c = for_each (mark_sampled s) es c

abbrev pub mark_threads :
    List (ℕ × SamplesStorage) → List (ℕ × List (Entry ThreadData)) → PerfContext → PerfContext
mark_threads samples [] c = c
mark_threads samples ((thread_id, es) ∷ more) c =
    mark_threads samples more (mark_thread (lookup thread_id samples) es c)

abbrev pub mark_sources : List (ℕ × List (ℕ × SamplesStorage)) → PerfContext → PerfContext
mark_sources [] c = c
mark_sources ((source, samples) ∷ more) c = mark_sources more (mark_threads samples c.threads c)

abbrev pub apply_names : PerfContext → PerfContext
apply_names c =
    let named = for_entries apply_process_name c.process_names c in
    for_entries apply_thread_name named.thread_names named

-- The order of the entries of an unordered map is not specified; here it is the order of insertion.
unfoldable pub finish : PerfContext → PerfContext
finish c =
    let assigned = assign_ids (apply_names c) in
    let placed = place_threads assigned.threads_per_process_id assigned in
    let reverted = for_each revert_source placed.event_id_to_source_id placed in
    mark_sources reverted.samples_per_source_and_thread_id reverted
