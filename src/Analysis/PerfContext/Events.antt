-- ===== src/Analysis/PerfContext/Events.antt =====
-- The handlers of perf_data_file_process_context.cpp, one for each kind of event.
use snail_server.Common.{
  ℕ, min, max, Bool, true, false, List, [], ◌∷◌, ◌++◌, Option, none, some, ◌==◌, ltb, length,
  if◌then◌else◌,
}
use snail_server.Common.AssocMap.{lookup, insert}
use snail_server.Text.Codes.{Text}
use snail_server.Analysis.History.{insert_at}
use snail_server.Analysis.ModuleMap.{ModuleMap, LoadedModule}
use snail_server.Analysis.ModuleMap
use snail_server.Analysis.StackCache.{StackCache, insert_stack}
use snail_server.Analysis.PerfContext.{
  ProcessData, same_process, ThreadData, same_thread, same_module, IdAt, SampleInfo, SamplesStorage,
  no_samples, PerfContext, or_empty, key_of, CommEvent, ForkEvent, Mmap2Event, SampleEvent,
  PerfEvent, comm_event, fork_event, mmap2_event, sample_event,
}

abbrev pub process_named : Option Text → ProcessData
process_named name = record { name = name; end_time = none; unique_id = none }

abbrev pub thread_named : ℕ → Option Text → ThreadData
thread_named pid name = record { process_id = pid; name = name; end_time = none; unique_id = none }

abbrev pub name_process : CommEvent → ℕ → PerfContext → PerfContext
name_process e time c =
    if e.pid == e.tid
    then record c {
      process_names =
          (insert_at same_process e.pid time (process_named (some e.comm)) c.process_names).0;
    }
    else c

abbrev pub name_thread : CommEvent → ℕ → PerfContext → PerfContext
name_thread e time c = record c {
  thread_names =
      (insert_at same_thread e.tid time (thread_named e.pid (some e.comm)) c.thread_names).0;
}

-- None where the time is missing, which the program reads all the same.
abbrev pub handle_comm : CommEvent → Option ℕ → PerfContext → Option PerfContext
handle_comm e none c = none
handle_comm e (some time) c = some (name_thread e time (name_process e time c))

abbrev pub is_before : IdAt → IdAt → Bool
is_before a b = if a.id == b.id then ltb a.time b.time else ltb a.id b.id

-- `std::set::emplace`.
unfoldable pub emplace_key : IdAt → List IdAt → List IdAt
emplace_key k [] = k ∷ []
emplace_key k (l ∷ ls) =
    let later = emplace_key k ls in
    if is_before k l then k ∷ l ∷ ls else (if is_before l k then l ∷ later else l ∷ ls)

abbrev pub add_thread_key : ℕ → IdAt → PerfContext → PerfContext
add_thread_key pid key c = record c {
  threads_per_process_id =
      insert pid (emplace_key key (or_empty (lookup pid c.threads_per_process_id)))
        c.threads_per_process_id;
}

abbrev pub fork_process : ForkEvent → PerfContext → PerfContext
fork_process e c =
    if e.pid == e.tid
    then record c {
      processes = (insert_at same_process e.pid e.time (process_named none) c.processes).0;
    }
    else c

abbrev pub fork_thread : ForkEvent → PerfContext → PerfContext
fork_thread e c = record c {
  threads = (insert_at same_thread e.tid e.time (thread_named e.pid none) c.threads).0;
}

abbrev pub handle_fork : ForkEvent → PerfContext → PerfContext
handle_fork e c =
    add_thread_key e.pid (record { id = e.tid; time = e.time }) (fork_thread e (fork_process e c))

abbrev pub modules_of : Option (ModuleMap same_module) → ModuleMap same_module
modules_of none = record { modules = []; address_ranges = [] }
modules_of (some m) = m

abbrev pub set_modules : ℕ → PerfContext → Option (ModuleMap same_module) → Option PerfContext
set_modules pid c none = none
set_modules pid c (some m) =
    some (record c { modules_per_process_id = insert pid m c.modules_per_process_id })

abbrev pub loaded_module : Mmap2Event → LoadedModule same_module
loaded_module e = record {
  base = e.addr;
  size = e.len;
  payload = record { filename = e.filename; page_offset = e.pgoff; build_id = e.build_id };
}

abbrev pub handle_mmap2 : Mmap2Event → Option ℕ → PerfContext → Option PerfContext
handle_mmap2 e none c = none
handle_mmap2 e (some time) c = set_modules e.pid c (
    ModuleMap.insert same_module (loaded_module e) time
      (modules_of (lookup e.pid c.modules_per_process_id)))

-- The id of the source, and whether it is new.
abbrev pub source_of : ℕ → PerfContext → ℕ × Bool
source_of attributes c = elim (lookup attributes c.unique_sample_sources) [
  | some source ↦ (source, false)
  | none ↦ (length c.unique_sample_sources, true)
]

abbrev pub add_source : SampleEvent → ℕ × Bool → PerfContext → PerfContext
add_source e (source, false) c = c
add_source e (source, true) c = record c {
  unique_sample_sources = insert e.attributes source c.unique_sample_sources;
  event_id_to_source_id = insert (key_of e.id) source c.event_id_to_source_id;
}

abbrev pub threads_of : ℕ → PerfContext → List (ℕ × SamplesStorage)
threads_of source c = or_empty (lookup source c.samples_per_source_and_thread_id)

abbrev pub storage_or_new : Option SamplesStorage → SamplesStorage
storage_or_new none = no_samples
storage_or_new (some s) = s

abbrev pub storage_of : ℕ → ℕ → PerfContext → SamplesStorage
storage_of source tid c = storage_or_new (lookup tid (threads_of source c))

abbrev pub add_to_storage : SampleInfo → SamplesStorage → SamplesStorage
add_to_storage i s = record {
  first_sample_time = min s.first_sample_time i.timestamp;
  last_sample_time = max s.last_sample_time i.timestamp;
  samples = s.samples ++ i ∷ [];
}

abbrev pub store_sample : ℕ → SampleInfo → PerfContext → PerfContext
store_sample source i c = record c {
  samples_per_source_and_thread_id =
      insert source
        (insert i.thread_id (add_to_storage i (storage_of source i.thread_id c))
          (threads_of source c))
        c.samples_per_source_and_thread_id;
}

-- `std::unordered_set::insert`.
unfoldable pub add_member : ℕ → List ℕ → List ℕ
add_member n [] = n ∷ []
add_member n (m ∷ ms) = if m == n then m ∷ ms else m ∷ add_member n ms

-- `stacks.insert`, where the event has a stack.
abbrev pub stack_of : (ℕ → ℕ) → Option (List ℕ) → StackCache → StackCache × Option ℕ
stack_of ip_hash none stacks = (stacks, none)
stack_of ip_hash (some ips) stacks = let r = insert_stack ip_hash stacks ips in (r.0, some r.1)

abbrev pub mark_stacks : ℕ → Option (List ℕ) → PerfContext → PerfContext
mark_stacks source none c = c
mark_stacks source (some ips) c = record c {
  sources_with_stacks = add_member source c.sources_with_stacks;
}

abbrev pub add_timed_sample : (ℕ → ℕ) → SampleEvent → ℕ → ℕ → PerfContext → PerfContext
add_timed_sample ip_hash e tid time c =
    let source = source_of e.attributes c in
    let stack = stack_of ip_hash e.ips c.stacks in
    let i : SampleInfo = record {
      thread_id = tid;
      timestamp = time;
      instruction_pointer = e.ip;
      stack_index = stack.1;
    } in
    mark_stacks source.0 e.ips
      (store_sample source.0 i (add_source e source (record c { stacks = stack.0 })))

-- A sample without a thread or a time is left out.
abbrev pub timed_sample : (ℕ → ℕ) → SampleEvent → Option ℕ → Option ℕ → PerfContext → PerfContext
timed_sample ip_hash e none time c = c
timed_sample ip_hash e (some tid) none c = c
timed_sample ip_hash e (some tid) (some time) c = add_timed_sample ip_hash e tid time c

unfoldable pub handle_sample : (ℕ → ℕ) → SampleEvent → PerfContext → PerfContext
handle_sample ip_hash e c = timed_sample ip_hash e e.tid e.time c

unfoldable pub handle_event : (ℕ → ℕ) → PerfEvent → PerfContext → Option PerfContext
handle_event ip_hash (comm_event e) c = handle_comm e e.time c
handle_event ip_hash (fork_event e) c = some (handle_fork e c)
handle_event ip_hash (mmap2_event e) c = handle_mmap2 e e.time c
handle_event ip_hash (sample_event e) c = some (handle_sample ip_hash e c)

abbrev pub then_handle :
    (PerfContext → Option PerfContext) → Option PerfContext → Option PerfContext
then_handle next none = none
then_handle next (some c) = next c

unfoldable pub handle_events : (ℕ → ℕ) → List PerfEvent → PerfContext → Option PerfContext
handle_events ip_hash [] c = some c
handle_events ip_hash (e ∷ es) c = then_handle (handle_events ip_hash es) (handle_event ip_hash e c)
