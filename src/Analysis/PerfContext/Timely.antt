-- ===== src/Analysis/PerfContext/Timely.antt =====
-- Events in the order of their times give ordered samples.
use snail_server.Common.{
  ℕ, ◌≤◌, ◌≡◌, refl, sym, ◌∙◌, subst, Bool, true, false, List, [], ◌∷◌, Option, none, some, ◌==◌,
  Bool-cases, inl, inr,
}
use snail_server.Common.AssocMap.{lookup}
use snail_server.Analysis.ModuleMap.{ModuleMap}
use snail_server.Analysis.PerfContext.{
  same_module, SampleInfo, SamplesStorage, PerfContext, empty_context, or_empty, CommEvent,
  ForkEvent, Mmap2Event, SampleEvent, PerfEvent, comm_event, fork_event, mmap2_event, sample_event,
}
use snail_server.Analysis.PerfContext.Events.{
  storage_or_new, store_sample, add_source, source_of, stack_of, mark_stacks, add_timed_sample,
  timed_sample, handle_sample, then_handle, name_process, name_thread, fork_process, handle_event,
  handle_events, handle_comm, handle_fork, handle_mmap2, set_modules,
}
use snail_server.Analysis.PerfContext.Queries.{
  samples_between, samples_of_thread, samples_in, thread_samples, count_while,
}
use snail_server.Analysis.PerfContext.Samples.{IsSorted, filter, is_within, samples_between-filter}
use snail_server.Analysis.PerfContext.Stored.{stored, AllUntil, IsTimely, store_sample-IsTimely}

-- Only the map of the samples counts.
abbrev Map : Type 0
Map = List (ℕ × List (ℕ × SamplesStorage))

same_samples-IsTimely :
    (t : ℕ) (c c' : PerfContext)
    → c.samples_per_source_and_thread_id ≡ c'.samples_per_source_and_thread_id
    → IsTimely t c
    → IsTimely t c'
same_samples-IsTimely t c c' e h source tid =
    subst
      (λ (m : Map).
        let ss = (storage_or_new (lookup tid (or_empty (lookup source m)))).samples in
        IsSorted ss × AllUntil t ss)
      e (h source tid)

add_timed_sample-IsTimely :
    (ip_hash : ℕ → ℕ) (e : SampleEvent) (t tid time : ℕ) (c : PerfContext)
    → t ≤ time
    → IsTimely t c
    → IsTimely time (add_timed_sample ip_hash e tid time c)
add_timed_sample-IsTimely ip_hash e t tid time c h k =
    let source = source_of e.attributes c in
    let stack = stack_of ip_hash e.ips c.stacks in
    let i : SampleInfo = record {
      thread_id = tid;
      timestamp = time;
      instruction_pointer = e.ip;
      stack_index = stack.1;
    } in
    let with_stack : PerfContext = record c { stacks = stack.0 } in
    let added = add_source e source with_stack in
    let added_same : c.samples_per_source_and_thread_id ≡ added.samples_per_source_and_thread_id =
      add_source-same source with_stack in
    let timely =
      store_sample-IsTimely t source.0 i added h (same_samples-IsTimely t c added added_same k) in
    let result = store_sample source.0 i added in
    same_samples-IsTimely time result (mark_stacks source.0 e.ips result)
      (mark_stacks-same e.ips source.0 result) timely
  where
    add_source-same :
        (source : ℕ × Bool) (d : PerfContext)
        → d.samples_per_source_and_thread_id
          ≡ (add_source e source d).samples_per_source_and_thread_id
    add_source-same (source, false) d = refl
    add_source-same (source, true) d = refl

    mark_stacks-same :
        (ips : Option (List ℕ)) (source : ℕ) (d : PerfContext)
        → d.samples_per_source_and_thread_id
          ≡ (mark_stacks source ips d).samples_per_source_and_thread_id
    mark_stacks-same none source d = refl
    mark_stacks-same (some ips) source d = refl

-- The time of a sample that is stored, or the time so far.
abbrev pub time_or : ℕ → Option ℕ → Option ℕ → ℕ
time_or t none time = t
time_or t (some tid) none = t
time_or t (some tid) (some time) = time

abbrev pub time_after : ℕ → PerfEvent → ℕ
time_after t (comm_event e) = t
time_after t (fork_event e) = t
time_after t (mmap2_event e) = t
time_after t (sample_event e) = time_or t e.tid e.time

-- The times of the samples do not go back.
abbrev pub IsInTime : ℕ → List PerfEvent → Type 0
IsInTime t [] = Unit {0}
IsInTime t (e ∷ es) = (t ≤ time_after t e) × IsInTime (time_after t e) es

timed_sample-IsTimely :
    (ip_hash : ℕ → ℕ) (e : SampleEvent) (t : ℕ) (tid time : Option ℕ) (c : PerfContext)
    → t ≤ time_or t tid time
    → IsTimely t c
    → IsTimely (time_or t tid time) (timed_sample ip_hash e tid time c)
timed_sample-IsTimely ip_hash e t none time c h k = k
timed_sample-IsTimely ip_hash e t (some tid) none c h k = k
timed_sample-IsTimely ip_hash e t (some tid) (some time) c h k =
    add_timed_sample-IsTimely ip_hash e t tid time c h k

name_process-same :
    (e : CommEvent) (time : ℕ) (c : PerfContext)
    → c.samples_per_source_and_thread_id ≡ (name_process e time c).samples_per_source_and_thread_id
name_process-same e time c = elim (Bool-cases (e.pid == e.tid)) [
  | inl b ↦ rw b refl
  | inr b ↦ rw b refl
]

fork_process-same :
    (e : ForkEvent) (c : PerfContext)
    → c.samples_per_source_and_thread_id ≡ (fork_process e c).samples_per_source_and_thread_id
fork_process-same e c = elim (Bool-cases (e.pid == e.tid)) [ inl b ↦ rw b refl | inr b ↦ rw b refl ]

abbrev IsTimelyResult : ℕ → Option PerfContext → Type 0
IsTimelyResult t none = Unit {0}
IsTimelyResult t (some c) = IsTimely t c

comm-IsTimely :
    (e : CommEvent) (time : Option ℕ) (t : ℕ) (c : PerfContext)
    → IsTimely t c
    → IsTimelyResult t (handle_comm e time c)
comm-IsTimely e none t c k = tt
comm-IsTimely e (some time) t c k =
    same_samples-IsTimely t c (name_thread e time (name_process e time c))
      (name_process-same e time c) k

set_modules-IsTimely :
    (pid t : ℕ) (c : PerfContext) (m : Option (ModuleMap same_module))
    → IsTimely t c
    → IsTimelyResult t (set_modules pid c m)
set_modules-IsTimely pid t c none k = tt
set_modules-IsTimely pid t c (some m) k = k

mmap2-IsTimely :
    (e : Mmap2Event) (time : Option ℕ) (t : ℕ) (c : PerfContext)
    → IsTimely t c
    → IsTimelyResult t (handle_mmap2 e time c)
mmap2-IsTimely e none t c k = tt
mmap2-IsTimely e (some time) t c k = set_modules-IsTimely e.pid t c _ k

handle_event-IsTimely :
    (ip_hash : ℕ → ℕ) (e : PerfEvent) (t : ℕ) (c : PerfContext)
    → t ≤ time_after t e
    → IsTimely t c
    → IsTimelyResult (time_after t e) (handle_event ip_hash e c)
unfolding handle_event handle_sample
handle_event-IsTimely ip_hash (comm_event e) t c h k = comm-IsTimely e e.time t c k
handle_event-IsTimely ip_hash (fork_event e) t c h k =
    same_samples-IsTimely t c (handle_fork e c) (fork_process-same e c) k
handle_event-IsTimely ip_hash (mmap2_event e) t c h k = mmap2-IsTimely e e.time t c k
handle_event-IsTimely ip_hash (sample_event e) t c h k =
    timed_sample-IsTimely ip_hash e t e.tid e.time c h k

abbrev HasOrder : Option PerfContext → Type 0
HasOrder none = Unit {0}
HasOrder (some c) = (source tid : ℕ) → IsSorted (stored source tid c)

then_handle-HasOrder :
    (next : PerfContext → Option PerfContext) (t : ℕ) (o : Option PerfContext)
    → IsTimelyResult t o
    → ((d : PerfContext) → IsTimely t d → HasOrder (next d))
    → HasOrder (then_handle next o)
then_handle-HasOrder next t none h k = tt
then_handle-HasOrder next t (some d) h k = k d h

handle_events-HasOrder :
    (ip_hash : ℕ → ℕ) (es : List PerfEvent) (t : ℕ) (c : PerfContext)
    → IsInTime t es
    → IsTimely t c
    → HasOrder (handle_events ip_hash es c)
unfolding handle_events
handle_events-HasOrder ip_hash [] t c h k = λ source tid. (k source tid).0
handle_events-HasOrder ip_hash (e ∷ es) t c h k =
    then_handle-HasOrder (handle_events ip_hash es) (time_after t e) (handle_event ip_hash e c)
      (handle_event-IsTimely ip_hash e t c h.0 k)
      (λ d. handle_events-HasOrder ip_hash es (time_after t e) d h.1)

empty-IsTimely : IsTimely 0 empty_context
unfolding lookup
empty-IsTimely source tid = (tt, tt)

samples_between-none : (start : ℕ) (end : Option ℕ) → samples_between start end [] ≡ []
unfolding samples_between count_while
samples_between-none start end = refl

samples_in-storage :
    (start : ℕ) (end : Option ℕ) (o : Option SamplesStorage)
    → samples_in start end o ≡ samples_between start end (storage_or_new o).samples
samples_in-storage start end none = sym (samples_between-none start end)
samples_in-storage start end (some s) = refl

samples_of_thread-storage :
    (tid start : ℕ) (end : Option ℕ) (o : Option (List (ℕ × SamplesStorage)))
    → samples_of_thread tid start end o
      ≡ samples_between start end (storage_or_new (lookup tid (or_empty o))).samples
unfolding lookup
samples_of_thread-storage tid start end none = sym (samples_between-none start end)
samples_of_thread-storage tid start end (some threads) =
    samples_in-storage start end (lookup tid threads)

-- After events whose samples are in the order of their times, a search finds exactly the stored samples
-- of the source and thread that are not before the start nor after the end.
pub thread_samples-filter :
    (ip_hash : ℕ → ℕ) (es : List PerfEvent) (c : PerfContext) (tid start : ℕ) (end : Option ℕ)
    (source : ℕ)
    → IsInTime 0 es
    → handle_events ip_hash es empty_context ≡ some c
    → thread_samples tid start end source c ≡ filter (is_within start end) (stored source tid c)
unfolding thread_samples
thread_samples-filter ip_hash es c tid start end source h e =
    let ordered =
      subst HasOrder e (handle_events-HasOrder ip_hash es 0 empty_context h empty-IsTimely) in
    samples_of_thread-storage tid start end (lookup source c.samples_per_source_and_thread_id)
    ∙ samples_between-filter start end (stored source tid c) (ordered source tid)
