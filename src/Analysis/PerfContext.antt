-- ===== src/Analysis/PerfContext.antt =====
-- snail/analysis/detail/perf_data_file_process_context.{hpp,cpp}: processes, threads, modules and
-- samples, collected from the events of a file.
pub mod Events
pub mod Finish
pub mod Sampled
pub mod Samples
pub mod Stored
pub mod Timely
pub mod Ids
pub mod Queries
pub mod Observer
mod Examples
use snail_server.Common.{
  ℕ, suc, ◌+◌, ◌-◌, ◌^◌, min, max, Bool, true, false, ◌&&◌, List, [], ◌∷◌, ◌++◌, Option, none, some,
  ◌==◌, ltb, length, if◌then◌else◌,
}
use snail_server.Text.Codes.{Text, equal}
use snail_server.Analysis.History.{History}
use snail_server.Analysis.ModuleMap.{ModuleMap}
use snail_server.Analysis.StackCache.{StackCache, empty_cache}

abbrev pub same_text : Option Text → Option Text → Bool
same_text none none = true
same_text none (some t) = false
same_text (some s) none = false
same_text (some s) (some t) = equal s t

pub record ProcessData : Type 0 where
  pub name : Option Text
  pub end_time : Option ℕ
  pub unique_id : Option ℕ

-- The program's `==`.
abbrev pub same_process : ProcessData → ProcessData → Bool
same_process lhs rhs = same_text lhs.name rhs.name

pub record ThreadData : Type 0 where
  pub process_id : ℕ
  pub name : Option Text
  pub end_time : Option ℕ
  pub unique_id : Option ℕ

abbrev pub same_thread : ThreadData → ThreadData → Bool
same_thread lhs rhs = (lhs.process_id == rhs.process_id) && same_text lhs.name rhs.name

pub record ModuleData : Type 0 where
  pub filename : Text
  pub page_offset : ℕ
  pub build_id : Option Text

abbrev pub same_module : ModuleData → ModuleData → Bool
same_module lhs rhs =
    equal lhs.filename rhs.filename
    && (lhs.page_offset == rhs.page_offset)
    && same_text lhs.build_id rhs.build_id

-- `id_at`.
pub record IdAt : Type 0 where
  pub id : ℕ
  pub time : ℕ

pub record SampleInfo : Type 0 where
  pub thread_id : ℕ
  pub timestamp : ℕ
  pub instruction_pointer : Option ℕ
  pub stack_index : Option ℕ

pub record SamplesStorage : Type 0 where
  pub first_sample_time : ℕ
  pub last_sample_time : ℕ
  pub samples : List SampleInfo

abbrev pub no_samples : SamplesStorage
no_samples = record { first_sample_time = 2 ^ 64 - 1; last_sample_time = 0; samples = [] }

-- The maps; a set is a list without repetition, in order. `unique_sample_sources` maps the address of
-- the attributes to the id of the source. A key that may be missing is one more, or zero.
pub record PerfContext : Type 0 where
  pub process_names : History ProcessData
  pub thread_names : History ThreadData
  pub processes : History ProcessData
  pub threads : History ThreadData
  pub threads_per_process_id : List (ℕ × List IdAt)
  pub threads_per_process : List (ℕ × List ℕ)
  pub unique_process_id_to_key : List (ℕ × IdAt)
  pub unique_thread_id_to_key : List (ℕ × IdAt)
  pub modules_per_process_id : List (ℕ × ModuleMap same_module)
  pub unique_sample_sources : List (ℕ × ℕ)
  pub samples_per_source_and_thread_id : List (ℕ × List (ℕ × SamplesStorage))
  pub sources_with_stacks : List ℕ
  pub event_id_to_source_id : List (ℕ × ℕ)
  pub event_ids_per_sample_source : List (ℕ × List ℕ)
  pub sampled_processes : List IdAt
  pub stacks : StackCache

abbrev pub empty_context : PerfContext
empty_context = record {
  process_names = [];
  thread_names = [];
  processes = [];
  threads = [];
  threads_per_process_id = [];
  threads_per_process = [];
  unique_process_id_to_key = [];
  unique_thread_id_to_key = [];
  modules_per_process_id = [];
  unique_sample_sources = [];
  samples_per_source_and_thread_id = [];
  sources_with_stacks = [];
  event_id_to_source_id = [];
  event_ids_per_sample_source = [];
  sampled_processes = [];
  stacks = empty_cache;
}

abbrev pub or_empty {ℓ} : {A : Type ℓ} → Option (List A) → List A
or_empty none = []
or_empty (some xs) = xs

abbrev pub key_of : Option ℕ → ℕ
key_of none = 0
key_of (some n) = suc n

-- What is read of the events. A build id has at most 20 bytes, as the parser asserts.
pub record CommEvent : Type 0 where
  pub pid : ℕ
  pub tid : ℕ
  pub comm : Text
  pub time : Option ℕ

pub record ForkEvent : Type 0 where
  pub pid : ℕ
  pub tid : ℕ
  pub time : ℕ

pub record Mmap2Event : Type 0 where
  pub pid : ℕ
  pub addr : ℕ
  pub len : ℕ
  pub pgoff : ℕ
  pub filename : Text
  pub build_id : Option Text
  pub time : Option ℕ

pub record SampleEvent : Type 0 where
  pub id : Option ℕ
  pub attributes : ℕ
  pub tid : Option ℕ
  pub time : Option ℕ
  pub ip : Option ℕ
  pub ips : Option (List ℕ)

pub data PerfEvent : Type 0 where
  comm_event : CommEvent → PerfEvent
  fork_event : ForkEvent → PerfEvent
  mmap2_event : Mmap2Event → PerfEvent
  sample_event : SampleEvent → PerfEvent
