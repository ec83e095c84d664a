-- ===== src/Analysis/PerfContext/Queries.antt =====
-- The queries of perf_data_file_process_context.cpp; the `at` of a map throws on a missing key.
use snail_server.Common.{
  ℕ, suc, ◌-◌, Bool, List, [], ◌∷◌, Option, none, some, ◌==◌, ◌||◌, ltb, leb, length, take, drop,
  if◌then◌else◌,
}
use snail_server.Common.AssocMap.{lookup}
use snail_server.Analysis.StackCache.{get}
use snail_server.Analysis.ModuleMap.{ModuleMap}
use snail_server.Analysis.PerfContext.{IdAt, SampleInfo, SamplesStorage, PerfContext, same_module}

-- Where `std::ranges::lower_bound` and `upper_bound` stop in samples that are ordered by time.
unfoldable pub count_while : (SampleInfo → Bool) → List SampleInfo → ℕ
count_while p [] = 0
count_while p (s ∷ ss) = if p s then suc (count_while p ss) else 0

abbrev pub lower_bound : ℕ → List SampleInfo → ℕ
lower_bound start = count_while (λ s. ltb s.timestamp start)

abbrev pub upper_bound : Option ℕ → List SampleInfo → ℕ
upper_bound none samples = length samples
upper_bound (some end) samples = count_while (λ s. leb s.timestamp end) samples

abbrev pub part_of : ℕ → ℕ → List SampleInfo → List SampleInfo
part_of first end samples = if ltb end first then [] else take (end - first) (drop first samples)

-- Where nothing is at or behind the start, there is nothing.
unfoldable pub samples_between : ℕ → Option ℕ → List SampleInfo → List SampleInfo
samples_between start end samples =
    let first = lower_bound start samples in
    if first == length samples then [] else part_of first (upper_bound end samples) samples

abbrev pub samples_in : ℕ → Option ℕ → Option SamplesStorage → List SampleInfo
samples_in start end none = []
samples_in start end (some s) = samples_between start end s.samples

abbrev pub samples_of_thread :
    ℕ → ℕ → Option ℕ → Option (List (ℕ × SamplesStorage)) → List SampleInfo
samples_of_thread tid start end none = []
samples_of_thread tid start end (some threads) = samples_in start end (lookup tid threads)

unfoldable pub thread_samples : ℕ → ℕ → Option ℕ → ℕ → PerfContext → List SampleInfo
thread_samples tid start end source c =
    samples_of_thread tid start end (lookup source c.samples_per_source_and_thread_id)

abbrev pub has_member : ℕ → List ℕ → Bool
has_member n [] = Bool.false
has_member n (m ∷ ms) = (m == n) || has_member n ms

abbrev pub sample_source_has_stacks : ℕ → PerfContext → Bool
sample_source_has_stacks source c = has_member source c.sources_with_stacks

abbrev pub process_id_to_key : ℕ → PerfContext → Option IdAt
process_id_to_key id c = lookup id c.unique_process_id_to_key

abbrev pub thread_id_to_key : ℕ → PerfContext → Option IdAt
thread_id_to_key id c = lookup id c.unique_thread_id_to_key

abbrev pub get_process_threads : ℕ → PerfContext → Option (List ℕ)
get_process_threads process_id c = lookup process_id c.threads_per_process

abbrev pub get_modules : ℕ → PerfContext → Option (ModuleMap same_module)
get_modules process_id c = lookup process_id c.modules_per_process_id

abbrev pub stack : ℕ → PerfContext → Option (List ℕ)
stack index c = get c.stacks index
