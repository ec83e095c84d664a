-- ===== src/Server/Storage/Document.antt =====
-- `document_storage` of snail/server/detail/storage.cpp: one open document and what is kept for it.
use snail_server.Common.{
  ℕ, ◌+◌, ◌%◌, ◌^◌, Bool, List, [], ◌∷◌, Option, none, some, ◌==◌, ltb, ◌&&◌, ◌||◌,
}
use snail_server.Common.AssocMap.{lookup, insert}
use snail_server.Server.Storage.Interface.{Library}

pub data SumType : Type 0 where
  total : SumType
  self : SumType

pub data SortByKind : Type 0 where
  sort_by_name : SortByKind
  sort_by_samples : ℕ → SumType → SortByKind

pub record SampleSortData : Type 0 where
  pub by_self_samples : Option (List ℕ)
  pub by_total_samples : Option (List ℕ)

abbrev pub no_sort_data : SampleSortData
no_sort_data = record { by_self_samples = none; by_total_samples = none }

abbrev pub set_self : List ℕ → SampleSortData → SampleSortData
set_self order d = record d { by_self_samples = some order }

abbrev pub set_total : List ℕ → SampleSortData → SampleSortData
set_total order d = record d { by_total_samples = some order }

-- What an operation comes to: an exception is the text of `std::runtime_error`, or one thrown while
-- a file is read; `null_provider` is a call through a null pointer.
pub data Outcome {ℓ} (A : Type ℓ) : Type ℓ where
  done : A → Outcome A
  invalid_document_id : Outcome A
  not_been_read : Outcome A
  read_failed : Outcome A
  null_provider : Outcome A

infixl 5 ◌>>=◌
abbrev pub ◌>>=◌ {ℓ κ} : {A : Type ℓ} {B : Type κ} → Outcome A → (A → Outcome B) → Outcome B
done a >>= f = f a
invalid_document_id >>= f = invalid_document_id
not_been_read >>= f = not_been_read
read_failed >>= f = read_failed
null_provider >>= f = null_provider

abbrev pub or_else {ℓ} : {A : Type ℓ} → Option A → A → A
or_else none a = a
or_else (some b) a = b

module _ (l : Library) where
  open l use {FilePath, Options, PathMap, Provider, Filter, Token, Stacks, no_filter, same_filter}
  open l use {make_provider, sample_sources, sampling_processes, count_samples, analyze_stacks}
  open l use {all_functions, sort, name_less, total_hits, self_hits}

  pub record AnalysisData : Type 0 where
    pub stacks_analysis : Option Stacks
    pub functions_by_name : Option (List ℕ)
    pub functions_by_samples : List (ℕ × SampleSortData)

  pub record DocumentStorage : Type 0 where
    pub path : FilePath
    pub data_provider : Option Provider
    pub filter : Filter
    pub total_samples_counts : Option (List (ℕ × ℕ))
    pub analysis_per_process : List (ℕ × AnalysisData)

  abbrev pub no_analysis : AnalysisData
  no_analysis = record {
    stacks_analysis = none;
    functions_by_name = none;
    functions_by_samples = [];
  }

  -- The sum over the processes of one source.
  unfoldable pub count_source : Provider → Filter → ℕ → List ℕ → ℕ → ℕ
  count_source p f source [] count = count
  count_source p f source (process ∷ processes) count =
      count_source p f source processes ((count + count_samples p source process f) % 2 ^ 64)

  unfoldable pub count_sources : Provider → Filter → List ℕ → List (ℕ × ℕ) → List (ℕ × ℕ)
  count_sources p f [] counts = counts
  count_sources p f (source ∷ sources) counts =
      count_sources p f sources
        (insert source (count_source p f source (sampling_processes p) 0) counts)

  abbrev pub total_counts_from :
      Option (List (ℕ × ℕ))
      → Option Provider
      → DocumentStorage
      → Outcome (List (ℕ × ℕ) × DocumentStorage)
  total_counts_from (some counts) p d = done (counts, d)
  total_counts_from none none d = null_provider
  total_counts_from none (some p) d =
      let counts = count_sources p d.filter (sample_sources p) [] in
      done (counts, record d { total_samples_counts = some counts })

  unfoldable pub document_total_counts : DocumentStorage → Outcome (List (ℕ × ℕ) × DocumentStorage)
  document_total_counts d = total_counts_from d.total_samples_counts d.data_provider d

  abbrev pub set_process : ℕ → AnalysisData → DocumentStorage → DocumentStorage
  set_process process known d = record d {
    analysis_per_process = insert process known d.analysis_per_process;
  }

  abbrev pub process_data : ℕ → DocumentStorage → AnalysisData
  process_data process d = or_else (lookup process d.analysis_per_process) no_analysis

  abbrev pub fresh_analysis : Stacks → AnalysisData
  fresh_analysis stacks = record {
    stacks_analysis = some stacks;
    functions_by_name = none;
    functions_by_samples = [];
  }

  -- `data` is the entry of `analysis_per_process[process_id]`, made if it is missing.
  abbrev pub process_analysis_from :
      ℕ
      → Token
      → Option Stacks
      → Option Provider
      → AnalysisData
      → DocumentStorage
      → Outcome (Stacks × DocumentStorage)
  process_analysis_from process token (some stacks) p known d =
      done (stacks, set_process process known d)
  process_analysis_from process token none none known d = null_provider
  process_analysis_from process token none (some p) known d =
      let stacks = analyze_stacks p process d.filter token in
      done (stacks, set_process process (fresh_analysis stacks) d)

  unfoldable pub get_process_analysis :
      ℕ → Token → DocumentStorage → Outcome (Stacks × DocumentStorage)
  get_process_analysis process token d =
      let known = process_data process d in
      process_analysis_from process token known.stacks_analysis d.data_provider known d

  -- The comparisons given to `std::ranges::sort`.
  abbrev pub by_hits : Stacks → (ℕ → ℕ) → ℕ → ℕ → Bool
  by_hits stacks hits lhs rhs =
      ltb (hits lhs) (hits rhs) || (hits lhs == hits rhs && name_less stacks lhs rhs)

  unfoldable pub sorted_by : SortByKind → Stacks → List ℕ
  sorted_by sort_by_name stacks = sort (name_less stacks) (all_functions stacks)
  sorted_by (sort_by_samples source total) stacks =
      sort (by_hits stacks (total_hits stacks source)) (all_functions stacks)
  sorted_by (sort_by_samples source self) stacks =
      sort (by_hits stacks (self_hits stacks source)) (all_functions stacks)

  abbrev pub source_data : ℕ → AnalysisData → SampleSortData
  source_data source known = or_else (lookup source known.functions_by_samples) no_sort_data

  unfoldable pub saved_order : SortByKind → AnalysisData → Option (List ℕ)
  saved_order sort_by_name known = known.functions_by_name
  saved_order (sort_by_samples source self) known = (source_data source known).by_self_samples
  saved_order (sort_by_samples source total) known = (source_data source known).by_total_samples

  unfoldable pub save_order : SortByKind → List ℕ → AnalysisData → AnalysisData
  save_order sort_by_name order known = record known { functions_by_name = some order }
  save_order (sort_by_samples source self) order known = record known {
    functions_by_samples =
        insert source (set_self order (source_data source known)) known.functions_by_samples;
  }
  save_order (sort_by_samples source total) order known = record known {
    functions_by_samples =
        insert source (set_total order (source_data source known)) known.functions_by_samples;
  }

  abbrev pub sorted_functions_from :
      ℕ
      → SortByKind
      → Option (List ℕ)
      → Stacks
      → DocumentStorage
      → Outcome (List ℕ × DocumentStorage)
  sorted_functions_from process sort_by (some order) stacks d =
      done (order, set_process process (process_data process d) d)
  sorted_functions_from process sort_by none stacks d =
      let order = sorted_by sort_by stacks in
      done (order, set_process process (save_order sort_by order (process_data process d)) d)

  abbrev pub sorted_functions_of :
      ℕ → SortByKind → Stacks × DocumentStorage → Outcome (List ℕ × DocumentStorage)
  sorted_functions_of process sort_by (stacks, d) =
      sorted_functions_from process sort_by (saved_order sort_by (process_data process d)) stacks d

  unfoldable pub get_sorted_functions :
      ℕ → SortByKind → Token → DocumentStorage → Outcome (List ℕ × DocumentStorage)
  get_sorted_functions process sort_by token d =
      get_process_analysis process token d >>= sorted_functions_of process sort_by
