-- ===== src/Server/Storage/Examples.antt =====
-- A small library of traces, and the storage at work over it.
use snail_server.Common.{
  ℕ, ◌+◌, ◌*◌, ◌≡◌, refl, Bool, true, false, List, [], ◌∷◌, Option, none, some, ◌==◌, ltb,
  if◌then◌else◌, take, arith,
}
use snail_server.Common.AssocMap.{lookup, insert}
use snail_server.Server.Storage.Interface.{Library}
use snail_server.Server.Storage.Document.{
  sort_by_name, done, sorted_by, get_process_analysis, get_sorted_functions, saved_order,
  save_order, DocumentStorage,
}
use snail_server.Server.Storage.Page.{page_of}
use snail_server.Server.Storage.Page.Laws.{page_of-page_at}
use snail_server.Server.Storage.Tidy.{
  create, read, apply_filter, functions_page, Reaches, initially, afterwards,
}
use snail_server.Server.Storage.Answers.{Gives, functions_page_fresh, cancelled_analysis_kept}
use snail_server.Server.Storage.{
  Storage, get_document_storage, set_document, create_document, read_document,
  apply_document_filter, get_stacks_analysis, get_functions_page,
}

place : (ℕ → ℕ → Bool) → ℕ → List ℕ → List ℕ
place less x [] = x ∷ []
place less x (y ∷ ys) = let rest = place less x ys in if less x y then x ∷ y ∷ ys else y ∷ rest

insertion_sort : (ℕ → ℕ → Bool) → List ℕ → List ℕ
insertion_sort less [] = []
insertion_sort less (x ∷ xs) = place less x (insertion_sort less xs)

abbrev reached : Option ℕ → List ℕ → List ℕ
reached none xs = xs
reached (some n) xs = take n xs

-- Every file holds one process with three functions; a filter cuts samples off the counts.
abbrev library : Library
library = record {
  FilePath = ℕ;
  Options = Unit {0};
  PathMap = Unit {0};
  Provider = ℕ;
  Filter = ℕ;
  Token = Option ℕ;
  Stacks = List ℕ;
  no_filter = 0;
  same_filter = λ f g. f == g;
  make_provider = λ o m path. some path;
  sample_sources = λ p. 0 ∷ [];
  sampling_processes = λ p. 5 ∷ [];
  count_samples = λ p source process f. 10 + f;
  never = none;
  analyze_stacks = λ p process f token. reached token ((3 + f) ∷ (1 + f) ∷ (2 + f) ∷ []);
  all_functions = λ stacks. stacks;
  name_less = λ stacks a b. ltb a b;
  total_hits = λ stacks source function. 10 * function;
  self_hits = λ stacks source function. function;
  sort = insertion_sort;
}

abbrev blank : Storage library
blank = record { options = tt; module_path_map = tt; open_documents = []; next_document_id = 0 }

abbrev document : DocumentStorage library
document = record {
  path = 7;
  data_provider = some 7;
  filter = 4;
  total_samples_counts = none;
  analysis_per_process = [];
}

abbrev opened : Storage library
opened = record {
  options = tt;
  module_path_map = tt;
  open_documents = (0, document) ∷ [];
  next_document_id = 1;
}

-- A document is created, read, looked at under the first filter, and filtered.
opened_reached : Reaches library opened
unfolding create_document read_document apply_document_filter get_functions_page set_document
    get_document_storage get_sorted_functions get_process_analysis saved_order save_order sorted_by
    lookup insert
opened_reached =
    afterwards _ _ (apply_filter 0 4)
      (afterwards _ _ (functions_page 0 5 sort_by_name false 2 0)
        (afterwards _ _ (read 0) (afterwards _ _ (create 7) (initially tt tt) tt refl)
          (λ d e. ground arith) refl)
        tt refl)
      tt refl

functions_page_fresh_example :
    Gives library
      (get_functions_page library 0 5 sort_by_name true 2 0 none opened)
      (page_of true 2 0 (sorted_by library sort_by_name (7 ∷ 5 ∷ 6 ∷ [])))
unfolding lookup
functions_page_fresh_example =
    functions_page_fresh library opened 0 5 sort_by_name true 2 0 document 7 opened_reached refl
      refl

cancelled_analysis_kept_example :
    (s : Storage library) × (get_stacks_analysis library 0 5 (some 1) opened ≡ done (7 ∷ [], s))
    × Gives library (get_stacks_analysis library 0 5 none s) (7 ∷ [])
unfolding lookup
cancelled_analysis_kept_example =
    cancelled_analysis_kept library opened 0 5 (some 1) document 7 refl refl refl

abbrev items : List ℕ
items = 4 ∷ 5 ∷ 6 ∷ []

page_of-page_at_example : page_of true 2 1 items ≡ some (4 ∷ [])
page_of-page_at_example = page_of-page_at true 2 1 items (omega arith) (omega arith) (omega arith)
