-- ===== src/Server/Storage.antt =====
-- snail/server/detail/storage.{hpp,cpp}: the open documents and the results kept for them.
pub mod Interface
pub mod Page
pub mod Document
pub mod Coherent
pub mod Tidy
pub mod Answers
pub mod Examples
use snail_server.Common.{ℕ, ◌+◌, ◌%◌, ◌^◌, Bool, List, [], Option, none, some, if◌then◌else◌}
use snail_server.Common.AssocMap.{lookup, insert, erase}
use snail_server.Server.Storage.Interface.{Library}
use snail_server.Server.Storage.Page.{page_of}
use snail_server.Server.Storage.Document.{
  SortByKind, Outcome, done, invalid_document_id, not_been_read, read_failed, null_provider, ◌>>=◌,
  DocumentStorage, document_total_counts, get_process_analysis, get_sorted_functions,
}

module _ (l : Library) where
  open l use {FilePath, Options, PathMap, Provider, Filter, Token, Stacks, no_filter, same_filter}
  open l use {make_provider}

  pub record Storage : Type 0 where
    pub options : Options
    pub module_path_map : PathMap
    pub open_documents : List (ℕ × DocumentStorage l)
    pub next_document_id : ℕ

  abbrev pub document_or_throw : Option (DocumentStorage l) → Outcome (DocumentStorage l)
  document_or_throw none = invalid_document_id
  document_or_throw (some d) = done d

  unfoldable pub get_document_storage : ℕ → Storage → Outcome (DocumentStorage l)
  get_document_storage id s = document_or_throw (lookup id s.open_documents)

  unfoldable pub set_document : ℕ → DocumentStorage l → Storage → Storage
  set_document id d s = record s { open_documents = insert id d s.open_documents }

  unfoldable pub create_document : FilePath → Storage → ℕ × Storage
  create_document path s =
      let new_id = s.next_document_id in
      (
        new_id,
        set_document new_id
            (record {
              path = path;
              data_provider = none;
              filter = no_filter;
              total_samples_counts = none;
              analysis_per_process = [];
            })
            (record s { next_document_id = (new_id + 1) % 2 ^ 64 }),
      )

  abbrev pub read_from : ℕ → DocumentStorage l → Storage → Option Provider → Outcome Storage
  read_from id d s none = read_failed
  read_from id d s (some p) = done (set_document id (record d { data_provider = some p }) s)

  abbrev pub read_found : ℕ → Storage → Option (DocumentStorage l) → Outcome Storage
  read_found id s none = done s
  read_found id s (some d) = read_from id d s (make_provider s.options s.module_path_map d.path)

  unfoldable pub read_document : ℕ → Storage → Outcome Storage
  read_document id s = read_found id s (lookup id s.open_documents)

  unfoldable pub close_document : ℕ → Storage → Storage
  close_document id s = record s { open_documents = erase id s.open_documents }

  unfoldable pub get_data : ℕ → Storage → Outcome Provider
  get_data id s = get_document_storage id s >>= λ d. elim d.data_provider [
    | none ↦ not_been_read
    | some p ↦ done p
  ]

  unfoldable pub apply_document_filter : ℕ → Filter → Storage → Outcome Storage
  apply_document_filter id f s = get_document_storage id s >>= λ d.
      if same_filter d.filter f
      then done s
      else done (
          set_document id
            (record d { filter = f; total_samples_counts = none; analysis_per_process = [] }) s)

  unfoldable pub get_document_filter : ℕ → Storage → Outcome Filter
  get_document_filter id s = get_document_storage id s >>= λ d. done d.filter

  -- The answer of a document, and the storage with what the document then keeps.
  abbrev pub with_document {ℓ} :
      {A : Type ℓ} → ℕ → Storage → A × DocumentStorage l → Outcome (A × Storage)
  with_document id s (a, d) = done (a, set_document id d s)

  unfoldable pub get_total_samples_counts : ℕ → Storage → Outcome (List (ℕ × ℕ) × Storage)
  get_total_samples_counts id s =
      get_document_storage id s >>= λ d. document_total_counts l d >>= with_document id s

  unfoldable pub get_stacks_analysis : ℕ → ℕ → Token → Storage → Outcome (Stacks × Storage)
  get_stacks_analysis id process token s = get_document_storage id s >>= λ d.
      get_process_analysis l process token d >>= with_document id s

  -- The page is nothing when the span that is returned reaches past the vector.
  unfoldable pub get_functions_page :
      ℕ → ℕ → SortByKind → Bool → ℕ → ℕ → Token → Storage → Outcome (Option (List ℕ) × Storage)
  get_functions_page id process sort_by reversed page_size page_index token s =
      get_document_storage id s >>= λ d.
      get_sorted_functions l process sort_by token d >>= λ result.
      done (page_of reversed page_size page_index result.0, set_document id result.1 s)
