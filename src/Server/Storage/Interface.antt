-- ===== src/Server/Storage/Interface.antt =====
-- What snail/server/detail/storage.cpp uses of snail/analysis and of the standard library.
use snail_server.Common.{ℕ, Bool, List, Option}

pub record Library : Type 1 where
  pub FilePath : Type 0
  pub Options : Type 0
  pub PathMap : Type 0
  pub Provider : Type 0
  pub Filter : Type 0
  -- How far a request gets before its cancellation token is set.
  pub Token : Type 0
  pub Stacks : Type 0
  pub no_filter : Filter
  pub same_filter : Filter → Filter → Bool
  -- `make_data_provider` and `process`: nothing when one of them throws.
  pub make_provider : Options → PathMap → FilePath → Option Provider
  pub sample_sources : Provider → List ℕ
  pub sampling_processes : Provider → List ℕ
  pub count_samples : Provider → ℕ → ℕ → Filter → ℕ
  pub never : Token
  pub analyze_stacks : Provider → ℕ → Filter → Token → Stacks
  pub all_functions : Stacks → List ℕ
  pub name_less : Stacks → ℕ → ℕ → Bool
  pub total_hits : Stacks → ℕ → ℕ → ℕ
  pub self_hits : Stacks → ℕ → ℕ → ℕ
  -- `std::ranges::sort`.
  pub sort : (ℕ → ℕ → Bool) → List ℕ → List ℕ
