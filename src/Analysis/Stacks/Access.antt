-- ===== src/Analysis/Stacks/Access.antt =====
-- The accessors of `stacks_analysis` in snail/analysis/analysis.cpp. `at` throws where there is no
-- element, which is `none` here.
use snail_server.Common.{ℕ, List, Option, some, ◌==◌, if◌then◌else◌, get_elem?}
use snail_server.Analysis.Stacks.{ModuleInfo, FunctionInfo, FileInfo}
use snail_server.Analysis.Stacks.CallTree.{CallTreeNode}
use snail_server.Analysis.Stacks.Analyze.{StacksAnalysis}

module _ {max_source_id : ℕ} (a : StacksAnalysis max_source_id) where
  unfoldable pub get_module : ℕ → Option ModuleInfo
  get_module id = get_elem? a.tables.modules.items id

  abbrev pub get_function_root : FunctionInfo
  get_function_root = a.function_root

  unfoldable pub get_function : ℕ → Option FunctionInfo
  get_function id =
      if id == a.function_root.id
      then some a.function_root
      else get_elem? a.tables.functions.items id

  abbrev pub all_functions : List FunctionInfo
  all_functions = a.tables.functions.items

  abbrev pub all_modules : List ModuleInfo
  all_modules = a.tables.modules.items

  abbrev pub all_files : List FileInfo
  all_files = a.tables.files.items

  unfoldable pub get_file : ℕ → Option FileInfo
  get_file id = get_elem? a.tables.files.items id

  abbrev pub get_call_tree_root : CallTreeNode
  get_call_tree_root = a.call_tree.root

  unfoldable pub get_call_tree_node : ℕ → Option CallTreeNode
  get_call_tree_node id =
      if id == a.call_tree.root.id then some a.call_tree.root else get_elem? a.call_tree.nodes id
