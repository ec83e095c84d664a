-- ===== src/Analysis/Stacks/Analyze.antt =====
-- `analyze_stacks` of snail/analysis/analysis.cpp: what a sample adds to an analysis.
use snail_server.Common.{
  ℕ, zero, suc, ◌-◌, ◌^◌, Bool, true, false, List, [], ◌∷◌, Option, none, some,
}
use snail_server.Text.Codes.{codes}
use snail_server.Analysis.Stacks.Names.{Table}
use snail_server.Analysis.Stacks.{
  HitCounts, ModuleInfo, FunctionInfo, FileInfo, init_hits, new_function, Frame, Tables, no_tables,
  enter_frame,
}
use snail_server.Analysis.Stacks.CallTree.{
  add_total, add_self, count_hit, count_hit_at, update_at, CallTree, update_node,
  get_or_append_call_tree_child,
}

abbrev pub update_items : {K I : Type 0} → (I → I) → ℕ → Table K I → Table K I
update_items f i t = record t { items = update_at f i t.items }

abbrev pub or_set : Option ℕ → ℕ → Option ℕ
or_set none new = some new
or_set (some old) new = some old

module _ (max_source_id : ℕ) where
  pub record StackFrame : Type 0 where
    pub names : Frame max_source_id
    pub function_line_number : ℕ
    pub instruction_line_number : ℕ

  -- A sample has a stack, here from the bottom up (`reversed_stack`), or a single frame, or neither.
  pub data Sample : Type 0 where
    with_stack : List StackFrame → Sample
    with_frame : StackFrame → Sample
    with_neither : Sample

  pub record StacksAnalysis : Type 0 where
    pub tables : Tables max_source_id
    pub function_root : FunctionInfo
    pub call_tree : CallTree

  -- The ids of the frame before: its node, module, function, file and line.
  pub record Previous : Type 0 where
    pub node_id : ℕ
    pub module_id : ℕ
    pub function_id : ℕ
    pub file_id : Option ℕ
    pub line_number : ℕ

  abbrev pub hit_module : (HitCounts → HitCounts) → ℕ → ModuleInfo → ModuleInfo
  hit_module f source m = record m { hits = count_hit f source m.hits }

  abbrev pub hit_function : (HitCounts → HitCounts) → ℕ → FunctionInfo → FunctionInfo
  hit_function f source m = record m { hits = count_hit f source m.hits }

  abbrev pub hit_file_info : (HitCounts → HitCounts) → ℕ → FileInfo → FileInfo
  hit_file_info f source m = record m { hits = count_hit f source m.hits }

  abbrev pub on_functions :
      (FunctionInfo → FunctionInfo) → ℕ → Tables max_source_id → Tables max_source_id
  on_functions f i t = record t { functions = update_items f i t.functions }

  -- Hits of the module, the function and, if there is one, the file.
  abbrev pub hit_file :
      (HitCounts → HitCounts) → ℕ → Option ℕ → Tables max_source_id → Tables max_source_id
  hit_file f source none t = t
  hit_file f source (some file) t = record t {
    files = update_items (hit_file_info f source) file t.files;
  }

  abbrev pub hit_names :
      (HitCounts → HitCounts) → ℕ → ℕ → ℕ → Option ℕ → Tables max_source_id → Tables max_source_id
  hit_names f source module_id function_id file_id t = hit_file f source file_id (
      on_functions (hit_function f source) function_id
        (record t { modules = update_items (hit_module f source) module_id t.modules }))

  -- The file and the lines of a function, for a frame that has a file.
  abbrev pub place_function :
      (HitCounts → HitCounts)
      → ℕ
      → StackFrame
      → ℕ
      → Option ℕ
      → Tables max_source_id
      → Tables max_source_id
  place_function f source frame function_id none t = t
  place_function f source frame function_id (some file) t =
      on_functions
        (λ g. record g {
          file_id = or_set g.file_id file;
          line_number = or_set g.line_number frame.function_line_number;
          hits_by_line = count_hit_at f frame.instruction_line_number source g.hits_by_line;
        })
        function_id t

  abbrev pub call_to : ℕ → ℕ → FunctionInfo → FunctionInfo
  call_to source callee g = record g { callees = count_hit_at add_total callee source g.callees }

  abbrev pub call_from : ℕ → ℕ → FunctionInfo → FunctionInfo
  call_from source caller g = record g { callers = count_hit_at add_total caller source g.callers }

  -- Caller and callee count each other; the first function of a stack is called by the root.
  abbrev pub count_call : ℕ → Option Previous → ℕ → StacksAnalysis → StacksAnalysis
  count_call source none callee a = record a {
    function_root = call_to source callee a.function_root;
    tables = on_functions (call_from source a.function_root.id) callee a.tables;
  }
  count_call source (some previous) callee a = record a {
    tables =
        on_functions (call_from source previous.function_id) callee
          (on_functions (call_to source callee) previous.function_id a.tables);
  }

  abbrev pub node_before : Option Previous → Option ℕ
  node_before none = none
  node_before (some previous) = some previous.node_id

  -- One round of the loop over a stack.
  unfoldable pub add_stack_frame :
      ℕ → StackFrame → Option Previous → StacksAnalysis → Previous × StacksAnalysis
  add_stack_frame source frame previous a =
      let (ids, tables) = enter_frame max_source_id frame.names a.tables in
      let (module_id, function_id, file_id) = ids in
      let (node_id, tree) =
        get_or_append_call_tree_child max_source_id (node_before previous) function_id
          a.call_tree in
      let counted = record a {
        tables = hit_names add_total source module_id function_id file_id tables;
        call_tree =
            update_node (λ n. record n { hits = count_hit add_total source n.hits }) (some node_id)
              tree;
      } in
      let called = count_call source previous function_id counted in
      (
        record {
          node_id = node_id;
          module_id = module_id;
          function_id = function_id;
          file_id = file_id;
          line_number = frame.instruction_line_number;
        },
        record called {
          tables = place_function add_total source frame function_id file_id called.tables;
        },
      )

  unfoldable pub add_stack :
      ℕ → List StackFrame → Option Previous → StacksAnalysis → Option Previous × StacksAnalysis
  add_stack source [] previous a = (previous, a)
  add_stack source (frame ∷ frames) previous a =
      let (last, a') = add_stack_frame source frame previous a in
      add_stack source frames (some last) a'

  abbrev pub self_line : ℕ → Option ℕ → ℕ → FunctionInfo → FunctionInfo
  self_line source none line g = g
  self_line source (some file) line g = record g {
    hits_by_line = count_hit_at add_self line source g.hits_by_line;
  }

  -- The top of a stack has the self hits.
  unfoldable pub add_self_hits : ℕ → Option Previous → StacksAnalysis → StacksAnalysis
  add_self_hits source none a = record a {
    function_root = hit_function add_self source a.function_root;
    call_tree =
        update_node (λ n. record n { hits = count_hit add_self source n.hits }) none a.call_tree;
  }
  add_self_hits source (some p) a = record a {
    tables =
        on_functions (self_line source p.file_id p.line_number) p.function_id
          (hit_names add_self source p.module_id p.function_id p.file_id a.tables);
    call_tree =
        update_node (λ n. record n { hits = count_hit add_self source n.hits }) (some p.node_id)
          a.call_tree;
  }

  unfoldable pub add_sample : ℕ → Sample → StacksAnalysis → StacksAnalysis
  add_sample source (with_stack frames) a =
      let counted = record a {
        function_root = hit_function add_total source a.function_root;
        call_tree =
            update_node (λ n. record n { hits = count_hit add_total source n.hits }) none
              a.call_tree;
      } in
      let (last, a') = add_stack source frames none counted in add_self_hits source last a'
  add_sample source (with_frame frame) a =
      let (ids, tables) = enter_frame max_source_id frame.names a.tables in
      let (module_id, function_id, file_id) = ids in
      let totals = hit_names add_total source module_id function_id file_id tables in
      let selfs = hit_names add_self source module_id function_id file_id totals in
      record a {
        tables =
            place_function (λ h. add_self (add_total h)) source frame function_id file_id selfs;
      }
  add_sample source with_neither a = a

  -- The loop over the samples of one source. The token is set after a number of samples, or never;
  -- what is left of it tells whether the loop was left.
  unfoldable pub add_samples :
      ℕ → List Sample → Option ℕ → StacksAnalysis → Bool × Option ℕ × StacksAnalysis
  add_samples source [] token a = (false, token, a)
  add_samples source (sample ∷ samples) none a =
      add_samples source samples none (add_sample source sample a)
  add_samples source (sample ∷ samples) (some zero) a = (true, some zero, a)
  add_samples source (sample ∷ samples) (some (suc n)) a =
      add_samples source samples (some n) (add_sample source sample a)

  abbrev pub all_samples :
      (ℕ → List Sample → Option ℕ → StacksAnalysis → Bool × Option ℕ × StacksAnalysis)
      → List (ℕ × List Sample)
      → Bool × Option ℕ × StacksAnalysis
      → StacksAnalysis
  all_samples add sources (true, token, a) = a
  all_samples add [] (false, token, a) = a
  all_samples add ((source, samples) ∷ sources) (false, token, a) =
      all_samples add sources (add source samples token a)

  -- The ids of the two roots are the greatest `std::uint32_t`, the module of the root is
  -- `std::size_t(-1)`.
  abbrev pub no_stacks : StacksAnalysis
  no_stacks = record {
    tables = no_tables max_source_id;
    function_root = new_function max_source_id (2 ^ 64 - 1) (codes "root") (2 ^ 32 - 1);
    call_tree = record {
      root = record {
        id = 2 ^ 32 - 1;
        function_id = 2 ^ 32 - 1;
        hits = init_hits max_source_id;
        children = [];
      };
      nodes = [];
    };
  }

  -- The samples of the process that pass the filter, by source.
  unfoldable pub analyze_stacks : List (ℕ × List Sample) → Option ℕ → StacksAnalysis
  analyze_stacks sources token = all_samples add_samples sources (false, token, no_stacks)
