-- ===== src/Analysis/Stacks/Linked/Resolved.antt =====
-- The accessors find what the ids of an analysis name.
use snail_server.Common.{
  get_elem?, get_elem?-below, length, false, sym, ◌<◌, ◌^◌, All, All-weaken, ℕ, ◌≡◌, refl, List,
  Option, some, arith, inl, inr, ◌==◌,
}
use snail_server.Common.AssocMap.{lookup}
use snail_server.Analysis.Stacks.Names.{find_name}
use snail_server.Analysis.Stacks.{ModuleInfo, FunctionInfo, FileInfo}
use snail_server.Analysis.Stacks.Analyze.{Sample, StacksAnalysis, no_stacks, analyze_stacks}
use snail_server.Analysis.Stacks.Access.{get_module, get_function, get_file, all_functions}
use snail_server.Analysis.Stacks.Runs.{kept_by_analysis}
use snail_server.Analysis.Stacks.Indexed.{AreIndexed}
use snail_server.Analysis.Stacks.Indexed.Results.{analyze_stacks-AreIndexed}
use snail_server.Analysis.Stacks.Linked.{Sizes, AreKnown, IsCaller, IsLinked}
use snail_server.Analysis.Stacks.Linked.Samples.{IsResolving, add_sample-IsResolving}

module _ (max_source_id : ℕ) where
  pub no_stacks-IsResolving :
      IsResolving max_source_id
        (record { modules = 0; functions = 0; files = 0 })
        (no_stacks max_source_id)
  unfolding find_name lookup
  no_stacks-IsResolving = record {
    tables_linked = record {
      modules_sized = record { sized = refl; found = λ name id e. absurd (ground arith) };
      functions_sized = record { sized = refl; found = λ name id e. absurd (ground arith) };
      files_sized = record { sized = refl; found = λ name id e. absurd (ground arith) };
      functions_linked = tt;
    };
    nodes_linked = tt;
    root_id_fixed = refl;
    root_calling = λ key hits e. absurd (cc e);
  }

  -- Under an id stands the function with that id, or the root with its own.
  abbrev pub IsFound : StacksAnalysis max_source_id → ℕ → Type 0
  IsFound a key = (f : FunctionInfo) × (get_function a key ≡ some f) × (f.id ≡ key)

  -- The same for an id of a function that is not the root.
  abbrev pub IsListed : StacksAnalysis max_source_id → ℕ → Type 0
  IsListed a key =
      (f : FunctionInfo) × (get_function a key ≡ some f)
      × (get_elem? (all_functions a) key ≡ some f)
      × (f.id ≡ key)

  -- The ids that a function holds are those of a module, a file, and functions or the root.
  pub record IsResolved (a : StacksAnalysis max_source_id) (g : FunctionInfo) : Type 0 where
    pub has_module : (m : ModuleInfo) × (get_module a g.module_id ≡ some m) × (m.id ≡ g.module_id)
    pub has_file :
        (file : ℕ)
        → g.file_id ≡ some file
        → (f : FileInfo) × (get_file a file ≡ some f) × (f.id ≡ file)
    pub has_callers : AreKnown (IsFound a) g.callers
    pub has_callees : AreKnown (IsListed a) g.callees

  pub record AreResolved (a : StacksAnalysis max_source_id) : Type 0 where
    pub functions_resolved : All (IsResolved a) (all_functions a)
    pub nodes_resolved : All (λ node. IsListed a node.function_id) a.call_tree.nodes
    pub root_resolved : AreKnown (IsListed a) a.function_root.callees

  module _ (a : StacksAnalysis max_source_id) (b : Sizes) (x : IsResolving max_source_id b a)
      (y : AreIndexed max_source_id a.tables) (few : length (all_functions a) < 2 ^ 32) where
    get_function-IsListed : (key : ℕ) → key < b.functions → IsListed a key
    unfolding get_function
    get_function-IsListed key l =
        let inside : key < length (all_functions a) =
          omega (arith, x.tables_linked.functions_sized.sized) in
        let (f, g) = get_elem?-below (all_functions a) key inside in
        let other : (key == a.function_root.id) ≡ false = ground (arith, x.root_id_fixed) in
        (f, rw other g, g, (y.functions_indexed.stored key f g).0)

    get_function-IsFound : (key : ℕ) → IsCaller a.function_root.id b key → IsFound a key
    unfolding get_function
    get_function-IsFound key (inr o) = (a.function_root, ground (arith, o), sym o)
    get_function-IsFound key (inl l) = let (f, g, h, e) = get_function-IsListed key l in (f, g, e)

    IsLinked-IsResolved : (g : FunctionInfo) → IsLinked a.function_root.id b g → IsResolved a g
    unfolding get_module get_file
    IsLinked-IsResolved g l = record {
      has_module =
          let (m, e) =
            get_elem?-below a.tables.modules.items g.module_id
              (omega (arith, l.in_module, x.tables_linked.modules_sized.sized)) in
          (m, e, (y.modules_indexed.stored g.module_id m e).0);
      has_file = λ file o.
          let (f, e) =
            get_elem?-below a.tables.files.items file
              (omega (arith, l.in_file file o, x.tables_linked.files_sized.sized)) in
          (f, e, (y.files_indexed.stored file f e).0);
      has_callers = λ key hits e. get_function-IsFound key (l.called_by key hits e);
      has_callees = λ key hits e. get_function-IsListed key (l.calling key hits e);
    }

  -- After the samples of any sources, also where the token is set on the way, as long as there are less than
  -- 2 ^ 32 functions, the accessors find what the ids in the analysis name, each thing with that id: the
  -- module, the file and the callers of every function, where the root is a caller; and, each a function
  -- and not the root, the callees of every function and of the root, and the function of every node of the
  -- call tree.
  pub analyze_stacks-AreResolved :
      (sources : List (ℕ × List (Sample max_source_id))) (token : Option ℕ)
      → length (all_functions (analyze_stacks max_source_id sources token)) < 2 ^ 32
      → AreResolved (analyze_stacks max_source_id sources token)
  analyze_stacks-AreResolved sources token few =
      let a = analyze_stacks max_source_id sources token in
      let (b, x) =
        kept_by_analysis max_source_id (λ a. (b : Sizes) × IsResolving max_source_id b a)
          (add_sample-IsResolving max_source_id) sources token (_, no_stacks-IsResolving) in
      let y = analyze_stacks-AreIndexed max_source_id sources token in
      record {
        functions_resolved =
            All-weaken _ (IsResolved a) (all_functions a) (IsLinked-IsResolved a b x y few)
              x.tables_linked.functions_linked;
        nodes_resolved =
            All-weaken _ (λ node. IsListed a node.function_id) a.call_tree.nodes
              (λ node l. get_function-IsListed a b x y few node.function_id l) x.nodes_linked;
        root_resolved =
            λ key hits e. get_function-IsListed a b x y few key (x.root_calling key hits e);
      }
