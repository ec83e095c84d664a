-- ===== src/Analysis/Stacks/Examples.antt =====
-- Three frames in two modules.
use snail_server.Common.{◌≡◌, refl, List, [], ◌∷◌}
use snail_server.Text.Codes.{Text, codes}
use snail_server.Analysis.Stacks.Names.{get_or_create}
use snail_server.Analysis.Stacks.{Frame}
use snail_server.Analysis.Stacks.{
  no_hits, same_pair, get_or_create_module, get_or_create_function, get_or_create_file, enter_frame,
}
use snail_server.Analysis.Stacks.Names.{find_name}
use snail_server.Analysis.Stacks.CallTree.{
  count_hit, count_hit_at, update_at, find_child, get_or_append_call_tree_child,
}
use snail_server.Analysis.Stacks.Analyze.{
  StackFrame, Sample, with_stack, with_frame, StacksAnalysis, analyze_stacks, add_samples,
  add_sample, add_stack, add_stack_frame, add_self_hits,
}
use snail_server.Common.AssocMap.{lookup, insert}
use snail_server.Common.{arith, map, ℕ, none, ◌<◌, length}
use snail_server.Analysis.Stacks.Trees.{IsReached}
use snail_server.Text.Codes.{equal}
use snail_server.Analysis.Stacks.Balance.Results.{IsSettled, analyze_stacks-IsSettled}
use snail_server.Analysis.Stacks.Balance.Roots.{AreRootHits, stacks_of, analyze_stacks-AreRootHits}
use snail_server.Analysis.Stacks.Indexed.{AreIndexed}
use snail_server.Analysis.Stacks.Indexed.Results.{analyze_stacks-AreIndexed}
use snail_server.Analysis.Stacks.Linked.Resolved.{AreResolved, analyze_stacks-AreResolved}
use snail_server.Analysis.Stacks.Counts.{count_of}
use snail_server.Analysis.Stacks.Selfs.{all_selfs}
use snail_server.Analysis.Stacks.Selfs.Results.{hit_of_sample, analyze_stacks-all_selfs}
use snail_server.Analysis.Stacks.Access.{all_functions}
use snail_server.Analysis.Stacks.Calls.{AreMutual}
use snail_server.Analysis.Stacks.Calls.Results.{analyze_stacks-AreMutual}

abbrev frame : Text → Text → Text → Frame 0
frame m f p = record { module_name = m; symbol_name = f; file_path = p }

-- The source 0 has a sample with a stack of two frames, and one with a single frame.
abbrev line : Frame 0 → ℕ → StackFrame 0
line names n = record { names = names; function_line_number = 1; instruction_line_number = n }

abbrev main_frame : Frame 0
main_frame = frame (codes "app") (codes "main") []

abbrev run_frame : Frame 0
run_frame = frame (codes "app") (codes "run") []

abbrev samples : List (ℕ × List (Sample 0))
samples =
    (0, with_stack (line main_frame 3 ∷ line run_frame 4 ∷ []) ∷ with_frame (line run_frame 4) ∷ [])
    ∷ []

abbrev analyzed : StacksAnalysis 0
analyzed = analyze_stacks 0 samples none

-- The total and self hits of the functions, and the nodes of the tree.
function_hits :
    map (λ f. f.hits) analyzed.tables.functions.items
    ≡ (record { total = 1; self = 0 } ∷ []) ∷ (record { total = 2; self = 2 } ∷ []) ∷ []
unfolding analyze_stacks add_samples add_sample add_stack add_stack_frame add_self_hits count_hit
    update_at count_hit_at lookup insert enter_frame get_or_create_module get_or_create_function
    get_or_create_file get_or_create find_name same_pair equal no_hits get_or_append_call_tree_child
    find_child
function_hits = refl

node_functions : map (λ n. n.function_id) analyzed.call_tree.nodes ≡ 0 ∷ 1 ∷ []
unfolding analyze_stacks add_samples add_sample add_stack add_stack_frame add_self_hits count_hit
    update_at count_hit_at lookup insert enter_frame get_or_create_module get_or_create_function
    get_or_create_file get_or_create find_name same_pair equal no_hits get_or_append_call_tree_child
    find_child
node_functions = refl

analyze_stacks-IsSettled_example :
    IsSettled (analyze_stacks 0 samples none).call_tree
    × ((c : ℕ)
        → c < length (analyze_stacks 0 samples none).call_tree.nodes
        → IsReached (analyze_stacks 0 samples none).call_tree c)
analyze_stacks-IsSettled_example = analyze_stacks-IsSettled 0 samples none

analyze_stacks-AreRootHits_example :
    AreRootHits 0 0 (stacks_of 0 samples) (analyze_stacks 0 samples none)
analyze_stacks-AreRootHits_example = analyze_stacks-AreRootHits 0 samples 0

analyze_stacks-AreMutual_example :
    AreMutual
      (analyze_stacks 0 samples none).function_root
      (analyze_stacks 0 samples none).tables.functions.items
analyze_stacks-AreMutual_example = analyze_stacks-AreMutual 0 samples none

analyze_stacks-AreIndexed_example : AreIndexed 0 (analyze_stacks 0 samples none).tables
analyze_stacks-AreIndexed_example = analyze_stacks-AreIndexed 0 samples none

two_functions : length (all_functions (analyze_stacks 0 samples none)) ≡ 2
unfolding analyze_stacks add_samples add_sample add_stack add_stack_frame add_self_hits count_hit
    update_at count_hit_at lookup insert enter_frame get_or_create_module get_or_create_function
    get_or_create_file get_or_create find_name same_pair equal no_hits get_or_append_call_tree_child
    find_child
two_functions = refl

analyze_stacks-AreResolved_example : AreResolved 0 (analyze_stacks 0 samples none)
analyze_stacks-AreResolved_example =
    analyze_stacks-AreResolved 0 samples none (omega (arith, two_functions))

analyze_stacks-all_selfs_example :
    all_selfs 0 0 (analyze_stacks 0 samples none) ≡ count_of hit_of_sample 0 samples
analyze_stacks-all_selfs_example = analyze_stacks-all_selfs 0 0 samples
