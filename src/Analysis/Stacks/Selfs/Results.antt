-- ===== src/Analysis/Stacks/Selfs/Results.antt =====
-- The self hits after all samples.
use snail_server.Common.{
  ℕ, ◌+◌, ◌≡◌, refl, ◌∙◌, List, [], ◌∷◌, Option, none, some, arith, ◌==◌, if◌then◌else◌,
}
use snail_server.Analysis.Stacks.{enter_frame}
use snail_server.Analysis.Stacks.CallTree.{add_total, add_self, get_or_append_call_tree_child}
use snail_server.Analysis.Stacks.Analyze.{
  StackFrame, Sample, with_stack, with_frame, with_neither, StacksAnalysis, Previous, hit_function,
  node_before, hit_names, count_call, add_stack_frame, add_stack, add_self_hits, add_sample,
  analyze_stacks,
}
use snail_server.Analysis.Stacks.Hits.{
  one_if, self_of-count_hit, self_of-count_hit_total, total_of-no_hits, hit_place,
}
use snail_server.Analysis.Stacks.Counts.{count_of, counted_by_analysis}
use snail_server.Analysis.Stacks.Linked.{Sizes}
use snail_server.Analysis.Stacks.Linked.Tables.{HasFunction, entered}
use snail_server.Analysis.Stacks.Linked.Updates.{hit_names-AreLinked}
use snail_server.Analysis.Stacks.Linked.Samples.{
  IsResolving, add_stack-IsResolving, add_sample-IsResolving,
}
use snail_server.Analysis.Stacks.Linked.Resolved.{no_stacks-IsResolving}
use snail_server.Analysis.Stacks.Selfs.{
  all_selfs, table_selfs-enter_frame, table_selfs-hit_names_total, table_selfs-hit_names_self,
  table_selfs-place_function, table_selfs-self_line, all_selfs-count_call,
}

-- Whether a sample has a stack or a frame.
abbrev pub hit_of_sample : {max_source_id : ℕ} → Sample max_source_id → ℕ
hit_of_sample (with_stack frames) = 1
hit_of_sample (with_frame frame) = 1
hit_of_sample with_neither = 0

module _ (max_source_id s : ℕ) where
  add_stack_frame-all_selfs :
      (source : ℕ) (frame : StackFrame max_source_id) (previous : Option (Previous max_source_id))
      (a : StacksAnalysis max_source_id)
      → all_selfs max_source_id s (add_stack_frame max_source_id source frame previous a).1
        ≡ all_selfs max_source_id s a
  unfolding add_stack_frame
  add_stack_frame-all_selfs source frame previous a =
      let (ids, tables) = enter_frame max_source_id frame.names a.tables in
      let (node_id, tree) =
        get_or_append_call_tree_child max_source_id (node_before max_source_id previous) ids.1
          a.call_tree in
      let counted = record a {
        tables = hit_names max_source_id add_total source ids.0 ids.1 ids.2 tables;
        call_tree = hit_place add_total source (some node_id) tree;
      } in
      let called = count_call max_source_id source previous ids.1 counted in
      omega (
        arith,
        table_selfs-place_function max_source_id s add_total source frame ids.1 ids.2 called.tables,
        all_selfs-count_call max_source_id s source previous ids.1 counted,
        table_selfs-hit_names_total max_source_id s source ids.0 ids.1 ids.2 tables,
        table_selfs-enter_frame max_source_id s frame.names a.tables,
      )

  add_stack-all_selfs :
      (source : ℕ) (frames : List (StackFrame max_source_id))
      (previous : Option (Previous max_source_id)) (a : StacksAnalysis max_source_id)
      → all_selfs max_source_id s (add_stack max_source_id source frames previous a).1
        ≡ all_selfs max_source_id s a
  unfolding add_stack
  add_stack-all_selfs source [] previous a = refl
  add_stack-all_selfs source (frame ∷ frames) previous a =
      let r = add_stack_frame max_source_id source frame previous a in
      add_stack-all_selfs source frames (some r.0) r.1
      ∙ add_stack_frame-all_selfs source frame previous a

  add_self_hits-all_selfs :
      (source : ℕ) (last : Option (Previous max_source_id)) (b : Sizes)
      (a : StacksAnalysis max_source_id)
      → HasFunction last b
      → IsResolving max_source_id b a
      → all_selfs max_source_id s (add_self_hits max_source_id source last a)
        ≡ all_selfs max_source_id s a + one_if (source == s)
  unfolding add_self_hits
  add_self_hits-all_selfs source none b a h x =
      omega (arith, self_of-count_hit source s a.function_root.hits)
  add_self_hits-all_selfs source (some p) b a h x =
      let hit =
        hit_names max_source_id add_self source p.module_id p.function_id p.file_id a.tables in
      let inside = x.tables_linked.functions_sized.sized in
      omega (
        arith,
        table_selfs-self_line max_source_id s source p.line_number p.function_id p.file_id hit,
        table_selfs-hit_names_self max_source_id s source p.module_id p.function_id p.file_id
            a.tables (omega (arith, inside)),
      )

  add_sample-all_selfs :
      (source : ℕ) (sample : Sample max_source_id) (a : StacksAnalysis max_source_id)
      → (b : Sizes) × IsResolving max_source_id b a
      → all_selfs max_source_id s (add_sample max_source_id source sample a)
        ≡ all_selfs max_source_id s a + (if source == s then hit_of_sample sample else 0)
  unfolding add_sample
  add_sample-all_selfs source (with_stack frames) a (b, x) =
      let counted = record a {
        function_root = hit_function max_source_id add_total source a.function_root;
        call_tree = hit_place add_total source none a.call_tree;
      } in
      let r = add_stack max_source_id source frames none counted in
      let (c, last, y) =
        add_stack-IsResolving max_source_id source frames none b counted tt (record {
          tables_linked = x.tables_linked;
          nodes_linked = x.nodes_linked;
          root_id_fixed = x.root_id_fixed;
          root_calling = x.root_calling;
        }) in
      omega (
        arith,
        add_self_hits-all_selfs source r.0 c r.1 last y,
        add_stack-all_selfs source frames none counted,
        self_of-count_hit_total source s a.function_root.hits,
      )
  add_sample-all_selfs source (with_frame frame) a (b, x) =
      let (c, w, lt, file, y) =
        entered max_source_id a.function_root.id frame.names b a.tables x.tables_linked in
      let (ids, tables) = enter_frame max_source_id frame.names a.tables in
      let totals = hit_names max_source_id add_total source ids.0 ids.1 ids.2 tables in
      let inside =
        (hit_names-AreLinked max_source_id a.function_root.id add_total source ids.0 ids.1 ids.2 c
          tables y).functions_sized.sized in
      omega (
        arith,
        table_selfs-place_function max_source_id s (λ h. add_self (add_total h)) source frame ids.1
            ids.2 (hit_names max_source_id add_self source ids.0 ids.1 ids.2 totals),
        table_selfs-hit_names_self max_source_id s source ids.0 ids.1 ids.2 totals
            (omega (arith, lt, inside)),
        table_selfs-hit_names_total max_source_id s source ids.0 ids.1 ids.2 tables,
        table_selfs-enter_frame max_source_id s frame.names a.tables,
      )
  add_sample-all_selfs source with_neither a x = ground arith

  -- Without a token, the self hits of a source in all functions, the root included, are together the
  -- samples of the source that have a stack or a frame.
  pub analyze_stacks-all_selfs :
      (sources : List (ℕ × List (Sample max_source_id)))
      → all_selfs max_source_id s (analyze_stacks max_source_id sources none)
        ≡ count_of hit_of_sample s sources
  analyze_stacks-all_selfs sources =
      let z = total_of-no_hits s (max_source_id + 1) in
      let counted =
        counted_by_analysis max_source_id s hit_of_sample
          (λ a. (b : Sizes) × IsResolving max_source_id b a) (all_selfs max_source_id s)
          (add_sample-IsResolving max_source_id) add_sample-all_selfs sources
          (_, no_stacks-IsResolving max_source_id) in
      omega (arith, z.1, counted)
