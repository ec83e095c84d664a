-- ===== src/Analysis/Stacks/Indexed/Results.antt =====
-- The tables after any samples.
use snail_server.Common.{ℕ, List, [], ◌∷◌, Option, none, some, arith}
use snail_server.Analysis.Stacks.Names.{find_name}
use snail_server.Analysis.Stacks.{enter_frame}
use snail_server.Analysis.Stacks.CallTree.{add_total, add_self}
use snail_server.Analysis.Stacks.Analyze.{
  StackFrame, Sample, with_stack, with_frame, with_neither, StacksAnalysis, Previous,
  add_stack_frame, add_stack, add_self_hits, add_sample, analyze_stacks,
}
use snail_server.Analysis.Stacks.Runs.{kept_by_analysis}
use snail_server.Analysis.Stacks.Indexed.{
  AreIndexed, enter_frame-AreIndexed, hit_names-AreIndexed, place_function-AreIndexed,
  self_line-AreIndexed, count_call-AreIndexed,
}

module _ (max_source_id : ℕ) where
  add_stack_frame-AreIndexed :
      (source : ℕ) (frame : StackFrame max_source_id) (previous : Option (Previous max_source_id))
      (a : StacksAnalysis max_source_id)
      → AreIndexed max_source_id a.tables
      → AreIndexed max_source_id (add_stack_frame max_source_id source frame previous a).1.tables
  unfolding add_stack_frame
  add_stack_frame-AreIndexed source frame previous a x =
      let (ids, tables) = enter_frame max_source_id frame.names a.tables in
      place_function-AreIndexed max_source_id add_total source frame ids.1 ids.2 _ (
        count_call-AreIndexed max_source_id source previous ids.1 _ (
          hit_names-AreIndexed max_source_id add_total source ids.0 ids.1 ids.2 tables
            (enter_frame-AreIndexed max_source_id frame.names a.tables x)))

  add_stack-AreIndexed :
      (source : ℕ) (frames : List (StackFrame max_source_id))
      (previous : Option (Previous max_source_id)) (a : StacksAnalysis max_source_id)
      → AreIndexed max_source_id a.tables
      → AreIndexed max_source_id (add_stack max_source_id source frames previous a).1.tables
  unfolding add_stack
  add_stack-AreIndexed source [] previous a x = x
  add_stack-AreIndexed source (frame ∷ frames) previous a x =
      let r = add_stack_frame max_source_id source frame previous a in
      add_stack-AreIndexed source frames (some r.0) r.1
        (add_stack_frame-AreIndexed source frame previous a x)

  add_self_hits-AreIndexed :
      (source : ℕ) (last : Option (Previous max_source_id)) (a : StacksAnalysis max_source_id)
      → AreIndexed max_source_id a.tables
      → AreIndexed max_source_id (add_self_hits max_source_id source last a).tables
  unfolding add_self_hits
  add_self_hits-AreIndexed source none a x = x
  add_self_hits-AreIndexed source (some p) a x =
      self_line-AreIndexed max_source_id source p.line_number p.function_id p.file_id _ (
        hit_names-AreIndexed max_source_id add_self source p.module_id p.function_id p.file_id
          a.tables x)

  add_sample-AreIndexed :
      (source : ℕ) (sample : Sample max_source_id) (a : StacksAnalysis max_source_id)
      → AreIndexed max_source_id a.tables
      → AreIndexed max_source_id (add_sample max_source_id source sample a).tables
  unfolding add_sample
  add_sample-AreIndexed source (with_stack frames) a x =
      add_self_hits-AreIndexed source _ _ (add_stack-AreIndexed source frames none _ x)
  add_sample-AreIndexed source (with_frame frame) a x =
      let (ids, tables) = enter_frame max_source_id frame.names a.tables in
      place_function-AreIndexed max_source_id _ source frame ids.1 ids.2 _ (
        hit_names-AreIndexed max_source_id add_self source ids.0 ids.1 ids.2 _ (
          hit_names-AreIndexed max_source_id add_total source ids.0 ids.1 ids.2 tables
            (enter_frame-AreIndexed max_source_id frame.names a.tables x)))
  add_sample-AreIndexed source with_neither a x = x

  -- After the samples of any sources, also where the token is set on the way, every module, function and
  -- file stands in its vector at its id, and the maps lead from its name there: no name (of a module, of
  -- a function in a module, of a file) occurs twice.
  pub analyze_stacks-AreIndexed :
      (sources : List (ℕ × List (Sample max_source_id))) (token : Option ℕ)
      → AreIndexed max_source_id (analyze_stacks max_source_id sources token).tables
  unfolding find_name
  analyze_stacks-AreIndexed sources token =
      kept_by_analysis max_source_id (λ a. AreIndexed max_source_id a.tables) add_sample-AreIndexed
        sources token
        (record {
          modules_indexed = record {
            found = λ n i e. absurd (ground arith);
            stored = λ i m e. absurd (ground arith);
          };
          functions_indexed = record {
            found = λ n i e. absurd (ground arith);
            stored = λ i m e. absurd (ground arith);
          };
          files_indexed = record {
            found = λ n i e. absurd (ground arith);
            stored = λ i m e. absurd (ground arith);
          };
        })
