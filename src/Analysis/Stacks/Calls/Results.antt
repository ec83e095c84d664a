-- ===== src/Analysis/Stacks/Calls/Results.antt =====
-- Callers and callees after any samples.
use snail_server.Common.{
  ℕ, ◌==◌, ◌<◌, refl, List, [], ◌∷◌, Option, none, some, arith, Bool-cases, inl, inr,
}
use snail_server.Common.AssocMap.{lookup}
use snail_server.Analysis.Stacks.Names.{find_name}
use snail_server.Analysis.Stacks.{enter_frame}
use snail_server.Analysis.Stacks.CallTree.{add_total, add_self, get_or_append_call_tree_child}
use snail_server.Analysis.Stacks.Analyze.{
  StackFrame, Sample, with_stack, with_frame, with_neither, StacksAnalysis, Previous, node_before,
  hit_names, count_call, add_stack_frame, add_stack, add_self_hits, add_sample, no_stacks,
  analyze_stacks,
}
use snail_server.Analysis.Stacks.Runs.{kept_by_analysis}
use snail_server.Analysis.Stacks.Hits.{hit_place}
use snail_server.Analysis.Stacks.Calls.{AreMutual}
use snail_server.Analysis.Stacks.Calls.Steps.{
  HasFunction, HasFunction-mono, AreCalling, hit_names-IsCalling, place_function-IsCalling,
  self_line-IsCalling, entered, count_call-AreCalling,
}

module _ (max_source_id : ℕ) where
  add_stack_frame-AreCalling :
      (source : ℕ) (frame : StackFrame max_source_id) (previous : Option (Previous max_source_id))
      (n : ℕ) (a : StacksAnalysis max_source_id)
      → HasFunction previous n
      → AreCalling max_source_id n a
      → (m : ℕ) × ((add_stack_frame max_source_id source frame previous a).0.function_id < m)
        × AreCalling max_source_id m (add_stack_frame max_source_id source frame previous a).1
  unfolding add_stack_frame
  add_stack_frame-AreCalling source frame previous n a h x =
      let (m, le, lt, y) = entered max_source_id frame.names n a.function_root a.tables x in
      let (ids, tables) = enter_frame max_source_id frame.names a.tables in
      let (node_id, tree) =
        get_or_append_call_tree_child max_source_id (node_before max_source_id previous) ids.1
          a.call_tree in
      let counted = record a {
        tables = hit_names max_source_id add_total source ids.0 ids.1 ids.2 tables;
        call_tree = hit_place add_total source (some node_id) tree;
      } in
      let called = count_call max_source_id source previous ids.1 counted in
      let hit =
        hit_names-IsCalling max_source_id add_total source ids.0 ids.1 m ids.2 a.function_root
          tables y in
      let counts =
        count_call-AreCalling max_source_id source previous ids.1 m counted
          (HasFunction-mono previous n m le h) lt hit in
      (
        m,
        lt,
        place_function-IsCalling max_source_id add_total source frame ids.1 m ids.2
            called.function_root called.tables counts,
      )

  add_stack-AreCalling :
      (source : ℕ) (frames : List (StackFrame max_source_id))
      (previous : Option (Previous max_source_id)) (n : ℕ) (a : StacksAnalysis max_source_id)
      → HasFunction previous n
      → AreCalling max_source_id n a
      → (m : ℕ) × AreCalling max_source_id m (add_stack max_source_id source frames previous a).1
  unfolding add_stack
  add_stack-AreCalling source [] previous n a h x = (n, x)
  add_stack-AreCalling source (frame ∷ frames) previous n a h x =
      let (m, lt, y) = add_stack_frame-AreCalling source frame previous n a h x in
      let r = add_stack_frame max_source_id source frame previous a in
      add_stack-AreCalling source frames (some r.0) m r.1 lt y

  add_self_hits-AreCalling :
      (source : ℕ) (last : Option (Previous max_source_id)) (n : ℕ)
      (a : StacksAnalysis max_source_id)
      → AreCalling max_source_id n a
      → AreCalling max_source_id n (add_self_hits max_source_id source last a)
  unfolding add_self_hits
  add_self_hits-AreCalling source none n a x = record {
    mutual_calls = x.mutual_calls;
    functions_sized = x.functions_sized;
  }
  add_self_hits-AreCalling source (some p) n a x =
      self_line-IsCalling max_source_id source p.line_number p.function_id n p.file_id
        a.function_root _
        (hit_names-IsCalling max_source_id add_self source p.module_id p.function_id n p.file_id
          a.function_root a.tables x)

  add_sample-AreCalling :
      (source : ℕ) (sample : Sample max_source_id) (n : ℕ) (a : StacksAnalysis max_source_id)
      → AreCalling max_source_id n a
      → (m : ℕ) × AreCalling max_source_id m (add_sample max_source_id source sample a)
  unfolding add_sample
  add_sample-AreCalling source (with_stack frames) n a x =
      let (m, y) =
        add_stack-AreCalling source frames none n _ tt
          (record { mutual_calls = x.mutual_calls; functions_sized = x.functions_sized }) in
      (m, add_self_hits-AreCalling source _ m _ y)
  add_sample-AreCalling source (with_frame frame) n a x =
      let (m, le, lt, y) = entered max_source_id frame.names n a.function_root a.tables x in
      let (ids, tables) = enter_frame max_source_id frame.names a.tables in
      (
        m,
        place_function-IsCalling max_source_id _ source frame ids.1 m ids.2 a.function_root _ (
            hit_names-IsCalling max_source_id add_self source ids.0 ids.1 m ids.2 a.function_root _
              (hit_names-IsCalling max_source_id add_total source ids.0 ids.1 m ids.2
                a.function_root tables y)),
      )
  add_sample-AreCalling source with_neither n a x = (n, x)

  no_stacks-AreCalling : AreCalling max_source_id 0 (no_stacks max_source_id)
  unfolding find_name lookup
  no_stacks-AreCalling = record {
    mutual_calls = λ s j key.
        elim (Bool-cases ((no_stacks max_source_id).function_root.id == key)) [
          | inl b ↦ rw b refl
          | inr b ↦ rw b refl
        ];
    functions_sized = record { sized = refl; found = λ name id e. absurd (ground arith) };
  }

-- After the samples of any sources, also where the token is set on the way: for every source, each
-- function has as many calls from each of its callers as that caller, or the root under its id, has
-- calls to it.
pub analyze_stacks-AreMutual :
    (max_source_id : ℕ) (sources : List (ℕ × List (Sample max_source_id))) (token : Option ℕ)
    → AreMutual
        (analyze_stacks max_source_id sources token).function_root
        (analyze_stacks max_source_id sources token).tables.functions.items
analyze_stacks-AreMutual max_source_id sources token =
    (kept_by_analysis max_source_id (λ a. (n : ℕ) × AreCalling max_source_id n a)
      (λ source sample a x. add_sample-AreCalling max_source_id source sample x.0 a x.1) sources
      token (0, no_stacks-AreCalling max_source_id)).1.mutual_calls
