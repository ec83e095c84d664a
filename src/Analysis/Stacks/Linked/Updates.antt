-- ===== src/Analysis/Stacks/Linked/Updates.antt =====
-- What each change of the functions keeps of their ids.
use snail_server.Common.{ℕ, ◌<◌, ◌≡◌, Option, none, some, arith}
use snail_server.Analysis.Stacks.{HitCounts, FunctionInfo, text_key, pair_key, Tables}
use snail_server.Analysis.Stacks.Analyze.{
  StackFrame, update_items, hit_function, hit_module, hit_file_info, hit_names, hit_file,
  on_functions, or_set, place_function, self_line, call_to, call_from,
}
use snail_server.Analysis.Stacks.Linked.{
  All-update_at, update_items-IsSized, Sizes, AreKnown-count_hit_at, IsCaller, IsLinked,
}
use snail_server.Analysis.Stacks.Linked.Tables.{AreLinked, IsFile}

module _ (max_source_id root_id : ℕ) where
  on_functions-AreLinked :
      (f : FunctionInfo → FunctionInfo) (i : ℕ) (b : Sizes) (t : Tables max_source_id)
      → ((g : FunctionInfo) → IsLinked root_id b g → IsLinked root_id b (f g))
      → AreLinked root_id b t
      → AreLinked root_id b (on_functions max_source_id f i t)
  on_functions-AreLinked f i b t h x = record {
    modules_sized = x.modules_sized;
    functions_sized = update_items-IsSized pair_key b.functions t.functions f i x.functions_sized;
    files_sized = x.files_sized;
    functions_linked =
        All-update_at (IsLinked root_id b) f i t.functions.items h x.functions_linked;
  }

  hit_file-AreLinked :
      (f : HitCounts → HitCounts) (source : ℕ) (file : Option ℕ) (b : Sizes)
      (t : Tables max_source_id)
      → AreLinked root_id b t
      → AreLinked root_id b (hit_file max_source_id f source file t)
  hit_file-AreLinked f source none b t x = x
  hit_file-AreLinked f source (some file) b t x = record {
    modules_sized = x.modules_sized;
    functions_sized = x.functions_sized;
    files_sized =
        update_items-IsSized text_key b.files t.files (hit_file_info max_source_id f source) file
          x.files_sized;
    functions_linked = x.functions_linked;
  }

  pub hit_names-AreLinked :
      (f : HitCounts → HitCounts) (source module_id function_id : ℕ) (file : Option ℕ) (b : Sizes)
      (t : Tables max_source_id)
      → AreLinked root_id b t
      → AreLinked root_id b (hit_names max_source_id f source module_id function_id file t)
  hit_names-AreLinked f source module_id function_id file b t x =
      let hit = record t {
        modules = update_items (hit_module max_source_id f source) module_id t.modules;
      } in
      hit_file-AreLinked f source file b _ (
        on_functions-AreLinked (hit_function max_source_id f source) function_id b hit
          (λ g l. record {
            in_module = l.in_module;
            in_file = l.in_file;
            called_by = l.called_by;
            calling = l.calling;
          })
          (record {
            modules_sized =
                update_items-IsSized text_key b.modules t.modules
                  (hit_module max_source_id f source) module_id x.modules_sized;
            functions_sized = x.functions_sized;
            files_sized = x.files_sized;
            functions_linked = x.functions_linked;
          }))

  -- A function keeps the file that it has.
  or_set-IsFile :
      (old : Option ℕ) (new n : ℕ)
      → ((file : ℕ) → old ≡ some file → file < n)
      → new < n
      → (file : ℕ) → or_set old new ≡ some file
      → file < n
  or_set-IsFile none new n h k file e = let o : new ≡ file = ground (arith, e) in omega arith
  or_set-IsFile (some old) new n h k file e = h file e

  pub place_function-AreLinked :
      (f : HitCounts → HitCounts) (source : ℕ) (frame : StackFrame max_source_id) (function_id : ℕ)
      (file : Option ℕ) (b : Sizes) (t : Tables max_source_id)
      → IsFile b.files file
      → AreLinked root_id b t
      → AreLinked root_id b (place_function max_source_id f source frame function_id file t)
  place_function-AreLinked f source frame function_id none b t h x = x
  place_function-AreLinked f source frame function_id (some file) b t h x =
      on_functions-AreLinked _ function_id b t
        (λ g l. record {
          in_module = l.in_module;
          in_file = or_set-IsFile g.file_id file b.files l.in_file h;
          called_by = l.called_by;
          calling = l.calling;
        })
        x

  pub self_line-AreLinked :
      (source line function_id : ℕ) (file : Option ℕ) (b : Sizes) (t : Tables max_source_id)
      → AreLinked root_id b t
      → AreLinked root_id b
          (on_functions max_source_id (self_line max_source_id source file line) function_id t)
  self_line-AreLinked source line function_id none b t x =
      on_functions-AreLinked _ function_id b t (λ g l. l) x
  self_line-AreLinked source line function_id (some file) b t x =
      on_functions-AreLinked _ function_id b t
        (λ g l. record {
          in_module = l.in_module;
          in_file = l.in_file;
          called_by = l.called_by;
          calling = l.calling;
        })
        x

  pub call_from-AreLinked :
      (source caller callee : ℕ) (b : Sizes) (t : Tables max_source_id)
      → IsCaller root_id b caller
      → AreLinked root_id b t
      → AreLinked root_id b
          (on_functions max_source_id (call_from max_source_id source caller) callee t)
  call_from-AreLinked source caller callee b t h x =
      on_functions-AreLinked (call_from max_source_id source caller) callee b t
        (λ g l. record {
          in_module = l.in_module;
          in_file = l.in_file;
          called_by =
              AreKnown-count_hit_at (IsCaller root_id b) caller source g.callers h l.called_by;
          calling = l.calling;
        })
        x

  pub call_to-AreLinked :
      (source callee caller : ℕ) (b : Sizes) (t : Tables max_source_id)
      → callee < b.functions
      → AreLinked root_id b t
      → AreLinked root_id b
          (on_functions max_source_id (call_to max_source_id source callee) caller t)
  call_to-AreLinked source callee caller b t h x =
      on_functions-AreLinked (call_to max_source_id source callee) caller b t
        (λ g l. record {
          in_module = l.in_module;
          in_file = l.in_file;
          called_by = l.called_by;
          calling =
              AreKnown-count_hit_at (λ key. key < b.functions) callee source g.callees h l.calling;
        })
        x
