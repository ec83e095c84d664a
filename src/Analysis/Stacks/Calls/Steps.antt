-- ===== src/Analysis/Stacks/Calls/Steps.antt =====
-- What each change of the functions keeps of their calls.
use snail_server.Common.{
  ℕ, ◌≤◌, ◌<◌, refl, Option, none, some, length, arith, Option-cases, inl, inr,
}
use snail_server.Text.Codes.{Text}
use snail_server.Analysis.Stacks.Names.{Table, find_name, get_or_create}
use snail_server.Analysis.Stacks.{
  HitCounts, FunctionInfo, pair_key, new_function, get_or_create_function, Frame, Tables,
  enter_frame,
}
use snail_server.Analysis.Stacks.Analyze.{
  StackFrame, StacksAnalysis, Previous, update_items, hit_function, hit_names, place_function,
  self_line, count_call, call_to, call_from,
}
use snail_server.Analysis.Stacks.Calls.{
  AreMutual, KeepsCalls, KeepsCalls-AreMutual, call-AreMutual, root_call-AreMutual,
  append-AreMutual,
}
use snail_server.Analysis.Stacks.Linked.{IsSized, update_items-IsSized, get_or_create-IsSized}

-- The table has `n` functions, and their calls are mutual.
pub record IsCalling (n : ℕ) (root : FunctionInfo) (t : Table (ℕ × Text) FunctionInfo)
    : Type 0 where
  pub mutual_calls : AreMutual root t.items
  pub functions_sized : IsSized pair_key n t

abbrev pub HasFunction : {max_source_id : ℕ} → Option (Previous max_source_id) → ℕ → Type 0
HasFunction none n = Unit {0}
HasFunction (some p) n = p.function_id < n

pub HasFunction-mono :
    {max_source_id : ℕ} (p : Option (Previous max_source_id)) (n m : ℕ)
    → n ≤ m
    → HasFunction p n
    → HasFunction p m
HasFunction-mono none n m h x = tt
HasFunction-mono (some p) n m h x = omega arith

update_items-IsCalling :
    (f : FunctionInfo → FunctionInfo) (i n : ℕ) (root : FunctionInfo)
    (t : Table (ℕ × Text) FunctionInfo)
    → KeepsCalls f
    → IsCalling n root t
    → IsCalling n root (update_items f i t)
update_items-IsCalling f i n root t k x = record {
  mutual_calls = KeepsCalls-AreMutual root f i t.items k x.mutual_calls;
  functions_sized = update_items-IsSized pair_key n t f i x.functions_sized;
}

module _ (max_source_id : ℕ) where
  abbrev pub AreCalling : ℕ → StacksAnalysis max_source_id → Type 0
  AreCalling n a = IsCalling n a.function_root a.tables.functions

  pub hit_names-IsCalling :
      (f : HitCounts → HitCounts) (source module_id function_id n : ℕ) (file : Option ℕ)
      (root : FunctionInfo) (t : Tables max_source_id)
      → IsCalling n root t.functions
      → IsCalling n root (hit_names max_source_id f source module_id function_id file t).functions
  hit_names-IsCalling f source module_id function_id n none root t x =
      update_items-IsCalling (hit_function max_source_id f source) function_id n root t.functions
        (record { same_callees = λ g. refl; same_callers = λ g. refl }) x
  hit_names-IsCalling f source module_id function_id n (some file) root t x =
      update_items-IsCalling (hit_function max_source_id f source) function_id n root t.functions
        (record { same_callees = λ g. refl; same_callers = λ g. refl }) x

  pub place_function-IsCalling :
      (f : HitCounts → HitCounts) (source : ℕ) (frame : StackFrame max_source_id)
      (function_id n : ℕ) (file : Option ℕ) (root : FunctionInfo) (t : Tables max_source_id)
      → IsCalling n root t.functions
      → IsCalling n root (place_function max_source_id f source frame function_id file t).functions
  place_function-IsCalling f source frame function_id n none root t x = x
  place_function-IsCalling f source frame function_id n (some file) root t x =
      update_items-IsCalling _ function_id n root t.functions
        (record { same_callees = λ g. refl; same_callers = λ g. refl }) x

  pub self_line-IsCalling :
      (source line function_id n : ℕ) (file : Option ℕ) (root : FunctionInfo)
      (t : Table (ℕ × Text) FunctionInfo)
      → IsCalling n root t
      → IsCalling n root (update_items (self_line max_source_id source file line) function_id t)
  self_line-IsCalling source line function_id n none root t x =
      update_items-IsCalling _ function_id n root t
        (record { same_callees = λ g. refl; same_callers = λ g. refl }) x
  self_line-IsCalling source line function_id n (some file) root t x =
      update_items-IsCalling _ function_id n root t
        (record { same_callees = λ g. refl; same_callers = λ g. refl }) x

  -- A function of a name, and the functions with it.
  function_entered :
      (module_id n : ℕ) (name : Text) (root : FunctionInfo) (t : Table (ℕ × Text) FunctionInfo)
      → IsCalling n root t
      → (m : ℕ) × (n ≤ m)
        × ((get_or_create_function max_source_id module_id name t).0 < m)
        × IsCalling m root (get_or_create_function max_source_id module_id name t).1
  unfolding get_or_create_function get_or_create
  function_entered module_id n name root t x =
      let make = new_function max_source_id module_id name in
      let (m, le, lt, sizes) =
        get_or_create-IsSized pair_key make (module_id, name) n t x.functions_sized in
      let calls : AreMutual root (get_or_create pair_key make (module_id, name) t).1.items =
        elim (Option-cases (find_name pair_key (module_id, name) t.by_name)) [
          | inr (id, e) ↦ rw e x.mutual_calls
          | inl e ↦
              rw e (append-AreMutual (make (length t.items)) refl refl root t.items x.mutual_calls)
        ] in
      (m, le, lt, record { mutual_calls = calls; functions_sized = sizes })

  pub entered :
      (frame : Frame max_source_id) (n : ℕ) (root : FunctionInfo) (t : Tables max_source_id)
      → IsCalling n root t.functions
      → (m : ℕ) × (n ≤ m)
        × ((enter_frame max_source_id frame t).0.1 < m)
        × IsCalling m root (enter_frame max_source_id frame t).1.functions
  unfolding enter_frame
  entered frame n root t x = function_entered _ n frame.symbol_name root t.functions x

  pub count_call-AreCalling :
      (source : ℕ) (previous : Option (Previous max_source_id)) (callee n : ℕ)
      (a : StacksAnalysis max_source_id)
      → HasFunction previous n
      → callee < n
      → AreCalling n a
      → AreCalling n (count_call max_source_id source previous callee a)
  count_call-AreCalling source none callee n a h k x = record {
    mutual_calls =
        root_call-AreMutual max_source_id source callee a.function_root a.tables.functions.items
          (omega (arith, x.functions_sized.sized)) x.mutual_calls;
    functions_sized =
        update_items-IsSized pair_key n a.tables.functions
          (call_from max_source_id source a.function_root.id) callee x.functions_sized;
  }
  count_call-AreCalling source (some p) callee n a h k x = record {
    mutual_calls =
        call-AreMutual max_source_id source p.function_id callee a.function_root
          a.tables.functions.items (omega (arith, x.functions_sized.sized))
          (omega (arith, x.functions_sized.sized)) x.mutual_calls;
    functions_sized =
        update_items-IsSized pair_key n _ (call_from max_source_id source p.function_id) callee (
          update_items-IsSized pair_key n a.tables.functions (call_to max_source_id source callee)
            p.function_id x.functions_sized);
  }
