-- ===== src/Analysis/Stacks/Indexed.antt =====
-- The tables of an analysis: ids are positions, and no name occurs twice.
pub mod Results
use snail_server.Common.{
  ℕ, zero, suc, ap, subst, ap₂, ◌+◌, ◌≡◌, refl, sym, ◌∙◌, List, [], ◌∷◌, Option, none, some,
  get_elem?, arith, Option-cases, inl, inr,
}
use snail_server.Text.Codes.{Text}
use snail_server.Analysis.Stacks.Names.{Key, Table, IsIndexed, get_or_create-IsIndexed, find_name}
use snail_server.Analysis.Stacks.{
  HitCounts, ModuleInfo, FunctionInfo, FileInfo, text_key, pair_key, get_or_create_module,
  get_or_create_function, get_or_create_file, new_module, new_function, new_file, Frame, Tables,
  no_tables, file_of, enter_frame,
}
use snail_server.Analysis.Stacks.CallTree.{add_total, add_self, update_at}
use snail_server.Analysis.Stacks.Analyze.{
  StackFrame, Sample, with_stack, with_frame, with_neither, StacksAnalysis, Previous, update_items,
  on_functions, hit_module, hit_function, hit_file_info, hit_file, hit_names, place_function,
  self_line, call_to, call_from, count_call, add_stack_frame, add_stack, add_self_hits, add_sample,
  no_stacks, analyze_stacks,
}
use snail_server.Analysis.Stacks.Runs.{kept_by_analysis}

abbrev value_at : {A B : Type 0} → (A → B) → Option A → Option B
value_at g none = none
value_at g (some x) = some (g x)

-- A change of a thing leaves what it keeps of it.
value_at-update_at :
    {A B : Type 0} (g : A → B) (f : A → A) (i j : ℕ) (xs : List A)
    → ((x : A) → g (f x) ≡ g x)
    → value_at g (get_elem? (update_at f i xs) j) ≡ value_at g (get_elem? xs j)
unfolding update_at
value_at-update_at g f i j [] h = refl
value_at-update_at g f zero zero (x ∷ xs) h = ap some (h x)
value_at-update_at g f zero (suc j) (x ∷ xs) h = refl
value_at-update_at g f (suc i) zero (x ∷ xs) h = refl
value_at-update_at g f (suc i) (suc j) (x ∷ xs) h = value_at-update_at g f i j xs h

value_at_inv :
    {A B : Type 0} (g : A → B) (o : Option A) (p : Option A) (x : A)
    → value_at g o ≡ value_at g p
    → p ≡ some x
    → (y : A) × (o ≡ some y) × (g y ≡ g x)
value_at_inv g none none x e f = absurd (cc f)
value_at_inv g none (some z) x e f = absurd (cc e)
value_at_inv g (some y) none x e f = absurd (cc f)
value_at_inv g (some y) (some z) x e f = (y, refl, ground (arith, e, f))

update_items-IsIndexed :
    {K I : Type 0} (k : Key K) (id_of : I → ℕ) (name_of : I → K) (f : I → I) (i : ℕ) (t : Table K I)
    → ((x : I) → id_of (f x) ≡ id_of x)
    → ((x : I) → name_of (f x) ≡ name_of x)
    → IsIndexed k id_of name_of t
    → IsIndexed k id_of name_of (update_items f i t)
update_items-IsIndexed {K = K} {I = I} k id_of name_of f i t ids names x =
    let attributes : I → ℕ × K = λ item. (id_of item, name_of item) in
    record {
      found = λ name id e.
          let (item, g, n) = x.found name id e in
          let (y, h, s) =
            value_at_inv name_of _ _ item (value_at-update_at name_of f i id t.items names) g in
          (y, h, s ∙ n);
      stored = λ id item g.
          let (y, h, s) =
            value_at_inv attributes _ _ item
              (sym (
                value_at-update_at attributes f i id t.items
                  (λ z. ap₂ (λ a b. (a, b)) (ids z) (names z))))
              g in
          let (j, n) = x.stored id y h in
          (
            sym (ap (λ p. p.0) s) ∙ j,
            subst (λ name. find_name k name t.by_name ≡ some id) (ap (λ p. p.1) s) n,
          );
    }

module _ (max_source_id : ℕ) where
  abbrev pub function_key : FunctionInfo → ℕ × Text
  function_key f = (f.module_id, f.name)

  pub record AreIndexed (t : Tables max_source_id) : Type 0 where
    pub modules_indexed : IsIndexed text_key (λ (m : ModuleInfo). m.id) (λ m. m.name) t.modules
    pub functions_indexed : IsIndexed pair_key (λ (f : FunctionInfo). f.id) function_key t.functions
    pub files_indexed : IsIndexed text_key (λ (f : FileInfo). f.id) (λ f. f.path) t.files

  file_of-IsIndexed :
      (path : Text) (t : Table Text FileInfo)
      → IsIndexed text_key (λ (f : FileInfo). f.id) (λ f. f.path) t
      → IsIndexed text_key (λ (f : FileInfo). f.id) (λ f. f.path) (file_of max_source_id path t).1
  unfolding get_or_create_file
  file_of-IsIndexed [] t x = x
  file_of-IsIndexed (c ∷ cs) t x =
      (get_or_create-IsIndexed text_key _ _ (new_file max_source_id (c ∷ cs)) (c ∷ cs) t
        (λ id. (refl, refl)) x).0

  pub enter_frame-AreIndexed :
      (f : Frame max_source_id) (t : Tables max_source_id)
      → AreIndexed t
      → AreIndexed (enter_frame max_source_id f t).1
  unfolding enter_frame get_or_create_module get_or_create_function
  enter_frame-AreIndexed f t x = record {
    modules_indexed =
        (get_or_create-IsIndexed text_key _ _ (new_module max_source_id f.module_name) f.module_name
          t.modules (λ id. (refl, refl)) x.modules_indexed).0;
    functions_indexed =
        (get_or_create-IsIndexed pair_key _ _ (new_function max_source_id _ f.symbol_name) _
          t.functions (λ id. (refl, refl)) x.functions_indexed).0;
    files_indexed = file_of-IsIndexed f.file_path t.files x.files_indexed;
  }

  -- A change of a function that leaves its id and names.
  on_functions-AreIndexed :
      (f : FunctionInfo → FunctionInfo) (i : ℕ) (t : Tables max_source_id)
      → ((g : FunctionInfo) → (f g).id ≡ g.id)
      → ((g : FunctionInfo) → function_key (f g) ≡ function_key g)
      → AreIndexed t
      → AreIndexed (on_functions max_source_id f i t)
  on_functions-AreIndexed f i t ids names x = record {
    modules_indexed = x.modules_indexed;
    files_indexed = x.files_indexed;
    functions_indexed =
        update_items-IsIndexed pair_key (λ g. g.id) function_key f i t.functions ids names
          x.functions_indexed;
  }

  hit_file-AreIndexed :
      (f : HitCounts → HitCounts) (source : ℕ) (file : Option ℕ) (t : Tables max_source_id)
      → AreIndexed t
      → AreIndexed (hit_file max_source_id f source file t)
  hit_file-AreIndexed f source none t x = x
  hit_file-AreIndexed f source (some file) t x = record {
    modules_indexed = x.modules_indexed;
    functions_indexed = x.functions_indexed;
    files_indexed =
        update_items-IsIndexed text_key (λ (g : FileInfo). g.id) (λ g. g.path)
          (hit_file_info max_source_id f source) file t.files (λ g. refl) (λ g. refl)
          x.files_indexed;
  }

  pub hit_names-AreIndexed :
      (f : HitCounts → HitCounts) (source module_id function_id : ℕ) (file : Option ℕ)
      (t : Tables max_source_id)
      → AreIndexed t
      → AreIndexed (hit_names max_source_id f source module_id function_id file t)
  hit_names-AreIndexed f source module_id function_id file t x =
      let modules =
        update_items-IsIndexed text_key (λ (m : ModuleInfo). m.id) (λ m. m.name)
          (hit_module max_source_id f source) module_id t.modules (λ m. refl) (λ m. refl)
          x.modules_indexed in
      let functions =
        update_items-IsIndexed pair_key (λ (g : FunctionInfo). g.id) function_key
          (hit_function max_source_id f source) function_id t.functions (λ g. refl) (λ g. refl)
          x.functions_indexed in
      hit_file-AreIndexed f source file _ (record {
        modules_indexed = modules;
        functions_indexed = functions;
        files_indexed = x.files_indexed;
      })

  pub place_function-AreIndexed :
      (f : HitCounts → HitCounts) (source : ℕ) (frame : StackFrame max_source_id) (function_id : ℕ)
      (file : Option ℕ) (t : Tables max_source_id)
      → AreIndexed t
      → AreIndexed (place_function max_source_id f source frame function_id file t)
  place_function-AreIndexed f source frame function_id none t x = x
  place_function-AreIndexed f source frame function_id (some file) t x =
      on_functions-AreIndexed _ function_id t (λ g. refl) (λ g. refl) x

  pub self_line-AreIndexed :
      (source line function_id : ℕ) (file : Option ℕ) (t : Tables max_source_id)
      → AreIndexed t
      → AreIndexed
          (on_functions max_source_id (self_line max_source_id source file line) function_id t)
  self_line-AreIndexed source line function_id none t x =
      on_functions-AreIndexed _ function_id t (λ g. refl) (λ g. refl) x
  self_line-AreIndexed source line function_id (some file) t x =
      on_functions-AreIndexed _ function_id t (λ g. refl) (λ g. refl) x

  pub count_call-AreIndexed :
      (source : ℕ) (previous : Option (Previous max_source_id)) (callee : ℕ)
      (a : StacksAnalysis max_source_id)
      → AreIndexed a.tables
      → AreIndexed (count_call max_source_id source previous callee a).tables
  count_call-AreIndexed source none callee a x =
      on_functions-AreIndexed (call_from max_source_id source a.function_root.id) callee a.tables
        (λ g. refl) (λ g. refl) x
  count_call-AreIndexed source (some p) callee a x =
      on_functions-AreIndexed (call_from max_source_id source p.function_id) callee _ (λ g. refl)
        (λ g. refl)
        (on_functions-AreIndexed (call_to max_source_id source callee) p.function_id a.tables
          (λ g. refl) (λ g. refl) x)
