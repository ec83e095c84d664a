-- ===== src/Analysis/Stacks/Selfs.antt =====
-- The self hits of all functions together.
pub mod Results
use snail_server.Common.{
  ℕ, zero, suc, ◌+◌, ◌<◌, ◌≡◌, refl, ap, ◌∙◌, List, [], ◌∷◌, ◌++◌, Option, none, some, length,
  arith, Option-cases, inl, inr, ◌==◌, if◌then◌else◌,
}
use snail_server.Text.Codes.{Text}
use snail_server.Analysis.Stacks.Names.{Key, Table, find_name, get_or_create}
use snail_server.Analysis.Stacks.{
  HitCounts, FunctionInfo, pair_key, new_function, get_or_create_function, Frame, Tables,
  enter_frame,
}
use snail_server.Analysis.Stacks.CallTree.{add_total, add_self, update_at}
use snail_server.Analysis.Stacks.Analyze.{
  StackFrame, StacksAnalysis, Previous, hit_function, hit_file, hit_names, on_functions,
  place_function, self_line, call_to, call_from, count_call,
}
use snail_server.Analysis.Stacks.Hits.{
  self_of, one_if, self_of-count_hit, self_of-count_hit_total, total_of-no_hits,
}

abbrev pub self_hits : ℕ → List FunctionInfo → ℕ
self_hits s [] = 0
self_hits s (g ∷ gs) = self_of s g.hits + self_hits s gs

self_hits-update_at :
    (s i : ℕ) (f : FunctionInfo → FunctionInfo) (gs : List FunctionInfo)
    → ((g : FunctionInfo) → self_of s (f g).hits ≡ self_of s g.hits)
    → self_hits s (update_at f i gs) ≡ self_hits s gs
unfolding update_at
self_hits-update_at s i f [] h = refl
self_hits-update_at s zero f (g ∷ gs) h = ap (λ n. n + self_hits s gs) (h g)
self_hits-update_at s (suc i) f (g ∷ gs) h =
    ap (λ n. self_of s g.hits + n) (self_hits-update_at s i f gs h)

self_hits-hit_function :
    (max_source_id s source i : ℕ) (gs : List FunctionInfo)
    → i < length gs
    → self_hits s (update_at (hit_function max_source_id add_self source) i gs)
      ≡ self_hits s gs + one_if (source == s)
unfolding update_at
self_hits-hit_function max_source_id s source i [] h = absurd (omega arith)
self_hits-hit_function max_source_id s source zero (g ∷ gs) h =
    omega (arith, self_of-count_hit source s g.hits)
self_hits-hit_function max_source_id s source (suc i) (g ∷ gs) h =
    omega (arith, self_hits-hit_function max_source_id s source i gs (omega arith))

self_hits-append :
    (s : ℕ) (gs : List FunctionInfo) (new : FunctionInfo)
    → self_of s new.hits ≡ 0
    → self_hits s (gs ++ new ∷ []) ≡ self_hits s gs
self_hits-append s [] new z = omega (arith, z)
self_hits-append s (g ∷ gs) new z = ap (λ n. self_of s g.hits + n) (self_hits-append s gs new z)

module _ (max_source_id s : ℕ) where
  abbrev pub table_selfs : Tables max_source_id → ℕ
  table_selfs t = self_hits s t.functions.items

  pub table_selfs-enter_frame :
      (frame : Frame max_source_id) (t : Tables max_source_id)
      → table_selfs (enter_frame max_source_id frame t).1 ≡ table_selfs t
  unfolding enter_frame get_or_create_function get_or_create
  table_selfs-enter_frame frame t = entered _ frame.symbol_name t.functions
    where
      entered :
          (module_id : ℕ) (name : Text) (functions : Table (ℕ × Text) FunctionInfo)
          → self_hits s
              (get_or_create pair_key
                (new_function max_source_id module_id name)
                (module_id, name)
                functions).1.items
            ≡ self_hits s functions.items
      entered module_id name functions =
          elim (Option-cases (find_name pair_key (module_id, name) functions.by_name)) [
            | inl e ↦ rw e (
                self_hits-append s functions.items
                  (new_function max_source_id module_id name (length functions.items))
                  (total_of-no_hits s (max_source_id + 1)).1)
            | inr (id, e) ↦ rw e refl
          ]

  hit_names-functions :
      (f : HitCounts → HitCounts) (source module_id function_id : ℕ) (file : Option ℕ)
      (t : Tables max_source_id)
      → table_selfs (hit_names max_source_id f source module_id function_id file t)
        ≡ self_hits s
            (update_at (hit_function max_source_id f source) function_id t.functions.items)
  hit_names-functions f source module_id function_id none t = refl
  hit_names-functions f source module_id function_id (some file) t = refl

  pub table_selfs-hit_names_total :
      (source module_id function_id : ℕ) (file : Option ℕ) (t : Tables max_source_id)
      → table_selfs (hit_names max_source_id add_total source module_id function_id file t)
        ≡ table_selfs t
  table_selfs-hit_names_total source module_id function_id file t =
      hit_names-functions add_total source module_id function_id file t
      ∙ self_hits-update_at s function_id (hit_function max_source_id add_total source)
          t.functions.items (λ g. self_of-count_hit_total source s g.hits)

  pub table_selfs-hit_names_self :
      (source module_id function_id : ℕ) (file : Option ℕ) (t : Tables max_source_id)
      → function_id < length t.functions.items
      → table_selfs (hit_names max_source_id add_self source module_id function_id file t)
        ≡ table_selfs t + one_if (source == s)
  table_selfs-hit_names_self source module_id function_id file t h =
      hit_names-functions add_self source module_id function_id file t
      ∙ self_hits-hit_function max_source_id s source function_id t.functions.items h

  pub table_selfs-place_function :
      (f : HitCounts → HitCounts) (source : ℕ) (frame : StackFrame max_source_id) (function_id : ℕ)
      (file : Option ℕ) (t : Tables max_source_id)
      → table_selfs (place_function max_source_id f source frame function_id file t) ≡ table_selfs t
  table_selfs-place_function f source frame function_id none t = refl
  table_selfs-place_function f source frame function_id (some file) t =
      self_hits-update_at s function_id _ t.functions.items (λ g. refl)

  pub table_selfs-self_line :
      (source line function_id : ℕ) (file : Option ℕ) (t : Tables max_source_id)
      → table_selfs
          (on_functions max_source_id (self_line max_source_id source file line) function_id t)
        ≡ table_selfs t
  table_selfs-self_line source line function_id none t =
      self_hits-update_at s function_id _ t.functions.items (λ g. refl)
  table_selfs-self_line source line function_id (some file) t =
      self_hits-update_at s function_id _ t.functions.items (λ g. refl)

  -- The self hits of the functions, with those of their root.
  abbrev pub all_selfs : StacksAnalysis max_source_id → ℕ
  all_selfs a = self_of s a.function_root.hits + table_selfs a.tables

  pub all_selfs-count_call :
      (source : ℕ) (previous : Option (Previous max_source_id)) (callee : ℕ)
      (a : StacksAnalysis max_source_id)
      → all_selfs (count_call max_source_id source previous callee a) ≡ all_selfs a
  all_selfs-count_call source none callee a =
      ap (λ n. self_of s a.function_root.hits + n)
        (self_hits-update_at s callee (call_from max_source_id source a.function_root.id)
          a.tables.functions.items (λ g. refl))
  all_selfs-count_call source (some p) callee a =
      ap (λ n. self_of s a.function_root.hits + n)
        (self_hits-update_at s callee (call_from max_source_id source p.function_id) _ (λ g. refl)
          ∙ self_hits-update_at s p.function_id (call_to max_source_id source callee)
              a.tables.functions.items (λ g. refl))
