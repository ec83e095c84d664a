-- ===== src/Analysis/Stacks/Linked/Tables.antt =====
-- The tables with the ids that the functions hold.
use snail_server.Common.{All, All-weaken, ℕ, ◌≤◌, ◌<◌, [], ◌∷◌, Option, none, some, arith}
use snail_server.Common.AssocMap.{lookup}
use snail_server.Text.Codes.{Text}
use snail_server.Analysis.Stacks.Names.{Table}
use snail_server.Analysis.Stacks.{
  FileInfo, text_key, pair_key, new_module, new_function, new_file, get_or_create_module,
  get_or_create_function, get_or_create_file, Frame, Tables, file_of, enter_frame,
}
use snail_server.Analysis.Stacks.Analyze.{Previous}
use snail_server.Analysis.Stacks.Linked.{
  get_or_create-All, IsSized, get_or_create-IsSized, Sizes, AreWithin, IsLinked, IsLinked-grown,
}

-- The tables have their sizes, and the functions hold ids within them.
pub record AreLinked {max_source_id : ℕ} (root_id : ℕ) (b : Sizes) (t : Tables max_source_id)
    : Type 0 where
  pub modules_sized : IsSized text_key b.modules t.modules
  pub functions_sized : IsSized pair_key b.functions t.functions
  pub files_sized : IsSized text_key b.files t.files
  pub functions_linked : All (IsLinked root_id b) t.functions.items

abbrev pub IsFile : ℕ → Option ℕ → Type 0
IsFile n none = Unit {0}
IsFile n (some file) = file < n

abbrev pub HasFunction : {max_source_id : ℕ} → Option (Previous max_source_id) → Sizes → Type 0
HasFunction none b = Unit {0}
HasFunction (some p) b = p.function_id < b.functions

pub HasFunction-grown :
    {max_source_id : ℕ} (p : Option (Previous max_source_id)) (b c : Sizes)
    → AreWithin b c
    → HasFunction p b
    → HasFunction p c
HasFunction-grown none b c w x = tt
HasFunction-grown (some p) b c w x = omega (arith, x, w.functions_within)

file_of-IsFile :
    (max_source_id : ℕ) (path : Text) (n : ℕ) (t : Table Text FileInfo)
    → IsSized text_key n t
    → (m : ℕ) × (n ≤ m)
      × IsFile m (file_of max_source_id path t).0
      × IsSized text_key m (file_of max_source_id path t).1
unfolding get_or_create_file
file_of-IsFile max_source_id [] n t x = (n, omega arith, tt, x)
file_of-IsFile max_source_id (c ∷ cs) n t x =
    get_or_create-IsSized text_key (new_file max_source_id (c ∷ cs)) (c ∷ cs) n t x

module _ (max_source_id root_id : ℕ) where
  -- A new function has no calls and no file.
  new_function-IsLinked :
      (b : Sizes) (module_id : ℕ) (name : Text) (id : ℕ)
      → module_id < b.modules
      → IsLinked root_id b (new_function max_source_id module_id name id)
  unfolding lookup
  new_function-IsLinked b module_id name id h = record {
    in_module = h;
    in_file = λ file e. absurd (cc e);
    called_by = λ key hits e. absurd (cc e);
    calling = λ key hits e. absurd (cc e);
  }

  pub entered :
      (frame : Frame max_source_id) (b : Sizes) (t : Tables max_source_id)
      → AreLinked root_id b t
      → (c : Sizes) × AreWithin b c
        × ((enter_frame max_source_id frame t).0.1 < c.functions)
        × IsFile c.files (enter_frame max_source_id frame t).0.2
        × AreLinked root_id c (enter_frame max_source_id frame t).1
  unfolding enter_frame get_or_create_module get_or_create_function
  entered frame b t x =
      let (m, m_le, m_lt, ms) =
        get_or_create-IsSized text_key (new_module max_source_id frame.module_name)
          frame.module_name b.modules t.modules x.modules_sized in
      let module_id = (get_or_create_module max_source_id frame.module_name t.modules).0 in
      let (n, n_le, n_lt, fs) =
        get_or_create-IsSized pair_key (new_function max_source_id module_id frame.symbol_name)
          (module_id, frame.symbol_name) b.functions t.functions x.functions_sized in
      let (k, k_le, k_lt, ks) =
        file_of-IsFile max_source_id frame.file_path b.files t.files x.files_sized in
      let c : Sizes = record { modules = m; functions = n; files = k } in
      let w : AreWithin b c = record {
        modules_within = m_le;
        functions_within = n_le;
        files_within = k_le;
      } in
      (
        c,
        w,
        n_lt,
        k_lt,
        record {
          modules_sized = ms;
          functions_sized = fs;
          files_sized = ks;
          functions_linked =
              get_or_create-All pair_key (IsLinked root_id c)
                (new_function max_source_id module_id frame.symbol_name)
                (module_id, frame.symbol_name) t.functions
                (λ id. new_function-IsLinked c module_id frame.symbol_name id m_lt)
                (All-weaken (IsLinked root_id b) (IsLinked root_id c) t.functions.items
                  (IsLinked-grown root_id b c w) x.functions_linked);
        },
      )
