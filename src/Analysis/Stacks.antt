-- ===== src/Analysis/Stacks.antt =====
-- The tables of snail/analysis/analysis.cpp: modules, functions and files by name.
pub mod Names
pub mod CallTree
pub mod Analyze
pub mod Access
pub mod Runs
pub mod Counts
pub mod Indexed
pub mod Hits
pub mod Trees
pub mod Balance
pub mod Calls
pub mod Linked
pub mod Selfs
pub mod Examples
use snail_server.Common.{
  ℕ, zero, suc, ◌+◌, ◌≡◌, refl, ap₂, Bool, true, ◌&&◌, List, [], ◌∷◌, Option, none, some, ◌==◌,
  ==_refl, arith, if◌then◌else◌, length,
}
use snail_server.Text.Codes.{Text, equal, equal_sound, equal_refl}
use snail_server.Analysis.Stacks.Names.{Key, Table, get_or_create}

pub record HitCounts : Type 0 where
  pub total : ℕ
  pub self : ℕ

unfoldable pub no_hits : ℕ → List HitCounts
no_hits zero = []
no_hits (suc n) = record { total = 0; self = 0 } ∷ no_hits n

abbrev pub init_hits : ℕ → List HitCounts
init_hits max_source_id = no_hits (max_source_id + 1)

pub record ModuleInfo : Type 0 where
  pub id : ℕ
  pub name : Text
  pub hits : List HitCounts

pub record FunctionInfo : Type 0 where
  pub id : ℕ
  pub module_id : ℕ
  pub name : Text
  pub hits : List HitCounts
  pub callers : List (ℕ × List HitCounts)
  pub callees : List (ℕ × List HitCounts)
  pub file_id : Option ℕ
  pub line_number : Option ℕ
  pub hits_by_line : List (ℕ × List HitCounts)

pub record FileInfo : Type 0 where
  pub id : ℕ
  pub path : Text
  pub hits : List HitCounts

abbrev pub text_key : Key Text
text_key = record { same = equal; same_sound = equal_sound; same_refl = equal_refl }

unfoldable pub same_pair : ℕ × Text → ℕ × Text → Bool
same_pair (a, x) (b, y) = a == b && equal x y

pub same_pair_sound : (p q : ℕ × Text) → same_pair p q ≡ true → p ≡ q
unfolding same_pair
same_pair_sound (a, x) (b, y) e =
    let numbers : a ≡ b = ground arith in
    let texts : equal x y ≡ true = ground arith in
    ap₂ (λ n t. (n, t)) numbers (equal_sound x y texts)

pub same_pair_refl : (p : ℕ × Text) → same_pair p p ≡ true
unfolding same_pair
same_pair_refl (a, x) = ground (arith, equal_refl x)

-- A function is known by its module and its name.
abbrev pub pair_key : Key (ℕ × Text)
pair_key = record { same = same_pair; same_sound = same_pair_sound; same_refl = same_pair_refl }

-- `max_source_id` is fixed for an analysis.
module _ (max_source_id : ℕ) where
  abbrev pub new_module : Text → ℕ → ModuleInfo
  new_module name id = record { id = id; name = name; hits = init_hits max_source_id }

  unfoldable pub get_or_create_module : Text → Table Text ModuleInfo → ℕ × Table Text ModuleInfo
  get_or_create_module name t = get_or_create text_key (new_module name) name t

  abbrev pub new_function : ℕ → Text → ℕ → FunctionInfo
  new_function module_id name id = record {
    id = id;
    module_id = module_id;
    name = name;
    hits = init_hits max_source_id;
    callers = [];
    callees = [];
    file_id = none;
    line_number = none;
    hits_by_line = [];
  }

  unfoldable pub get_or_create_function :
      ℕ → Text → Table (ℕ × Text) FunctionInfo → ℕ × Table (ℕ × Text) FunctionInfo
  get_or_create_function module_id name t =
      get_or_create pair_key (new_function module_id name) (module_id, name) t

  abbrev pub new_file : Text → ℕ → FileInfo
  new_file path id = record { id = id; path = path; hits = init_hits max_source_id }

  unfoldable pub get_or_create_file : Text → Table Text FileInfo → ℕ × Table Text FileInfo
  get_or_create_file path t = get_or_create text_key (new_file path) path t

  -- The part of a stack frame that names things; an empty file path stands for no file.
  pub record Frame : Type 0 where
    pub module_name : Text
    pub symbol_name : Text
    pub file_path : Text

  pub record Tables : Type 0 where
    pub modules : Table Text ModuleInfo
    pub functions : Table (ℕ × Text) FunctionInfo
    pub files : Table Text FileInfo

  abbrev pub no_tables : Tables
  no_tables = record {
    modules = record { items = []; by_name = [] };
    functions = record { items = []; by_name = [] };
    files = record { items = []; by_name = [] };
  }

  abbrev pub file_of : Text → Table Text FileInfo → Option ℕ × Table Text FileInfo
  file_of [] t = (none, t)
  file_of (c ∷ cs) t = let (id, t') = get_or_create_file (c ∷ cs) t in (some id, t')

  -- The ids of a frame's module, function and file, and the tables with them.
  unfoldable pub enter_frame : Frame → Tables → (ℕ × ℕ × Option ℕ) × Tables
  enter_frame f t =
      let (module_id, modules) = get_or_create_module f.module_name t.modules in
      let (function_id, functions) = get_or_create_function module_id f.symbol_name t.functions in
      let (file_id, files) = file_of f.file_path t.files in
      (
        (module_id, function_id, file_id),
        record { modules = modules; functions = functions; files = files },
      )
