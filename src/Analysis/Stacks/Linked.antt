-- ===== src/Analysis/Stacks/Linked.antt =====
-- The ids that the functions and the nodes of an analysis hold, and the sizes of the vectors they lead to.
pub mod Tables
pub mod Updates
pub mod Samples
pub mod Resolved
use snail_server.Common.{
  ℕ, zero, suc, ◌+◌, ◌≤◌, ◌<◌, ◌≡◌, refl, ap, subst, All, All-append, ◌⊎◌, ◌∙◌, Bool, true, false,
  List, [], ◌∷◌, ◌++◌, Option, none, some, length, get_elem?, length-append, arith, Option-cases,
  Bool-cases, inl, inr, ◌==◌, if◌then◌else◌,
}
use snail_server.Common.AssocMap.{lookup, lookup-insert}
use snail_server.Analysis.Stacks.Names.{Key, Table, find_name, find_name-new, get_or_create}
use snail_server.Analysis.Stacks.{HitCounts, FunctionInfo}
use snail_server.Analysis.Stacks.CallTree.{
  add_total, count_hit, count_hit_at, hits_or_none, update_at,
}
use snail_server.Analysis.Stacks.Analyze.{update_items}
use snail_server.Analysis.Stacks.Hits.{length-update_at}

pub All-update_at {ℓ} :
    {A : Type ℓ} (P : A → Type 0) (f : A → A) (i : ℕ) (xs : List A)
    → ((x : A) → P x → P (f x))
    → All P xs
    → All P (update_at f i xs)
unfolding update_at
All-update_at P f i [] h x = tt
All-update_at P f zero (y ∷ ys) h (p, ps) = (h y p, ps)
All-update_at P f (suc i) (y ∷ ys) h (p, ps) = (p, All-update_at P f i ys h ps)

-- A table of `n` things, where the map leads to things only.
pub record IsSized {K I : Type 0} (k : Key K) (n : ℕ) (t : Table K I) : Type 0 where
  pub sized : length t.items ≡ n
  pub found : (name : K) (id : ℕ) → find_name k name t.by_name ≡ some id → id < n

pub update_items-IsSized :
    {K I : Type 0} (k : Key K) (n : ℕ) (t : Table K I) (f : I → I) (i : ℕ)
    → IsSized k n t
    → IsSized k n (update_items f i t)
update_items-IsSized k n t f i x = record {
  sized = length-update_at f i t.items ∙ x.sized;
  found = x.found;
}

-- The id that is returned is that of a thing.
pub get_or_create-IsSized :
    {K I : Type 0} (k : Key K) (make : ℕ → I) (name : K) (n : ℕ) (t : Table K I)
    → IsSized k n t
    → (m : ℕ) × (n ≤ m)
      × ((get_or_create k make name t).0 < m)
      × IsSized k m (get_or_create k make name t).1
unfolding get_or_create
get_or_create-IsSized k make name n t x = elim (Option-cases (find_name k name t.by_name)) [
  | inr (id, e) ↦ rw e (n, omega arith, x.found name id e, x)
  | inl e ↦ rw e (
    n + 1,
    omega arith,
    omega (arith, x.sized),
    record {
      sized = length-append t.items _ ∙ ap (λ k. k + 1) x.sized;
      found = λ other id f. elim (Bool-cases (k.same name other)) [
        | inl b ↦ ground (arith, x.sized, find_name-new k other name (length t.items) t.by_name)
        | inr b ↦
            let old : find_name k other t.by_name ≡ some id =
              ground (arith, find_name-new k other name (length t.items) t.by_name) in
            omega (arith, x.found other id old)
      ];
    },
  )
]

-- A new thing is as it was made.
pub get_or_create-All :
    {K I : Type 0} (k : Key K) (P : I → Type 0) (make : ℕ → I) (name : K) (t : Table K I)
    → ((id : ℕ) → P (make id))
    → All P t.items
    → All P (get_or_create k make name t).1.items
unfolding get_or_create
get_or_create-All k P make name t h ps = elim (Option-cases (find_name k name t.by_name)) [
  | inr (id, e) ↦ rw e ps
  | inl e ↦ rw e (All-append P t.items (make (length t.items)) ps (h (length t.items)))
]

-- The number of modules, functions and files.
pub record Sizes : Type 0 where
  pub modules : ℕ
  pub functions : ℕ
  pub files : ℕ

pub record AreWithin (b c : Sizes) : Type 0 where
  pub modules_within : b.modules ≤ c.modules
  pub functions_within : b.functions ≤ c.functions
  pub files_within : b.files ≤ c.files

-- The functions that a map of callers or callees has.
abbrev pub AreKnown : (ℕ → Type 0) → List (ℕ × List HitCounts) → Type 0
AreKnown P counts = (key : ℕ) (hits : List HitCounts) → lookup key counts ≡ some hits → P key

pub AreKnown-count_hit_at :
    (P : ℕ → Type 0) (new source : ℕ) (counts : List (ℕ × List HitCounts))
    → P new
    → AreKnown P counts
    → AreKnown P (count_hit_at add_total new source counts)
unfolding count_hit_at
AreKnown-count_hit_at P new source counts p h key hits e =
    let same =
      lookup-insert new key (count_hit add_total source (hits_or_none (lookup new counts)))
        counts in
    elim (Bool-cases (new == key)) [
      | inl b ↦ let o : new ≡ key = ground (arith, b) in subst P o p
      | inr b ↦ h key hits (ground (arith, b, e, same))
    ]

-- A function, or the root by its id.
abbrev pub IsCaller : ℕ → Sizes → ℕ → Type 0
IsCaller root_id b key = (key < b.functions) ⊎ (key ≡ root_id)

pub record IsLinked (root_id : ℕ) (b : Sizes) (g : FunctionInfo) : Type 0 where
  pub in_module : g.module_id < b.modules
  pub in_file : (file : ℕ) → g.file_id ≡ some file → file < b.files
  pub called_by : AreKnown (IsCaller root_id b) g.callers
  pub calling : AreKnown (λ key. key < b.functions) g.callees

pub IsLinked-grown :
    (root_id : ℕ) (b c : Sizes)
    → AreWithin b c
    → (g : FunctionInfo) → IsLinked root_id b g
    → IsLinked root_id c g
IsLinked-grown root_id b c w g x = record {
  in_module = omega (arith, x.in_module, w.modules_within);
  in_file = λ file e. omega (arith, x.in_file file e, w.files_within);
  called_by = λ key hits e. elim (x.called_by key hits e) [
    | inl l ↦ inl (omega (arith, l, w.functions_within))
    | inr o ↦ inr o
  ];
  calling = λ key hits e. omega (arith, x.calling key hits e, w.functions_within);
}
