-- ===== src/Analysis/Stacks/Calls.antt =====
-- The calls between functions: what a caller and a callee count of each other.
pub mod Steps
pub mod Results
use snail_server.Common.{
  ℕ, zero, suc, ◌+◌, ◌≤◌, ◌<◌, ◌≡◌, refl, sym, ap, ap₂, ◌∙◌, subst, Bool, true, false, List, [],
  ◌∷◌, ◌++◌, Option, none, some, ◌==◌, if◌then◌else◌, length, get_elem?, length-append, arith,
  Bool-cases, Option-cases, inl, inr,
}
use snail_server.Common.AssocMap.{lookup, insert, lookup-insert}
use snail_server.Analysis.Stacks.{HitCounts, FunctionInfo}
use snail_server.Analysis.Stacks.Analyze.{call_to, call_from}
use snail_server.Analysis.Stacks.CallTree.{
  add_total, count_hit, count_hit_at, hits_or_none, update_at,
}
use snail_server.Analysis.Stacks.Hits.{total_of, one_if, total_of-count_hit, length-update_at}

-- The total hits of a source under a key.
abbrev pub at_key : ℕ → ℕ → List (ℕ × List HitCounts) → ℕ
at_key s key counts = total_of s (hits_or_none (lookup key counts))

-- One hit, where the keys and the sources are the same.
abbrev pub one_call : ℕ → ℕ → ℕ → ℕ → ℕ
one_call key other source s = if key == other then one_if (source == s) else 0

pub at_key-count_hit_at :
    (s other key source : ℕ) (counts : List (ℕ × List HitCounts))
    → at_key s other (count_hit_at add_total key source counts)
      ≡ at_key s other counts + one_call key other source s
unfolding count_hit_at
at_key-count_hit_at s other key source counts =
    ap (λ o. total_of s (hits_or_none o))
      (lookup-insert key other (count_hit add_total source (hits_or_none (lookup key counts)))
        counts)
    ∙ elim (Bool-cases (key == other)) [
      | inl b ↦
          let e : key ≡ other = ground arith in
          rw b (
            total_of-count_hit source s (hits_or_none (lookup key counts))
            ∙ ap (λ k. at_key s k counts + one_if (source == s)) e)
      | inr b ↦ rw b (omega arith)
    ]

abbrev pub callees_or_none : Option FunctionInfo → List (ℕ × List HitCounts)
callees_or_none none = []
callees_or_none (some g) = g.callees

abbrev pub callers_or_none : Option FunctionInfo → List (ℕ × List HitCounts)
callers_or_none none = []
callers_or_none (some g) = g.callers

-- The calls of `i` to `j` as `i` has them, and the calls from a key to `j` as `j` has them.
abbrev pub calls_to : ℕ → List FunctionInfo → ℕ → ℕ → ℕ
calls_to s fs i j = at_key s j (callees_or_none (get_elem? fs i))

abbrev pub calls_from : ℕ → List FunctionInfo → ℕ → ℕ → ℕ
calls_from s fs j key = at_key s key (callers_or_none (get_elem? fs j))

-- The calls of the root, under its id.
abbrev pub root_calls : ℕ → FunctionInfo → ℕ → ℕ → ℕ
root_calls s root key j = if root.id == key then at_key s j root.callees else 0

-- Each function has been called as often as the others, or the root, have called it.
abbrev pub AreMutual : FunctionInfo → List FunctionInfo → Type 0
AreMutual root fs =
    (s j key : ℕ) → calls_from s fs j key ≡ calls_to s fs key j + root_calls s root key j

-- A change that leaves the calls alone.
pub record KeepsCalls (f : FunctionInfo → FunctionInfo) : Type 0 where
  pub same_callees : (g : FunctionInfo) → (f g).callees ≡ g.callees
  pub same_callers : (g : FunctionInfo) → (f g).callers ≡ g.callers

callees-update_at :
    (f : FunctionInfo → FunctionInfo) (i j : ℕ) (fs : List FunctionInfo)
    → ((g : FunctionInfo) → (f g).callees ≡ g.callees)
    → callees_or_none (get_elem? (update_at f i fs) j) ≡ callees_or_none (get_elem? fs j)
unfolding update_at
callees-update_at f i j [] h = refl
callees-update_at f zero zero (g ∷ fs) h = h g
callees-update_at f zero (suc j) (g ∷ fs) h = refl
callees-update_at f (suc i) zero (g ∷ fs) h = refl
callees-update_at f (suc i) (suc j) (g ∷ fs) h = callees-update_at f i j fs h

callers-update_at :
    (f : FunctionInfo → FunctionInfo) (i j : ℕ) (fs : List FunctionInfo)
    → ((g : FunctionInfo) → (f g).callers ≡ g.callers)
    → callers_or_none (get_elem? (update_at f i fs) j) ≡ callers_or_none (get_elem? fs j)
unfolding update_at
callers-update_at f i j [] h = refl
callers-update_at f zero zero (g ∷ fs) h = h g
callers-update_at f zero (suc j) (g ∷ fs) h = refl
callers-update_at f (suc i) zero (g ∷ fs) h = refl
callers-update_at f (suc i) (suc j) (g ∷ fs) h = callers-update_at f i j fs h

pub KeepsCalls-AreMutual :
    (root : FunctionInfo) (f : FunctionInfo → FunctionInfo) (i : ℕ) (fs : List FunctionInfo)
    → KeepsCalls f
    → AreMutual root fs
    → AreMutual root (update_at f i fs)
KeepsCalls-AreMutual root f i fs h x s j key =
    ap (at_key s key) (callers-update_at f i j fs h.same_callers)
    ∙ x s j key
    ∙ ap (λ c. at_key s j c + root_calls s root key j)
        (sym (callees-update_at f i key fs h.same_callees))

module _ (max_source_id s source : ℕ) where
  calls_to-update_at :
      (callee i i' j : ℕ) (fs : List FunctionInfo)
      → i < length fs
      → calls_to s (update_at (call_to max_source_id source callee) i fs) i' j
        ≡ calls_to s fs i' j + (if i == i' then one_call callee j source s else 0)
  unfolding update_at
  calls_to-update_at callee i i' j [] h = absurd (omega arith)
  calls_to-update_at callee zero zero j (g ∷ fs) h = at_key-count_hit_at s j callee source g.callees
  calls_to-update_at callee zero (suc i') j (g ∷ fs) h =
      let e : (0 == suc i') ≡ false = ground arith in rw e (omega arith)
  calls_to-update_at callee (suc i) zero j (g ∷ fs) h =
      let e : (suc i == 0) ≡ false = ground arith in rw e (omega arith)
  calls_to-update_at callee (suc i) (suc i') j (g ∷ fs) h =
      let e : (suc i == suc i') ≡ (i == i') = ground arith in
      rw e (calls_to-update_at callee i i' j fs (omega arith))

  calls_from-update_at :
      (caller i j key : ℕ) (fs : List FunctionInfo)
      → i < length fs
      → calls_from s (update_at (call_from max_source_id source caller) i fs) j key
        ≡ calls_from s fs j key + (if i == j then one_call caller key source s else 0)
  unfolding update_at
  calls_from-update_at caller i j key [] h = absurd (omega arith)
  calls_from-update_at caller zero zero key (g ∷ fs) h =
      at_key-count_hit_at s key caller source g.callers
  calls_from-update_at caller zero (suc j) key (g ∷ fs) h =
      let e : (0 == suc j) ≡ false = ground arith in rw e (omega arith)
  calls_from-update_at caller (suc i) zero key (g ∷ fs) h =
      let e : (suc i == 0) ≡ false = ground arith in rw e (omega arith)
  calls_from-update_at caller (suc i) (suc j) key (g ∷ fs) h =
      let e : (suc i == suc j) ≡ (i == j) = ground arith in
      rw e (calls_from-update_at caller i j key fs (omega arith))

  -- Both sides of a call count it.
  both_counted :
      (caller callee key j : ℕ)
      → (if callee == j then one_call caller key source s else 0)
        ≡ (if caller == key then one_call callee j source s else 0)
  both_counted caller callee key j = elim (Bool-cases (callee == j)) [
    | inl b ↦ elim (Bool-cases (caller == key)) [ inl c ↦ rw (b, c) refl | inr c ↦ rw (b, c) refl ]
    | inr b ↦ elim (Bool-cases (caller == key)) [ inl c ↦ rw (b, c) refl | inr c ↦ rw (b, c) refl ]
  ]

  root_calls-call_to :
      (root : FunctionInfo) (callee key j : ℕ)
      → root_calls s (call_to max_source_id source callee root) key j
        ≡ root_calls s root key j + (if root.id == key then one_call callee j source s else 0)
  root_calls-call_to root callee key j = elim (Bool-cases (root.id == key)) [
    | inl b ↦ rw b (at_key-count_hit_at s j callee source root.callees)
    | inr b ↦ rw b (omega arith)
  ]

-- A call of one function by another.
pub call-AreMutual :
    (max_source_id source caller callee : ℕ) (root : FunctionInfo) (fs : List FunctionInfo)
    → caller < length fs
    → callee < length fs
    → AreMutual root fs
    → AreMutual root (
        update_at
          (call_from max_source_id source caller)
          callee
          (update_at (call_to max_source_id source callee) caller fs))
call-AreMutual max_source_id source caller callee root fs h k x s j key =
    let called = update_at (call_to max_source_id source callee) caller fs in
    let from =
      calls_from-update_at max_source_id s source caller callee j key called
        (omega (arith, k, length-update_at (call_to max_source_id source callee) caller fs)) in
    let to = calls_to-update_at max_source_id s source callee caller key j fs h in
    let from_same =
      ap (at_key s key)
        (callers-update_at (call_to max_source_id source callee) caller j fs (λ g. refl)) in
    let to_same =
      ap (at_key s j)
        (callees-update_at (call_from max_source_id source caller) callee key called (λ g. refl)) in
    omega (
      arith,
      x s j key,
      from,
      to,
      from_same,
      to_same,
      both_counted max_source_id s source caller callee key j,
    )

-- A call by the root.
pub root_call-AreMutual :
    (max_source_id source callee : ℕ) (root : FunctionInfo) (fs : List FunctionInfo)
    → callee < length fs
    → AreMutual root fs
    → AreMutual
        (call_to max_source_id source callee root)
        (update_at (call_from max_source_id source root.id) callee fs)
root_call-AreMutual max_source_id source callee root fs k x s j key =
    let from = calls_from-update_at max_source_id s source root.id callee j key fs k in
    let to_same =
      ap (at_key s j)
        (callees-update_at (call_from max_source_id source root.id) callee key fs (λ g. refl)) in
    omega (
      arith,
      x s j key,
      from,
      to_same,
      root_calls-call_to max_source_id s source root callee key j,
      both_counted max_source_id s source root.id callee key j,
    )

-- A new function has no calls.
module _ (new : FunctionInfo) (no_callees : new.callees ≡ []) (no_callers : new.callers ≡ []) where
  callees-append :
      (fs : List FunctionInfo) (j : ℕ)
      → callees_or_none (get_elem? (fs ++ new ∷ []) j) ≡ callees_or_none (get_elem? fs j)
  callees-append [] zero = no_callees
  callees-append [] (suc j) = refl
  callees-append (g ∷ fs) zero = refl
  callees-append (g ∷ fs) (suc j) = callees-append fs j

  callers-append :
      (fs : List FunctionInfo) (j : ℕ)
      → callers_or_none (get_elem? (fs ++ new ∷ []) j) ≡ callers_or_none (get_elem? fs j)
  callers-append [] zero = no_callers
  callers-append [] (suc j) = refl
  callers-append (g ∷ fs) zero = refl
  callers-append (g ∷ fs) (suc j) = callers-append fs j

  pub append-AreMutual :
      (root : FunctionInfo) (fs : List FunctionInfo)
      → AreMutual root fs
      → AreMutual root (fs ++ new ∷ [])
  append-AreMutual root fs x s j key =
      ap (at_key s key) (callers-append fs j)
      ∙ x s j key
      ∙ ap (λ c. at_key s j c + root_calls s root key j) (sym (callees-append fs key))
