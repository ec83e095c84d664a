-- ===== src/Analysis/ModuleMap/Laws.antt =====
-- The ranges stay in order, and apart.
use snail_server.Common.{
  ℕ, ◌≤◌, ◌<◌, ◌≡◌, Bool, true, false, List, [], ◌∷◌, ◌++◌, map, leb, ltb, arith, Bool-cases, inl,
  inr,
}
use snail_server.Analysis.ModuleMap.{
  AddressRange, ModuleEntry, add_active_module, span_while, split_first, split_last, new_range,
  overlap, place, last_or,
}

-- Ranges one behind the other, none empty, from an address to another.
abbrev pub Between : ℕ → List AddressRange → ℕ → Type 0
Between lo [] hi = lo ≤ hi
Between lo (r ∷ rs) hi =
    (lo ≤ r.begin_address) × (r.begin_address < r.end_address) × Between r.end_address rs hi

Between-le : (lo hi : ℕ) (rs : List AddressRange) → Between lo rs hi → lo ≤ hi
Between-le lo hi [] h = h
Between-le lo hi (r ∷ rs) h = omega (arith, Between-le r.end_address hi rs h.2)

pub Between-append :
    (lo m hi : ℕ) (rs ss : List AddressRange)
    → Between lo rs m
    → Between m ss hi
    → Between lo (rs ++ ss) hi
Between-append lo m hi [] [] h k = omega arith
Between-append lo m hi [] (s ∷ ss) h k = (omega (arith, k.0), k.1, k.2)
Between-append lo m hi (r ∷ rs) ss h k = (h.0, h.1, Between-append r.end_address m hi rs ss h.2 k)

pub Between-wider :
    (lo hi lo' hi' : ℕ) (rs : List AddressRange)
    → lo' ≤ lo
    → hi ≤ hi'
    → Between lo rs hi
    → Between lo' rs hi'
Between-wider lo hi lo' hi' [] h k b = omega arith
Between-wider lo hi lo' hi' (r ∷ rs) h k b = (
  omega (arith, b.0),
  b.1,
  Between-wider r.end_address hi r.end_address hi' rs (omega arith) k b.2,
)

add_active_module-Between :
    (e : ModuleEntry) (lo hi : ℕ) (rs : List AddressRange)
    → Between lo rs hi
    → Between lo (map (add_active_module e) rs) hi
unfolding add_active_module
add_active_module-Between e lo hi [] h = h
add_active_module-Between e lo hi (r ∷ rs) h =
    elim (Bool-cases (leb (last_or e r.active_modules).load_timestamp e.load_timestamp)) [
      | inl b ↦ rw b (h.0, h.1, add_active_module-Between e r.end_address hi rs h.2)
      | inr b ↦ rw b (h.0, h.1, add_active_module-Between e r.end_address hi rs h.2)
    ]

-- The two parts of ordered ranges: `m` is between them.
pub record Parted (lo hi : ℕ) (p : AddressRange → Bool)
    (parts : List AddressRange × List AddressRange) : Type 0 where
  pub m : ℕ
  pub left : Between lo parts.0 m
  pub right : Between m parts.1 hi

abbrev pub AllOf : (AddressRange → Bool) → List AddressRange → Type 0
AllOf p [] = Unit {0}
AllOf p (r ∷ rs) = (p r ≡ true) × AllOf p rs

abbrev pub Stops : (AddressRange → Bool) → List AddressRange → Type 0
Stops p [] = Unit {0}
Stops p (r ∷ rs) = p r ≡ false

pub span_while-AllOf :
    (p : AddressRange → Bool) (rs : List AddressRange) → AllOf p (span_while p rs).0
span_while-AllOf p [] = tt
span_while-AllOf p (r ∷ rs) = elim (Bool-cases (p r)) [
  | inl b ↦ rw b (b, span_while-AllOf p rs)
  | inr b ↦ rw b tt
]

pub span_while-Stops :
    (p : AddressRange → Bool) (rs : List AddressRange) → Stops p (span_while p rs).1
span_while-Stops p [] = tt
span_while-Stops p (r ∷ rs) = elim (Bool-cases (p r)) [
  | inl b ↦ rw b (span_while-Stops p rs)
  | inr b ↦ rw b b
]

pub span_while-Parted :
    (lo hi : ℕ) (p : AddressRange → Bool) (rs : List AddressRange)
    → Between lo rs hi
    → Parted lo hi p (span_while p rs)
span_while-Parted lo hi p [] h = record { m = hi; left = h; right = omega arith }
span_while-Parted lo hi p (r ∷ rs) h = elim (Bool-cases (p r)) [
  | inl b ↦
      let q = span_while-Parted r.end_address hi p rs h.2 in
      rw b (record { m = q.m; left = (h.0, h.1, q.left); right = q.right })
  | inr b ↦ rw b (record { m = lo; left = omega arith; right = h })
]

split_first-Between :
    (lo hi at : ℕ) (r : AddressRange) (rs : List AddressRange)
    → at < r.end_address
    → Between lo (r ∷ rs) hi
    → Parted lo hi (λ x. true) (split_first at (r ∷ rs))
split_first-Between lo hi at r rs k h = elim (Bool-cases (ltb r.begin_address at)) [
  | inl b ↦
      rw b
        (record { m = at; left = (h.0, ground arith, omega arith); right = (omega arith, k, h.2) })
  | inr b ↦ rw b (record { m = lo; left = omega arith; right = h })
]

-- Every range begins before the end of the new one.
split_last-Between :
    (lo hi at : ℕ) (rs : List AddressRange)
    → AllOf (λ x. ltb x.begin_address at) rs
    → Between lo rs hi
    → Parted lo hi (λ x. true) (split_last at rs)
split_last-Between lo hi at [] a h = record { m = hi; left = h; right = omega arith }
split_last-Between lo hi at (r ∷ []) a h = elim (Bool-cases (ltb at r.end_address)) [
  | inl b ↦ rw b (record {
    m = at;
    left = (h.0, ground arith, omega arith);
    right = (omega arith, ground arith, h.2);
  })
  | inr b ↦ rw b (record { m = hi; left = (h.0, h.1, h.2); right = omega arith })
]
split_last-Between lo hi at (r ∷ s ∷ rs) a h =
    let q = split_last-Between r.end_address hi at (s ∷ rs) a.1 h.2 in
    record { m = q.m; left = (h.0, h.1, q.left); right = q.right }

pub AllOf-span_while :
    (p q : AddressRange → Bool) (rs : List AddressRange) → AllOf p rs → AllOf p (span_while q rs).1
AllOf-span_while p q [] h = tt
AllOf-span_while p q (r ∷ rs) h = elim (Bool-cases (q r)) [
  | inl b ↦ rw b (AllOf-span_while p q rs h.1)
  | inr b ↦ rw b h
]

split_first-AllOf :
    (from to : ℕ) (rs : List AddressRange)
    → from < to
    → AllOf (λ x. ltb x.begin_address to) rs
    → AllOf (λ x. ltb x.begin_address to) (split_first from rs).1
split_first-AllOf from to [] k h = tt
split_first-AllOf from to (r ∷ rs) k h = elim (Bool-cases (ltb r.begin_address from)) [
  | inl b ↦ rw b (ground arith, h.1)
  | inr b ↦ rw b h
]

overlap-Between :
    (e : ModuleEntry) (lo hi from to : ℕ) (r : AddressRange) (rs : List AddressRange)
    → from < to
    → from < r.end_address
    → AllOf (λ x. ltb x.begin_address to) (r ∷ rs)
    → Between lo (r ∷ rs) hi
    → Between lo (overlap e from to (r ∷ rs)) hi
unfolding overlap
overlap-Between e lo hi from to r rs k l a h =
    let first = split_first from (r ∷ rs) in
    let p = split_first-Between lo hi from r rs l h in
    let q = split_last-Between p.m hi to first.1 (split_first-AllOf from to (r ∷ rs) k a) p.right in
    let last = split_last to first.1 in
    let middle = add_active_module-Between e p.m q.m last.0 q.left in
    Between-append lo q.m hi (first.0 ++ map (add_active_module e) last.0) last.1
      (Between-append lo p.m q.m first.0 (map (add_active_module e) last.0) p.left middle) q.right

-- Ranges that end by an address leave room behind them.
ended-Between :
    (lo m from : ℕ) (rs : List AddressRange)
    → lo ≤ from
    → AllOf (λ x. leb x.end_address from) rs
    → Between lo rs m
    → Between lo rs from
ended-Between lo m from [] k a h = k
ended-Between lo m from (r ∷ rs) k a h =
    (h.0, h.1, ended-Between r.end_address m from rs (ground arith) a.1 h.2)

behind-Between :
    (m hi to : ℕ) (rs : List AddressRange)
    → to ≤ hi
    → Stops (λ x. ltb x.begin_address to) rs
    → Between m rs hi
    → Between to rs hi
behind-Between m hi to [] k a h = k
behind-Between m hi to (r ∷ rs) k a h = (ground arith, h.1, h.2)

-- What is put in the place of the ranges that overlap.
pub place-Between :
    (is_same : AddressRange → Bool) (e : ModuleEntry) (lo m m' hi from to : ℕ)
    (ended overlapping behind : List AddressRange)
    → lo ≤ from
    → from < to
    → to ≤ hi
    → AllOf (λ x. leb x.end_address from) ended
    → Stops (λ x. leb x.end_address from) overlapping
    → AllOf (λ x. ltb x.begin_address to) overlapping
    → Stops (λ x. ltb x.begin_address to) behind
    → Between lo ended m
    → Between m overlapping m'
    → Between m' behind hi
    → Between lo (ended ++ (place is_same e from to overlapping).0 ++ behind) hi
place-Between is_same e lo m m' hi from to ended [] behind k l t a s al sb b o d =
    Between-append lo to hi (ended ++ new_range e from to ∷ []) behind
      (Between-append lo from to ended (new_range e from to ∷ [])
        (ended-Between lo m from ended k a b) (omega arith, l, omega arith))
      (behind-Between m' hi to behind t sb d)
place-Between is_same e lo m m' hi from to ended (r ∷ []) behind k l t a s al sb b o d =
    elim (Bool-cases (is_same r)) [
      | inl q ↦ rw q (
          Between-append lo m' hi (ended ++ r ∷ []) behind
            (Between-append lo m m' ended (r ∷ []) b o) d)
      | inr q ↦ rw q (
          Between-append lo m' hi (ended ++ overlap e from to (r ∷ [])) behind
            (Between-append lo m m' ended (overlap e from to (r ∷ [])) b
              (overlap-Between e m m' from to r [] l (ground arith) al o))
            d)
    ]
place-Between is_same e lo m m' hi from to ended (r ∷ r' ∷ rs) behind k l t a s al sb b o d =
    Between-append lo m' hi (ended ++ overlap e from to (r ∷ r' ∷ rs)) behind
      (Between-append lo m m' ended (overlap e from to (r ∷ r' ∷ rs)) b
        (overlap-Between e m m' from to r (r' ∷ rs) l (ground arith) al o))
      d
