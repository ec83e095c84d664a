-- ===== src/Analysis/ModuleMap/Insert.antt =====
-- Every insertion keeps the ranges in order.
use snail_server.Common.{
  ℕ, ◌+◌, ◌^◌, ◌≤◌, ◌<◌, ◌≡◌, Bool, true, List, [], ◌∷◌, ◌++◌, map, Option, none, some, leb, ltb,
  arith, Bool-cases, inl, inr, min, max,
}
use snail_server.Analysis.ModuleMap.{
  AddressRange, ModuleEntry, span_while, new_range, Placed, insert_between, insert_inside,
  insert_behind, insert_range, total_end, LoadedModule, ModuleMap, module_end, insert, keep_placed,
  is_same,
}
use snail_server.Analysis.ModuleMap.Laws.{
  Between, AllOf, Stops, place-Between, span_while-AllOf, span_while-Stops, span_while-Parted,
  AllOf-span_while, Between-append, Between-wider,
}

-- No iterator leaves the vector, and what is placed is in order.
abbrev pub IsPlaced : ℕ → ℕ → Option Placed → Type 0
IsPlaced lo hi none = ⊥
IsPlaced lo hi (some p) = Between lo p.0 hi

insert_between-IsPlaced :
    (is_same : AddressRange → Bool) (e : ModuleEntry) (lo m hi from to : ℕ) (r : AddressRange)
    (rs behind : List AddressRange)
    → lo ≤ from
    → from < to
    → to ≤ hi
    → AllOf (λ x. ltb x.begin_address to) (r ∷ rs)
    → Stops (λ x. ltb x.begin_address to) behind
    → Between lo (r ∷ rs) m
    → Between m behind hi
    → IsPlaced lo hi (insert_between is_same e from to (r ∷ rs) behind)
insert_between-IsPlaced is_same e lo m hi from to r rs behind k l t a s b d =
    let has_ended : AddressRange → Bool = λ x. leb x.end_address from in
    let p = span_while-Parted lo m has_ended (r ∷ rs) b in
    place-Between is_same e lo p.m m hi from to (span_while has_ended (r ∷ rs)).0
      (span_while has_ended (r ∷ rs)).1 behind k l t (span_while-AllOf has_ended (r ∷ rs))
      (span_while-Stops has_ended (r ∷ rs))
      (AllOf-span_while (λ x. ltb x.begin_address to) has_ended (r ∷ rs) a) s p.left p.right d

insert_inside-IsPlaced :
    (is_same : AddressRange → Bool) (e : ModuleEntry) (lo hi from to : ℕ) (r : AddressRange)
    (rs : List AddressRange)
    → lo ≤ from
    → r.begin_address ≤ from
    → from < to
    → to ≤ hi
    → Between lo (r ∷ rs) hi
    → IsPlaced lo hi (insert_inside is_same e from to (r ∷ rs))
unfolding insert_inside
insert_inside-IsPlaced is_same e lo hi from to r rs k f l t b =
    let begins : AddressRange → Bool = λ x. ltb x.begin_address to in
    let first : ltb r.begin_address to ≡ true = ground arith in
    let p = span_while-Parted r.end_address hi begins rs b.2 in
    rw first (
      insert_between-IsPlaced is_same e lo p.m hi from to r (span_while begins rs).0
        (span_while begins rs).1 k l t (first, span_while-AllOf begins rs)
        (span_while-Stops begins rs) (b.0, b.1, p.left) p.right)

Between-total_end :
    (lo hi : ℕ) (r : AddressRange) (rs : List AddressRange)
    → Between lo (r ∷ rs) hi
    → Between lo (r ∷ rs) (total_end r rs)
Between-total_end lo hi r [] h = (h.0, h.1, omega arith)
Between-total_end lo hi r (s ∷ rs) h = (h.0, h.1, Between-total_end r.end_address hi s rs h.2)

insert_behind-IsPlaced :
    (is_same : AddressRange → Bool) (e : ModuleEntry) (lo hi from to : ℕ) (r : AddressRange)
    (rs : List AddressRange)
    → lo ≤ from
    → r.begin_address ≤ from
    → from < to
    → Between lo (r ∷ rs) hi
    → IsPlaced lo (max (total_end r rs) to) (insert_behind is_same e from to r rs)
unfolding insert_behind
insert_behind-IsPlaced is_same e lo hi from to r rs k f l h =
    let end = total_end r rs in
    let b = Between-total_end lo hi r rs h in
    elim (Bool-cases (ltb end to)) [
      | inl c ↦
          let more = new_range e (max end from) to ∷ [] in
          let wide : Between lo (r ∷ rs ++ more) (max end to) =
            Between-append lo end (max end to) (r ∷ rs) more b
              (omega arith, ground arith, omega arith) in
          elim (Bool-cases (leb end from)) [
            | inl d ↦ rw (c, d) wide
            | inr d ↦
                rw (c, d)
                  (insert_inside-IsPlaced is_same e lo (max end to) from end r (rs ++ more) k f
                    (ground arith) (omega arith) wide)
          ]
      | inr c ↦ rw c (
          insert_inside-IsPlaced is_same e lo (max end to) from to r rs k f l (omega arith)
            (Between-wider lo end lo (max end to) (r ∷ rs) (omega arith) (omega arith) b))
    ]

-- The ranges are in order: none is empty, and each ends before the next begins.
abbrev pub IsOrdered : List AddressRange → Type 0
IsOrdered rs = (hi : ℕ) × Between 0 rs hi

abbrev pub AreOrdered : Option Placed → Type 0
AreOrdered none = ⊥
AreOrdered (some p) = IsOrdered p.0

IsPlaced-AreOrdered : (hi : ℕ) (o : Option Placed) → IsPlaced 0 hi o → AreOrdered o
IsPlaced-AreOrdered hi none h = h
IsPlaced-AreOrdered hi (some p) h = (hi, h)

insert_range-AreOrdered :
    (is_same : AddressRange → Bool) (e : ModuleEntry) (from to : ℕ) (rs : List AddressRange)
    → from < to
    → IsOrdered rs
    → AreOrdered (insert_range is_same e from to rs)
unfolding insert_range
insert_range-AreOrdered is_same e from to [] l h = (to, (omega arith, l, omega arith))
insert_range-AreOrdered is_same e from to (r ∷ rs) l (hi, h) =
    elim (Bool-cases (ltb from r.begin_address)) [
      | inl c ↦
          let before = new_range e from (min r.begin_address to) in
          let b : Between 0 (before ∷ r ∷ rs) hi =
            (omega arith, ground arith, (omega arith, h.1, h.2)) in
          elim (Bool-cases (leb to r.begin_address)) [
            | inl d ↦ rw (c, d) (hi, b)
            | inr d ↦
                rw (c, d)
                  (IsPlaced-AreOrdered _ _ (
                    insert_behind-IsPlaced is_same e 0 hi r.begin_address to before (r ∷ rs)
                      (omega arith) (ground arith) (ground arith) b))
          ]
      | inr c ↦ rw c (
          IsPlaced-AreOrdered _ _
            (insert_behind-IsPlaced is_same e 0 hi from to r rs (omega arith) (ground arith) l h))
    ]

module _ {D : Type 0} (same_payload : D → D → Bool) where
  abbrev pub IsOrderedMap : Option (ModuleMap same_payload) → Type 0
  IsOrderedMap none = ⊥
  IsOrderedMap (some m) = IsOrdered m.address_ranges

  keep_placed-IsOrderedMap :
      (map : ModuleMap same_payload) (m : LoadedModule same_payload) (o : Option Placed)
      → AreOrdered o
      → IsOrderedMap (keep_placed same_payload map m o)
  keep_placed-IsOrderedMap map m none h = h
  keep_placed-IsOrderedMap map m (some p) h = h

  -- No iterator leaves the vector, and the address ranges stay in order, none empty and none
  -- overlapping another, whatever module is inserted that is not empty and ends in 64 bits.
  pub insert-IsOrderedMap :
      (m : LoadedModule same_payload) (load_timestamp : ℕ) (map : ModuleMap same_payload)
      → 0 < m.size
      → m.base + m.size < 2 ^ 64
      → IsOrdered map.address_ranges
      → IsOrderedMap (insert same_payload m load_timestamp map)
  unfolding insert
  insert-IsOrderedMap m load_timestamp map h k o = keep_placed-IsOrderedMap map m _ (
      insert_range-AreOrdered _ _ m.base (module_end same_payload m) map.address_ranges
        (omega arith) o)
