-- ===== src/Analysis/PerfContext/Samples.antt =====
-- The samples of a thread between two times.
use snail_server.Common.{
  ℕ, zero, suc, ◌-◌, ◌≤◌, ◌≡◌, refl, sym, ◌∙◌, ap, Bool, true, false, ◌&&◌, List, [], ◌∷◌, Option,
  none, some, ◌==◌, ltb, leb, length, take, drop, if◌then◌else◌, arith, Bool-cases, inl, inr,
}
use snail_server.Analysis.PerfContext.{SampleInfo}
use snail_server.Analysis.PerfContext.Queries.{
  count_while, lower_bound, upper_bound, part_of, samples_between,
}

abbrev pub is_until : Option ℕ → SampleInfo → Bool
is_until none s = true
is_until (some end) s = leb s.timestamp end

-- The window, the plain way.
abbrev pub is_within : ℕ → Option ℕ → SampleInfo → Bool
is_within start end s = leb start s.timestamp && is_until end s

abbrev pub filter : (SampleInfo → Bool) → List SampleInfo → List SampleInfo
filter p [] = []
filter p (s ∷ ss) = let kept = filter p ss in if p s then s ∷ kept else kept

abbrev pub AllFrom : ℕ → List SampleInfo → Type 0
AllFrom t [] = Unit {0}
AllFrom t (s ∷ ss) = (t ≤ s.timestamp) × AllFrom t ss

abbrev pub IsSorted : List SampleInfo → Type 0
IsSorted [] = Unit {0}
IsSorted (s ∷ ss) = AllFrom s.timestamp ss × IsSorted ss

AllFrom-le : (t u : ℕ) (ss : List SampleInfo) → t ≤ u → AllFrom u ss → AllFrom t ss
AllFrom-le t u [] h k = tt
AllFrom-le t u (s ∷ ss) h k = (omega arith, AllFrom-le t u ss h k.1)

filter_late :
    (start end : ℕ) (ss : List SampleInfo)
    → AllFrom (suc end) ss
    → filter (is_within start (some end)) ss ≡ []
filter_late start end [] h = refl
filter_late start end (s ∷ ss) h =
    let late : leb s.timestamp end ≡ false = ground arith in
    elim (Bool-cases (leb start s.timestamp)) [
      | inl b ↦ rw (b, late) (filter_late start end ss h.1)
      | inr b ↦ rw b (filter_late start end ss h.1)
    ]

lower_bound_zero : (start : ℕ) (ss : List SampleInfo) → AllFrom start ss → lower_bound start ss ≡ 0
unfolding count_while
lower_bound_zero start [] h = refl
lower_bound_zero start (s ∷ ss) h =
    let e : ltb s.timestamp start ≡ false = ground arith in rw e refl

take-upper_bound :
    (start : ℕ) (end : Option ℕ) (ss : List SampleInfo)
    → AllFrom start ss
    → IsSorted ss
    → take (upper_bound end ss) ss ≡ filter (is_within start end) ss
unfolding count_while
take-upper_bound start none [] h k = refl
take-upper_bound start none (s ∷ ss) h k =
    let e : leb start s.timestamp ≡ true = ground arith in
    rw e (ap (◌∷◌ s) (take-upper_bound start none ss h.1 k.1))
take-upper_bound start (some end) [] h k = refl
take-upper_bound start (some end) (s ∷ ss) h k =
    let e : leb start s.timestamp ≡ true = ground arith in
    elim (Bool-cases (leb s.timestamp end)) [
      | inl b ↦ rw (e, b) (ap (◌∷◌ s) (take-upper_bound start (some end) ss h.1 k.1))
      | inr b ↦
          rw (e, b)
            (sym
              (filter_late start end ss (AllFrom-le (suc end) s.timestamp ss (ground arith) k.0)))
    ]

part_of-suc :
    (first end : ℕ) (s : SampleInfo) (ss : List SampleInfo)
    → part_of (suc first) (suc end) (s ∷ ss) ≡ part_of first end ss
part_of-suc first end s ss =
    let e : ltb (suc end) (suc first) ≡ ltb end first = ground arith in
    let d : suc end - suc first ≡ end - first = omega arith in rw (e, d) refl

part_of-none : (first : ℕ) (ss : List SampleInfo) → part_of (suc first) 0 ss ≡ []
part_of-none first ss = let e : ltb 0 (suc first) ≡ true = ground arith in rw e refl

part_of_zero : (end : ℕ) (ss : List SampleInfo) → part_of 0 end ss ≡ take end ss
part_of_zero end ss =
    let e : ltb end 0 ≡ false = ground arith in
    let d : end - 0 ≡ end = omega arith in rw (e, d) refl

part_of-filter :
    (start : ℕ) (end : Option ℕ) (ss : List SampleInfo)
    → IsSorted ss
    → part_of (lower_bound start ss) (upper_bound end ss) ss ≡ filter (is_within start end) ss
unfolding count_while
part_of-filter start none [] k = refl
part_of-filter start (some end) [] k = refl
part_of-filter start none (s ∷ ss) k = elim (Bool-cases (ltb s.timestamp start)) [
  | inl b ↦
      let e : leb start s.timestamp ≡ false = ground arith in
      rw (b, e)
        (part_of-suc (lower_bound start ss) (length ss) s ss ∙ part_of-filter start none ss k.1)
  | inr b ↦
      let all : AllFrom start (s ∷ ss) =
        (ground arith, AllFrom-le start s.timestamp ss (ground arith) k.0) in
      rw (lower_bound_zero start (s ∷ ss) all)
        (part_of_zero (length (s ∷ ss)) (s ∷ ss) ∙ take-upper_bound start none (s ∷ ss) all k)
]
part_of-filter start (some end) (s ∷ ss) k = elim (Bool-cases (ltb s.timestamp start)) [
  | inl b ↦
      let e : leb start s.timestamp ≡ false = ground arith in
      elim (Bool-cases (leb s.timestamp end)) [
        | inl d ↦
            rw (b, e, d)
              (part_of-suc (lower_bound start ss) (upper_bound (some end) ss) s ss
                ∙ part_of-filter start (some end) ss k.1)
        | inr d ↦
            rw (b, e, d)
              (part_of-none (lower_bound start ss) (s ∷ ss)
                ∙ sym (
                    filter_late start end ss
                      (AllFrom-le (suc end) s.timestamp ss (ground arith) k.0)))
      ]
  | inr b ↦
      let all : AllFrom start (s ∷ ss) =
        (ground arith, AllFrom-le start s.timestamp ss (ground arith) k.0) in
      ap (λ n. part_of n (upper_bound (some end) (s ∷ ss)) (s ∷ ss))
        (lower_bound_zero start (s ∷ ss) all)
      ∙ part_of_zero (upper_bound (some end) (s ∷ ss)) (s ∷ ss)
      ∙ take-upper_bound start (some end) (s ∷ ss) all k
]

drop_all : (ss : List SampleInfo) (n : ℕ) → take n (drop (length ss) ss) ≡ []
drop_all [] zero = refl
drop_all [] (suc n) = refl
drop_all (s ∷ ss) n = drop_all ss n

part_of_end : (end : ℕ) (ss : List SampleInfo) → part_of (length ss) end ss ≡ []
part_of_end end ss = elim (Bool-cases (ltb end (length ss))) [
  | inl b ↦ rw b refl
  | inr b ↦ rw b (drop_all ss (end - length ss))
]

-- In samples that are ordered by time, the search finds the window that `filter` takes.
pub samples_between-filter :
    (start : ℕ) (end : Option ℕ) (ss : List SampleInfo)
    → IsSorted ss
    → samples_between start end ss ≡ filter (is_within start end) ss
unfolding samples_between
samples_between-filter start end ss k = elim (Bool-cases (lower_bound start ss == length ss)) [
  | inl b ↦
      let e : length ss ≡ lower_bound start ss = ground arith in
      rw b (
        sym (part_of_end (upper_bound end ss) ss)
        ∙ ap (λ n. part_of n (upper_bound end ss) ss) e
        ∙ part_of-filter start end ss k)
  | inr b ↦ rw b (part_of-filter start end ss k)
]
