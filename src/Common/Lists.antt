-- ===== src/Common/Lists.antt =====
-- Lists measured and indexed by native numbers, under the library's names.
use Prim.Native.Nat.{ℕ, zero, suc, ◌+◌, ◌-◌, ◌<◌, min}
use mathlib.Core.Path.{◌≡◌, refl, ap, subst}
use mathlib.Core.List.{List, [], ◌∷◌, ◌++◌}
use mathlib.Core.Option.{Option, none, some}
use mathlib.Core.Bool.{Bool}
use mathlib.Core.Logic.{◌≢◌, ◌⊎◌, inl, inr}
use snail_server.Common.Tests.{if◌then◌else◌, Option-cases}
use native.Mathlib.Omega.{arith}

module _ {ℓ} {A : Type ℓ} where
  abbrev pub length : List A → ℕ
  length [] = 0
  length (x ∷ xs) = suc (length xs)

  abbrev pub get_elem? : List A → ℕ → Option A
  get_elem? [] i = none
  get_elem? (x ∷ xs) zero = some x
  get_elem? (x ∷ xs) (suc i) = get_elem? xs i

  abbrev pub take : ℕ → List A → List A
  take zero xs = []
  take (suc n) [] = []
  take (suc n) (x ∷ xs) = x ∷ take n xs

  abbrev pub drop : ℕ → List A → List A
  drop zero xs = xs
  drop (suc n) [] = []
  drop (suc n) (x ∷ xs) = drop n xs

  -- A write out of range changes nothing.
  abbrev pub set : List A → ℕ → A → List A
  set [] i v = []
  set (x ∷ xs) zero v = v ∷ xs
  set (x ∷ xs) (suc i) v = x ∷ set xs i v

  pub length-append : (xs ys : List A) → length (xs ++ ys) ≡ length xs + length ys
  length-append [] ys = omega arith
  length-append (x ∷ xs) ys = omega (arith, length-append xs ys)

  pub take-append-drop : (n : ℕ) (xs : List A) → take n xs ++ drop n xs ≡ xs
  take-append-drop zero xs = refl
  take-append-drop (suc n) [] = refl
  take-append-drop (suc n) (x ∷ xs) = rw (take-append-drop n xs)

  pub length-take : (n : ℕ) (xs : List A) → length (take n xs) ≡ min n (length xs)
  length-take zero xs = omega arith
  length-take (suc n) [] = omega arith
  length-take (suc n) (x ∷ xs) = omega (arith, length-take n xs)

  pub length-drop : (n : ℕ) (xs : List A) → length (drop n xs) ≡ length xs - n
  length-drop zero xs = omega arith
  length-drop (suc n) [] = omega arith
  length-drop (suc n) (x ∷ xs) = omega (arith, length-drop n xs)

  pub take-length_append : (xs ys : List A) → take (length xs) (xs ++ ys) ≡ xs
  take-length_append [] ys = refl
  take-length_append (x ∷ xs) ys = ap (◌∷◌ x) (take-length_append xs ys)

  pub drop-length_append : (xs ys : List A) → drop (length xs) (xs ++ ys) ≡ ys
  drop-length_append [] ys = refl
  drop-length_append (x ∷ xs) ys = drop-length_append xs ys

  pub get_elem?-append_left :
      (xs ys : List A) (i : ℕ) → i < length xs → get_elem? (xs ++ ys) i ≡ get_elem? xs i
  get_elem?-append_left [] ys i h = absurd (omega arith)
  get_elem?-append_left (x ∷ xs) ys zero h = refl
  get_elem?-append_left (x ∷ xs) ys (suc i) h = get_elem?-append_left xs ys i (omega arith)

  pub get_elem?-below : (xs : List A) (i : ℕ) → i < length xs → (x : A) × (get_elem? xs i ≡ some x)
  get_elem?-below [] i h = absurd (omega arith)
  get_elem?-below (x ∷ xs) zero h = (x, refl)
  get_elem?-below (x ∷ xs) (suc i) h = get_elem?-below xs i (omega arith)

  pub get_elem?-append_some :
      (xs ys : List A) (i : ℕ) (x : A) → get_elem? xs i ≡ some x → get_elem? (xs ++ ys) i ≡ some x
  get_elem?-append_some [] ys i x h = cc
  get_elem?-append_some (z ∷ xs) ys zero x h = h
  get_elem?-append_some (z ∷ xs) ys (suc i) x h = get_elem?-append_some xs ys i x h

  -- An item of a list that was extended by one is an old one or the new one.
  pub get_elem?-append_inv :
      (xs : List A) (y : A) (i : ℕ) (x : A)
      → get_elem? (xs ++ y ∷ []) i ≡ some x
      → (get_elem? xs i ≡ some x) ⊎ ((i ≡ length xs) × (x ≡ y))
  get_elem?-append_inv [] y zero x h = inr (refl, cc)
  get_elem?-append_inv [] y (suc i) x h = absurd (cc h)
  get_elem?-append_inv (z ∷ xs) y zero x h = inl h
  get_elem?-append_inv (z ∷ xs) y (suc i) x h = elim (get_elem?-append_inv xs y i x h) [
    | inl e ↦ inl e
    | inr (e, k) ↦ inr (ap suc e, k)
  ]

  pub get_elem?-append_end : (xs : List A) (y : A) → get_elem? (xs ++ y ∷ []) (length xs) ≡ some y
  get_elem?-append_end [] y = refl
  get_elem?-append_end (x ∷ xs) y = get_elem?-append_end xs y

  -- How many items pass a test.
  abbrev pub count_if : (A → Bool) → List A → ℕ
  count_if p [] = 0
  count_if p (x ∷ xs) = (if p x then 1 else 0) + count_if p xs

  pub count_if-append :
      (p : A → Bool) (xs ys : List A) → count_if p (xs ++ ys) ≡ count_if p xs + count_if p ys
  count_if-append p [] ys = omega arith
  count_if-append p (x ∷ xs) ys = omega (arith, count_if-append p xs ys)

  -- Take out the item at an index.
  abbrev pub cons_rest : A → Option (A × List A) → Option (A × List A)
  cons_rest x none = none
  cons_rest x (some (y, rest)) = some (y, x ∷ rest)

  abbrev pub take_at : ℕ → List A → Option (A × List A)
  take_at i [] = none
  take_at zero (x ∷ xs) = some (x, xs)
  take_at (suc i) (x ∷ xs) = cons_rest x (take_at i xs)

  pub count_if-take_at :
      (p : A → Bool) (i : ℕ) (xs : List A) (y : A) (rest : List A)
      → take_at i xs ≡ some (y, rest)
      → count_if p xs ≡ (if p y then 1 else 0) + count_if p rest
  count_if-take_at p i [] y rest h = cc
  count_if-take_at p zero (x ∷ xs) y rest h = ground arith
  count_if-take_at p (suc i) (x ∷ xs) y rest h = elim (Option-cases (take_at i xs)) [
    | inl e ↦ ground arith
    | inr ((z, more), e) ↦ ground (arith, count_if-take_at p i xs z more e)
  ]

  pub take_at-append :
      (i : ℕ) (xs ys : List A) (y : A) (rest : List A)
      → take_at i xs ≡ some (y, rest)
      → take_at i (xs ++ ys) ≡ some (y, rest ++ ys)
  take_at-append i [] ys y rest h = cc
  take_at-append zero (x ∷ xs) ys y rest h = ground arith
  take_at-append (suc i) (x ∷ xs) ys y rest h = elim (Option-cases (take_at i xs)) [
    | inl e ↦ absurd (ground arith)
    | inr ((z, more), e) ↦ ground (arith, take_at-append i xs ys z more e)
  ]

  pub take_at-append_end : (xs : List A) (y : A) → take_at (length xs) (xs ++ y ∷ []) ≡ some (y, xs)
  take_at-append_end [] y = refl
  take_at-append_end (x ∷ xs) y = rw (take_at-append_end xs y)

  pub get_elem?-set_same :
      (xs : List A) (i : ℕ) (x y : A) → get_elem? xs i ≡ some x → get_elem? (set xs i y) i ≡ some y
  get_elem?-set_same [] i x y h = absurd (ground arith)
  get_elem?-set_same (z ∷ xs) zero x y h = refl
  get_elem?-set_same (z ∷ xs) (suc i) x y h = get_elem?-set_same xs i x y h

  pub get_elem?-set_other :
      (xs : List A) (i j : ℕ) (y : A) → j ≢ i → get_elem? (set xs i y) j ≡ get_elem? xs j
  get_elem?-set_other [] i j y h = refl
  get_elem?-set_other (z ∷ xs) zero zero y h = absurd (h refl)
  get_elem?-set_other (z ∷ xs) zero (suc j) y h = refl
  get_elem?-set_other (z ∷ xs) (suc i) zero y h = refl
  get_elem?-set_other (z ∷ xs) (suc i) (suc j) y h =
      get_elem?-set_other xs i j y (λ e. h (ap suc e))

-- What holds of every item.
module _ {ℓ} {A : Type ℓ} (P : A → Type 0) where
  abbrev pub All : List A → Type 0
  All [] = Unit {0}
  All (x ∷ xs) = P x × All xs

  pub All-append : (xs : List A) (y : A) → All xs → P y → All (xs ++ y ∷ [])
  All-append [] y x p = (p, tt)
  All-append (z ∷ xs) y (q, qs) p = (q, All-append xs y qs p)

  pub All-get_elem? : (xs : List A) (i : ℕ) (x : A) → All xs → get_elem? xs i ≡ some x → P x
  All-get_elem? [] i x h e = absurd (cc e)
  All-get_elem? (y ∷ ys) zero x (p, ps) e = let o : y ≡ x = ground (arith, e) in subst P o p
  All-get_elem? (y ∷ ys) (suc i) x (p, ps) e = All-get_elem? ys i x ps e

pub All-weaken {ℓ} :
    {A : Type ℓ} (P Q : A → Type 0) (xs : List A) → ((x : A) → P x → Q x) → All P xs → All Q xs
All-weaken P Q [] h x = tt
All-weaken P Q (y ∷ ys) h (p, ps) = (h y p, All-weaken P Q ys h ps)
