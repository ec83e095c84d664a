-- ===== src/Jsonrpc/Transport/Decimal.antt =====
-- Decimal numbers as `operator<<` prints them and `std::from_chars` reads them.
use snail_server.Common.{
  ℕ, zero, suc, ◌+◌, ◌-◌, ◌*◌, ◌/◌, ◌%◌, ◌≤◌, ◌<◌, ◌≡◌, refl, ap, ◌∙◌, inl, inr, Bool, true, ◌&&◌,
  List, [], ◌∷◌, ◌++◌, ltb, leb, if◌then◌else◌, arith, Bool-cases, append_assoc,
}

unfoldable pub is_digit : ℕ → Bool
is_digit c = leb 48 c && leb c 57

unfoldable pub from_digits : ℕ → List ℕ → ℕ
unfolding is_digit
from_digits acc [] = acc
from_digits acc (c ∷ cs) =
    let more = from_digits (acc * 10 + (c - 48)) cs in if is_digit c then more else acc

-- Fuel `n` is enough for the digits of `n`.
pub decimal_fuel : ℕ → ℕ → List ℕ
decimal_fuel zero n = (48 + n % 10) ∷ []
decimal_fuel (suc fuel) n =
    let front = decimal_fuel fuel (n / 10) in
    if ltb n 10 then (48 + n) ∷ [] else front ++ (48 + n % 10) ∷ []

unfoldable pub decimal : ℕ → List ℕ
unfolding decimal_fuel
decimal n = decimal_fuel n n

from_digits-digit :
    (acc d : ℕ) (cs : List ℕ)
    → d < 10
    → from_digits acc ((48 + d) ∷ cs) ≡ from_digits (acc * 10 + d) cs
unfolding from_digits
from_digits-digit acc d cs h = let e : 48 + d - 48 ≡ d = omega arith in rw e (ground arith)

from_digits-decimal_fuel :
    (fuel n : ℕ) (tail : List ℕ)
    → n ≤ fuel
    → from_digits 0 (decimal_fuel fuel n ++ tail) ≡ from_digits n tail
unfolding decimal_fuel
from_digits-decimal_fuel zero n tail h =
    let e : n ≡ 0 = omega arith in
    rw e (from_digits-digit 0 0 tail (omega arith) ∙ ap (λ k. from_digits k tail) (omega arith))
from_digits-decimal_fuel (suc fuel) n tail h = elim (Bool-cases (ltb n 10)) [
  | inl s ↦
      rw s (from_digits-digit 0 n tail (ground arith) ∙ ap (λ k. from_digits k tail) (omega arith))
  | inr b ↦ rw b (
      ap (from_digits 0) (append_assoc (decimal_fuel fuel (n / 10)) ((48 + n % 10) ∷ []) tail)
      ∙ from_digits-decimal_fuel fuel (n / 10) ((48 + n % 10) ∷ tail) (ground arith)
      ∙ from_digits-digit (n / 10) (n % 10) tail (omega arith)
      ∙ ap (λ k. from_digits k tail) (omega arith))
]

-- Reading a printed number gives it back and goes on behind it.
pub from_digits-decimal :
    (n : ℕ) (tail : List ℕ) → from_digits 0 (decimal n ++ tail) ≡ from_digits n tail
unfolding decimal
from_digits-decimal n tail = from_digits-decimal_fuel n n tail (omega arith)

abbrev pub AllDigits : List ℕ → Type 0
AllDigits [] = Unit {0}
AllDigits (c ∷ cs) = (is_digit c ≡ true) × AllDigits cs

AllDigits-append : (xs ys : List ℕ) → AllDigits xs → AllDigits ys → AllDigits (xs ++ ys)
AllDigits-append [] ys h k = k
AllDigits-append (x ∷ xs) ys (p, h) k = (p, AllDigits-append xs ys h k)

decimal_fuel-AllDigits : (fuel n : ℕ) → AllDigits (decimal_fuel fuel n)
unfolding decimal_fuel is_digit
decimal_fuel-AllDigits zero n = (ground arith, tt)
decimal_fuel-AllDigits (suc fuel) n = elim (Bool-cases (ltb n 10)) [
  | inl s ↦ rw s (ground arith, tt)
  | inr b ↦ rw b (
      AllDigits-append (decimal_fuel fuel (n / 10)) ((48 + n % 10) ∷ [])
        (decimal_fuel-AllDigits fuel (n / 10)) (ground arith, tt))
]

pub decimal-AllDigits : (n : ℕ) → AllDigits (decimal n)
unfolding decimal
decimal-AllDigits n = decimal_fuel-AllDigits n n

decimal_fuel_first : (fuel n : ℕ) → (c : ℕ) × (cs : List ℕ) × (decimal_fuel fuel n ≡ c ∷ cs)
unfolding decimal_fuel
decimal_fuel_first zero n = (48 + n % 10, [], refl)
decimal_fuel_first (suc fuel) n = elim (Bool-cases (ltb n 10)) [
  | inl s ↦ (48 + n, [], rw s)
  | inr b ↦
      let (c, cs, e) = decimal_fuel_first fuel (n / 10) in
      (c, cs ++ (48 + n % 10) ∷ [], rw b (ap (λ x. x ++ (48 + n % 10) ∷ []) e))
]

pub decimal_first : (n : ℕ) → (c : ℕ) × (cs : List ℕ) × (decimal n ≡ c ∷ cs)
unfolding decimal
decimal_first n = decimal_fuel_first n n
