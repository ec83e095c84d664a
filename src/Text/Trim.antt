-- ===== src/Text/Trim.antt =====
-- snail/common/trim.cpp. `std::isspace` is that of the "C" locale.
pub mod Examples
use snail_server.Common.{
  ℕ, ◌≡◌, refl, sym, ap, ◌∙◌, inl, inr, Bool, true, false, ◌&&◌, ◌||◌, List, [], ◌∷◌, ◌++◌, ◌==◌,
  leb, if◌then◌else◌, arith, Bool-cases, append_assoc, append-nil,
}
use mathlib.Core.List.{reverse, reverse-append, reverse-reverse}

-- Tab, line feed, vertical tab, form feed, carriage return and blank.
unfoldable pub is_space : ℕ → Bool
is_space c = c == 32 || (leb 9 c && leb c 13)

pub trim_left : List ℕ → List ℕ
trim_left [] = []
trim_left (c ∷ cs) = let rest = trim_left cs in if is_space c then rest else c ∷ cs

-- The search runs over the reversed text.
pub trim_right : List ℕ → List ℕ
trim_right input = reverse (trim_left (reverse input))

pub trim : List ℕ → List ℕ
trim input = trim_left (trim_right input)

abbrev pub AllSpace : List ℕ → Type 0
AllSpace [] = Unit {0}
AllSpace (c ∷ cs) = (is_space c ≡ true) × AllSpace cs

abbrev pub NoSpaceFirst : List ℕ → Type 0
NoSpaceFirst [] = Unit {0}
NoSpaceFirst (c ∷ cs) = is_space c ≡ false

AllSpace-append : (xs ys : List ℕ) → AllSpace xs → AllSpace ys → AllSpace (xs ++ ys)
AllSpace-append [] ys h k = k
AllSpace-append (x ∷ xs) ys (p, h) k = (p, AllSpace-append xs ys h k)

AllSpace-reverse : (xs : List ℕ) → AllSpace xs → AllSpace (reverse xs)
AllSpace-reverse [] h = tt
AllSpace-reverse (x ∷ xs) (p, h) =
    rw (reverse-append (x ∷ []) xs)
      (AllSpace-append (reverse xs) (x ∷ []) (AllSpace-reverse xs h) (p, tt))

trim_left_split :
    (cs : List ℕ)
    → (blank : List ℕ) × (cs ≡ blank ++ trim_left cs) × AllSpace blank × NoSpaceFirst (trim_left cs)
unfolding trim_left
trim_left_split [] = ([], refl, tt, tt)
trim_left_split (c ∷ cs) = elim (Bool-cases (is_space c)) [
  | inl s ↦ let (blank, e, a, n) = trim_left_split cs in rw s (c ∷ blank, ap (◌∷◌ c) e, (s, a), n)
  | inr s ↦ rw s ([], refl, tt, s)
]

trim_left_lem : (cs : List ℕ) → NoSpaceFirst cs → trim_left cs ≡ cs
unfolding trim_left
trim_left_lem [] n = refl
trim_left_lem (c ∷ cs) n = rw n

trim_right_split :
    (cs : List ℕ)
    → (blank : List ℕ) × (cs ≡ trim_right cs ++ blank)
      × AllSpace blank
      × NoSpaceFirst (reverse (trim_right cs))
unfolding trim_right
trim_right_split cs =
    let (blank, e, a, n) = trim_left_split (reverse cs) in
    (
      reverse blank,
      sym (reverse-reverse cs) ∙ ap reverse e ∙ reverse-append blank (trim_left (reverse cs)),
      AllSpace-reverse blank a,
      rw (reverse-reverse (trim_left (reverse cs))) n,
    )

-- `trim` takes blanks off both ends and nothing else: the text is a blank part, the result and
-- another blank part, and the result begins with no blank.
pub trim_split :
    (cs : List ℕ)
    → (before after : List ℕ) × (cs ≡ before ++ (trim cs ++ after))
      × AllSpace before
      × AllSpace after
      × NoSpaceFirst (trim cs)
unfolding trim
trim_split cs =
    let (after, e, a, n) = trim_right_split cs in
    let (before, f, b, m) = trim_left_split (trim_right cs) in
    (
      before,
      after,
      e ∙ ap (λ x. x ++ after) f ∙ append_assoc before (trim_left (trim_right cs)) after,
      b,
      a,
      m,
    )
