-- ===== src/Server/Storage/Page/Laws.antt =====
-- Which functions stand on which page.
use snail_server.Common.{
  ℕ, zero, suc, ◌+◌, ◌-◌, ◌*◌, ◌%◌, ◌^◌, ◌≤◌, ◌<◌, min, ◌≡◌, refl, sym, ap, ap₂, ◌∙◌, Bool, true,
  false, List, [], ◌∷◌, none, some, length, take, drop, length-drop, length-take, leb, arith,
}
use snail_server.Server.Storage.Page.{span, page_of}

module _ {A : Type 0} where
  drop-min : (a : ℕ) (xs : List A) → drop (min a (length xs)) xs ≡ drop a xs
  drop-min zero xs = ground arith
  drop-min (suc a) [] = let e : min (suc a) 0 ≡ 0 = omega arith in ap (λ m. drop m []) e
  drop-min (suc a) (x ∷ xs) = ground (arith, drop-min a xs)

  take-min : (k : ℕ) (xs : List A) → take (min k (length xs)) xs ≡ take k xs
  take-min zero xs = ground arith
  take-min (suc k) [] = let e : min (suc k) 0 ≡ 0 = omega arith in ap (λ m. take m []) e
  take-min (suc k) (x ∷ xs) = ground (arith, take-min k xs)

  between :
      (a k : ℕ) (xs : List A)
      → take (min (a + k) (length xs) - min a (length xs)) (drop (min a (length xs)) xs)
        ≡ take k (drop a xs)
  between a k xs =
      let e : min (a + k) (length xs) - min a (length xs) ≡ min k (length xs - a) = omega arith in
      ap₂ take (e ∙ ap (min k) (sym (length-drop a xs))) (drop-min a xs) ∙ take-min k (drop a xs)

  span-in_range :
      (start from to : ℕ) (xs : List A)
      → from ≤ to
      → start + (to - from) ≤ length xs
      → to ≤ length xs
      → length xs < 2 ^ 64
      → span xs start ((2 ^ 64 + to - from) % 2 ^ 64) ≡ some (take (to - from) (drop start xs))
  unfolding span
  span-in_range start from to xs h1 h2 h3 h4 =
      let e : (2 ^ 64 + to - from) % 2 ^ 64 ≡ to - from = omega arith in
      let b : leb (start + (to - from)) (length xs) ≡ true = ground arith in rw (e, b) refl

  -- A page is the run of `page_size` elements that starts at `page_index * page_size`, cut at the end
  -- of the vector, as long as the numbers fit 64 bits.
  pub page_of-in_order :
      (page_size page_index : ℕ) (xs : List A)
      → (page_index + 1) * page_size < 2 ^ 64
      → page_index + 1 < 2 ^ 64
      → length xs < 2 ^ 64
      → page_of false page_size page_index xs
        ≡ some (take page_size (drop (page_index * page_size) xs))
  unfolding page_of span
  page_of-in_order k i xs h1 h2 h3 =
      let e1 : (i + 1) % 2 ^ 64 ≡ i + 1 = omega arith in
      let e2 : (i + 1) * k ≡ i * k + k = omega arith in
      let e3 : (i * k) % 2 ^ 64 ≡ i * k = omega arith in
      let e4 : (i * k + k) % 2 ^ 64 ≡ i * k + k = omega arith in
      rw (e1, e2, e3, e4)
        (span-in_range _ (min (i * k) (length xs)) (min (i * k + k) (length xs)) xs (omega arith)
            (omega arith) (omega arith) h3
          ∙ ap some (between (i * k) k xs))

  take-drop : (s c : ℕ) (xs : List A) → take c (drop s xs) ≡ drop s (take (s + c) xs)
  take-drop zero c xs = ap (λ m. take m xs) (omega arith)
  take-drop (suc s) zero [] = ground arith
  take-drop (suc s) (suc c) [] =
      let e : suc (s + suc c) ≡ suc s + suc c = omega arith in ap (λ m. drop (suc s) (take m [])) e
  take-drop (suc s) c (x ∷ xs) =
      let e : suc (s + c) ≡ suc s + c = omega arith in
      take-drop s c xs ∙ ap (λ m. drop (suc s) (take m (x ∷ xs))) e

  -- The vector without its last `m` elements, and the last `m` elements of a vector.
  abbrev pub without_last : ℕ → List A → List A
  without_last m xs = take (length xs - m) xs

  abbrev pub last_of : ℕ → List A → List A
  last_of m xs = drop (length xs - m) xs

  -- A reversed page is, in the order of the vector, the last `page_size` elements of what is left
  -- without the last `page_index * page_size`, as long as the numbers fit 64 bits.
  pub page_of-reversed :
      (page_size page_index : ℕ) (xs : List A)
      → (page_index + 1) * page_size < 2 ^ 64
      → page_index + 1 < 2 ^ 64
      → length xs < 2 ^ 64
      → page_of true page_size page_index xs
        ≡ some (last_of page_size (without_last (page_index * page_size) xs))
  unfolding page_of
  page_of-reversed k i xs h1 h2 h3 =
      let e1 : (i + 1) % 2 ^ 64 ≡ i + 1 = omega arith in
      let e2 : (i + 1) * k ≡ i * k + k = omega arith in
      let e3 : (i * k) % 2 ^ 64 ≡ i * k = omega arith in
      let e4 : (i * k + k) % 2 ^ 64 ≡ i * k + k = omega arith in
      let n = length xs in
      let e5 : n - min (i * k + k) n + (min (i * k + k) n - min (i * k) n) ≡ n - i * k =
        omega arith in
      let e6 : n - min (i * k + k) n ≡ length (take (n - i * k) xs) - k =
        rw (length-take (n - i * k) xs) (omega arith) in
      rw (e1, e2, e3, e4)
        (span-in_range _ (min (i * k) n) (min (i * k + k) n) xs (omega arith) (omega arith)
            (omega arith) h3
          ∙ ap some (take-drop (n - min (i * k + k) n) _ xs ∙ ap₂ drop e6 (ap (λ m. take m xs) e5)))

  abbrev pub page_at : Bool → ℕ → ℕ → List A → List A
  page_at false page_size page_index xs = take page_size (drop (page_index * page_size) xs)
  page_at true page_size page_index xs =
      last_of page_size (without_last (page_index * page_size) xs)

  -- As long as the numbers fit 64 bits: a page is the run of `page_size` elements that starts at
  -- `page_index * page_size`, cut at the end of the vector; a reversed page is, in the order of the vector, the
  -- last `page_size` elements of what is left without the last `page_index * page_size`.
  pub page_of-page_at :
      (reversed : Bool) (page_size page_index : ℕ) (xs : List A)
      → (page_index + 1) * page_size < 2 ^ 64
      → page_index + 1 < 2 ^ 64
      → length xs < 2 ^ 64
      → page_of reversed page_size page_index xs ≡ some (page_at reversed page_size page_index xs)
  page_of-page_at false = page_of-in_order
  page_of-page_at true = page_of-reversed

  -- The page of the greatest index is a span that reaches past the vector.
  pub page_of-last_index :
      (page_size : ℕ) (xs : List A)
      → 0 < page_size
      → page_size < 2 ^ 64
      → 0 < length xs
      → length xs < 2 ^ 64
      → page_of false page_size (2 ^ 64 - 1) xs ≡ none
  unfolding page_of span
  page_of-last_index k xs h1 h2 h3 h4 =
      let e1 : ((2 ^ 64 - 1) * k) % 2 ^ 64 ≡ 2 ^ 64 - k = omega arith in
      let e2 : (0 * k) % 2 ^ 64 ≡ 0 = omega arith in
      let n = length xs in
      let e3 : leb (min (2 ^ 64 - k) n + (2 ^ 64 + min 0 n - min (2 ^ 64 - k) n) % 2 ^ 64) n
          ≡ false =
        ground arith in
      rw (e1, e2, e3) refl
