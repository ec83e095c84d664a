-- ===== src/Xca/Copy.antt =====
-- The copy of a match, one byte after the other, so that a match may overlap what it writes.
use snail_server.Common.{
  ℕ, zero, suc, ◌+◌, ◌-◌, ◌≤◌, ◌<◌, ◌≡◌, refl, sym, ◌∙◌, List, [], ◌∷◌, ◌++◌, Option, none, some,
  length, get_elem?, arith, length-append, get_elem?-append_left, get_elem?-append_end,
}

-- `output[out_pos - match_offset]`, which is written before.
abbrev pub get_or_zero : Option ℕ → ℕ
get_or_zero none = 0
get_or_zero (some byte) = byte

unfoldable pub copy_back : ℕ → ℕ → List ℕ → List ℕ
copy_back zero match_offset written = written
copy_back (suc count) match_offset written =
    copy_back count match_offset
      (written ++ get_or_zero (get_elem? written (length written - match_offset)) ∷ [])

pub length-copy_back :
    (count match_offset : ℕ) (written : List ℕ)
    → length (copy_back count match_offset written) ≡ length written + count
unfolding copy_back
length-copy_back zero match_offset written = omega arith
length-copy_back (suc count) match_offset written =
    let byte = get_or_zero (get_elem? written (length written - match_offset)) in
    omega (
      arith,
      length-append {0} written (byte ∷ []),
      length-copy_back count match_offset (written ++ byte ∷ []),
    )

-- What was written before stays.
pub copy_back_kept :
    (count match_offset i : ℕ) (written : List ℕ)
    → i < length written
    → get_elem? (copy_back count match_offset written) i ≡ get_elem? written i
unfolding copy_back
copy_back_kept zero match_offset i written h = refl
copy_back_kept (suc count) match_offset i written h =
    let byte = get_or_zero (get_elem? written (length written - match_offset)) in
    copy_back_kept count match_offset i (written ++ byte ∷ [])
      (omega (arith, length-append {0} written (byte ∷ [])))
    ∙ get_elem?-append_left written (byte ∷ []) i h

get_elem?_below :
    (xs : List ℕ) (i : ℕ) → i < length xs → get_elem? xs i ≡ some (get_or_zero (get_elem? xs i))
get_elem?_below [] i h = absurd (omega arith)
get_elem?_below (x ∷ xs) zero h = refl
get_elem?_below (x ∷ xs) (suc i) h = get_elem?_below xs i (omega arith)

-- Each byte of a match is the byte that stands `match_offset` before it, also where that is itself a
-- byte of the match.
pub copy_back_repeats :
    (count match_offset i : ℕ) (written : List ℕ)
    → 0 < match_offset
    → match_offset ≤ length written
    → i < count
    → get_elem? (copy_back count match_offset written) (length written + i)
      ≡ get_elem? (copy_back count match_offset written) (length written + i - match_offset)
unfolding copy_back
copy_back_repeats zero match_offset i written h k l = absurd (omega arith)
copy_back_repeats (suc count) match_offset zero written h k l =
    let n = length written in
    let byte = get_or_zero (get_elem? written (n - match_offset)) in
    let w = written ++ byte ∷ [] in
    let e : length w ≡ n + 1 = omega (arith, length-append {0} written (byte ∷ [])) in
    let here : n + 0 ≡ n = omega arith in
    rw here (
      copy_back_kept count match_offset n w (omega arith)
      ∙ get_elem?-append_end written byte
      ∙ sym (
          copy_back_kept count match_offset (n - match_offset) w (omega arith)
          ∙ get_elem?-append_left written (byte ∷ []) (n - match_offset) (omega arith)
          ∙ get_elem?_below written (n - match_offset) (omega arith)))
copy_back_repeats (suc count) match_offset (suc i) written h k l =
    let n = length written in
    let byte = get_or_zero (get_elem? written (n - match_offset)) in
    let w = written ++ byte ∷ [] in
    let e : length w ≡ n + 1 = omega (arith, length-append {0} written (byte ∷ [])) in
    let there : n + suc i ≡ length w + i = omega arith in
    rw there (copy_back_repeats count match_offset i w h (omega arith) (omega arith))
