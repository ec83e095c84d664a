-- ===== src/Xca/Bounds.antt =====
-- The decompression ends, and stays inside its output.
use snail_server.Common.{
  ℕ, zero, suc, ◌+◌, ◌-◌, ◌≤◌, ◌<◌, ◌≡◌, refl, ap, List, [], ◌∷◌, length, get_elem?, arith,
  length-append, Bool-cases, inl, inr, ltb, leb, ◌==◌, ◌%◌, ◌^◌, if◌then◌else◌,
}
use snail_server.Common.Bytes.{extract}
use snail_server.Xca.Copy.{length-copy_back}
use snail_server.Common.Run.{Run, finished, Ensures, bind-Ensures, in_bounds-Ensures}
use snail_server.Xca.{
  XcaError, Progress, start, MatchLength, read_match_length, copy_match, literal, next_match,
  next_flags, round, is_literal, at_last_byte, decompress_loop, decompress_xpress, read_half,
  read_32, read_16, read_byte, read_long,
}

abbrev pub Fits : ℕ → List ℕ → Type 0
Fits output_size out = length out ≤ output_size

module _ (input : List ℕ) where
  abbrev IsBehind : ℕ → MatchLength → Type 0
  IsBehind offset m = offset ≤ m.next_offset

  abbrev Reads : ℕ → Run XcaError MatchLength → Type 0
  Reads offset = Ensures (IsBehind offset)

  abbrev IsFurther : ℕ → ℕ × ℕ → Type 0
  IsFurther offset r = offset ≤ r.1

  read_half-Reads : (offset half : ℕ) → Reads offset (read_half input offset half)
  read_half-Reads offset zero =
      in_bounds-Ensures (IsBehind offset) (extract 1 input offset) _ (λ b. omega arith)
  read_half-Reads offset (suc half) =
      in_bounds-Ensures (IsBehind offset) (extract 1 input (suc half)) _ (λ b. omega arith)

  read_32-Ensures : (offset short : ℕ) → Ensures (IsFurther offset) (read_32 input offset short)
  read_32-Ensures offset short = elim (Bool-cases (short == 0)) [
    | inl e ↦
        rw e (in_bounds-Ensures (IsFurther offset) (extract 4 input offset) _ (λ b. omega arith))
    | inr e ↦ rw e (omega arith)
  ]

  read_16-Reads :
      (offset : ℕ) (m : MatchLength) → offset ≤ m.next_offset → Reads offset (read_16 input m)
  read_16-Reads offset m h =
      in_bounds-Ensures (IsBehind offset) (extract 2 input m.next_offset) _ λ short.
        bind-Ensures (IsFurther (m.next_offset + 2)) (IsBehind offset)
          (read_32 input (m.next_offset + 2) short) _ (read_32-Ensures _ short)
          λ long k. elim (Bool-cases (ltb long.0 22)) [
            | inl e ↦ rw e tt
            | inr e ↦ rw e (omega arith)
          ]

  read_byte-Reads :
      (offset : ℕ) (m : MatchLength) → offset ≤ m.next_offset → Reads offset (read_byte input m)
  read_byte-Reads offset m h =
      in_bounds-Ensures (IsBehind offset) (extract 1 input m.next_offset) _ λ byte.
        let m' = record m { match_length = byte; next_offset = m.next_offset + 1 } in
        bind-Ensures (IsBehind offset) (IsBehind offset)
          (if byte == 255 then read_16 input m' else finished m') _
          (elim (Bool-cases (byte == 255)) [
            | inl e ↦ rw e (read_16-Reads offset m' (omega arith))
            | inr e ↦ rw e (omega arith)
          ])
          (λ more k. k)

  read_long-Reads : (offset half : ℕ) → Reads offset (read_long input offset half)
  read_long-Reads offset half =
      bind-Ensures (IsBehind offset) (IsBehind offset) (read_half input offset half) _
        (read_half-Reads offset half)
        λ m h.
          bind-Ensures (IsBehind offset) (IsBehind offset)
            (if m.match_length == 15 then read_byte input m else finished m) _
            (elim (Bool-cases (m.match_length == 15)) [
              | inl e ↦ rw e (read_byte-Reads offset m h)
              | inr e ↦ rw e h
            ])
            (λ more k. k)

  read_match_length-Reads :
      (bits offset half : ℕ) → Reads offset (read_match_length input bits offset half)
  unfolding read_match_length
  read_match_length-Reads bits offset half = elim (Bool-cases (bits == 7)) [
    | inl e ↦ rw e (read_long-Reads offset half)
    | inr e ↦ rw e (omega arith)
  ]

  module _ (output_size : ℕ) where
    -- A round moves on, and what is written fits.
    abbrev IsAdvance : ℕ → Progress → Type 0
    IsAdvance offset q = (offset < q.in_offset) × (length q.written ≤ output_size)

    abbrev Advances : ℕ → Run XcaError Progress → Type 0
    Advances offset = Ensures (IsAdvance offset)

    abbrev Keeps : Progress → Progress → Type 0
    Keeps p q = (p.in_offset ≤ q.in_offset) × (q.written ≡ p.written)

    next_flags-Ensures : (p : Progress) → Ensures (Keeps p) (next_flags input p)
    unfolding next_flags
    next_flags-Ensures p = elim (Bool-cases (p.flag_count == 0)) [
      | inl e ↦
          rw e
            (in_bounds-Ensures (Keeps p) (extract 4 input p.in_offset) _ (λ b. (omega arith, refl)))
      | inr e ↦ rw e (omega arith, refl)
    ]

    literal-Advances : (p : Progress) → Advances p.in_offset (literal input output_size p)
    unfolding literal
    literal-Advances p = elim (Bool-cases (leb output_size (length p.written))) [
      | inl e ↦ rw e tt
      | inr e ↦ rw e (
          in_bounds-Ensures (IsAdvance p.in_offset) (get_elem? input p.in_offset) _
            (λ byte. (omega arith, ground (arith, length-append p.written (byte ∷ [])))))
    ]

    copy_match-Advances :
        (offset match_offset : ℕ) (m : MatchLength) (p : Progress)
        → offset < m.next_offset
        → Advances offset (copy_match input output_size match_offset m p)
    unfolding copy_match
    copy_match-Advances offset match_offset m p h =
        let count = (m.match_length + 3) % 2 ^ 32 in
        elim (Bool-cases (ltb (length p.written) match_offset)) [
          | inl e ↦ rw e tt
          | inr e ↦ elim (Bool-cases (ltb output_size (length p.written + count))) [
            | inl e' ↦ rw (e, e') tt
            | inr e' ↦ rw (e, e') (h, ground (arith, length-copy_back count match_offset p.written))
          ]
        ]

    next_match-Advances : (p : Progress) → Advances p.in_offset (next_match input output_size p)
    unfolding next_match
    next_match-Advances p =
        in_bounds-Ensures (IsAdvance p.in_offset) (extract 2 input p.in_offset) _ λ bytes.
          bind-Ensures (IsBehind (p.in_offset + 2)) (IsAdvance p.in_offset)
            (read_match_length input _ _ _) _
            (read_match_length-Reads (bytes % 8) (p.in_offset + 2) p.last_length_half_offset)
            (λ m h. copy_match-Advances p.in_offset _ m p (omega arith))

    round-Ensures :
        (next : Progress → Run XcaError (List ℕ)) (offset : ℕ) (p : Progress)
        → offset ≤ p.in_offset
        → length p.written ≤ output_size
        → ((q : Progress) → IsAdvance offset q → Ensures (Fits output_size) (next q))
        → Ensures (Fits output_size) (round input next output_size p)
    round-Ensures next offset p h k n = elim (Bool-cases (is_literal input p)) [
      | inl e ↦ rw e (
          bind-Ensures (IsAdvance p.in_offset) (Fits output_size) (literal input output_size p) next
            (literal-Advances p) (λ q a. n q (omega arith, a.1)))
      | inr e ↦ elim (Bool-cases (at_last_byte input p)) [
        | inl e' ↦ rw (e, e') k
        | inr e' ↦
            rw (e, e')
              (bind-Ensures (IsAdvance p.in_offset) (Fits output_size)
                (next_match input output_size p) next (next_match-Advances p)
                (λ q a. n q (omega arith, a.1)))
      ]
    ]

    decompress_loop-Ensures :
        (fuel : ℕ) (p : Progress)
        → length input - p.in_offset < fuel
        → length p.written ≤ output_size
        → Ensures (Fits output_size) (decompress_loop input fuel output_size p)
    unfolding decompress_loop
    decompress_loop-Ensures zero p h k = absurd (omega arith)
    decompress_loop-Ensures (suc fuel) p h k = elim (Bool-cases (ltb p.in_offset (length input))) [
      | inl e ↦ rw e (
          bind-Ensures (Keeps p) (Fits output_size) (next_flags input p) _ (next_flags-Ensures p)
            (λ q a. round-Ensures _ p.in_offset q a.0 (omega (arith, ap (length {0}) a.1)) (λ r b.
              let inside : p.in_offset < length input = ground arith in
              decompress_loop-Ensures fuel r (omega arith) b.1)))
      | inr e ↦ rw e k
    ]

-- Decompression always ends (the rounds of the loop are at most one more than the bytes of the input),
-- and what it writes fits the output, for every input.
pub decompress_xpress-Fits :
    (input : List ℕ) (output_size : ℕ)
    → Ensures (Fits output_size) (decompress_xpress input output_size)
unfolding decompress_xpress
decompress_xpress-Fits input output_size =
    decompress_loop-Ensures input output_size (suc (length input)) start (omega arith) (omega arith)
