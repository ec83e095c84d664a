-- ===== src/Xca/Literals.antt =====
-- Streams without matches, and streams that are cut off.
use snail_server.Common.{
  ℕ, zero, suc, ◌+◌, ◌-◌, ◌/◌, ◌%◌, ◌^◌, ◌≤◌, ◌<◌, ◌≡◌, refl, sym, ◌∙◌, ap, true, false, List, [],
  ◌∷◌, ◌++◌, some, length, get_elem?, drop, arith, length-append, append_assoc, append-nil, subst,
  ltb, leb, ◌==◌,
}
use native.Mathlib.Nat.{zero-div}
use snail_server.Common.Bytes.{extract, little_endian}
use snail_server.Common.Run.{Run, finished, out_of_bounds}
use snail_server.Xca.{
  XcaError, Progress, literal, next_flags, round, decompress_loop, decompress_xpress,
}

drop_next :
    (n : ℕ) (xs : List ℕ) (y : ℕ) (ys : List ℕ)
    → drop n xs ≡ y ∷ ys
    → (n < length xs) × (get_elem? xs n ≡ some y) × (drop (suc n) xs ≡ ys)
drop_next zero [] y ys e = absurd (ground arith)
drop_next zero (x ∷ xs) y ys e = ground arith
drop_next (suc n) [] y ys e = absurd (ground arith)
drop_next (suc n) (x ∷ xs) y ys e = let (h, g, d) = drop_next n xs y ys e in (omega arith, g, d)

drop_end : (n : ℕ) (xs : List ℕ) → drop n xs ≡ [] → length xs ≤ n
drop_end zero [] e = omega arith
drop_end zero (x ∷ xs) e = absurd (ground arith)
drop_end (suc n) [] e = omega arith
drop_end (suc n) (x ∷ xs) e = omega (arith, drop_end n xs e)

extract_zeros :
    (input rest : List ℕ) (offset : ℕ)
    → drop offset input ≡ 0 ∷ 0 ∷ 0 ∷ 0 ∷ rest
    → extract 4 input offset ≡ some 0
unfolding extract little_endian
extract_zeros input rest offset d = ap (little_endian 4) d

-- A text as literals only: four zero bytes of flags before every 32 bytes; the number says how many
-- flags are left.
unfoldable pub literal_stream : ℕ → List ℕ → List ℕ
literal_stream left [] = []
literal_stream zero (byte ∷ bytes) = 0 ∷ 0 ∷ 0 ∷ 0 ∷ byte ∷ literal_stream 31 bytes
literal_stream (suc left) (byte ∷ bytes) = byte ∷ literal_stream left bytes

length-literal_stream :
    (left : ℕ) (bytes : List ℕ) → length bytes ≤ length (literal_stream left bytes)
unfolding literal_stream
length-literal_stream left [] = omega arith
length-literal_stream zero (byte ∷ bytes) = omega (arith, length-literal_stream 31 bytes)
length-literal_stream (suc left) (byte ∷ bytes) = omega (arith, length-literal_stream left bytes)

module _ (input : List ℕ) (output_size : ℕ) where
  abbrev at : ℕ → ℕ → List ℕ → Progress
  at offset left written = record {
    in_offset = offset;
    flag_count = left;
    flags = 0;
    last_length_half_offset = 0;
    written = written;
  }

  literal_round :
      (next : Progress → Run XcaError (List ℕ)) (offset left byte : ℕ) (written : List ℕ)
      → get_elem? input offset ≡ some byte
      → length written < output_size
      → round input next output_size (at offset left written)
        ≡ next (at (offset + 1) left (written ++ byte ∷ []))
  unfolding literal
  literal_round next offset left byte written g h =
      let e : (0 / 2 ^ left % 2 == 0) ≡ true = rw (zero-div (2 ^ left)) refl in
      let b : leb output_size (length written) ≡ false = ground arith in rw (e, b, g) refl

  next_flags_left :
      (offset left : ℕ) (written : List ℕ)
      → next_flags input (at offset (suc left) written) ≡ finished (at offset left written)
  unfolding next_flags
  next_flags_left offset left written =
      let e : (suc left == 0) ≡ false = ground arith in
      let k : suc left - 1 ≡ left = omega arith in rw (e, k) refl

  one_literal :
      (fuel offset left : ℕ) (written : List ℕ) (byte : ℕ) (bytes : List ℕ)
      → drop offset input ≡ byte ∷ literal_stream left bytes
      → length written + suc (length bytes) ≤ output_size
      → ((w : List ℕ)
          → drop (offset + 1) input ≡ literal_stream left bytes
          → length w + length bytes ≤ output_size
          → decompress_loop input fuel output_size (at (offset + 1) left w) ≡ finished (w ++ bytes))
      → round input (decompress_loop input fuel output_size) output_size (at offset left written)
        ≡ finished (written ++ byte ∷ bytes)
  one_literal fuel offset left written byte bytes d h later =
      let (i, g, d1) = drop_next offset input _ _ d in
      let behind : suc offset ≡ offset + 1 = omega arith in
      literal_round (decompress_loop input fuel output_size) offset left byte written g
        (omega arith)
      ∙ later (written ++ byte ∷ [])
          (subst (λ n. drop n input ≡ literal_stream left bytes) behind d1)
          (omega (arith, length-append {0} written (byte ∷ [])))
      ∙ ap finished (append_assoc written (byte ∷ []) bytes)

  loop_literals :
      (fuel offset left : ℕ) (written bytes : List ℕ)
      → drop offset input ≡ literal_stream left bytes
      → length bytes < fuel
      → length written + length bytes ≤ output_size
      → decompress_loop input fuel output_size (at offset left written)
        ≡ finished (written ++ bytes)
  unfolding decompress_loop literal_stream next_flags
  loop_literals zero offset left written bytes d f s = absurd (omega arith)
  loop_literals (suc fuel) offset left written [] d f s =
      let e : ltb offset (length input) ≡ false = ground (arith, drop_end offset input d) in
      rw e (ap finished (sym (append-nil written)))
  loop_literals (suc fuel) offset zero written (byte ∷ bytes) d f s =
      let (i, g, d1) = drop_next offset input _ _ d in
      let (i1, g1, d2) = drop_next (suc offset) input _ _ d1 in
      let (i2, g2, d3) = drop_next (suc (suc offset)) input _ _ d2 in
      let (i3, g3, d4) = drop_next (suc (suc (suc offset))) input _ _ d3 in
      let behind : suc (suc (suc (suc offset))) ≡ offset + 4 = omega arith in
      let e : ltb offset (length input) ≡ true = ground arith in
      rw (e, extract_zeros input _ offset d)
        (one_literal fuel (offset + 4) 31 written byte bytes
          (subst (λ n. drop n input ≡ byte ∷ literal_stream 31 bytes) behind d4) (omega arith)
          (λ w d'. loop_literals fuel (offset + 4 + 1) 31 w bytes d' (omega arith)))
  loop_literals (suc fuel) offset (suc left) written (byte ∷ bytes) d f s =
      let (i, g, d1) = drop_next offset input _ _ d in
      let e : ltb offset (length input) ≡ true = ground arith in
      rw (e, next_flags_left offset left written)
        (one_literal fuel offset left written byte bytes d (omega arith)
          (λ w d'. loop_literals fuel (offset + 1) left w bytes d' (omega arith)))

-- A text that is sent as literals is decompressed to itself, if the output has room for it.
pub decompress_xpress-literal_stream :
    (bytes : List ℕ) (output_size : ℕ)
    → length bytes ≤ output_size
    → decompress_xpress (literal_stream 0 bytes) output_size ≡ finished bytes
unfolding decompress_xpress
decompress_xpress-literal_stream bytes output_size h =
    loop_literals (literal_stream 0 bytes) output_size _ 0 0 [] bytes refl
      (omega (arith, length-literal_stream 0 bytes)) (omega arith)

-- An input of one to three bytes is read behind its end.
pub decompress_xpress_cut_off :
    (input : List ℕ) (output_size : ℕ)
    → 0 < length input
    → length input < 4
    → decompress_xpress input output_size ≡ out_of_bounds
unfolding decompress_xpress decompress_loop next_flags extract little_endian
decompress_xpress_cut_off [] output_size h k = absurd (omega arith)
decompress_xpress_cut_off (a ∷ []) output_size h k = refl
decompress_xpress_cut_off (a ∷ b ∷ []) output_size h k = refl
decompress_xpress_cut_off (a ∷ b ∷ c ∷ []) output_size h k = refl
decompress_xpress_cut_off (a ∷ b ∷ c ∷ d ∷ rest) output_size h k = absurd (omega arith)
