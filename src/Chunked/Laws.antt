-- ===== src/Chunked/Laws.antt =====
-- No byte is lost, doubled or moved between chunks.
use snail_server.Common.{
  ℕ, zero, suc, ◌+◌, ◌-◌, ◌≤◌, ◌<◌, ◌≡◌, refl, sym, ◌∙◌, ap, ap₂, subst, Bool, true, false, ◌⊎◌,
  inl, inr, List, [], ◌∷◌, ◌++◌, ◌==◌, ltb, arith, length, take, drop, Bool-cases, length-append,
  length-take, length-drop, append_assoc, take-length_append, if◌then◌else◌,
}
use snail_server.Common.Run.{throws, Ensures}
use snail_server.Common.Stream.{FileStream, read_stream}
use snail_server.Chunked.{
  invalid_state, ChunkedReader, read_next_chunk, retrieve_data, done, chunk_remaining_bytes,
  keep_left_over, remaining_data_bytes, store_chunk, read_chunk, chunk_bytes_to_read, move_to_start,
  lesser,
}

-- Bytes of the current chunk that are not processed, and of the file behind it.
abbrev pub pending : ChunkedReader → List ℕ
pending r = take (chunk_remaining_bytes r) (drop r.chunk_processed_size r.chunk_buffer)

abbrev pub unread : ChunkedReader → ℕ
unread r = r.total_size - (r.total_processed_size + r.current_chunk_size)

abbrev pub upcoming : ChunkedReader → List ℕ
upcoming r = take (unread r) (drop r.stream.position r.stream.content)

abbrev pub rest : ChunkedReader → List ℕ
rest r = pending r ++ upcoming r

-- A chunk fills the buffer, unless it is the last or none was read.
pub record IsReading (r : ChunkedReader) : Type 0 where
  pub within : r.current_chunk_size ≤ length r.chunk_buffer
  pub processed : r.chunk_processed_size ≤ r.current_chunk_size
  pub in_total : r.total_processed_size + r.current_chunk_size ≤ r.total_size
  pub full :
      (r.current_chunk_size ≡ 0) ⊎ (r.current_chunk_size ≡ length r.chunk_buffer) ⊎ (unread r ≡ 0)

module _ {A : Type 0} where
  take_nil : (n : ℕ) → take {A = A} n [] ≡ []
  take_nil zero = refl
  take_nil (suc n) = refl

  drop_nil : (n : ℕ) → drop {A = A} n [] ≡ []
  drop_nil zero = refl
  drop_nil (suc n) = refl

  pub drop-drop : (n m : ℕ) (xs : List A) → drop m (drop n xs) ≡ drop (n + m) xs
  drop-drop zero m xs = let e : 0 + m ≡ m = omega arith in rw e refl
  drop-drop (suc n) m [] = drop_nil m ∙ sym (drop_nil (suc n + m))
  drop-drop (suc n) m (x ∷ xs) =
      let e : suc n + m ≡ suc (n + m) = omega arith in rw e (drop-drop n m xs)

  take-append_both :
      (n : ℕ) (xs ys zs : List A) → n ≡ length xs + length ys → take n (xs ++ ys ++ zs) ≡ xs ++ ys
  take-append_both n xs ys zs h =
      let e : n ≡ length (xs ++ ys) = omega (arith, length-append xs ys) in
      rw e (take-length_append (xs ++ ys) zs)

  length-take_all : (n : ℕ) (xs : List A) → n ≤ length xs → length (take n xs) ≡ n
  length-take_all n xs h = omega (arith, length-take n xs)

  take-rest : (n m : ℕ) (xs : List A) → n ≤ m → take n xs ++ take (m - n) (drop n xs) ≡ take m xs
  take-rest zero m xs h = let e : m - 0 ≡ m = omega arith in rw e refl
  take-rest (suc n) zero xs h = absurd (omega arith)
  take-rest (suc n) (suc m) [] h = take_nil (suc m - suc n)
  take-rest (suc n) (suc m) (x ∷ xs) h =
      let e : suc m - suc n ≡ m - n = omega arith in
      rw e (ap (◌∷◌ x) (take-rest n m xs (omega arith)))

pub lesser-cases : (a b : ℕ) → ((lesser a b ≡ a) × (a ≤ b)) ⊎ ((lesser a b ≡ b) × (b ≤ a))
lesser-cases a b = elim (Bool-cases (ltb b a)) [
  | inl e ↦ inr (rw e refl, ground arith)
  | inr e ↦ inl (rw e refl, ground arith)
]

-- Where there is more to read, or nothing is left over, the left over data is at the end of the buffer.
left_over-pending :
    (r : ChunkedReader)
    → IsReading r
    → (r.chunk_processed_size ≡ r.current_chunk_size) ⊎ (0 < unread r)
    → take
        (chunk_remaining_bytes r)
        (drop (length r.chunk_buffer - chunk_remaining_bytes r) r.chunk_buffer)
      ≡ pending r
left_over-pending r h m = elim h.full [
  | inl e ↦ let z : chunk_remaining_bytes r ≡ 0 = omega arith in rw z refl
  | inr full ↦ elim full [
    | inl e ↦
        let z : length r.chunk_buffer - chunk_remaining_bytes r ≡ r.chunk_processed_size =
          omega (arith, h.processed) in
        ap (λ n. take (chunk_remaining_bytes r) (drop n r.chunk_buffer)) z
    | inr e ↦ elim m [
      | inl d ↦ let z : chunk_remaining_bytes r ≡ 0 = omega arith in rw z refl
      | inr d ↦ absurd (omega arith)
    ]
  ]
]

abbrev pub IsNext : ChunkedReader → Bool × ChunkedReader → Type 0
IsNext r (true, r') = IsReading r' × (rest r' ≡ rest r)
IsNext r (false, r') = (done r' ≡ true) × (rest r ≡ [])

-- What a chunk that is read amounts to: `before` is left over, `got` is read.
stored-IsNext :
    (r : ChunkedReader) (before got behind : List ℕ) (count : ℕ)
    → IsReading r
    → before ≡ pending r
    → length before ≡ chunk_remaining_bytes r
    → got ≡ take count (drop r.stream.position r.stream.content)
    → length got ≡ count
    → count ≡ lesser (unread r) (length r.chunk_buffer - chunk_remaining_bytes r)
    → length before + length got + length behind ≡ length r.chunk_buffer
    → IsNext r (
      true,
      record r {
        stream = record r.stream { position = r.stream.position + count };
        chunk_buffer = before ++ got ++ behind;
        total_processed_size = r.total_processed_size + r.chunk_processed_size;
        current_chunk_size = count + chunk_remaining_bytes r;
        chunk_processed_size = 0;
        is_chunk_exhausted = false;
      },
    )
stored-IsNext r before got behind count h b lb g lg c all =
    let len : length (before ++ got ++ behind) ≡ length r.chunk_buffer =
      omega (arith, length-append (before ++ got) behind, length-append before got) in
    let left = chunk_remaining_bytes r in
    let held : take (count + left - 0) (before ++ got ++ behind) ≡ before ++ got =
      take-append_both (count + left - 0) before got behind (omega arith) in
    let fewer : r.total_size - (r.total_processed_size + r.chunk_processed_size + (count + left))
        ≡ unread r - count =
      omega (arith, h.processed) in
    let small : count ≤ unread r =
      omega (arith, lesser-cases (unread r) (length r.chunk_buffer - left)) in
    let fits : count ≤ length r.chunk_buffer - left =
      omega (arith, lesser-cases (unread r) (length r.chunk_buffer - left)) in
    (
      record {
        within = omega (arith, h.processed, h.within, len, fits);
        processed = omega arith;
        in_total = omega (arith, h.processed, h.in_total, small);
        full = elim (lesser-cases (unread r) (length r.chunk_buffer - left)) [
          | inl (e, _) ↦ inr (inr (omega (arith, fewer, c, e)))
          | inr (e, _) ↦ inr (inl (omega (arith, len, c, e, h.within, h.processed)))
        ];
      },
      ap₂ (◌++◌) held (ap (λ n. take n (drop (r.stream.position + count) r.stream.content)) fewer)
          ∙ append_assoc before got _
          ∙ ap₂ (◌++◌) b (
              ap₂ (◌++◌) g (
                ap (take (unread r - count))
                  (sym (drop-drop r.stream.position count r.stream.content)))
              ∙ take-rest count (unread r) (drop r.stream.position r.stream.content) small),
    )

pub length-move_to_start :
    (count : ℕ) (buffer : List ℕ)
    → count ≤ length buffer
    → length (move_to_start count buffer) ≡ length buffer
length-move_to_start count buffer h =
    let start = take count (drop (length buffer - count) buffer) in
    omega (
      arith,
      length-append start (drop count buffer),
      length-take_all count (drop (length buffer - count) buffer)
          (omega (arith, length-drop (length buffer - count) buffer)),
      length-drop count buffer,
    )

-- Nothing is left to read.
finished-IsNext :
    (r : ChunkedReader)
    → IsReading r
    → (remaining_data_bytes (keep_left_over r) == 0) ≡ true
    → IsNext r (false, keep_left_over r)
finished-IsNext r h e =
    let z : chunk_remaining_bytes r ≡ 0 = ground (arith, h.processed, h.in_total) in
    let u : unread r ≡ 0 = ground (arith, h.processed, h.in_total) in
    (ground (arith, h.processed, h.in_total), rw (z, u) refl)

-- A read from a stream that has not failed.
pub read_stream-good :
    (count : ℕ) (s : FileStream)
    → s.failed ≡ false
    → read_stream count s ≡ (
      take count (drop s.position s.content),
      if ltb (length (take count (drop s.position s.content))) count
          then record s { failed = true }
          else record s { position = s.position + count },
    )
read_stream-good count s f =
    ap
      (λ b.
        let bytes = if b then [] else take count (drop s.position s.content) in
        (
          bytes,
          if b
              then s
              else (if ltb (length bytes) count
                  then record s { failed = true }
                  else record s { position = s.position + count }),
        ))
      f

read_chunk-IsNext :
    (r : ChunkedReader) (count : ℕ)
    → IsReading r
    → (r.chunk_processed_size ≡ r.current_chunk_size) ⊎ (0 < unread r)
    → count ≡ lesser (unread r) (length r.chunk_buffer - chunk_remaining_bytes r)
    → r.stream.failed ≡ false
    → Ensures (IsNext r) (read_chunk (chunk_remaining_bytes r) count (keep_left_over r))
read_chunk-IsNext r count h m c f =
    let left = chunk_remaining_bytes r in
    let got = take count (drop r.stream.position r.stream.content) in
    let moved = move_to_start left r.chunk_buffer in
    let small : left ≤ length r.chunk_buffer = omega (arith, h.processed, h.within) in
    let lm : length moved ≡ length r.chunk_buffer =
      length-move_to_start left r.chunk_buffer small in
    let start = take left (drop (length r.chunk_buffer - left) r.chunk_buffer) in
    let ls : length start ≡ left =
      length-take_all left (drop (length r.chunk_buffer - left) r.chunk_buffer)
        (omega (arith, length-drop (length r.chunk_buffer - left) r.chunk_buffer)) in
    let before : take left moved ≡ start =
      ap (λ n. take n moved) (sym ls) ∙ take-length_append start (drop left r.chunk_buffer) in
    let fits : count ≤ length r.chunk_buffer - left =
      omega (arith, lesser-cases (unread r) (length r.chunk_buffer - left)) in
    subst (λ g. Ensures (IsNext r) (store_chunk left count g (keep_left_over r)))
      (sym (read_stream-good count r.stream f))
      (elim (Bool-cases (length got == count)) [
        | inl e ↦
            let lg : length got ≡ count = ground arith in
            let full : ltb (length got) count ≡ false = ground arith in
            rw (e, full)
              (stored-IsNext r (take left moved) got (drop (left + count) moved) count h
                (before ∙ left_over-pending r h m) (ap (length {0}) before ∙ ls) refl lg c
                (omega (
                  arith,
                  length-take_all left moved (omega (arith, lm)),
                  lg,
                  length-drop (left + count) moved,
                  lm,
                  fits,
                )))
        | inr e ↦ rw e tt
      ])

-- The bytes that are still to come are the same after the next chunk is read, if there is more to read
-- from the stream or nothing is left over; and where no chunk is left, all bytes were given.
pub read_next_chunk-IsNext :
    (r : ChunkedReader)
    → IsReading r
    → (r.chunk_processed_size ≡ r.current_chunk_size) ⊎ (0 < unread r)
    → Ensures (IsNext r) (read_next_chunk r)
unfolding read_next_chunk
read_next_chunk-IsNext r h m =
    let left = chunk_remaining_bytes r in
    let left_fits : left ≤ length r.chunk_buffer = omega (arith, h.processed, h.within) in
    let lm = length-move_to_start left r.chunk_buffer left_fits in
    let d : remaining_data_bytes (keep_left_over r) - left ≡ unread r =
      omega (arith, h.processed, h.in_total) in
    let c : chunk_bytes_to_read left (keep_left_over r)
        ≡ lesser (unread r) (length r.chunk_buffer - left) =
      ap₂ lesser d (ap (λ n. n - left) lm) in
    let next = read_chunk left (chunk_bytes_to_read left (keep_left_over r)) (keep_left_over r) in
    elim (Bool-cases (remaining_data_bytes (keep_left_over r) == 0)) [
      | inl e ↦ rw e (finished-IsNext r h e)
      | inr e ↦ elim (Bool-cases r.stream.failed) [
        | inl f ↦ rw (e, f) tt
        | inr f ↦ rw e (
            subst (λ b. Ensures (IsNext r) (if b then throws invalid_state else next)) (sym f)
              (read_chunk-IsNext r (chunk_bytes_to_read left (keep_left_over r)) h m c f))
      ]
    ]

-- What is retrieved from a chunk with enough bytes are the next ones, which are taken off.
pub retrieve_data-rest :
    (size : ℕ) (r : ChunkedReader)
    → IsReading r
    → size ≤ chunk_remaining_bytes r
    → IsReading (retrieve_data size false r).1
      × ((retrieve_data size false r).0 ++ rest (retrieve_data size false r).1 ≡ rest r)
unfolding retrieve_data
retrieve_data-rest size r h k =
    let e : ltb (chunk_remaining_bytes r) size ≡ false = ground arith in
    let left : r.current_chunk_size - (r.chunk_processed_size + size)
        ≡ chunk_remaining_bytes r - size =
      omega arith in
    let ahead = drop r.chunk_processed_size r.chunk_buffer in
    rw e (
      record {
        within = h.within;
        processed = omega (arith, h.processed);
        in_total = h.in_total;
        full = h.full;
      },
      sym (append_assoc (take size ahead) _ (upcoming r))
          ∙ ap (λ xs. xs ++ upcoming r)
              (ap (λ xs. take size ahead ++ xs)
                  (ap₂ take left (sym (drop-drop r.chunk_processed_size size r.chunk_buffer)))
                ∙ take-rest size (chunk_remaining_bytes r) ahead k),
    )
