-- ===== src/Chunked/Retrieved.antt =====
-- What is retrieved from a chunk, where the chunk has it and where not.
use snail_server.Common.{
  ℕ, zero, suc, ◌+◌, ◌≤◌, ◌<◌, ◌≡◌, refl, sym, ◌∙◌, ap, ap₂, subst, Bool, true, false, List, [],
  ◌∷◌, ◌++◌, ltb, arith, length, take, drop, length-take, length-drop,
}
use snail_server.Chunked.{ChunkedReader, retrieve_data, chunk_remaining_bytes}
use snail_server.Chunked.Laws.{IsReading, rest, pending, upcoming, retrieve_data-rest}
use snail_server.Chunked.Healthy.{IsHealthy}

append_inj :
    (xs ys us vs : List ℕ) → length xs ≡ length ys → xs ++ us ≡ ys ++ vs → (xs ≡ ys) × (us ≡ vs)
append_inj [] [] us vs l e = (refl, e)
append_inj [] (y ∷ ys) us vs l e = absurd (omega arith)
append_inj (x ∷ xs) [] us vs l e = absurd (omega arith)
append_inj (x ∷ xs) (y ∷ ys) us vs l e =
    let tails : xs ++ us ≡ ys ++ vs = cc in
    let r = append_inj xs ys us vs (omega arith) tails in
    let heads : x ≡ y = cc in (ap₂ ◌∷◌ heads r.0, r.1)

-- What is retrieved, where the chunk has it.
pub record IsRetrieved (chunk : ℕ) (r r' : ChunkedReader) (bytes more got : List ℕ) : Type 0 where
  pub healthy : IsHealthy chunk r'
  pub not_exhausted : r'.is_chunk_exhausted ≡ r.is_chunk_exhausted
  pub all_got : got ≡ bytes
  pub more_left : rest r' ≡ more

abbrev pub retrieved : ℕ → ChunkedReader → List ℕ × ChunkedReader
retrieved size r = (
  take size (drop r.chunk_processed_size r.chunk_buffer),
  record r { chunk_processed_size = r.chunk_processed_size + size },
)

pub retrieve_data-enough :
    (size : ℕ) (r : ChunkedReader)
    → size ≤ chunk_remaining_bytes r
    → (retrieve_data size false r ≡ retrieved size r)
      × (retrieve_data size true r ≡ ((retrieved size r).0, r))
unfolding retrieve_data
retrieve_data-enough size r h =
    let e : ltb (chunk_remaining_bytes r) size ≡ false = ground arith in (rw e refl, rw e refl)

pub retrieve_data-few :
    (size : ℕ) (peek : Bool) (r : ChunkedReader)
    → chunk_remaining_bytes r < size
    → retrieve_data size peek r ≡ ([], record r { is_chunk_exhausted = true })
unfolding retrieve_data
retrieve_data-few size peek r h =
    let e : ltb (chunk_remaining_bytes r) size ≡ true = ground arith in rw e refl

pub retrieved-IsRetrieved :
    (chunk : ℕ) (r : ChunkedReader) (bytes more : List ℕ)
    → IsHealthy chunk r
    → rest r ≡ bytes ++ more
    → length bytes ≤ chunk_remaining_bytes r
    → IsRetrieved chunk r (retrieved (length bytes) r).1 bytes more (retrieved (length bytes) r).0
retrieved-IsRetrieved chunk r bytes more h e k =
    let size = length bytes in
    let d : retrieve_data size false r ≡ retrieved size r = (retrieve_data-enough size r k).0 in
    let both =
      subst (λ (g : List ℕ × ChunkedReader). IsReading g.1 × (g.0 ++ rest g.1 ≡ rest r)) d
        (retrieve_data-rest size r h.reading k) in
    let l : length (retrieved size r).0 ≡ size = omega (
      arith,
      length-take size (drop r.chunk_processed_size r.chunk_buffer),
      length-drop r.chunk_processed_size r.chunk_buffer,
      h.reading.within,
      h.reading.processed,
    ) in
    let parts =
      append_inj (retrieved size r).0 bytes (rest (retrieved size r).1) more l (both.1 ∙ e) in
    record {
      healthy = record { reading = both.0; healthy = h.healthy; there = h.there; room = h.room };
      not_exhausted = refl;
      all_got = parts.0;
      more_left = parts.1;
    }

take-append_front :
    (size : ℕ) (bytes more : List ℕ)
    → size ≤ length bytes
    → take size (bytes ++ more) ≡ take size bytes
take-append_front zero bytes more h = refl
take-append_front (suc n) [] more h = absurd (omega arith)
take-append_front (suc n) (b ∷ bytes) more h =
    ap (◌∷◌ b) (take-append_front n bytes more (omega arith))

-- A peek sees the start of what is left.
pub peeked :
    (chunk size : ℕ) (r : ChunkedReader) (bytes more : List ℕ)
    → IsHealthy chunk r
    → rest r ≡ bytes ++ more
    → size ≤ length bytes
    → size ≤ chunk_remaining_bytes r
    → retrieve_data size true r ≡ (take size bytes, r)
peeked chunk size r bytes more h e s k =
    let front : take size (rest r) ≡ take size bytes =
      ap (take size) e ∙ take-append_front size bytes more s in
    let l : length (pending r) ≡ chunk_remaining_bytes r = omega (
      arith,
      length-take (chunk_remaining_bytes r) (drop r.chunk_processed_size r.chunk_buffer),
      length-drop r.chunk_processed_size r.chunk_buffer,
      h.reading.within,
      h.reading.processed,
    ) in
    (retrieve_data-enough size r k).1
    ∙ ap (λ (g : List ℕ). (g, r))
        (sym (
            take-take size (chunk_remaining_bytes r) (drop r.chunk_processed_size r.chunk_buffer) k)
          ∙ sym (take-append_front size (pending r) (upcoming r) (omega (arith, l, k)))
          ∙ front)
  where
    take-take : (n m : ℕ) (xs : List ℕ) → n ≤ m → take n (take m xs) ≡ take n xs
    take-take zero m xs h = refl
    take-take (suc n) zero xs h = absurd (omega arith)
    take-take (suc n) (suc m) [] h = refl
    take-take (suc n) (suc m) (x ∷ xs) h = ap (◌∷◌ x) (take-take n m xs (omega arith))
