-- ===== src/PerfData/Sections.antt =====
-- All events of a section are given to the callback, in order.
pub mod Delivered
mod Examples
use snail_server.Common.{
  ℕ, zero, suc, ◌+◌, ◌-◌, ◌*◌, ◌≤◌, ◌<◌, ◌≡◌, refl, sym, ◌∙◌, ap, ap₂, subst, Bool, true, false,
  not, List, [], ◌∷◌, ◌++◌, ◌==◌, ltb, leb, arith, length, take, drop, length-append, length-take,
  length-drop, if◌then◌else◌, Bool-cases, inl, inr, ◌⊎◌,
}
use snail_server.Chunked.{
  failed_to_move, ChunkedReader, retrieve_data, keep_going, chunk_remaining_bytes, new_reader,
}
use snail_server.Chunked.Healthy.{
  IsHealthy, IsFresh, Going, keep_going-Going, after_chunk, length-rest, at_end, same_chunk,
  fresh_chunk,
}
use snail_server.Chunked.Retrieved.{
  IsRetrieved, retrieved, retrieve_data-enough, retrieve_data-few, retrieved-IsRetrieved, peeked,
}
use snail_server.Chunked.Laws.{rest, unread}
use snail_server.Common.Bytes.{ByteOrder}
use snail_server.Common.Run.{Run, finished, throws, out_of_bounds, out_of_fuel, ◌>>=◌}
use snail_server.Common.Stream.{FileStream}
use snail_server.PerfData.Attributes.{PerfError}
use snail_server.PerfData.Header.{SectionData, FileHeaderData}
use snail_server.PerfData.Reading.{
  Chunks, EventHeader, Callback, Rounds, event_header_view, event_header_size, handle_retrieved,
  handle_header, handle_peeked, read_round, event_rounds, read_events, lift,
}

pub record Event : Type 0 where
  pub header : EventHeader
  pub bytes : List ℕ

-- The header is the start of the bytes and says how many there are, which are not more than a chunk.
pub record IsEvent (order : ByteOrder) (chunk : ℕ) (e : Event) : Type 0 where
  pub starts : event_header_view order (take event_header_size e.bytes) ≡ finished e.header
  pub sized : e.header.size ≡ length e.bytes
  pub complete : event_header_size ≤ length e.bytes
  pub fits : length e.bytes ≤ chunk

abbrev pub AreEvents : ByteOrder → ℕ → List Event → Type 0
AreEvents order chunk [] = Unit {0}
AreEvents order chunk (e ∷ es) = IsEvent order chunk e × AreEvents order chunk es

abbrev pub bytes_of : List Event → List ℕ
bytes_of [] = []
bytes_of (e ∷ es) = e.bytes ++ bytes_of es

module _ {S : Type 0} where
  -- The callback for one event after another.
  abbrev pub call_for_all : Callback S → List Event → S → Run PerfError S
  call_for_all callback [] s = finished s
  call_for_all callback (e ∷ es) s = callback e.header e.bytes s >>= call_for_all callback es

  -- The state that is left, without the stream.
  abbrev pub state_of : Run PerfError (S × FileStream) → Run PerfError S
  state_of (finished r) = finished r.0
  state_of (throws e) = throws e
  state_of out_of_bounds = out_of_bounds
  state_of out_of_fuel = out_of_fuel

  pub state_of-bind :
      (m : Run PerfError S) (f : S → Run PerfError (S × FileStream)) (g : S → Run PerfError S)
      → ((s : S) → state_of (f s) ≡ g s)
      → state_of (m >>= f) ≡ (m >>= g)
  state_of-bind (finished s) f g h = h s
  state_of-bind (throws e) f g h = refl
  state_of-bind out_of_bounds f g h = refl
  state_of-bind out_of_fuel f g h = refl

  -- An event that is in the chunk is handled, and the reader moves on.
  pub handle_peeked-in_chunk :
      (order : ByteOrder) (chunk : ℕ) (callback : Callback S) (next : Rounds S) (s : S)
      (r : ChunkedReader) (e : Event) (more : List ℕ)
      → IsEvent order chunk e
      → IsHealthy chunk r
      → rest r ≡ e.bytes ++ more
      → length e.bytes ≤ chunk_remaining_bytes r
      → handle_peeked order callback next s (retrieve_data event_header_size true r)
        ≡ (callback e.header e.bytes s >>= next (retrieved (length e.bytes) r).1)
  handle_peeked-in_chunk order chunk callback next s r e more v h l k =
      let p =
        peeked chunk event_header_size r e.bytes more h l v.complete
          (omega (arith, v.complete, k)) in
      let n : (length (take event_header_size e.bytes) == event_header_size) ≡ true =
        ground (arith, length-take event_header_size e.bytes, v.complete) in
      let big : ltb e.header.size event_header_size ≡ false = ground (arith, v.sized, v.complete) in
      let got = retrieved-IsRetrieved chunk r e.bytes more h l k in
      let same : (length e.bytes == e.header.size) ≡ true = ground (arith, v.sized) in
      ap (handle_peeked order callback next s) p
      ∙ ap
          (λ b.
            if b
            then event_header_view order (take event_header_size e.bytes)
              >>= handle_header callback next r s
            else next r s)
          n
      ∙ ap (λ m. m >>= handle_header callback next r s) v.starts
      ∙ ap
          (λ b.
            if b
            then finished (s, r.stream)
            else handle_retrieved callback next e.header s (retrieve_data e.header.size false r))
          big
      ∙ ap (λ n. handle_retrieved callback next e.header s (retrieve_data n false r)) v.sized
      ∙ ap (handle_retrieved callback next e.header s)
          ((retrieve_data-enough (length e.bytes) r k).0)
      ∙ ap
          (λ (b : List ℕ).
            handle_retrieved callback next e.header s (b, (retrieved (length e.bytes) r).1))
          got.all_got
      ∙ ap
          (λ b.
            if b
            then callback e.header e.bytes s >>= next (retrieved (length e.bytes) r).1
            else next (retrieved (length e.bytes) r).1 s)
          same

  -- An event that is not in the chunk yet is left, and the chunk is exhausted.
  pub handle_peeked-cut :
      (order : ByteOrder) (chunk : ℕ) (callback : Callback S) (next : Rounds S) (s : S)
      (r : ChunkedReader) (e : Event) (more : List ℕ)
      → IsEvent order chunk e
      → IsHealthy chunk r
      → rest r ≡ e.bytes ++ more
      → chunk_remaining_bytes r < length e.bytes
      → handle_peeked order callback next s (retrieve_data event_header_size true r)
        ≡ next (record r { is_chunk_exhausted = true }) s
  handle_peeked-cut order chunk callback next s r e more v h l k =
      elim (Bool-cases (ltb (chunk_remaining_bytes r) event_header_size)) [
        | inl b ↦
            ap (handle_peeked order callback next s)
              (retrieve_data-few event_header_size true r (ground arith))
        | inr b ↦
            let p = peeked chunk event_header_size r e.bytes more h l v.complete (ground arith) in
            let n : (length (take event_header_size e.bytes) == event_header_size) ≡ true =
              ground (arith, length-take event_header_size e.bytes, v.complete) in
            let big : ltb e.header.size event_header_size ≡ false =
              ground (arith, v.sized, v.complete) in
            let none_got : (0 == e.header.size) ≡ false = ground (arith, v.sized, v.complete) in
            let exhausted : ChunkedReader = record r { is_chunk_exhausted = true } in
            ap (handle_peeked order callback next s) p
            ∙ ap
                (λ b.
                  if b
                  then event_header_view order (take event_header_size e.bytes)
                    >>= handle_header callback next r s
                  else next r s)
                n
            ∙ ap (λ m. m >>= handle_header callback next r s) v.starts
            ∙ ap
                (λ b.
                  if b
                  then finished (s, r.stream)
                  else handle_retrieved callback next e.header s
                      (retrieve_data e.header.size false r))
                big
            ∙ ap (handle_retrieved callback next e.header s)
                (retrieve_data-few e.header.size false r (omega (arith, v.sized)))
            ∙ ap (λ b. if b then callback e.header [] s >>= next exhausted else next exhausted s)
                none_got
      ]
