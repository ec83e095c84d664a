-- ===== src/PerfData/Sections/Delivered.antt =====
-- The rounds of `read_events` over a section.
use snail_server.Common.{
  ℕ, zero, suc, ◌+◌, ◌*◌, ◌≤◌, ◌<◌, ◌≡◌, refl, sym, ◌∙◌, ap, true, false, List, [], ◌∷◌, ◌++◌, ltb,
  arith, length, take, drop, length-append, if◌then◌else◌, Bool-cases, inl, inr, ◌⊎◌,
}
use snail_server.Chunked.{
  failed_to_move, ChunkedReader, retrieve_data, keep_going, chunk_remaining_bytes, new_reader,
}
use snail_server.Chunked.Healthy.{
  IsHealthy, Going, keep_going-Going, after_chunk, length-rest, at_end, same_chunk, fresh_chunk,
}
use snail_server.Chunked.Retrieved.{retrieved, retrieved-IsRetrieved}
use snail_server.Chunked.Laws.{rest, unread}
use snail_server.Common.Bytes.{ByteOrder}
use snail_server.Common.Run.{finished, throws, ◌>>=◌}
use snail_server.Common.Stream.{FileStream}
use snail_server.PerfData.Header.{SectionData, FileHeaderData}
use snail_server.PerfData.Reading.{
  Chunks, Callback, Rounds, event_header_size, handle_peeked, read_round, event_rounds, read_events,
  lift,
}
use snail_server.PerfData.Sections.{
  Event, IsEvent, AreEvents, bytes_of, call_for_all, state_of, state_of-bind,
  handle_peeked-in_chunk, handle_peeked-cut,
}

-- A chunk counts as exhausted only if nothing of it is left, or more can be read.
abbrev pub CanGoOn : ChunkedReader → Type 0
CanGoOn r =
    r.is_chunk_exhausted ≡ true → (r.chunk_processed_size ≡ r.current_chunk_size) ⊎ (0 < unread r)

-- A reader that has an event in its chunk.
pub record IsAtEvent (chunk : ℕ) (r : ChunkedReader) (e : Event) (more : List ℕ) : Type 0 where
  pub healthy : IsHealthy chunk r
  pub not_exhausted : r.is_chunk_exhausted ≡ false
  pub ahead : rest r ≡ e.bytes ++ more
  pub in_chunk : length e.bytes ≤ chunk_remaining_bytes r

-- What a round starts with, where an event is next: it is in the chunk, or cut off in it.
data Turn (chunk : ℕ) (r : ChunkedReader) (e : Event) (more : List ℕ) : Type 0 where
  ready :
      (r' : ChunkedReader)
      → keep_going r ≡ finished (true, r')
      → IsAtEvent chunk r' e more
      → Turn chunk r e more
  cut :
      keep_going r ≡ finished (true, r)
      → r.is_chunk_exhausted ≡ false
      → chunk_remaining_bytes r < length e.bytes
      → Turn chunk r e more

event_ahead-Turn :
    (order : ByteOrder) (chunk : ℕ) (r : ChunkedReader) (e : Event) (more : List ℕ)
    → IsEvent order chunk e
    → IsHealthy chunk r
    → rest r ≡ e.bytes ++ more
    → Going chunk r
    → Turn chunk r e more
event_ahead-Turn order chunk r e more v h l (at_end r' k n) =
    absurd (omega (arith, ap (length {0}) (sym n ∙ l), length-append e.bytes more, v.complete))
event_ahead-Turn order chunk r e more v h l (same_chunk k x n) =
    elim (Bool-cases (ltb (chunk_remaining_bytes r) (length e.bytes))) [
      | inl b ↦ cut k x (ground arith)
      | inr b ↦
          ready r k (record { healthy = h; not_exhausted = x; ahead = l; in_chunk = ground arith })
    ]
event_ahead-Turn order chunk r e more v h l (fresh_chunk k f n) = ready (after_chunk r) k (record {
  healthy = f.healthy;
  not_exhausted = refl;
  ahead = f.same_rest ∙ l;
  in_chunk = elim f.enough [
    | inl g ↦ omega (arith, v.fits, g)
    | inr g ↦ omega (arith, g, ap (length {0}) l, length-append e.bytes more)
  ];
})

module _ {S : Type 0} (order : ByteOrder) (chunk : ℕ) (callback : Callback S) where
  abbrev rounds : ℕ → Rounds S
  rounds fuel = event_rounds fuel (λ round. false) order callback

  round-going :
      (fuel : ℕ) (r r' : ChunkedReader) (s : S)
      → keep_going r ≡ finished (true, r')
      → rounds (suc fuel) r s
        ≡ handle_peeked order callback (rounds fuel) s (retrieve_data event_header_size true r')
  unfolding event_rounds
  round-going fuel r r' s e = ap (λ m. lift m >>= read_round false order callback (rounds fuel) s) e

  round-at_end :
      (fuel : ℕ) (r r' : ChunkedReader) (s : S)
      → keep_going r ≡ finished (false, r')
      → state_of (rounds (suc fuel) r s) ≡ finished s
  unfolding event_rounds
  round-at_end fuel r r' s e =
      ap (λ m. state_of (lift m >>= read_round false order callback (rounds fuel) s)) e

  no_event_left :
      (fuel : ℕ) (r : ChunkedReader) (s : S)
      → IsHealthy chunk r
      → rest r ≡ []
      → Going chunk r
      → state_of (rounds (suc fuel) r s) ≡ finished s
  no_event_left fuel r s h l (at_end r' k n) = round-at_end fuel r r' s k
  no_event_left fuel r s h l (same_chunk k x n) =
      absurd (omega (arith, ap (length {0}) l, length-rest chunk r h))
  no_event_left fuel r s h l (fresh_chunk k f n) = absurd (omega (arith, ap (length {0}) l))

  -- All events from here on, for a reader that has them ahead.
  abbrev Continues : ℕ → List Event → Type 0
  Continues fuel es =
      (r : ChunkedReader) (s : S)
      → IsHealthy chunk r
      → CanGoOn r
      → rest r ≡ bytes_of es
      → state_of (rounds fuel r s) ≡ call_for_all callback es s

  at_event-Continues :
      (fuel : ℕ) (e : Event) (es : List Event) (r r' : ChunkedReader) (s : S)
      → IsEvent order chunk e
      → keep_going r ≡ finished (true, r')
      → IsAtEvent chunk r' e (bytes_of es)
      → Continues fuel es
      → state_of (rounds (suc fuel) r s) ≡ call_for_all callback (e ∷ es) s
  at_event-Continues fuel e es r r' s v k a next =
      let got = retrieved-IsRetrieved chunk r' e.bytes (bytes_of es) a.healthy a.ahead a.in_chunk in
      let moved = (retrieved (length e.bytes) r').1 in
      ap state_of (
        round-going fuel r r' s k
        ∙ handle_peeked-in_chunk order chunk callback (rounds fuel) s r' e (bytes_of es) v a.healthy
            a.ahead a.in_chunk)
      ∙ state_of-bind (callback e.header e.bytes s) (rounds fuel moved) (call_for_all callback es)
          (λ t.
            next moved t got.healthy
              (λ x. absurd (cc (sym a.not_exhausted ∙ sym got.not_exhausted ∙ x))) got.more_left)

  all_rounds :
      (es : List Event) (fuel : ℕ)
      → AreEvents order chunk es
      → 2 * length es + 1 ≤ fuel
      → Continues fuel es
  all_rounds es zero v n = absurd (omega arith)
  all_rounds [] (suc fuel) v n =
      λ r s h g l. no_event_left fuel r s h l (keep_going-Going chunk r h g)
  all_rounds (e ∷ es) (suc zero) v n = absurd (omega arith)
  all_rounds (e ∷ es) (suc (suc fuel)) v n = λ r s h g l.
      elim (event_ahead-Turn order chunk r e (bytes_of es) v.0 h l (keep_going-Going chunk r h g)) [
        | ready r' k a ↦
            at_event-Continues (suc fuel) e es r r' s v.0 k a
              (all_rounds es (suc fuel) v.1 (omega arith))
        | cut k x few ↦
            let r' : ChunkedReader = record r { is_chunk_exhausted = true } in
            let h' : IsHealthy chunk r' = record {
              reading = record {
                within = h.reading.within;
                processed = h.reading.processed;
                in_total = h.reading.in_total;
                full = h.reading.full;
              };
              healthy = h.healthy;
              there = h.there;
              room = h.room;
            } in
            let g' : CanGoOn r' = λ _. inr (
              omega (
                arith,
                few,
                length-rest chunk r h,
                ap (length {0}) l,
                length-append e.bytes (bytes_of es),
              )) in
            ap state_of (
              round-going (suc fuel) r r s k
              ∙ handle_peeked-cut order chunk callback (rounds (suc fuel)) s r e (bytes_of es) v.0 h
                  l few)
            ∙ elim (event_ahead-Turn order chunk r' e (bytes_of es) v.0 h' l
                (keep_going-Going chunk r' h' g')) [
                  | ready r2 k2 a2 ↦
                      at_event-Continues fuel e es r' r2 s v.0 k2 a2
                        (all_rounds es fuel v.1 (omega arith))
                  | cut k2 x2 few2 ↦ absurd (cc x2)
                ]
      ]

-- Where the file has all of a section of events, none of which is larger than a chunk, and the token is not
-- cancelled, two rounds for each event and one more are enough, and `read_events` comes to what the
-- callback comes to for one event after another, in the order of the section.
pub read_events-call_for_all :
    {S : Type 0} (callback : Callback S) (es : List Event) (chunks : Chunks) (fuel : ℕ)
    (stream : FileStream) (header : FileHeaderData) (section : SectionData) (s : S)
    → stream.failed ≡ false
    → section.offset + section.size ≤ length stream.content
    → take section.size (drop section.offset stream.content) ≡ bytes_of es
    → AreEvents header.byte_order (length chunks.for_events) es
    → 2 * length es + 1 ≤ fuel
    → state_of (read_events chunks fuel (λ round. false) stream header section callback s)
      ≡ call_for_all callback es s
unfolding read_events new_reader
read_events-call_for_all callback es chunks fuel stream header section s f there all v n =
    let order = header.byte_order in
    let chunk = length chunks.for_events in
    let initial : FileStream → ChunkedReader = λ moved. record {
      stream = moved;
      chunk_buffer = chunks.for_events;
      total_size = section.size;
      total_processed_size = 0;
      current_chunk_size = 0;
      chunk_processed_size = 0;
      is_chunk_exhausted = true;
    } in
    let moved : FileStream = record stream { position = section.offset } in
    let r = initial moved in
    let nothing_taken : unread r ≡ section.size = omega arith in
    let h : IsHealthy chunk r = record {
      reading = record {
        within = omega arith;
        processed = omega arith;
        in_total = omega arith;
        full = inl refl;
      };
      healthy = f;
      there = omega (arith, there, nothing_taken);
      room = refl;
    } in
    let l : rest r ≡ bytes_of es =
      ap (λ n. take n (drop section.offset stream.content)) nothing_taken ∙ all in
    ap
      (λ b. state_of (
        lift (if b then throws failed_to_move else finished (initial (if b then stream else moved)))
        >>= (λ r. event_rounds fuel (λ round. false) order callback r s)))
      f
    ∙ all_rounds order chunk callback es fuel v n r s h (λ _. inl refl) l
