-- ===== src/PerfData/Positions.antt =====
-- Where the id of an event is read.
use snail_server.Common.{
  ℕ, zero, suc, ◌+◌, ◌-◌, ◌≤◌, ◌≡◌, refl, sym, ◌∙◌, ap, subst, Bool, true, false, List, Option,
  none, ltb, length, if◌then◌else◌, arith, Bool-cases, inl, inr,
}
use snail_server.Common.Bytes.{ByteOrder, extract_in}
use snail_server.Common.Run.{
  Run, finished, Ensures, ◌>>=◌, bind-Ensures, in_bounds-Ensures_read, in_bounds-Ensures,
}
use snail_server.PerfData.Attributes.{PerfError, EventAttributes, added_if}
use snail_server.PerfData.Flags.{test}
use snail_server.PerfData.Records.{
  extract_move_if, extract_move_back_if, SampleId, SampleEvent, SampleHead, parse_head, parse_tail,
  parse_event, parse_sample_id_back, parse_times_back, extract_list_if, extract_many,
}
use snail_server.PerfData.SampleFormat

-- The value at an offset, if the flag is set.
abbrev pub value_if : ByteOrder → ℕ → Bool → List ℕ → ℕ → Option ℕ
value_if order width present buffer offset =
    if present then extract_in order width buffer offset else none

abbrev width_if : ℕ → Bool → ℕ
width_if width present = if present then width else 0

abbrev IsMove : ByteOrder → ℕ → Bool → List ℕ → ℕ → Option ℕ × ℕ → Type 0
IsMove order width present buffer offset r =
    (r.0 ≡ value_if order width present buffer offset) × (r.1 ≡ offset + width_if width present)

extract_move_if-IsMove :
    (order : ByteOrder) (width : ℕ) (present : Bool) (buffer : List ℕ) (offset : ℕ)
    → Ensures
        (IsMove order width present buffer offset)
        (extract_move_if order width present buffer offset)
unfolding extract_move_if
extract_move_if-IsMove order width false buffer offset = (refl, omega arith)
extract_move_if-IsMove order width true buffer offset =
    in_bounds-Ensures_read (IsMove order width true buffer offset)
      (extract_in order width buffer offset) _ (λ value e. (sym e, refl))

abbrev IsMoveBack : ByteOrder → ℕ → Bool → List ℕ → ℕ → Option ℕ × ℕ → Type 0
IsMoveBack order width present buffer offset r =
    (r.0 ≡ value_if order width present buffer (offset - width))
    × (r.1 ≡ offset - width_if width present)
    × (width_if width present ≤ offset)

extract_move_back_if-IsMoveBack :
    (order : ByteOrder) (width : ℕ) (present : Bool) (buffer : List ℕ) (offset : ℕ)
    → Ensures
        (IsMoveBack order width present buffer offset)
        (extract_move_back_if order width present buffer offset)
unfolding extract_move_back_if
extract_move_back_if-IsMoveBack order width false buffer offset = (refl, omega arith, omega arith)
extract_move_back_if-IsMoveBack order width true buffer offset =
    elim (Bool-cases (ltb offset width)) [
      | inl b ↦ rw b tt
      | inr b ↦ rw b (
          in_bounds-Ensures_read (IsMoveBack order width true buffer offset)
            (extract_in order width buffer (offset - width)) _
            (λ value e. (sym e, refl, ground arith)))
    ]

after_move :
    {T : Type 0} (Q : T → Type 0) (order : ByteOrder) (width : ℕ) (present : Bool) (buffer : List ℕ)
    (offset : ℕ) (f : Option ℕ × ℕ → Run PerfError T)
    → ((t : Option ℕ × ℕ) → IsMove order width present buffer offset t → Ensures Q (f t))
    → Ensures Q (extract_move_if order width present buffer offset >>= f)
after_move Q order width present buffer offset f h =
    bind-Ensures (IsMove order width present buffer offset) Q
      (extract_move_if order width present buffer offset) f
      (extract_move_if-IsMove order width present buffer offset) h

after_move_back :
    {T : Type 0} (Q : T → Type 0) (order : ByteOrder) (width : ℕ) (present : Bool) (buffer : List ℕ)
    (offset : ℕ) (f : Option ℕ × ℕ → Run PerfError T)
    → ((t : Option ℕ × ℕ) → IsMoveBack order width present buffer offset t → Ensures Q (f t))
    → Ensures Q (extract_move_back_if order width present buffer offset >>= f)
after_move_back Q order width present buffer offset f h =
    bind-Ensures (IsMoveBack order width present buffer offset) Q
      (extract_move_back_if order width present buffer offset) f
      (extract_move_back_if-IsMoveBack order width present buffer offset) h

extract_many-finishes :
    (order : ByteOrder) (width n : ℕ) (buffer : List ℕ) (offset : ℕ)
    → Ensures (λ r. Unit {0}) (extract_many order width n buffer offset)
unfolding extract_many
extract_many-finishes order width zero buffer offset = tt
extract_many-finishes order width (suc n) buffer offset =
    in_bounds-Ensures (λ r. Unit {0}) (extract_in order width buffer offset) _
      (λ value.
        bind-Ensures (λ r. Unit {0}) (λ r. Unit {0})
          (extract_many order width n buffer (offset + width)) _
          (extract_many-finishes order width n buffer (offset + width)) (λ r h. tt))

after_list :
    {T : Type 0} (Q : T → Type 0) (order : ByteOrder) (width : ℕ) (present : Bool) (buffer : List ℕ)
    (offset : ℕ) (f : Option (List ℕ) × ℕ → Run PerfError T)
    → ((t : Option (List ℕ) × ℕ) → Ensures Q (f t))
    → Ensures Q (extract_list_if order width present buffer offset >>= f)
unfolding extract_list_if
after_list Q order width false buffer offset f h = h (none, offset)
after_list Q order width true buffer offset f h =
    bind-Ensures (λ r. Unit {0}) Q (extract_list_if order width true buffer offset) f
      (in_bounds-Ensures (λ r. Unit {0}) (extract_in order 8 buffer offset) _
        (λ size.
          bind-Ensures (λ r. Unit {0}) (λ r. Unit {0})
            (extract_many order width size buffer (offset + 8)) _
            (extract_many-finishes order width size buffer (offset + 8)) (λ r h. tt)))
      (λ t _. h t)

-- The bytes before the id of a sample, behind an identifier.
abbrev pub bytes_before_id : ℕ → ℕ
bytes_before_id format =
    added_if (test SampleFormat.ip format)
    + added_if (test SampleFormat.tid format)
    + added_if (test SampleFormat.time format)
    + added_if (test SampleFormat.addr format)

parse_head-offset :
    (format : ℕ) (buffer : List ℕ) (order : ByteOrder) (offset : ℕ)
    → Ensures
        (λ h. h.offset ≡ offset + bytes_before_id format)
        (parse_head format buffer order offset)
parse_head-offset format buffer order offset =
    let Q : SampleHead → Type 0 = λ h. h.offset ≡ offset + bytes_before_id format in
    after_move Q order 8 (test SampleFormat.ip format) buffer offset _ (λ ip m0.
      after_move Q order 4 (test SampleFormat.tid format) buffer ip.1 _ (λ pid m1.
        after_move Q order 4 (test SampleFormat.tid format) buffer pid.1 _ (λ tid m2.
          after_move Q order 8 (test SampleFormat.time format) buffer tid.1 _ (λ time m3.
            after_move Q order 8 (test SampleFormat.addr format) buffer time.1 _ (λ addr m4.
              elim (Bool-cases (test SampleFormat.tid format)) [
                | inl b ↦ ground (arith, b, m0.1, m1.1, m2.1, m3.1, m4.1)
                | inr b ↦ ground (arith, b, m0.1, m1.1, m2.1, m3.1, m4.1)
              ])))))

parse_tail-id :
    (attributes : EventAttributes) (buffer : List ℕ) (order : ByteOrder) (head : SampleHead)
    (id : Option ℕ × ℕ)
    → Ensures (λ e. e.id ≡ id.0) (parse_tail attributes buffer order head id)
parse_tail-id attributes buffer order head id =
    let Q : SampleEvent → Type 0 = λ e. e.id ≡ id.0 in
    let f = attributes.sample_format in
    after_move Q order 8 (test SampleFormat.stream_id f) buffer id.1 _ (λ stream_id _.
      after_move Q order 4 (test SampleFormat.cpu f) buffer stream_id.1 _ (λ cpu _.
        after_move Q order 4 (test SampleFormat.cpu f) buffer cpu.1 _ (λ res _.
          after_move Q order 8 (test SampleFormat.period f) buffer res.1 _ (λ period _.
            after_list Q order 8 (test SampleFormat.call_chain f) buffer period.1 _ (λ ips.
              after_list Q order 1 (test SampleFormat.raw f) buffer ips.1 _ (λ raw_data. refl))))))

-- Where `parse_event` has the id from.
pub parse_event-id :
    (attributes : EventAttributes) (buffer : List ℕ) (order : ByteOrder)
    → Ensures
        (λ e.
          e.id
          ≡ value_if order 8 (test SampleFormat.id attributes.sample_format) buffer (
              8
              + added_if (test SampleFormat.identifier attributes.sample_format)
              + bytes_before_id attributes.sample_format))
        (parse_event attributes buffer order)
unfolding parse_event
parse_event-id attributes buffer order =
    let f = attributes.sample_format in
    let at = 8 + added_if (test SampleFormat.identifier f) + bytes_before_id f in
    let Q : SampleEvent → Type 0 =
      λ e. e.id ≡ value_if order 8 (test SampleFormat.id f) buffer at in
    after_move Q order 8 (test SampleFormat.identifier f) buffer 8 _ (λ identifier m0.
      bind-Ensures (λ h. h.offset ≡ identifier.1 + bytes_before_id f) Q
        (parse_head f buffer order identifier.1) _ (parse_head-offset f buffer order identifier.1)
        (λ head m1. after_move Q order 8 (test SampleFormat.id f) buffer head.offset _ (λ id m2.
          let here : head.offset ≡ at = m1 ∙ ap (λ n. n + bytes_before_id f) m0.1 in
          subst (λ v. Ensures (λ e. e.id ≡ v) (parse_tail attributes buffer order head id))
            (m2.0 ∙ ap (value_if order 8 (test SampleFormat.id f) buffer) here)
            (parse_tail-id attributes buffer order head id))))

-- The bytes behind the id, before an identifier.
abbrev pub bytes_behind_id : ℕ → ℕ
bytes_behind_id format =
    added_if (test SampleFormat.cpu format) + added_if (test SampleFormat.stream_id format)

abbrev pub IsReadBack : ℕ → List ℕ → ByteOrder → SampleId → Type 0
IsReadBack format buffer order s =
    (s.id
      ≡ value_if order 8 (test SampleFormat.id format) buffer (
          length buffer
          - (added_if (test SampleFormat.identifier format) + bytes_behind_id format + 8)))
    × (added_if (test SampleFormat.identifier format)
          + bytes_behind_id format
          + added_if (test SampleFormat.id format)
        ≤ length buffer)

parse_times_back-id :
    (format : ℕ) (buffer : List ℕ) (order : ByteOrder) (res cpu stream_id : Option ℕ)
    (id : Option ℕ × ℕ)
    → Ensures (λ s. s.id ≡ id.0) (parse_times_back format buffer order res cpu stream_id id)
parse_times_back-id format buffer order res cpu stream_id id =
    let Q : SampleId → Type 0 = λ s. s.id ≡ id.0 in
    after_move_back Q order 8 (test SampleFormat.time format) buffer id.1 _ (λ time _.
      after_move_back Q order 4 (test SampleFormat.tid format) buffer time.1 _ (λ tid _.
        after_move_back Q order 4 (test SampleFormat.tid format) buffer tid.1 _ (λ pid _. refl)))

-- Where `parse_sample_id_back` has the id from.
pub parse_sample_id_back-IsReadBack :
    (format : ℕ) (buffer : List ℕ) (order : ByteOrder)
    → Ensures (IsReadBack format buffer order) (parse_sample_id_back format buffer order)
unfolding parse_sample_id_back
parse_sample_id_back-IsReadBack format buffer order =
    let Q : SampleId → Type 0 = IsReadBack format buffer order in
    after_move_back Q order 8 (test SampleFormat.identifier format) buffer (length buffer) _
      (λ identifier m0.
        after_move_back Q order 4 (test SampleFormat.cpu format) buffer identifier.1 _ (λ res m1.
          after_move_back Q order 4 (test SampleFormat.cpu format) buffer res.1 _ (λ cpu m2.
            after_move_back Q order 8 (test SampleFormat.stream_id format) buffer cpu.1 _
              (λ stream_id m3.
                after_move_back Q order 8 (test SampleFormat.id format) buffer stream_id.1 _
                  (λ id m4.
                    let here : stream_id.1
                        ≡ length buffer
                          - (added_if (test SampleFormat.identifier format)
                              + bytes_behind_id format) =
                      elim (Bool-cases (test SampleFormat.cpu format)) [
                        | inl b ↦ ground (arith, b, m0.1, m1.1, m2.1, m3.1)
                        | inr b ↦ ground (arith, b, m0.1, m1.1, m2.1, m3.1)
                      ] in
                    let enough : added_if (test SampleFormat.identifier format)
                          + bytes_behind_id format
                          + added_if (test SampleFormat.id format)
                        ≤ length buffer =
                      elim (Bool-cases (test SampleFormat.cpu format)) [
                        | inl b ↦ ground (arith, b, m0, m1, m2, m3, m4)
                        | inr b ↦ ground (arith, b, m0, m1, m2, m3, m4)
                      ] in
                    let shifted : stream_id.1 - 8
                        ≡ length buffer
                          - (added_if (test SampleFormat.identifier format)
                              + bytes_behind_id format
                              + 8) =
                      omega (arith, here) in
                    bind-Ensures-map
                      (parse_times_back format buffer order res.0 cpu.0 stream_id.0 id) id.0
                      (λ s e. (
                        e
                            ∙ m4.0
                            ∙ ap (value_if order 8 (test SampleFormat.id format) buffer) shifted,
                        enough,
                      ))
                      (parse_times_back-id format buffer order res.0 cpu.0 stream_id.0 id))))))
  where
    bind-Ensures-map :
        (m : Run PerfError SampleId) (v : Option ℕ)
        → ((s : SampleId) → s.id ≡ v → IsReadBack format buffer order s)
        → Ensures (λ s. s.id ≡ v) m
        → Ensures (IsReadBack format buffer order) m
    bind-Ensures-map (finished s) v k h = k s h
    bind-Ensures-map (Run.throws e) v k h = tt
    bind-Ensures-map Run.out_of_bounds v k h = tt
    bind-Ensures-map Run.out_of_fuel v k h = h
