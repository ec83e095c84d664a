-- ===== src/Etl/Trace/Laws.antt =====
-- What the functions for one event have in common.
use snail_server.Common.{
  ℕ, zero, suc, ◌+◌, ◌-◌, ◌/◌, ◌%◌, ◌^◌, ◌≤◌, ◌<◌, ◌≡◌, refl, sym, ◌∙◌, ap, false, List, [], ◌∷◌,
  some, arith, Bool-cases, Option-cases, inl, inr, length, take, drop, leb, ◌==◌, ltb,
}
use snail_server.Common.Bytes.{extract, little_endian, with_low_byte}
use snail_server.Common.Run.{
  finished, in_bounds, Ensures, bind-Ensures, in_bounds-Ensures, in_bounds-Ensures_read,
}
use snail_server.Etl.Span.{minus_size, subspan}
use snail_server.Etl.Trace.{
  TraceHeader, system, compact, perfinfo, full_header, instance_header, event_header, static_size,
  time_offset, size_offset, TraceEvent, switch_header, trace_header_of, event_time, process_trace,
  process_kind, process_next_trace, aligned, peak_extended_size,
}

-- A number inside a part of a buffer is the number of the whole buffer.
little_endian-take :
    (width n : ℕ) (xs : List ℕ)
    → width ≤ n
    → little_endian width (take n xs) ≡ little_endian width xs
unfolding little_endian
little_endian-take zero n xs h = refl
little_endian-take (suc width) zero xs h = absurd (omega arith)
little_endian-take (suc width) (suc n) [] h = refl
little_endian-take (suc width) (suc n) (x ∷ xs) h =
    ap (with_low_byte x) (little_endian-take width n xs (omega arith))

take-nil : (n : ℕ) → take {A = ℕ} n [] ≡ []
take-nil zero = refl
take-nil (suc n) = refl

drop-take :
    (offset n : ℕ) (xs : List ℕ) → drop offset (take n xs) ≡ take (n - offset) (drop offset xs)
drop-take zero n xs = let e : n - 0 ≡ n = omega arith in rw e refl
drop-take (suc offset) zero xs = let e : 0 - suc offset ≡ 0 = omega arith in rw e refl
drop-take (suc offset) (suc n) [] = sym (take-nil (suc n - suc offset))
drop-take (suc offset) (suc n) (x ∷ xs) =
    let e : suc n - suc offset ≡ n - offset = omega arith in rw e (drop-take offset n xs)

pub extract-take :
    (width offset n : ℕ) (xs : List ℕ)
    → offset + width ≤ n
    → extract width (take n xs) offset ≡ extract width xs offset
unfolding extract
extract-take width offset n xs h =
    rw (drop-take offset n xs)
      (little_endian-take width (n - offset) (drop offset xs) (omega arith))

-- A part of a buffer from its start, whatever the count.
subspan-start :
    (buffer part : List ℕ) (count : ℕ)
    → subspan buffer 0 count ≡ some part
    → (width offset : ℕ) → offset + width ≤ count
    → extract width part offset ≡ extract width buffer offset
unfolding subspan
subspan-start buffer part count h width offset k = elim (Bool-cases (count == 2 ^ 64 - 1)) [
  | inl b ↦
      let e : buffer ≡ part = ground (arith, rw b at h) in ap (λ x. extract width x offset) (sym e)
  | inr b ↦ elim (Bool-cases (leb (0 + count) (length buffer))) [
    | inl c ↦
        let e : take count buffer ≡ part = ground (arith, rw (b, c) at h) in
        ap (λ x. extract width x offset) (sym e) ∙ extract-take width offset count buffer k
    | inr c ↦ absurd (ground (arith, rw (b, c) at h))
  ]
]

-- User data exists only where the size says at least as much as the header, less one.
subspan-size :
    (buffer part : List ℕ) (header_size size : ℕ)
    → subspan buffer header_size (minus_size size header_size) ≡ some part
    → length buffer < 2 ^ 64
    → header_size ≤ 100
    → header_size ≤ size + 1
unfolding subspan
subspan-size buffer part header_size size h k l = elim (Bool-cases (leb header_size (size + 1))) [
  | inl b ↦ ground arith
  | inr b ↦
      let not_leb : size + 1 < header_size = ground arith in
      let count = minus_size size header_size in
      let e : count ≡ 2 ^ 64 + size - header_size = omega (arith, not_leb) in
      let d : (count == 2 ^ 64 - 1) ≡ false = ground arith in
      let o : leb (header_size + count) (length buffer) ≡ false = ground arith in
      absurd (ground (arith, rw (d, o) at h))
]

-- How a header was read.
pub record IsRead (payload : List ℕ) (kind : TraceHeader) (r : TraceEvent × ℕ) : Type 0 where
  pub header_size : ℕ
  pub enough : static_size kind ≤ header_size
  pub small : header_size ≤ 100
  pub same_kind : r.0.kind ≡ kind
  pub header_part : subspan payload 0 header_size ≡ some r.0.header
  pub user_part : subspan payload header_size (minus_size r.1 header_size) ≡ some r.0.user_data

process_trace-IsRead :
    (kind : TraceHeader) (header_size : ℕ) (payload : List ℕ)
    → static_size kind ≤ header_size
    → header_size ≤ 100
    → Ensures (IsRead payload kind) (process_trace kind header_size payload)
process_trace-IsRead kind header_size payload h k =
    in_bounds-Ensures_read (IsRead payload kind) (subspan payload 0 header_size) _ λ header p.
      in_bounds-Ensures_read (IsRead payload kind) (extract 2 header (size_offset kind)) _ λ size _.
        in_bounds-Ensures_read (IsRead payload kind)
          (subspan payload header_size (minus_size size header_size)) _
          λ user q. record {
            header_size = header_size;
            enough = h;
            small = k;
            same_kind = refl;
            header_part = p;
            user_part = q;
          }

peak_extended_size-Ensures : (buffer : List ℕ) → Ensures (λ n. n ≤ 64) (peak_extended_size buffer)
peak_extended_size-Ensures buffer =
    in_bounds-Ensures (λ n. n ≤ 64) (extract 2 buffer 0) _
      λ ext. elim (Bool-cases (ext / 2 ^ 15 % 2 == 0)) [
        | inl b ↦ rw b (omega arith)
        | inr b ↦ rw b (omega arith)
      ]

process_kind-IsRead :
    (kind : TraceHeader) (payload : List ℕ)
    → Ensures (IsRead payload kind) (process_kind kind payload)
process_kind-IsRead system payload =
    process_trace-IsRead system 32 payload (omega arith) (omega arith)
process_kind-IsRead compact payload =
    process_trace-IsRead compact 24 payload (omega arith) (omega arith)
process_kind-IsRead full_header payload =
    process_trace-IsRead full_header 48 payload (omega arith) (omega arith)
process_kind-IsRead instance_header payload =
    process_trace-IsRead instance_header 72 payload (omega arith) (omega arith)
process_kind-IsRead event_header payload =
    process_trace-IsRead event_header 80 payload (omega arith) (omega arith)
process_kind-IsRead perfinfo payload =
    in_bounds-Ensures (IsRead payload perfinfo) (subspan payload 0 4) _ λ start.
      bind-Ensures (λ n. n ≤ 64) (IsRead payload perfinfo) (peak_extended_size start) _
        (peak_extended_size-Ensures start)
        λ ext h. process_trace-IsRead perfinfo (16 + ext) payload (omega arith) (omega arith)

switch_header-Ensures :
    (payload : List ℕ)
    → Ensures (λ kind. switch_header payload ≡ finished kind) (switch_header payload)
switch_header-Ensures payload = elim (Option-cases (extract 1 payload 2)) [
  | inl e ↦ rw e tt
  | inr (number, e) ↦ elim (Option-cases (trace_header_of number)) [
    | inl d ↦ rw (e, d) tt
    | inr (kind, d) ↦ rw (e, d) refl
  ]
]

time_inside : (kind : TraceHeader) → time_offset kind + 8 ≤ static_size kind
time_inside system = omega arith
time_inside compact = omega arith
time_inside perfinfo = omega arith
time_inside full_header = omega arith
time_inside instance_header = omega arith
time_inside event_header = omega arith

-- The time of the header that the observer gets.
abbrev pub HasTime : List ℕ → TraceEvent × ℕ → Type 0
HasTime payload r = event_time payload ≡ in_bounds (extract 8 r.0.header (time_offset r.0.kind))

-- The time by which an event is queued is the time in the header that the observer gets for it.
pub process_next_trace-HasTime :
    (payload : List ℕ) → Ensures (HasTime payload) (process_next_trace payload)
unfolding process_next_trace event_time
process_next_trace-HasTime payload =
    bind-Ensures (λ kind. switch_header payload ≡ finished kind) (HasTime payload)
      (switch_header payload) _ (switch_header-Ensures payload)
      λ kind s.
        bind-Ensures (IsRead payload kind) (HasTime payload) (process_kind kind payload) _
          (process_kind-IsRead kind payload)
          λ r h.
            let e =
              subspan-start payload r.0.header h.header_size h.header_part 8 (time_offset kind)
                (omega (arith, time_inside kind, h.enough)) in
            rw (s, h.same_kind, e) refl

abbrev pub Advances : TraceEvent × ℕ → Type 0
Advances r = (16 ≤ r.1) × (r.1 % 8 ≡ 0)

aligned-lem : (n : ℕ) → 15 ≤ n → (16 ≤ aligned n) × (aligned n % 8 ≡ 0)
aligned-lem n h = elim (Bool-cases (ltb 0 (n % 8))) [
  | inl b ↦ rw b (omega arith, omega arith)
  | inr b ↦ let e : n % 8 ≡ 0 = ground arith in rw b (omega arith, e)
]

static_size_least : (kind : TraceHeader) → 16 ≤ static_size kind
static_size_least system = omega arith
static_size_least compact = omega arith
static_size_least perfinfo = omega arith
static_size_least full_header = omega arith
static_size_least instance_header = omega arith
static_size_least event_header = omega arith

-- An event that is read inside its buffer takes 16 bytes at least, in blocks of 8. A size field below the
-- size of the header leads outside.
pub process_next_trace-Advances :
    (payload : List ℕ) → length payload < 2 ^ 64 → Ensures Advances (process_next_trace payload)
unfolding process_next_trace
process_next_trace-Advances payload l =
    bind-Ensures (λ kind. switch_header payload ≡ finished kind) Advances (switch_header payload) _
      (switch_header-Ensures payload)
      λ kind s.
        bind-Ensures (IsRead payload kind) Advances (process_kind kind payload) _
          (process_kind-IsRead kind payload)
          λ r h. aligned-lem r.1 (
            omega (
              arith,
              static_size_least kind,
              h.enough,
              subspan-size payload r.0.user_data h.header_size r.1 h.user_part l h.small,
            ))
