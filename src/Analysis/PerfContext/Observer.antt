-- ===== src/Analysis/PerfContext/Observer.antt =====
-- The observer of perf_data_file_process_context.cpp: which events of a file its handlers get.
mod Examples
use snail_server.Common.{
  ℕ, ◌≡◌, refl, sym, ◌∙◌, ap, ap₂, ◌+◌, ◌*◌, ◌≤◌, Bool, true, false, List, [], ◌∷◌, ◌++◌, Option,
  none, some, ◌==◌, length, take, drop, if◌then◌else◌, Bool-cases, inl, inr, arith,
}
use snail_server.Analysis.PerfContext.{
  PerfContext, CommEvent, ForkEvent, Mmap2Event, SampleEvent, PerfEvent, comm_event, fork_event,
  mmap2_event, sample_event,
}
use snail_server.Analysis.PerfContext.Events.{handle_event, handle_events, then_handle}
use snail_server.Common.AssocMap.{lookup, insert}
use snail_server.Common.Bytes.{ByteOrder}
use snail_server.Common.Run.{Run, finished, throws, out_of_bounds, out_of_fuel, in_bounds, ◌>>=◌}
use snail_server.Common.Stream.{FileStream}
use snail_server.PerfData.Attributes.{
  PerfError, EventAttributes, EventAttributesDatabase, get_event_attributes, is_kernel_event,
}
use snail_server.PerfData.Header.{FileHeaderData, SectionData}
use snail_server.PerfData.Observer.{
  DispatchingEventObserver, KernelHandler, register_kernel_event, handle_kernel,
  run_kernel_handlers, handle_other, run_handlers, handlers_or_none,
}
use snail_server.PerfData.Process.{dispatch_event, read_data_section}
use snail_server.PerfData.Reading.{Chunks, EventHeader}
use snail_server.PerfData.Records
use snail_server.PerfData.Sections.{Event, AreEvents, bytes_of, call_for_all, state_of}
use snail_server.PerfData.Sections.Delivered.{read_events-call_for_all}

-- What the handlers read of the views; the key of a source is the address of the attributes.
abbrev pub comm_of : Records.CommEventView → CommEvent
comm_of v = record { pid = v.pid; tid = v.tid; comm = v.comm; time = v.sample_id.time }

abbrev pub fork_of : Records.ForkEventView → ForkEvent
fork_of v = record { pid = v.pid; tid = v.tid; time = v.time }

abbrev pub mmap2_of : Records.Mmap2EventView → Mmap2Event
mmap2_of v = record {
  pid = v.pid;
  addr = v.addr;
  len = v.len;
  pgoff = v.pgoff;
  filename = v.filename;
  build_id = v.build_id;
  time = v.sample_id.time;
}

abbrev pub sample_of : Records.SampleEvent → SampleEvent
sample_of v = record {
  id = v.id;
  attributes = v.attributes.address;
  tid = v.tid;
  time = v.time;
  ip = v.ip;
  ips = v.ips;
}

module _ (ip_hash : ℕ → ℕ) where
  -- The handlers are registered by the types of the events.
  abbrev pub context_observer : DispatchingEventObserver PerfContext
  context_observer =
      register_kernel_event 9 Records.parse_event
        (λ v c. in_bounds (handle_event ip_hash (sample_event (sample_of v)) c))
        (register_kernel_event 10 Records.mmap2_event_view
          (λ v c. in_bounds (handle_event ip_hash (mmap2_event (mmap2_of v)) c))
          (register_kernel_event 7 Records.fork_event_view
            (λ v c. in_bounds (handle_event ip_hash (fork_event (fork_of v)) c))
            (register_kernel_event 3 Records.comm_event_view
              (λ v c. in_bounds (handle_event ip_hash (comm_event (comm_of v)) c))
              (record { kernel_handlers = []; non_kernel_handlers = [] }))))

  -- The event that the bytes stand for, where it is one of the four kinds.
  abbrev pub kernel_event_of :
      ℕ → EventAttributes → List ℕ → ByteOrder → Run PerfError (Option PerfEvent)
  kernel_event_of type attributes bytes order =
      if 3 == type
      then Records.comm_event_view attributes bytes order
        >>= (λ v. finished (some (comm_event (comm_of v))))
      else if 7 == type
      then Records.fork_event_view attributes bytes order
        >>= (λ v. finished (some (fork_event (fork_of v))))
      else if 10 == type
      then Records.mmap2_event_view attributes bytes order
        >>= (λ v. finished (some (mmap2_event (mmap2_of v))))
      else if 9 == type
      then Records.parse_event attributes bytes order
        >>= (λ v. finished (some (sample_event (sample_of v))))
      else finished none

  abbrev pub event_of :
      ByteOrder → EventAttributesDatabase → Event → Run PerfError (Option PerfEvent)
  event_of order db e =
      if is_kernel_event e.header.type
      then get_event_attributes order e.header.type (drop 8 e.bytes) db
        >>= (λ attributes. kernel_event_of e.header.type attributes e.bytes order)
      else finished none

  abbrev pub with_event : Option PerfEvent → List PerfEvent → List PerfEvent
  with_event none es = es
  with_event (some e) es = e ∷ es

  abbrev pub events_of :
      ByteOrder → EventAttributesDatabase → List Event → Run PerfError (List PerfEvent)
  events_of order db [] = finished []
  events_of order db (e ∷ es) =
      event_of order db e >>= (λ p. events_of order db es >>= (λ ps. finished (with_event p ps)))

  abbrev handle_optional : PerfContext → Option PerfEvent → Run PerfError PerfContext
  handle_optional c none = finished c
  handle_optional c (some e) = in_bounds (handle_event ip_hash e c)

  one_handler :
      {V : Type 0} (m : Run PerfError V) (f : V → PerfEvent) (c : PerfContext)
      → ((m >>= (λ v. in_bounds (handle_event ip_hash (f v) c))) >>= (λ d. finished d))
        ≡ (m >>= (λ v. finished (some (f v))) >>= handle_optional c)
  one_handler (finished v) f c = end (in_bounds (handle_event ip_hash (f v) c))
    where
      end : (m : Run PerfError PerfContext) → (m >>= (λ d. finished d)) ≡ m
      end (finished d) = refl
      end (throws e) = refl
      end out_of_bounds = refl
      end out_of_fuel = refl
  one_handler (throws e) f c = refl
  one_handler out_of_bounds f c = refl
  one_handler out_of_fuel f c = refl

  handle_kernel-context_observer :
      (type : ℕ) (attributes : EventAttributes) (bytes : List ℕ) (order : ByteOrder)
      (c : PerfContext)
      → handle_kernel context_observer type attributes bytes order c
        ≡ (kernel_event_of type attributes bytes order >>= handle_optional c)
  unfolding lookup insert run_kernel_handlers
  handle_kernel-context_observer type attributes bytes order c = elim (Bool-cases (3 == type)) [
    | inl a ↦ rw a (
        one_handler (Records.comm_event_view attributes bytes order) (λ v. comm_event (comm_of v))
          c)
    | inr a ↦ elim (Bool-cases (7 == type)) [
      | inl b ↦
          rw (a, b)
            (one_handler (Records.fork_event_view attributes bytes order)
              (λ v. fork_event (fork_of v)) c)
      | inr b ↦ elim (Bool-cases (10 == type)) [
        | inl d ↦
            rw (a, b, d)
              (one_handler (Records.mmap2_event_view attributes bytes order)
                (λ v. mmap2_event (mmap2_of v)) c)
        | inr d ↦ elim (Bool-cases (9 == type)) [
          | inl f ↦
              rw (a, b, d, f)
                (one_handler (Records.parse_event attributes bytes order)
                  (λ v. sample_event (sample_of v)) c)
          | inr f ↦ rw (a, b, d, f) refl
        ]
      ]
    ]
  ]

  finished-parts :
      {A B C : Type 0} (m : Run PerfError A) (n : Run PerfError B) (f : A → B → C) (r : C)
      → (m >>= (λ a. n >>= (λ b. finished (f a b)))) ≡ finished r
      → (a : A) × (b : B) × (m ≡ finished a) × (n ≡ finished b) × (r ≡ f a b)
  finished-parts (finished a) (finished b) f r e = (a, b, refl, refl, cc)
  finished-parts (finished a) (throws x) f r e = absurd (cc e)
  finished-parts (finished a) out_of_bounds f r e = absurd (cc e)
  finished-parts (finished a) out_of_fuel f r e = absurd (cc e)
  finished-parts (throws x) n f r e = absurd (cc e)
  finished-parts out_of_bounds n f r e = absurd (cc e)
  finished-parts out_of_fuel n f r e = absurd (cc e)

  bind_assoc :
      {A B C : Type 0} (m : Run PerfError A) (f : A → Run PerfError B) (g : B → Run PerfError C)
      (h : A → Run PerfError C)
      → ((a : A) → h a ≡ (f a >>= g))
      → (m >>= h) ≡ (m >>= f >>= g)
  bind_assoc (finished a) f g h k = k a
  bind_assoc (throws e) f g h k = refl
  bind_assoc out_of_bounds f g h k = refl
  bind_assoc out_of_fuel f g h k = refl

  dispatch_event-event_of :
      (order : ByteOrder) (db : EventAttributesDatabase) (e : Event) (c : PerfContext)
      → dispatch_event context_observer order db e.header e.bytes c
        ≡ (event_of order db e >>= handle_optional c)
  unfolding lookup run_handlers
  dispatch_event-event_of order db e c = elim (Bool-cases (is_kernel_event e.header.type)) [
    | inl b ↦
        let found = get_event_attributes order e.header.type (drop 8 e.bytes) db in
        let kind : EventAttributes → Run PerfError (Option PerfEvent) =
          λ a. kernel_event_of e.header.type a e.bytes order in
        let other = handle_other context_observer e.header.type e.bytes order c in
        ap
          (λ k.
            if k
            then found >>= (λ a. handle_kernel context_observer e.header.type a e.bytes order c)
            else other)
          b
        ∙ bind_assoc found kind (handle_optional c)
            (λ a. handle_kernel context_observer e.header.type a e.bytes order c)
            (λ a. handle_kernel-context_observer e.header.type a e.bytes order c)
        ∙ ap (λ k. (if k then found >>= kind else finished none) >>= handle_optional c) (sym b)
    | inr b ↦
        let found = get_event_attributes order e.header.type (drop 8 e.bytes) db in
        let kind : EventAttributes → Run PerfError (Option PerfEvent) =
          λ a. kernel_event_of e.header.type a e.bytes order in
        ap
          (λ k.
            if k
            then found >>= (λ a. handle_kernel context_observer e.header.type a e.bytes order c)
            else finished c)
          b
        ∙ ap (λ k. (if k then found >>= kind else finished none) >>= handle_optional c) (sym b)
  ]

  handle_rest :
      (p : Option PerfEvent) (ps : List PerfEvent) (c : PerfContext)
      → (handle_optional c p >>= (λ d. in_bounds (handle_events ip_hash ps d)))
        ≡ in_bounds (handle_events ip_hash (with_event p ps) c)
  unfolding handle_events
  handle_rest none ps c = refl
  handle_rest (some e) ps c = handled (handle_event ip_hash e c)
    where
      handled :
          (o : Option PerfContext)
          → (in_bounds {E = PerfError} o >>= (λ d. in_bounds (handle_events ip_hash ps d)))
            ≡ in_bounds (then_handle (handle_events ip_hash ps) o)
      handled none = refl
      handled (some d) = refl

  bind-cong :
      {A B : Type 0} (m : Run PerfError A) (f g : A → Run PerfError B)
      → ((a : A) → f a ≡ g a)
      → (m >>= f) ≡ (m >>= g)
  bind-cong (finished a) f g k = k a
  bind-cong (throws e) f g k = refl
  bind-cong out_of_bounds f g k = refl
  bind-cong out_of_fuel f g k = refl

  call_for_all-handle_events :
      (order : ByteOrder) (db : EventAttributesDatabase) (es : List Event) (ps : List PerfEvent)
      (c : PerfContext)
      → events_of order db es ≡ finished ps
      → call_for_all (dispatch_event context_observer order db) es c
        ≡ in_bounds (handle_events ip_hash ps c)
  unfolding handle_events
  call_for_all-handle_events order db [] ps c e =
      let none_read : ps ≡ [] = cc in
      ap (λ (qs : List PerfEvent). in_bounds {E = PerfError} (handle_events ip_hash qs c))
        (sym none_read)
  call_for_all-handle_events order db (e ∷ es) ps c k =
      let parts = finished-parts (event_of order db e) (events_of order db es) with_event ps k in
      ap (λ m. m >>= call_for_all (dispatch_event context_observer order db) es)
        (dispatch_event-event_of order db e c ∙ ap (λ m. m >>= handle_optional c) parts.2)
      ∙ bind-cong (handle_optional c parts.0) _ (λ d. in_bounds (handle_events ip_hash parts.1 d))
          (λ d. call_for_all-handle_events order db es parts.1 d parts.3)
      ∙ handle_rest parts.0 parts.1 c
      ∙ ap (λ (qs : List PerfEvent). in_bounds (handle_events ip_hash qs c)) (sym parts.4)

-- Where the file has all of its data section of events, none of which is larger than a chunk, and each can
-- be read, the context after the section is the one after `handle_event` of each event of the four kinds, in
-- order; two rounds for each event and one more are enough.
pub read_data_section-handle_events :
    (ip_hash : ℕ → ℕ) (es : List Event) (ps : List PerfEvent) (chunks : Chunks) (fuel : ℕ)
    (stream : FileStream) (header : FileHeaderData) (db : EventAttributesDatabase) (c : PerfContext)
    → stream.failed ≡ false
    → header.event_data.offset + header.event_data.size ≤ length stream.content
    → take header.event_data.size (drop header.event_data.offset stream.content) ≡ bytes_of es
    → AreEvents header.byte_order (length chunks.for_events) es
    → 2 * length es + 1 ≤ fuel
    → events_of ip_hash header.byte_order db es ≡ finished ps
    → state_of (
        read_data_section
          (context_observer ip_hash)
          chunks
          fuel
          (λ round. false)
          stream
          header
          db
          c)
      ≡ in_bounds (handle_events ip_hash ps c)
read_data_section-handle_events ip_hash es ps chunks fuel stream header db c f there all v n k =
    read_events-call_for_all (dispatch_event (context_observer ip_hash) header.byte_order db) es
      chunks fuel stream header header.event_data c f there all v n
    ∙ call_for_all-handle_events ip_hash header.byte_order db es ps c k
