-- ===== src/PerfData/Records.antt =====
-- snail/perf_data/parser/records/kernel.{hpp,cpp}: the events of the kernel. A view is the bytes of an event
-- behind its header.
use snail_server.Common.{
  ℕ, zero, suc, ◌+◌, ◌-◌, Bool, true, false, List, [], ◌∷◌, Option, none, some, ◌==◌, ltb, length,
  drop, take, if◌then◌else◌,
}
use snail_server.Common.Bytes.{ByteOrder, extract_in}
use snail_server.Common.Run.{Run, finished, out_of_bounds, in_bounds, ◌>>=◌}
use snail_server.PerfData.Attributes.{PerfError, EventAttributes}
use snail_server.PerfData.Flags.{test}
use snail_server.PerfData.SampleFormat
use snail_server.Text.Codes.{Text}

-- `extract_move_if` and `extract_move_back_if`: a value, if the flag is set, and the offset behind or before it.
unfoldable pub extract_move_if : ByteOrder → ℕ → Bool → List ℕ → ℕ → Run PerfError (Option ℕ × ℕ)
extract_move_if order width false buffer offset = finished (none, offset)
extract_move_if order width true buffer offset =
    in_bounds (extract_in order width buffer offset)
    >>= (λ value. finished (some value, offset + width))

unfoldable pub extract_move_back_if :
    ByteOrder → ℕ → Bool → List ℕ → ℕ → Run PerfError (Option ℕ × ℕ)
extract_move_back_if order width false buffer offset = finished (none, offset)
extract_move_back_if order width true buffer offset =
    if ltb offset width
    then out_of_bounds
    else in_bounds (extract_in order width buffer (offset - width))
      >>= (λ value. finished (some value, offset - width))

pub record SampleId : Type 0 where
  pub pid : Option ℕ
  pub tid : Option ℕ
  pub time : Option ℕ
  pub id : Option ℕ
  pub stream_id : Option ℕ
  pub cpu : Option ℕ
  pub res : Option ℕ

-- The second read of `id` replaces the first.
abbrev pub parse_sample_id : ℕ → List ℕ → ByteOrder → Run PerfError SampleId
parse_sample_id format buffer order = do
  pid ← extract_move_if order 4 (test SampleFormat.tid format) buffer 0
  tid ← extract_move_if order 4 (test SampleFormat.tid format) buffer pid.1
  time ← extract_move_if order 8 (test SampleFormat.time format) buffer tid.1
  id ← extract_move_if order 8 (test SampleFormat.id format) buffer time.1
  stream_id ← extract_move_if order 8 (test SampleFormat.stream_id format) buffer id.1
  cpu ← extract_move_if order 4 (test SampleFormat.cpu format) buffer stream_id.1
  res ← extract_move_if order 4 (test SampleFormat.cpu format) buffer cpu.1
  identifier ← extract_move_if order 8 (test SampleFormat.identifier format) buffer res.1
  finished (record {
    pid = pid.0;
    tid = tid.0;
    time = time.0;
    id = identifier.0;
    stream_id = stream_id.0;
    cpu = cpu.0;
    res = res.0;
  })

abbrev pub parse_times_back :
    ℕ → List ℕ → ByteOrder → Option ℕ → Option ℕ → Option ℕ → Option ℕ × ℕ → Run PerfError SampleId
parse_times_back format buffer order res cpu stream_id id = do
  time ← extract_move_back_if order 8 (test SampleFormat.time format) buffer id.1
  tid ← extract_move_back_if order 4 (test SampleFormat.tid format) buffer time.1
  pid ← extract_move_back_if order 4 (test SampleFormat.tid format) buffer tid.1
  finished (record {
    pid = pid.0;
    tid = tid.0;
    time = time.0;
    id = id.0;
    stream_id = stream_id;
    cpu = cpu;
    res = res;
  })

unfoldable pub parse_sample_id_back : ℕ → List ℕ → ByteOrder → Run PerfError SampleId
parse_sample_id_back format buffer order = do
  identifier ←
      extract_move_back_if order 8 (test SampleFormat.identifier format) buffer (length buffer)
  res ← extract_move_back_if order 4 (test SampleFormat.cpu format) buffer identifier.1
  cpu ← extract_move_back_if order 4 (test SampleFormat.cpu format) buffer res.1
  stream_id ← extract_move_back_if order 8 (test SampleFormat.stream_id format) buffer cpu.1
  id ← extract_move_back_if order 8 (test SampleFormat.id format) buffer stream_id.1
  parse_times_back format buffer order res.0 cpu.0 stream_id.0 id

-- `ips` and `data` are there only if their flags are set.
pub record SampleEvent : Type 0 where
  pub attributes : EventAttributes
  pub id : Option ℕ
  pub ip : Option ℕ
  pub pid : Option ℕ
  pub tid : Option ℕ
  pub time : Option ℕ
  pub addr : Option ℕ
  pub stream_id : Option ℕ
  pub cpu : Option ℕ
  pub res : Option ℕ
  pub period : Option ℕ
  pub ips : Option (List ℕ)
  pub raw_data : Option (List ℕ)

-- The loops over `ips` and `data`: values of a width, and the offset behind them.
abbrev pub then_extract : ℕ → ℕ → Run PerfError (List ℕ × ℕ) → Run PerfError (List ℕ × ℕ)
then_extract value offset later = later >>= (λ r. finished (value ∷ r.0, r.1))

unfoldable pub extract_many : ByteOrder → ℕ → ℕ → List ℕ → ℕ → Run PerfError (List ℕ × ℕ)
extract_many order width zero buffer offset = finished ([], offset)
extract_many order width (suc n) buffer offset =
    in_bounds (extract_in order width buffer offset)
    >>= (λ value. then_extract value offset (extract_many order width n buffer (offset + width)))

unfoldable pub extract_list_if :
    ByteOrder → ℕ → Bool → List ℕ → ℕ → Run PerfError (Option (List ℕ) × ℕ)
extract_list_if order width false buffer offset = finished (none, offset)
extract_list_if order width true buffer offset = do
  size ← in_bounds (extract_in order 8 buffer offset)
  values ← extract_many order width size buffer (offset + 8)
  finished (some values.0, values.1)

-- The fields before the id.
pub record SampleHead : Type 0 where
  pub ip : Option ℕ
  pub pid : Option ℕ
  pub tid : Option ℕ
  pub time : Option ℕ
  pub addr : Option ℕ
  pub offset : ℕ

abbrev pub parse_head : ℕ → List ℕ → ByteOrder → ℕ → Run PerfError SampleHead
parse_head format buffer order offset = do
  ip ← extract_move_if order 8 (test SampleFormat.ip format) buffer offset
  pid ← extract_move_if order 4 (test SampleFormat.tid format) buffer ip.1
  tid ← extract_move_if order 4 (test SampleFormat.tid format) buffer pid.1
  time ← extract_move_if order 8 (test SampleFormat.time format) buffer tid.1
  addr ← extract_move_if order 8 (test SampleFormat.addr format) buffer time.1
  finished (record {
    ip = ip.0;
    pid = pid.0;
    tid = tid.0;
    time = time.0;
    addr = addr.0;
    offset = addr.1;
  })

abbrev pub parse_tail :
    EventAttributes → List ℕ → ByteOrder → SampleHead → Option ℕ × ℕ → Run PerfError SampleEvent
parse_tail attributes buffer order head id = do
  stream_id ←
      extract_move_if order 8 (test SampleFormat.stream_id attributes.sample_format) buffer id.1
  cpu ← extract_move_if order 4 (test SampleFormat.cpu attributes.sample_format) buffer stream_id.1
  res ← extract_move_if order 4 (test SampleFormat.cpu attributes.sample_format) buffer cpu.1
  period ← extract_move_if order 8 (test SampleFormat.period attributes.sample_format) buffer res.1
  ips ←
      extract_list_if order 8 (test SampleFormat.call_chain attributes.sample_format) buffer
        period.1
  raw_data ← extract_list_if order 1 (test SampleFormat.raw attributes.sample_format) buffer ips.1
  finished (record {
    attributes = attributes;
    id = id.0;
    ip = head.ip;
    pid = head.pid;
    tid = head.tid;
    time = head.time;
    addr = head.addr;
    stream_id = stream_id.0;
    cpu = cpu.0;
    res = res.0;
    period = period.0;
    ips = ips.0;
    raw_data = raw_data.0;
  })

-- The second read of `id` replaces the first.
unfoldable pub parse_event : EventAttributes → List ℕ → ByteOrder → Run PerfError SampleEvent
parse_event attributes buffer order = do
  identifier ←
      extract_move_if order 8 (test SampleFormat.identifier attributes.sample_format) buffer 8
  head ← parse_head attributes.sample_format buffer order identifier.1
  id ← extract_move_if order 8 (test SampleFormat.id attributes.sample_format) buffer head.offset
  parse_tail attributes buffer order head id

-- `extract_string`: up to a zero byte.
abbrev pub until_zero : List ℕ → Text
until_zero [] = []
until_zero (c ∷ cs) = let later = until_zero cs in if c == 0 then [] else c ∷ later

abbrev pub extract_string : List ℕ → ℕ → Text
extract_string buffer offset = until_zero (drop offset buffer)

-- The views that the program reads.
pub record CommEventView : Type 0 where
  pub pid : ℕ
  pub tid : ℕ
  pub comm : Text
  pub sample_id : SampleId

abbrev pub comm_event_view : EventAttributes → List ℕ → ByteOrder → Run PerfError CommEventView
comm_event_view attributes buffer order = do
  pid ← in_bounds (extract_in order 4 (drop 8 buffer) 0)
  tid ← in_bounds (extract_in order 4 (drop 8 buffer) 4)
  sample_id ← parse_sample_id_back attributes.sample_format (drop 8 buffer) order
  finished (record {
    pid = pid;
    tid = tid;
    comm = extract_string (drop 8 buffer) 8;
    sample_id = sample_id;
  })

-- `exit_event_view` and `fork_event_view` have the same fields.
pub record ForkEventView : Type 0 where
  pub pid : ℕ
  pub ppid : ℕ
  pub tid : ℕ
  pub ptid : ℕ
  pub time : ℕ
  pub sample_id : SampleId

abbrev pub fork_event_view : EventAttributes → List ℕ → ByteOrder → Run PerfError ForkEventView
fork_event_view attributes buffer order = do
  pid ← in_bounds (extract_in order 4 (drop 8 buffer) 0)
  ppid ← in_bounds (extract_in order 4 (drop 8 buffer) 4)
  tid ← in_bounds (extract_in order 4 (drop 8 buffer) 8)
  ptid ← in_bounds (extract_in order 4 (drop 8 buffer) 12)
  time ← in_bounds (extract_in order 8 (drop 8 buffer) 16)
  sample_id ← parse_sample_id_back attributes.sample_format (drop 8 buffer) order
  finished (record {
    pid = pid;
    ppid = ppid;
    tid = tid;
    ptid = ptid;
    time = time;
    sample_id = sample_id;
  })

pub record Mmap2EventView : Type 0 where
  pub pid : ℕ
  pub tid : ℕ
  pub addr : ℕ
  pub len : ℕ
  pub pgoff : ℕ
  pub build_id : Option (List ℕ)
  pub prot : ℕ
  pub flags : ℕ
  pub filename : Text
  pub sample_id : SampleId

-- `header_misc_mask::mmap_build_id` is bit 14. `subspan` is undefined behind the end.
abbrev pub subspan : List ℕ → ℕ → ℕ → Option (List ℕ)
subspan buffer offset size =
    if ltb (length buffer) (offset + size) then none else some (take size (drop offset buffer))

abbrev pub mmap2_build_id : Bool → List ℕ → ByteOrder → Run PerfError (Option (List ℕ))
mmap2_build_id false body order = finished none
mmap2_build_id true body order = do
  size ← in_bounds (extract_in order 1 body 32)
  id ← in_bounds (subspan body 36 size)
  finished (some id)

abbrev pub mmap2_event_view : EventAttributes → List ℕ → ByteOrder → Run PerfError Mmap2EventView
mmap2_event_view attributes buffer order = do
  misc ← in_bounds (extract_in order 2 buffer 4)
  pid ← in_bounds (extract_in order 4 (drop 8 buffer) 0)
  tid ← in_bounds (extract_in order 4 (drop 8 buffer) 4)
  addr ← in_bounds (extract_in order 8 (drop 8 buffer) 8)
  len ← in_bounds (extract_in order 8 (drop 8 buffer) 16)
  pgoff ← in_bounds (extract_in order 8 (drop 8 buffer) 24)
  build_id ← mmap2_build_id (test 14 misc) (drop 8 buffer) order
  prot ← in_bounds (extract_in order 4 (drop 8 buffer) 56)
  flags ← in_bounds (extract_in order 4 (drop 8 buffer) 60)
  sample_id ← parse_sample_id_back attributes.sample_format (drop 8 buffer) order
  finished (record {
    pid = pid;
    tid = tid;
    addr = addr;
    len = len;
    pgoff = pgoff;
    build_id = build_id;
    prot = prot;
    flags = flags;
    filename = extract_string (drop 8 buffer) 64;
    sample_id = sample_id;
  })
