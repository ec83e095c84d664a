-- ===== src/PerfData/SampleFormat.antt =====
-- `sample_format` of snail/perf_data/parser/event_attributes.hpp: the bits that are used.
use snail_server.Common.{ℕ}

abbrev pub ip : ℕ
ip = 0

abbrev pub tid : ℕ
tid = 1

abbrev pub time : ℕ
time = 2

abbrev pub addr : ℕ
addr = 3

abbrev pub read : ℕ
read = 4

abbrev pub call_chain : ℕ
call_chain = 5

abbrev pub id : ℕ
id = 6

abbrev pub cpu : ℕ
cpu = 7

abbrev pub period : ℕ
period = 8

abbrev pub stream_id : ℕ
stream_id = 9

abbrev pub raw : ℕ
raw = 10

abbrev pub identifier : ℕ
identifier = 16
