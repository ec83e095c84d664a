-- ===== src/PerfData/Feature.antt =====
-- `header_feature` of snail/perf_data/parser/header_feature.hpp: those that are read, and the end.
use snail_server.Common.{ℕ}

abbrev pub build_id : ℕ
build_id = 2

abbrev pub hostname : ℕ
hostname = 3

abbrev pub osrelease : ℕ
osrelease = 4

abbrev pub version : ℕ
version = 5

abbrev pub arch : ℕ
arch = 6

abbrev pub nr_cpus : ℕ
nr_cpus = 7

abbrev pub cpu_desc : ℕ
cpu_desc = 8

abbrev pub cpu_id : ℕ
cpu_id = 9

abbrev pub total_mem : ℕ
total_mem = 10

abbrev pub cmdline : ℕ
cmdline = 11

abbrev pub event_desc : ℕ
event_desc = 12

abbrev pub sample_time : ℕ
sample_time = 21

abbrev pub clockid : ℕ
clockid = 23

abbrev pub last_feature : ℕ
last_feature = 32
