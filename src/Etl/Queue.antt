-- ===== src/Etl/Queue.antt =====
-- `std::priority_queue` of snail/etl/etl_file.cpp: its entries and what the merge relies on.
use snail_server.Common.{ℕ, ◌≡◌, ◌≢◌, ◌≤◌, Option, none, some}

-- Where an event of a processor waits to be delivered; the least time goes first.
pub record NextEventPriorityInfo : Type 0 where
  pub next_event_time : ℕ
  pub processor_index : ℕ

abbrev pub AtMost : NextEventPriorityInfo → Option ℕ → Type 0
AtMost e none = Unit {0}
AtMost e (some t) = e.next_event_time ≤ t

-- `waiting q i` is the time by which processor `i` is queued. The laws are for queues that hold a
-- processor once at most; which of several least entries is on top is left open.
pub record PriorityQueue : Type 1 where
  pub Queue : Type 0
  pub empty : Queue
  pub top : Queue → Option NextEventPriorityInfo
  pub pop : Queue → Queue
  pub push : NextEventPriorityInfo → Queue → Queue
  pub waiting : Queue → ℕ → Option ℕ
  pub waiting-empty : (i : ℕ) → waiting empty i ≡ none
  pub top_none : (q : Queue) → top q ≡ none → (i : ℕ) → waiting q i ≡ none
  pub top_waiting :
      (q : Queue) (e : NextEventPriorityInfo)
      → top q ≡ some e
      → waiting q e.processor_index ≡ some e.next_event_time
  pub top_least :
      (q : Queue) (e : NextEventPriorityInfo) → top q ≡ some e → (i : ℕ) → AtMost e (waiting q i)
  pub pop_same :
      (q : Queue) (e : NextEventPriorityInfo)
      → top q ≡ some e
      → waiting (pop q) e.processor_index ≡ none
  pub pop_other :
      (q : Queue) (e : NextEventPriorityInfo) (i : ℕ)
      → top q ≡ some e
      → i ≢ e.processor_index
      → waiting (pop q) i ≡ waiting q i
  pub push_same :
      (q : Queue) (e : NextEventPriorityInfo)
      → waiting q e.processor_index ≡ none
      → waiting (push e q) e.processor_index ≡ some e.next_event_time
  pub push_other :
      (q : Queue) (e : NextEventPriorityInfo) (i : ℕ)
      → waiting q e.processor_index ≡ none
      → i ≢ e.processor_index
      → waiting (push e q) i ≡ waiting q i
