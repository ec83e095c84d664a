-- ===== src/Server/Scheduler.antt =====
-- snail/server/detail/document_task_scheduler.{hpp,cpp}.
-- Each critical section under `mutex_` is one step: `schedule`, the dispatcher thread's round
-- `dispatch`, the end of the closure given to the pool, `complete`, and `shutdown`. A task is a
-- label. `in_flight` holds the closures that the pool has taken and that have not ended, oldest
-- first; the pool may end them in any order. The program is compiled without its asserts, which
-- are `dispatch_asserts` and `complete_asserts`. Counters that count closures do not wrap.
pub mod Views
pub mod Accounts
pub mod Fifo
pub mod InOrder
pub mod Hazards
pub mod Examples
use snail_server.Common.{
  ℕ, ◌+◌, ◌-◌, ◌^◌, Bool, true, false, not, ◌&&◌, ◌||◌, List, [], ◌∷◌, ◌++◌, Option, none, some,
  length, take_at, ◌==◌, ltb, if◌then◌else◌,
}
use snail_server.Common.AssocMap.{lookup, insert}

pub data AccessType : Type 0 where
  read_only write : AccessType

abbrev pub is_read : AccessType → Bool
is_read read_only = true
is_read write = false

pub record DocumentTask : Type 0 where
  pub access_type : AccessType
  pub task : ℕ

pub record DocumentQueue : Type 0 where
  pub running_write : Bool
  pub running_reads : ℕ
  pub queue : List DocumentTask

-- A closure that was submitted to the pool.
pub record Submitted : Type 0 where
  pub document : ℕ
  pub document_task : DocumentTask
  pub was_still_ready : Bool

pub record Scheduler : Type 0 where
  pub stopped : Bool
  pub returned : Bool
  pub document_queues : List (ℕ × DocumentQueue)
  pub ready_documents : List ℕ
  pub in_flight : List Submitted

abbrev pub empty_queue : DocumentQueue
empty_queue = record { running_write = false; running_reads = 0; queue = [] }

abbrev pub initial : Scheduler
initial = record {
  stopped = false;
  returned = false;
  document_queues = [];
  ready_documents = [];
  in_flight = [];
}

abbrev pub queue_or_empty : Option DocumentQueue → DocumentQueue
queue_or_empty none = empty_queue
queue_or_empty (some q) = q

-- The entry of a document; an absent one counts as empty.
abbrev pub queue_of : Scheduler → ℕ → DocumentQueue
queue_of s id = queue_or_empty (lookup id s.document_queues)

pub front_is_ready : Bool → ℕ → List DocumentTask → Bool
front_is_ready running_write running_reads [] = false
front_is_ready running_write running_reads (t ∷ ts) =
    if running_write then false else is_read t.access_type || running_reads == 0

pub is_queue_ready : DocumentQueue → Bool
unfolding front_is_ready
is_queue_ready q = front_is_ready q.running_write q.running_reads q.queue

pub has_any_task : List (ℕ × DocumentQueue) → Bool
has_any_task [] = false
has_any_task ((id, q) ∷ rest) = ltb 0 (length q.queue) || has_any_task rest

pub emplace : DocumentQueue → DocumentTask → DocumentQueue
emplace q t = record q { queue = q.queue ++ t ∷ [] }

pub schedule_found : Scheduler → ℕ → DocumentTask → Option DocumentQueue → Scheduler
unfolding emplace
schedule_found s id t none = record s {
  document_queues = insert id (emplace empty_queue t) s.document_queues;
  ready_documents = s.ready_documents ++ id ∷ [];
}
schedule_found s id t (some q) =
    let q' = emplace q t in
    record s {
      document_queues = insert id q' s.document_queues;
      ready_documents =
          if length q'.queue == 1 && (not q'.running_write && q'.running_reads == 0)
          then s.ready_documents ++ id ∷ []
          else s.ready_documents;
    }

pub schedule : Scheduler → ℕ → AccessType → ℕ → Scheduler
unfolding schedule_found
schedule s id access task =
    schedule_found s id (record { access_type = access; task = task }) (lookup id s.document_queues)

-- A round of the dispatcher thread. `fault` is `at` on a missing key or `front` of an empty queue.
pub data Round : Type 0 where
  waiting : Round
  finished : Round
  fault : Round
  started : Submitted → Scheduler → Round

pub begin_task : DocumentQueue → DocumentTask → List DocumentTask → DocumentQueue
begin_task q t rest =
    if is_read t.access_type
    then record q { running_reads = q.running_reads + 1; queue = rest }
    else record q { running_write = true; queue = rest }

dispatch_queue : Scheduler → ℕ → List ℕ → DocumentQueue → List DocumentTask → Round
unfolding begin_task
dispatch_queue s id others q [] = fault
dispatch_queue s id others q (t ∷ ts) =
    let q' = begin_task q t ts in
    let still_ready = is_queue_ready q' in
    let f : Submitted = record {
      document = id;
      document_task = t;
      was_still_ready = still_ready;
    } in
    started f (record s {
      document_queues = insert id q' s.document_queues;
      ready_documents = if still_ready then others ++ id ∷ [] else others;
      in_flight = s.in_flight ++ f ∷ [];
    })

dispatch_found : Scheduler → ℕ → List ℕ → Option DocumentQueue → Round
unfolding dispatch_queue
dispatch_found s id others none = fault
dispatch_found s id others (some q) = dispatch_queue s id others q q.queue

dispatch_ready : Scheduler → List ℕ → Round
unfolding dispatch_found
dispatch_ready s [] = waiting
dispatch_ready s (id ∷ others) = dispatch_found s id others (lookup id s.document_queues)

pub dispatch : Scheduler → Round
unfolding dispatch_ready
dispatch s =
    if s.returned
    then finished
    else if s.stopped && not (has_any_task s.document_queues)
    then finished
    else dispatch_ready s s.ready_documents

-- The assert on the queue that the dispatcher takes, and the one before a write starts.
pub dispatch_asserts : Scheduler → Bool
unfolding is_queue_ready
dispatch_asserts s = elim s.ready_documents [
  | [] ↦ true
  | id ∷ others ↦ is_queue_ready (queue_of s id)
]

pub end_task : DocumentQueue → AccessType → DocumentQueue
end_task q read_only = record q {
  running_reads = if q.running_reads == 0 then 2 ^ 64 - 1 else q.running_reads - 1;
}
end_task q write = record q { running_write = false }

pub complete_task : Scheduler → Submitted → List Submitted → Scheduler
unfolding end_task
complete_task s f rest =
    let q = end_task (queue_of s f.document) f.document_task.access_type in
    record s {
      document_queues = insert f.document q s.document_queues;
      ready_documents =
          if not f.was_still_ready && ltb 0 (length q.queue)
          then s.ready_documents ++ f.document ∷ []
          else s.ready_documents;
      in_flight = rest;
    }

complete_taken : Scheduler → Option (Submitted × List Submitted) → Scheduler
unfolding complete_task
complete_taken s none = s
complete_taken s (some (f, rest)) = complete_task s f rest

-- The closure at an index of `in_flight` ends.
pub complete : Scheduler → ℕ → Scheduler
unfolding complete_taken
complete s i = complete_taken s (take_at i s.in_flight)

-- The asserts of that closure: its access is running, and a queue it wakes is ready.
pub complete_asserts : Scheduler → Submitted → Bool
unfolding end_task is_queue_ready
complete_asserts s f =
    let q = queue_of s f.document in
    let q' = end_task q f.document_task.access_type in
    (if is_read f.document_task.access_type then ltb 0 q.running_reads else q.running_write)
    && (f.was_still_ready || length q'.queue == 0 || is_queue_ready q')

pub shutdown : Scheduler → Scheduler
shutdown s = record s { stopped = true }

pub data Event : Type 0 where
  schedules : ℕ → AccessType → ℕ → Event
  dispatches : Event
  completes : ℕ → Event
  shuts_down : Event

pub after_round : Scheduler → Round → Scheduler
after_round s waiting = s
after_round s finished = record s { returned = true }
after_round s fault = s
after_round s (started f t) = t

pub step : Scheduler → Event → Scheduler
unfolding schedule dispatch after_round complete shutdown
step s (schedules id access task) = schedule s id access task
step s dispatches = after_round s (dispatch s)
step s (completes i) = complete s i
step s shuts_down = shutdown s

pub run : Scheduler → List Event → Scheduler
run s [] = s
run s (e ∷ es) = run (step s e) es
