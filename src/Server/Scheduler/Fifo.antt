-- ===== src/Server/Scheduler/Fifo.antt =====
-- The order of a document's tasks in document_task_scheduler.cpp.
use snail_server.Common.{
  ℕ, ◌≡◌, refl, sym, ap, ◌∙◌, inl, inr, List, [], ◌∷◌, ◌++◌, take_at, ◌==◌, if◌then◌else◌, arith,
  Option-cases, append_assoc, append-nil,
}
use snail_server.Common.AssocMap.{lookup}
use snail_server.Server.Scheduler.{
  DocumentTask, Scheduler, Round, started, queue_of, initial, Event, schedules, dispatches,
  completes, shuts_down, emplace, begin_task, end_task, complete, dispatch, step, run, after_round,
  shutdown,
}
use snail_server.Server.Scheduler.Views.{
  queue_of-schedule, queue_of-complete_task, IsRound, waits, finishes, faults, starts,
  dispatch-IsRound,
}

-- The task that an event hands in for document `j`, and the one that it starts.
abbrev pub handed_in : ℕ → Event → List DocumentTask
handed_in j (schedules id a t) = if id == j then record { access_type = a; task = t } ∷ [] else []
handed_in j _ = []

abbrev pub begun_in : ℕ → Round → List DocumentTask
begun_in j (started f s') = if f.document == j then f.document_task ∷ [] else []
begun_in j _ = []

abbrev pub begun_by : ℕ → Scheduler → Event → List DocumentTask
begun_by j s dispatches = begun_in j (dispatch s)
begun_by j s _ = []

-- The same over a whole history.
pub scheduled_tasks : ℕ → List Event → List DocumentTask
scheduled_tasks j [] = []
scheduled_tasks j (e ∷ es) = handed_in j e ++ scheduled_tasks j es

pub started_tasks : ℕ → Scheduler → List Event → List DocumentTask
started_tasks j s [] = []
started_tasks j s (e ∷ es) = begun_by j s e ++ started_tasks j (step s e) es

abbrev queued : Scheduler → ℕ → List DocumentTask
queued s j = (queue_of s j).queue

round_order :
    (s : Scheduler) (r : Round) (j : ℕ)
    → IsRound s r
    → queued s j ≡ begun_in j r ++ queued (after_round s r) j
unfolding after_round begin_task
round_order s r j (waits _) = refl
round_order s r j (finishes _) = refl
round_order s r j (faults _ _ _ _) = refl
round_order s r j (starts f s' w) = ground (arith, w.was_queued, w.queues j)

complete_order : (s : Scheduler) (i j : ℕ) → queued s j ≡ queued (complete s i) j
unfolding complete end_task
complete_order s i j = elim (Option-cases (take_at i s.in_flight)) [
  | inl e ↦ rw (e, complete)
  | inr ((f, rest), e) ↦ rw (e, complete) (ground (arith, queue_of-complete_task s f rest j))
]

step_order :
    (s : Scheduler) (e : Event) (j : ℕ)
    → queued s j ++ handed_in j e ≡ begun_by j s e ++ queued (step s e) j
unfolding step emplace shutdown
step_order s (schedules id a t) j =
    ground (arith, append-nil (queued s j), queue_of-schedule s id a t j)
step_order s dispatches j =
    append-nil (queued s j) ∙ round_order s (dispatch s) j (dispatch-IsRound s)
step_order s (completes i) j = append-nil (queued s j) ∙ complete_order s i j
step_order s shuts_down j = append-nil (queued s j)

run_order :
    (s : Scheduler) (es : List Event) (j : ℕ)
    → queued s j ++ scheduled_tasks j es ≡ started_tasks j s es ++ queued (run s es) j
unfolding run scheduled_tasks started_tasks
run_order s [] j = append-nil (queued s j)
run_order s (e ∷ es) j =
    sym (append_assoc (queued s j) (handed_in j e) (scheduled_tasks j es))
    ∙ ap (λ l. l ++ scheduled_tasks j es) (step_order s e j)
    ∙ append_assoc (begun_by j s e) (queued (step s e) j) (scheduled_tasks j es)
    ∙ ap (λ l. begun_by j s e ++ l) (run_order (step s e) es j)
    ∙ sym (
        append_assoc (begun_by j s e) (started_tasks j (step s e) es)
          (queued (run (step s e) es) j))

-- Over any history from the initial state the tasks of a document are started in the order in
-- which they were scheduled, each once: those scheduled are those started, then those queued.
pub started_in_order :
    (es : List Event) (j : ℕ)
    → scheduled_tasks j es ≡ started_tasks j initial es ++ (queue_of (run initial es) j).queue
unfolding lookup
started_in_order es j = run_order initial es j
