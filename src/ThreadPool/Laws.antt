-- ===== src/ThreadPool/Laws.antt =====
-- What the pool does with tasks, in whatever order its threads run.
use snail_server.Common.{
  ℕ, ◌≡◌, ◌≤◌, ◌<◌, refl, sym, ap₂, ◌∙◌, ap, Bool, true, false, List, [], ◌∷◌, ◌++◌, ltb, arith,
  append_assoc, append-nil, inl, inr, Bool-cases,
}
use snail_server.ThreadPool.{
  ThreadPool, new_pool, push_task, spawn_for, submit, take_task, take_from, stop, is_empty,
  PoolEvent, pushes, spawns, takes, stops, pool_step, pool_run,
}

-- The tasks that were pushed before the first stop.
abbrev pub accepted : List PoolEvent → List ℕ
accepted [] = []
accepted (pushes task ∷ es) = task ∷ accepted es
accepted (spawns ∷ es) = accepted es
accepted (takes ∷ es) = accepted es
accepted (stops ∷ es) = []

-- The tasks that a state will have seen after more events.
abbrev still_accepted : Bool → List PoolEvent → List ℕ
still_accepted true es = []
still_accepted false es = accepted es

abbrev seen : ThreadPool → List ℕ
seen p = p.started ++ p.task_queue

seen-take_from :
    (p : ThreadPool) (queue : List ℕ) → queue ≡ p.task_queue → seen (take_from p queue) ≡ seen p
seen-take_from p [] e = refl
seen-take_from p (task ∷ tasks) e =
    append_assoc p.started (task ∷ []) tasks ∙ ap (λ q. p.started ++ q) e

seen-pool_step :
    (e : PoolEvent) (es : List PoolEvent) (p : ThreadPool)
    → seen (pool_step e p) ++ still_accepted (pool_step e p).stopped es
      ≡ seen p ++ still_accepted p.stopped (e ∷ es)
unfolding pool_step push_task spawn_for take_task stop
seen-pool_step (pushes task) es p = elim (Bool-cases p.stopped) [
  | inl e ↦ rw e refl
  | inr e ↦ rw e (
      ap (λ l. l ++ accepted es) (sym (append_assoc p.started p.task_queue (task ∷ [])))
      ∙ append_assoc (seen p) (task ∷ []) (accepted es))
]
seen-pool_step spawns es p = elim (Bool-cases (ltb p.workers p.max_size)) [
  | inl e ↦ elim (Bool-cases (is_empty p.task_queue)) [
    | inl e' ↦ rw (e, e') (ap (λ l. seen p ++ l) (same_accepted p.stopped))
    | inr e' ↦ rw (e, e') (ap (λ l. seen p ++ l) (same_accepted p.stopped))
  ]
  | inr e ↦ rw e (ap (λ l. seen p ++ l) (same_accepted p.stopped))
]
  where
    same_accepted : (b : Bool) → still_accepted b es ≡ still_accepted b (spawns ∷ es)
    same_accepted true = refl
    same_accepted false = refl
seen-pool_step takes es p =
    ap₂ ◌++◌ (seen-take_from p p.task_queue refl) (same_accepted p p.task_queue)
  where
    same_accepted :
        (p : ThreadPool) (queue : List ℕ)
        → still_accepted (take_from p queue).stopped es ≡ still_accepted p.stopped (takes ∷ es)
    same_accepted p [] = by_stopped p.stopped
      where
        by_stopped : (b : Bool) → still_accepted b es ≡ still_accepted b (takes ∷ es)
        by_stopped true = refl
        by_stopped false = refl
    same_accepted p (task ∷ tasks) = by_stopped p.stopped
      where
        by_stopped : (b : Bool) → still_accepted b es ≡ still_accepted b (takes ∷ es)
        by_stopped true = refl
        by_stopped false = refl
seen-pool_step stops es p = ap (λ l. seen p ++ l) (none_accepted p.stopped)
  where
    none_accepted : (b : Bool) → [] ≡ still_accepted b (stops ∷ es)
    none_accepted true = refl
    none_accepted false = refl

seen-pool_run :
    (es : List PoolEvent) (p : ThreadPool)
    → seen (pool_run es p) ≡ seen p ++ still_accepted p.stopped es
unfolding pool_run
seen-pool_run [] p = sym (ap (λ l. seen p ++ l) (none_left p.stopped) ∙ append-nil (seen p))
  where
    none_left : (b : Bool) → still_accepted b [] ≡ []
    none_left true = refl
    none_left false = refl
seen-pool_run (e ∷ es) p = seen-pool_run es (pool_step e p) ∙ seen-pool_step e es p

-- Whatever the order in which threads run, the tasks that were pushed before the first stop are
-- those that workers took, in the order in which they were pushed, each once, then those that still
-- wait.
pub accepted-pool_run :
    (es : List PoolEvent) (max_size : ℕ)
    → (pool_run es (new_pool max_size)).started ++ (pool_run es (new_pool max_size)).task_queue
      ≡ accepted es
accepted-pool_run es max_size = seen-pool_run es (new_pool max_size)

workers_bounded :
    (bound : ℕ) (es : List PoolEvent) (p : ThreadPool)
    → p.workers ≤ bound
    → p.max_size ≤ bound
    → (pool_run es p).workers ≤ bound
unfolding pool_run pool_step push_task spawn_for take_task stop
workers_bounded bound [] p h k = h
workers_bounded bound (pushes task ∷ es) p h k =
    workers_bounded bound es _ (ground arith) (ground arith)
workers_bounded bound (spawns ∷ es) p h k = workers_bounded bound es _ (ground arith) (ground arith)
workers_bounded bound (takes ∷ es) p h k =
    workers_bounded bound es _ (kept p.task_queue) (kept_size p.task_queue)
  where
    kept : (queue : List ℕ) → (take_from p queue).workers ≤ bound
    kept [] = h
    kept (task ∷ tasks) = h

    kept_size : (queue : List ℕ) → (take_from p queue).max_size ≤ bound
    kept_size [] = k
    kept_size (task ∷ tasks) = k
workers_bounded bound (stops ∷ es) p h k = workers_bounded bound es _ h (omega arith)

-- Whatever the order in which threads run, there are never more workers than the pool was made for.
pub workers-pool_run :
    (es : List PoolEvent) (max_size : ℕ) → (pool_run es (new_pool max_size)).workers ≤ max_size
workers-pool_run es max_size =
    workers_bounded max_size es (new_pool max_size) (omega arith) (omega arith)

-- After a submission to a pool that may have workers and is not stopped, there is a worker for the
-- task, which waits behind those that were there.
pub submit_has_worker :
    (task : ℕ) (p : ThreadPool)
    → p.stopped ≡ false
    → 0 < p.max_size
    → (0 < (submit task p).workers) × ((submit task p).task_queue ≡ p.task_queue ++ task ∷ [])
unfolding submit push_task spawn_for
submit_has_worker task p h k = by_queue p.task_queue refl
  where
    by_queue :
        (queue : List ℕ)
        → queue ≡ p.task_queue
        → (0 < (submit task p).workers) × ((submit task p).task_queue ≡ p.task_queue ++ task ∷ [])
    by_queue [] e = rw (h, sym e) (ground arith)
    by_queue (t ∷ ts) e = rw (h, sym e) (ground arith)
