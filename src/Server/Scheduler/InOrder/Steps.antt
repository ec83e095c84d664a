-- ===== src/Server/Scheduler/InOrder/Steps.antt =====
-- The steps of document_task_scheduler.cpp while the closures of each document end in order.
use snail_server.Server.Scheduler.InOrder.Document.{
  Orderly, Orderly-cong, emplace-Orderly, end-Orderly, begin-Orderly,
}
use snail_server.Server.Scheduler.InOrder.Flights.{
  of_document, of_document-append, Taken, take_at-Taken,
}
use snail_server.Common.{
  ℕ, suc, ◌≡◌, refl, sym, ap, ◌∙◌, inl, inr, false, List, [], ◌∷◌, Option, none, some, take, drop,
  take_at, count_if-append, ◌==◌, if◌then◌else◌, arith, Option-cases, append-nil, subst, Bool-cases,
}
use snail_server.Common.AssocMap.{lookup}
use snail_server.Server.Scheduler.{
  AccessType, Submitted, Scheduler, Round, queue_of, initial, Event, schedules, dispatches,
  completes, shuts_down, schedule, complete, complete_task, dispatch, step, run, after_round,
  shutdown,
}
use snail_server.Server.Scheduler.Views.{
  queue_of-schedule, ready-schedule, in_flight-schedule, queue_of-complete_task, Starts, IsRound,
  waits, finishes, faults, starts, dispatch-IsRound,
}
use snail_server.Server.Scheduler.Accounts.{ready_count}

abbrev pub IsOrderly : Scheduler → ℕ → Type 0
IsOrderly s j = Orderly (ready_count s.ready_documents j) (queue_of s j) (of_document j s.in_flight)

schedule-IsOrderly :
    (s : Scheduler) (id : ℕ) (a : AccessType) (t j : ℕ)
    → IsOrderly s j
    → IsOrderly (schedule s id a t) j
schedule-IsOrderly s id a t j o =
    let q = queue_of-schedule s id a t j in
    let r = ready-schedule s id a t in
    let fs = ap (of_document j) (in_flight-schedule s id a t) in
    let c = count_if-append (λ i. i == j) s.ready_documents (id ∷ []) in
    elim (Bool-cases (id == j)) [
      | inl e ↦
          Orderly-cong _ _ _ _ _ _ (ground (arith, r, c)) (ground (arith, q)) (sym fs)
            (emplace-Orderly _ _ _ (record { access_type = a; task = t }) o)
      | inr e ↦ Orderly-cong _ _ _ _ _ _ (ground (arith, r, c)) (ground (arith, q)) (sym fs) o
    ]

-- The closure at index `i` is the oldest of its document.
abbrev pub IsOldest : ℕ → List Submitted → Submitted → Type 0
IsOldest i l f = of_document f.document (take i l) ≡ []

pub of_document-Taken :
    (i j : ℕ) (l : List Submitted) (f : Submitted) (rest : List Submitted)
    → Taken i l f rest
    → IsOldest i l f
    → of_document j l ≡ (if f.document == j then f ∷ of_document j rest else of_document j rest)
of_document-Taken i j l f rest t o =
    ap (of_document j) t.before
    ∙ of_document-append j (take i l) (f ∷ drop (suc i) l)
    ∙ ground
        (arith, o, ap (of_document j) t.without, of_document-append j (take i l) (drop (suc i) l))

-- To prove it of any document: of the one that a step is about, and of the others.
split_document :
    (P : ℕ → Type 0) (Q : ℕ → Type 0) (d j : ℕ)
    → (P d → Q d)
    → ((d == j) ≡ false → P j → Q j)
    → P j
    → Q j
split_document P Q d j own others p = elim (Bool-cases (d == j)) [
  | inl h ↦ let e : d ≡ j = ground arith in subst Q e (own (subst P (sym e) p))
  | inr h ↦ others h p
]

complete_task-IsOrderly :
    (s : Scheduler) (i : ℕ) (f : Submitted) (rest : List Submitted) (j : ℕ)
    → take_at i s.in_flight ≡ some (f, rest)
    → IsOldest i s.in_flight f
    → IsOrderly s j
    → IsOrderly (complete_task s f rest) j
unfolding complete_task
complete_task-IsOrderly s i f rest j e old =
    let t = take_at-Taken i s.in_flight f rest e in
    let d = f.document in
    split_document (IsOrderly s) (IsOrderly (complete_task s f rest)) d j
      (λ o.
        Orderly-cong _ _ _ _ _ _
          (ground (arith, count_if-append (λ i. i == d) s.ready_documents (d ∷ [])))
          (ground (arith, queue_of-complete_task s f rest d)) refl
          (end-Orderly (ready_count s.ready_documents d) (queue_of s d) f (of_document d rest) (
            Orderly-cong _ _ _ _ _ _ refl refl
              (ground (arith, of_document-Taken i d s.in_flight f rest t old)) o)))
      (λ h o.
        Orderly-cong _ _ _ _ _ _
          (ground (arith, count_if-append (λ i. i == j) s.ready_documents (d ∷ [])))
          (ground (arith, queue_of-complete_task s f rest j))
          (ground (arith, of_document-Taken i j s.in_flight f rest t old)) o)

Starts-IsOrderly :
    (s : Scheduler) (f : Submitted) (s' : Scheduler) (j : ℕ)
    → Starts s f s'
    → IsOrderly s j
    → IsOrderly s' j
Starts-IsOrderly s f s' j w =
    let d = f.document in
    split_document (IsOrderly s) (IsOrderly s') d j
      (λ o.
        Orderly-cong _ _ _ _ _ _
          (ground (arith, w.ready, count_if-append (λ i. i == d) w.others (d ∷ [])))
          (ground (arith, w.queues d))
          (ground (arith, ap (of_document d) w.flying, of_document-append d s.in_flight (f ∷ [])))
          (begin-Orderly (ready_count w.others d) (queue_of s d) f w.later
            (of_document d s.in_flight) w.was_queued w.still
            (Orderly-cong _ _ _ _ _ _ (ground (arith, ap (λ l. ready_count l d) w.was_first)) refl
              refl o)))
      (λ h o.
        Orderly-cong _ _ _ _ _ _
          (ground (
            arith,
            w.ready,
            ap (λ l. ready_count l j) w.was_first,
            count_if-append (λ i. i == j) w.others (d ∷ []),
          ))
          (ground (arith, w.queues j))
          (ground (
            arith,
            ap (of_document j) w.flying,
            of_document-append j s.in_flight (f ∷ []),
            append-nil (of_document j s.in_flight),
          ))
          o)

abbrev pub EndsOldest : ℕ → List Submitted → Option (Submitted × List Submitted) → Type 0
EndsOldest i l none = Unit {0}
EndsOldest i l (some (f, rest)) = IsOldest i l f

-- Every closure that ends is the oldest of its document.
abbrev pub InOrder : Scheduler → List Event → Type 0
InOrder s [] = Unit {0}
InOrder s (completes i ∷ es) =
    EndsOldest i s.in_flight (take_at i s.in_flight) × InOrder (step s (completes i)) es
InOrder s (e ∷ es) = InOrder (step s e) es

after_round-IsOrderly :
    (s : Scheduler) (r : Round) (j : ℕ)
    → IsRound s r
    → IsOrderly s j
    → IsOrderly (after_round s r) j
unfolding after_round
after_round-IsOrderly s r j (waits _) o = o
after_round-IsOrderly s r j (finishes _) o = o
after_round-IsOrderly s r j (faults _ _ _ _) o = o
after_round-IsOrderly s r j (starts f s' w) o = Starts-IsOrderly s f s' j w o

complete-IsOrderly :
    (s : Scheduler) (i j : ℕ)
    → EndsOldest i s.in_flight (take_at i s.in_flight)
    → IsOrderly s j
    → IsOrderly (complete s i) j
unfolding complete
complete-IsOrderly s i j old o = elim (Option-cases (take_at i s.in_flight)) [
  | inl e ↦ rw (e, complete) o
  | inr ((f, rest), e) ↦
      rw (e, complete)
        (complete_task-IsOrderly s i f rest j e (subst (EndsOldest i s.in_flight) e old) o)
]

run_from-IsOrderly :
    (s : Scheduler) (es : List Event)
    → InOrder s es
    → ((j : ℕ) → IsOrderly s j)
    → (j : ℕ) → IsOrderly (run s es) j
unfolding run step shutdown
run_from-IsOrderly s [] h o = o
run_from-IsOrderly s (schedules id a t ∷ es) h o =
    run_from-IsOrderly (step s (schedules id a t)) es h (λ j. schedule-IsOrderly s id a t j (o j))
run_from-IsOrderly s (dispatches ∷ es) h o =
    run_from-IsOrderly (step s dispatches) es h
      (λ j. after_round-IsOrderly s (dispatch s) j (dispatch-IsRound s) (o j))
run_from-IsOrderly s (completes i ∷ es) h o =
    run_from-IsOrderly (step s (completes i)) es h.1 (λ j. complete-IsOrderly s i j h.0 (o j))
run_from-IsOrderly s (shuts_down ∷ es) h o = run_from-IsOrderly (step s shuts_down) es h o

initial-IsOrderly : (j : ℕ) → IsOrderly initial j
unfolding lookup
initial-IsOrderly j = record {
  inits = tt;
  reads_counted = refl;
  writes_counted = refl;
  blocked = λ e. cc;
  free = λ e. refl;
  busy = λ e h. h;
  ready = λ e h. absurd (omega arith);
  exclusive = λ e. refl;
}

pub run-IsOrderly : (es : List Event) → InOrder initial es → (j : ℕ) → IsOrderly (run initial es) j
run-IsOrderly es h = run_from-IsOrderly initial es h initial-IsOrderly
