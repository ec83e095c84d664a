-- ===== src/Server/Scheduler/InOrder/Document.antt =====
-- One document of document_task_scheduler.cpp while its closures end in order.
use snail_server.Server.Scheduler.InOrder.Flights.{
  InitsStill, ends_blocked, InitsStill-append, ends_blocked-append, nonempty_of_blocked,
  count-length,
}
use snail_server.Common.{
  ℕ, suc, ◌+◌, ◌<◌, ◌≡◌, ap, Bool, true, false, not, ◌&&◌, List, [], ◌∷◌, ◌++◌, length,
  length-append, count_if, count_if-append, ◌==◌, if◌then◌else◌, arith, ltb,
}
use mathlib.Core.Path.{subst₃}
use native.Mathlib.Decide.{dec_lt}
use snail_server.Server.Scheduler.{
  is_read, DocumentTask, DocumentQueue, Submitted, emplace, begin_task, end_task, is_queue_ready,
  front_is_ready,
}
use snail_server.Server.Scheduler.Views.{is_idle}
use snail_server.Server.Scheduler.Accounts.{front_is_ready_needs, reads, writes, one_if}

-- The state of one document, with its closures in flight, oldest first.
pub record Orderly (r : ℕ) (q : DocumentQueue) (fs : List Submitted) : Type 0 where
  pub inits : InitsStill fs
  pub reads_counted : q.running_reads ≡ count_if reads fs
  pub writes_counted : one_if q.running_write ≡ count_if writes fs
  pub blocked : ends_blocked fs ≡ true → r ≡ 0
  pub free : ends_blocked fs ≡ false → r ≡ (if length q.queue == 0 then 0 else 1)
  pub busy : ends_blocked fs ≡ false → 0 < length fs → 0 < length q.queue
  pub ready : ends_blocked fs ≡ false → 0 < length q.queue → is_queue_ready q ≡ true
  pub exclusive : q.running_write ≡ true → q.running_reads ≡ 0

front_is_ready-emplace :
    (w : Bool) (r : ℕ) (ts : List DocumentTask) (t : DocumentTask)
    → 0 < length ts
    → front_is_ready w r ts ≡ true
    → front_is_ready w r (ts ++ t ∷ []) ≡ true
unfolding front_is_ready
front_is_ready-emplace w r [] t h e = absurd (omega arith)
front_is_ready-emplace w r (x ∷ ts) t h e = e

pub front_is_ready_idle :
    (w : Bool) (r : ℕ) (ts : List DocumentTask)
    → w ≡ false
    → r ≡ 0
    → 0 < length ts
    → front_is_ready w r ts ≡ true
unfolding front_is_ready
front_is_ready_idle w r [] e z h = absurd (omega arith)
front_is_ready_idle w r (x ∷ ts) e z h = ground arith

-- One read less leaves a ready queue ready.
front_is_ready_fewer :
    (w : Bool) (r r' : ℕ) (ts : List DocumentTask)
    → 0 < r
    → front_is_ready w r ts ≡ true
    → front_is_ready w r' ts ≡ true
unfolding front_is_ready
front_is_ready_fewer w r r' [] h e = e
front_is_ready_fewer w r r' (x ∷ ts) h e = ground arith

pub emplace-Orderly :
    (r : ℕ) (q : DocumentQueue) (fs : List Submitted) (t : DocumentTask)
    → Orderly r q fs
    → Orderly (r + (if is_idle q then 1 else 0)) (emplace q t) fs
unfolding emplace is_queue_ready
emplace-Orderly r q fs t o =
    let n = count-length fs in
    let m = nonempty_of_blocked fs in
    let l = length-append q.queue (t ∷ []) in
    record {
      inits = o.inits;
      reads_counted = o.reads_counted;
      writes_counted = o.writes_counted;
      blocked = λ e. ground (arith, n, m, o.reads_counted, o.writes_counted, o.blocked e);
      free = λ e. ground (arith, n, l, o.reads_counted, o.writes_counted, o.free e, o.busy e);
      busy = λ e h. ground (arith, l);
      ready = λ e h. elim (dec_lt 0 (length q.queue)) [
        | yes p ↦ front_is_ready-emplace q.running_write q.running_reads q.queue t p (o.ready e p)
        | no p ↦
            let w : q.running_write ≡ false =
              ground (arith, n, o.reads_counted, o.writes_counted, o.busy e) in
            let d : q.running_reads ≡ 0 =
              ground (arith, n, o.reads_counted, o.writes_counted, o.busy e) in
            front_is_ready_idle _ _ (q.queue ++ t ∷ []) w d (ground (arith, l))
      ];
      exclusive = o.exclusive;
    }

pub Orderly-cong :
    (r r' : ℕ) (q q' : DocumentQueue) (fs fs' : List Submitted)
    → r ≡ r'
    → q ≡ q'
    → fs ≡ fs'
    → Orderly r q fs
    → Orderly r' q' fs'
Orderly-cong r r' q q' fs fs' e h k o = subst₃ Orderly e h k o

pub end-Orderly :
    (r : ℕ) (q : DocumentQueue) (f : Submitted) (rest : List Submitted)
    → Orderly r q (f ∷ rest)
    → let q' = end_task q f.document_task.access_type in
      Orderly (r + (if not f.was_still_ready && ltb 0 (length q'.queue) then 1 else 0)) q' rest
unfolding end_task is_queue_ready
end-Orderly r q f [] o =
    let q' = end_task q f.document_task.access_type in
    let w : q'.running_write ≡ false = ground (arith, o.writes_counted) in
    let d : q'.running_reads ≡ 0 = ground (arith, o.reads_counted) in
    record {
      inits = tt;
      reads_counted = d;
      writes_counted = ground (arith, w);
      blocked = λ e. cc;
      free = λ e. ground (arith, o.free, o.blocked, o.busy);
      busy = λ e h. absurd (omega arith);
      ready = λ e h. front_is_ready_idle _ _ q'.queue w d h;
      exclusive = λ e. d;
    }
end-Orderly r q f (g ∷ gs) o =
    let q' = end_task q f.document_task.access_type in
    let n = count-length gs in
    let read : is_read f.document_task.access_type ≡ true =
      ground (arith, n, o.exclusive, o.reads_counted, o.writes_counted) in
    let pos : 0 < q.running_reads = ground (arith, read, o.reads_counted) in
    record {
      inits = o.inits.1;
      reads_counted = ground (arith, read, o.reads_counted);
      writes_counted = ground (arith, read, o.writes_counted);
      blocked = λ e. ground (arith, o.blocked e, o.inits);
      free = λ e. ground (arith, o.free e, o.inits);
      busy = λ e h. ground (arith, o.busy e);
      ready = λ e h. ground (
        arith,
        read,
        o.ready e,
        front_is_ready_fewer q.running_write q.running_reads q'.running_reads q.queue,
      );
      exclusive = λ e. ground (arith, read, o.exclusive);
    }

pub begin-Orderly :
    (r : ℕ) (q : DocumentQueue) (f : Submitted) (ts : List DocumentTask) (fs : List Submitted)
    → q.queue ≡ f.document_task ∷ ts
    → f.was_still_ready ≡ is_queue_ready (begin_task q f.document_task ts)
    → Orderly (suc r) q fs
    → Orderly (r + one_if f.was_still_ready) (begin_task q f.document_task ts) (fs ++ f ∷ [])
unfolding begin_task is_queue_ready
begin-Orderly r q f ts fs e k o =
    let q' = begin_task q f.document_task ts in
    let open_end : ends_blocked fs ≡ false = ground (arith, o.blocked) in
    let was : front_is_ready q.running_write q.running_reads q.queue ≡ true =
      o.ready open_end (ground (arith, ap length e)) in
    let alone : r ≡ 0 = ground (arith, o.free open_end) in
    let calm : q.running_write ≡ false =
      (front_is_ready_needs q.running_write q.running_reads q.queue was).0 in
    let head : front_is_ready false q.running_reads (f.document_task ∷ ts) ≡ true =
      ground (arith, was, calm, e) in
    let later = front_is_ready_needs q'.running_write q'.running_reads q'.queue in
    let c = count_if-append reads fs (f ∷ []) in
    let d = count_if-append writes fs (f ∷ []) in
    let b = ends_blocked-append fs f in
    record {
      inits = InitsStill-append fs f o.inits open_end;
      reads_counted = ground (arith, c, o.reads_counted);
      writes_counted = ground (arith, calm, d, o.writes_counted);
      blocked = λ h. ground (arith, alone, b);
      free = λ h. ground (arith, alone, b, k, later);
      busy = λ h p. ground (arith, b, k, later);
      ready = λ h p. ground (arith, b, k);
      exclusive = λ h. ground (arith, calm, head);
    }
