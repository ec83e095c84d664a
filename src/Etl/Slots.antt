-- ===== src/Etl/Slots.antt =====
-- A priority queue that meets the laws: the time of each processor in the slot of its index.
use snail_server.Common.{
  ℕ, zero, suc, ◌≤◌, ◌≡◌, ◌≢◌, refl, ap, ◌∙◌, subst, List, [], ◌∷◌, Option, none, some, leb, arith,
  Bool-cases, inl, inr, if◌then◌else◌,
}
use snail_server.Etl.Queue.{NextEventPriorityInfo, PriorityQueue, AtMost}

abbrev pub at : List (Option ℕ) → ℕ → Option ℕ
at [] i = none
at (x ∷ xs) zero = x
at (x ∷ xs) (suc i) = at xs i

abbrev pub put : ℕ → ℕ → List (Option ℕ) → List (Option ℕ)
put t zero [] = some t ∷ []
put t zero (x ∷ xs) = some t ∷ xs
put t (suc i) [] = none ∷ put t i []
put t (suc i) (x ∷ xs) = x ∷ put t i xs

abbrev pub clear : ℕ → List (Option ℕ) → List (Option ℕ)
clear i [] = []
clear zero (x ∷ xs) = none ∷ xs
clear (suc i) (x ∷ xs) = x ∷ clear i xs

abbrev pub shift_entry : NextEventPriorityInfo → NextEventPriorityInfo
shift_entry e = record e { processor_index = suc e.processor_index }

abbrev pub shift : Option NextEventPriorityInfo → Option NextEventPriorityInfo
shift none = none
shift (some e) = some (shift_entry e)

abbrev pub here : ℕ → NextEventPriorityInfo
here t = record { next_event_time = t; processor_index = 0 }

abbrev pub earlier : Option ℕ → Option NextEventPriorityInfo → Option NextEventPriorityInfo
earlier none later = shift later
earlier (some t) none = some (here t)
earlier (some t) (some e) = if leb t e.next_event_time then some (here t) else shift (some e)

abbrev pub least : List (Option ℕ) → Option NextEventPriorityInfo
least [] = none
least (x ∷ xs) = earlier x (least xs)

abbrev pub pop_top : Option NextEventPriorityInfo → List (Option ℕ) → List (Option ℕ)
pop_top none xs = xs
pop_top (some e) xs = clear e.processor_index xs

pub at-put_same : (t i : ℕ) (xs : List (Option ℕ)) → at (put t i xs) i ≡ some t
at-put_same t zero [] = refl
at-put_same t zero (x ∷ xs) = refl
at-put_same t (suc i) [] = at-put_same t i []
at-put_same t (suc i) (x ∷ xs) = at-put_same t i xs

pub at-put_other : (t i j : ℕ) (xs : List (Option ℕ)) → j ≢ i → at (put t i xs) j ≡ at xs j
at-put_other t zero zero xs h = absurd (h refl)
at-put_other t zero (suc j) [] h = refl
at-put_other t zero (suc j) (x ∷ xs) h = refl
at-put_other t (suc i) zero [] h = refl
at-put_other t (suc i) zero (x ∷ xs) h = refl
at-put_other t (suc i) (suc j) [] h = at-put_other t i j [] (λ e. h (ap suc e))
at-put_other t (suc i) (suc j) (x ∷ xs) h = at-put_other t i j xs (λ e. h (ap suc e))

pub at-clear_same : (i : ℕ) (xs : List (Option ℕ)) → at (clear i xs) i ≡ none
at-clear_same i [] = refl
at-clear_same zero (x ∷ xs) = refl
at-clear_same (suc i) (x ∷ xs) = at-clear_same i xs

pub at-clear_other : (i j : ℕ) (xs : List (Option ℕ)) → j ≢ i → at (clear i xs) j ≡ at xs j
at-clear_other i j [] h = refl
at-clear_other zero zero (x ∷ xs) h = absurd (h refl)
at-clear_other zero (suc j) (x ∷ xs) h = refl
at-clear_other (suc i) zero (x ∷ xs) h = refl
at-clear_other (suc i) (suc j) (x ∷ xs) h = at-clear_other i j xs (λ e. h (ap suc e))

-- What the least entry is.
abbrev pub Leads : List (Option ℕ) → Option NextEventPriorityInfo → Type 0
Leads xs none = (i : ℕ) → at xs i ≡ none
Leads xs (some e) =
    (at xs e.processor_index ≡ some e.next_event_time) × ((i : ℕ) → AtMost e (at xs i))

AtMost-weaken :
    (e d : NextEventPriorityInfo) (o : Option ℕ)
    → d.next_event_time ≤ e.next_event_time
    → AtMost e o
    → AtMost d o
AtMost-weaken e d none h k = tt
AtMost-weaken e d (some t) h k = omega arith

by_index :
    (x : Option ℕ) (xs : List (Option ℕ)) (P : Option ℕ → Type 0)
    → P x
    → ((i : ℕ) → P (at xs i))
    → (i : ℕ) → P (at (x ∷ xs) i)
by_index x xs P h k zero = h
by_index x xs P h k (suc i) = k i

earlier-Leads :
    (x : Option ℕ) (xs : List (Option ℕ)) (o : Option NextEventPriorityInfo)
    → Leads xs o
    → Leads (x ∷ xs) (earlier x o)
earlier-Leads none xs none h = by_index none xs (λ o. o ≡ none) refl h
earlier-Leads none xs (some e) h = (h.0, by_index none xs (AtMost (shift_entry e)) tt h.1)
earlier-Leads (some t) xs none h =
    (refl, by_index (some t) xs (AtMost (here t)) (omega arith) (λ i. rw (h i) tt))
earlier-Leads (some t) xs (some e) h = elim (Bool-cases (leb t e.next_event_time)) [
  | inl b ↦ rw b (
    refl,
    by_index (some t) xs (AtMost (here t)) (omega arith)
        (λ i. AtMost-weaken e (here t) (at xs i) (ground arith) (h.1 i)),
  )
  | inr b ↦ rw b (h.0, by_index (some t) xs (AtMost (shift_entry e)) (ground arith) h.1)
]

pub least-Leads : (xs : List (Option ℕ)) → Leads xs (least xs)
least-Leads [] = λ i. refl
least-Leads (x ∷ xs) = earlier-Leads x xs (least xs) (least-Leads xs)

abbrev pub slots : PriorityQueue
slots = record {
  Queue = List (Option ℕ);
  empty = [];
  top = least;
  pop = λ q. pop_top (least q) q;
  push = λ e q. put e.next_event_time e.processor_index q;
  waiting = at;
  waiting-empty = λ i. refl;
  top_none = λ q h. subst (Leads q) h (least-Leads q);
  top_waiting = λ q e h. (subst (Leads q) h (least-Leads q)).0;
  top_least = λ q e h. (subst (Leads q) h (least-Leads q)).1;
  pop_same =
      λ q e h. ap (λ o. at (pop_top o q) e.processor_index) h ∙ at-clear_same e.processor_index q;
  pop_other = λ q e i h d. ap (λ o. at (pop_top o q) i) h ∙ at-clear_other e.processor_index i q d;
  push_same = λ q e h. at-put_same e.next_event_time e.processor_index q;
  push_other = λ q e i h d. at-put_other e.next_event_time e.processor_index i q d;
}
