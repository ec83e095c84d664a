-- ===== src/Server/Scheduler/InOrder/Flights.antt =====
-- The closures of one document among those in flight, oldest first.
use snail_server.Common.{
  ℕ, zero, suc, ◌+◌, ◌<◌, ◌≡◌, refl, inl, inr, Bool, true, false, not, List, [], ◌∷◌, ◌++◌, some,
  length, take, drop, take_at, count_if, ◌==◌, if◌then◌else◌, arith, Option-cases,
}
use snail_server.Server.Scheduler.{Submitted}
use snail_server.Server.Scheduler.Accounts.{reads, writes, blocks, flights}

abbrev pub of_document : ℕ → List Submitted → List Submitted
of_document j [] = []
of_document j (f ∷ fs) = if f.document == j then f ∷ of_document j fs else of_document j fs

pub of_document-append :
    (j : ℕ) (xs ys : List Submitted)
    → of_document j (xs ++ ys) ≡ of_document j xs ++ of_document j ys
of_document-append j [] ys = refl
of_document-append j (x ∷ xs) ys = ground (arith, of_document-append j xs ys)

-- All but the newest left the document ready.
abbrev pub InitsStill : List Submitted → Type 0
InitsStill [] = Unit {0}
InitsStill (f ∷ []) = Unit {0}
InitsStill (f ∷ g ∷ gs) = (f.was_still_ready ≡ true) × InitsStill (g ∷ gs)

-- The newest did not leave the document ready.
abbrev pub ends_blocked : List Submitted → Bool
ends_blocked [] = false
ends_blocked (f ∷ []) = not f.was_still_ready
ends_blocked (f ∷ g ∷ gs) = ends_blocked (g ∷ gs)

pub nonempty_of_blocked : (fs : List Submitted) → ends_blocked fs ≡ true → 0 < length fs
nonempty_of_blocked [] e = absurd (cc e)
nonempty_of_blocked (f ∷ fs) e = omega arith

pub blocks_of_ends : (fs : List Submitted) → ends_blocked fs ≡ true → 0 < count_if blocks fs
blocks_of_ends [] e = absurd (cc e)
blocks_of_ends (f ∷ []) e = ground arith
blocks_of_ends (f ∷ g ∷ gs) e = ground (arith, blocks_of_ends (g ∷ gs) e)

pub InitsStill-append :
    (fs : List Submitted) (f : Submitted)
    → InitsStill fs
    → ends_blocked fs ≡ false
    → InitsStill (fs ++ f ∷ [])
InitsStill-append [] f h e = tt
InitsStill-append (g ∷ []) f h e = (ground arith, tt)
InitsStill-append (g ∷ k ∷ gs) f h e = (h.0, InitsStill-append (k ∷ gs) f h.1 e)

pub ends_blocked-append :
    (fs : List Submitted) (f : Submitted) → ends_blocked (fs ++ f ∷ []) ≡ not f.was_still_ready
ends_blocked-append [] f = refl
ends_blocked-append (g ∷ []) f = refl
ends_blocked-append (g ∷ k ∷ gs) f = ends_blocked-append (k ∷ gs) f

pub count-length : (fs : List Submitted) → count_if reads fs + count_if writes fs ≡ length fs
count-length [] = omega arith
count-length (f ∷ fs) = ground (arith, count-length fs)

pub count_if-of_document :
    (p : Submitted → Bool) (fs : List Submitted) (j : ℕ)
    → count_if p (of_document j fs) ≡ flights p fs j
count_if-of_document p [] j = refl
count_if-of_document p (f ∷ fs) j = ground (arith, count_if-of_document p fs j)

-- What taking out the closure at an index does to each document's closures.
pub record Taken (i : ℕ) (l : List Submitted) (f : Submitted) (rest : List Submitted) : Type 0 where
  pub before : l ≡ take i l ++ f ∷ drop (suc i) l
  pub without : rest ≡ take i l ++ drop (suc i) l

pub take_at-Taken :
    (i : ℕ) (l : List Submitted) (f : Submitted) (rest : List Submitted)
    → take_at i l ≡ some (f, rest)
    → Taken i l f rest
take_at-Taken i [] f rest e = absurd (cc e)
take_at-Taken zero (x ∷ l) f rest e = record { before = ground arith; without = ground arith }
take_at-Taken (suc i) (x ∷ l) f rest e = elim (Option-cases (take_at i l)) [
  | inl h ↦ absurd (ground arith)
  | inr ((g, more), h) ↦
      let t = take_at-Taken i l g more h in
      record { before = ground (arith, t.before); without = ground (arith, t.without) }
]
