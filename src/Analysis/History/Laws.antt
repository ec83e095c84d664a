-- ===== src/Analysis/History/Laws.antt =====
-- What `insert` and `find_at` of process_history.hpp guarantee.
use snail_server.Common.{
  ℕ, ◌≤◌, ◌<◌, ◌≡◌, refl, ap, inl, inr, Bool, true, false, List, [], ◌∷◌, ◌++◌, Option, none, some,
  leb, ◌==◌, if◌then◌else◌, arith, Bool-cases,
}
use snail_server.Common.AssocMap.{lookup-insert}
use snail_server.Analysis.History.{
  Entry, History, entries_of, back, insert_entry, insert_at, find_latest, find_at,
}

module _ {D : Type 0} where
  back-some : (x : Entry D) (es : List (Entry D)) → (last : Entry D) × (back (x ∷ es) ≡ some last)
  back-some x [] = (x, refl)
  back-some x (y ∷ es) = back-some y es

  abbrev pub AllAfter : ℕ → List (Entry D) → Type 0
  AllAfter t [] = Unit {0}
  AllAfter t (e ∷ es) = (t < e.timestamp) × AllAfter t es

  -- The last entry that is not after `t`, or none when all are.
  abbrev pub IsAnswer : ℕ → List (Entry D) → Option (Entry D) → Type 0
  IsAnswer t es none = AllAfter t es
  IsAnswer t es (some r) =
      (before after : List (Entry D)) × (es ≡ before ++ r ∷ after)
      × (r.timestamp ≤ t)
      × AllAfter t after

  step_back :
      (t : ℕ) (e : Entry D) (es : List (Entry D)) (r : Option (Entry D))
      → find_latest t es ≡ r
      → IsAnswer t es r
      → IsAnswer t (e ∷ es) (find_latest t (e ∷ es))
  unfolding find_latest
  step_back t e es (some r) f (b, a, p, q, h) = rw (f, find_latest) (e ∷ b, a, ap (◌∷◌ e) p, q, h)
  step_back t e es none f h = elim (Bool-cases (leb e.timestamp t)) [
    | inl l ↦ rw (f, find_latest) (rw l ([], es, refl, ground arith, h))
    | inr l ↦ rw (f, find_latest) (rw l (ground arith, h))
  ]

  pub find_latest-IsAnswer : (t : ℕ) (es : List (Entry D)) → IsAnswer t es (find_latest t es)
  unfolding find_latest
  find_latest-IsAnswer t [] = tt
  find_latest-IsAnswer t (e ∷ es) =
      step_back t e es (find_latest t es) refl (find_latest-IsAnswer t es)

  find_latest-append :
      (t : ℕ) (es : List (Entry D)) (e : Entry D)
      → e.timestamp ≤ t
      → find_latest t (es ++ e ∷ []) ≡ some e
  unfolding find_latest
  find_latest-append t [] e h = ground arith
  find_latest-append t (x ∷ es) e h = rw (find_latest-append t es e h, find_latest)

  find_of_lookup :
      (id t : ℕ) (h : History D) → find_at id t true h ≡ find_latest t (entries_of h id)
  unfolding find_at find_latest
  find_of_lookup id t h = ground arith

  -- A strict `find_at` gives the newest entry of the id whose timestamp is not after the given
  -- one, and nothing only if there is none.
  pub find_at-IsAnswer :
      (id t : ℕ) (h : History D) → IsAnswer t (entries_of h id) (find_at id t true h)
  find_at-IsAnswer id t h = rw (find_of_lookup id t h) (find_latest-IsAnswer t (entries_of h id))

module _ {D : Type 0} (eq : D → D → Bool) where
  -- Oldest first, and no entry repeats the payload of the one before it.
  abbrev pub Follows : Entry D → List (Entry D) → Type 0
  Follows e [] = Unit {0}
  Follows e (f ∷ fs) = (e.timestamp ≤ f.timestamp) × (eq e.payload f.payload ≡ false) × Follows f fs

  abbrev pub IsOrdered : List (Entry D) → Type 0
  IsOrdered [] = Unit {0}
  IsOrdered (e ∷ es) = Follows e es

  Follows-append :
      (x : Entry D) (es : List (Entry D)) (e last : Entry D)
      → back (x ∷ es) ≡ some last
      → last.timestamp ≤ e.timestamp
      → eq last.payload e.payload ≡ false
      → Follows x es
      → Follows x (es ++ e ∷ [])
  Follows-append x [] e last b t d f = (ground arith, ground arith, tt)
  Follows-append x (y ∷ es) e last b t d (p, q, f) = (p, q, Follows-append y es e last b t d f)

  insert_entry-IsOrdered :
      (e : Entry D) (es : List (Entry D)) → IsOrdered es → IsOrdered (insert_entry eq e es).0
  unfolding insert_entry
  insert_entry-IsOrdered e [] o = tt
  insert_entry-IsOrdered e (x ∷ es) o =
      let (last, b) = back-some x es in
      elim (Bool-cases (leb last.timestamp e.timestamp)) [
        | inr l ↦ rw (b, insert_entry) (rw l o)
        | inl l ↦ elim (Bool-cases (eq last.payload e.payload)) [
          | inl d ↦ rw (b, insert_entry) (rw (l, d) o)
          | inr d ↦
              rw (b, insert_entry) (rw (l, d) (Follows-append x es e last b (ground arith) d o))
        ]
      ]

  entries_of-insert_at :
      (id t j : ℕ) (p : D) (h : History D)
      → entries_of (insert_at eq id t p h).0 j ≡ (
          if id == j
          then (insert_entry eq
              (record { id = id; timestamp = t; payload = p })
              (entries_of h id)).0
          else entries_of h j)
  unfolding insert_at
  entries_of-insert_at id t j p h =
      let es =
        (insert_entry eq (record { id = id; timestamp = t; payload = p }) (entries_of h id)).0 in
      ground (arith, lookup-insert id j es h)

  -- Whatever is inserted, the entries of every id stay ordered by time, with no payload repeated
  -- in a row.
  pub insert_at-IsOrdered :
      (id t j : ℕ) (p : D) (h : History D)
      → IsOrdered (entries_of h id)
      → IsOrdered (entries_of h j)
      → IsOrdered (entries_of (insert_at eq id t p h).0 j)
  insert_at-IsOrdered id t j p h o oj =
      rw (entries_of-insert_at id t j p h) (elim (Bool-cases (id == j)) [
        | inl e ↦ rw e (insert_entry-IsOrdered _ (entries_of h id) o)
        | inr e ↦ rw e oj
      ])

  -- No entry of the id is after `t`.
  abbrev pub IsCurrent : Option (Entry D) → ℕ → Type 0
  IsCurrent none t = Unit {0}
  IsCurrent (some last) t = last.timestamp ≤ t

  insert_entry_appends :
      (e : Entry D) (es : List (Entry D))
      → IsCurrent (back es) e.timestamp
      → (insert_entry eq e es).1 ≡ true
      → (insert_entry eq e es).0 ≡ es ++ e ∷ []
  unfolding insert_entry
  insert_entry_appends e [] c i = refl
  insert_entry_appends e (x ∷ es) c i = let (last, b) = back-some x es in ground (arith, b)

  -- An insertion that is not older than what is known, and that says it inserted, is what a search
  -- at any later time finds; searches for other ids are not affected.
  pub find_at-insert_at :
      (id t j u : ℕ) (p : D) (strict : Bool) (h : History D)
      → IsCurrent (back (entries_of h id)) t
      → (insert_at eq id t p h).1 ≡ true
      → t ≤ u
      → find_at j u strict (insert_at eq id t p h).0 ≡ (
          if id == j
          then some (record { id = id; timestamp = t; payload = p })
          else find_at j u strict h)
  unfolding insert_at find_at
  find_at-insert_at id t j u p strict h c i l =
      let e : Entry D = record { id = id; timestamp = t; payload = p } in
      let es = (insert_entry eq e (entries_of h id)).0 in
      ground (
        arith,
        lookup-insert id j es h,
        insert_entry_appends e (entries_of h id) c i,
        find_latest-append u (entries_of h id) e l,
      )

  -- An insertion that is older than the newest entry of its id changes nothing that a search
  -- finds, and still says that it inserted.
  pub insert_at_late :
      (id t j u : ℕ) (p : D) (strict : Bool) (h : History D) (last : Entry D)
      → back (entries_of h id) ≡ some last
      → t < last.timestamp
      → ((insert_at eq id t p h).1 ≡ true)
        × (find_at j u strict (insert_at eq id t p h).0 ≡ find_at j u strict h)
  unfolding insert_at find_at insert_entry
  insert_at_late id t j u p strict h last b l =
      ground (arith, b, lookup-insert id j (entries_of h id) h)
