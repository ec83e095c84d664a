-- ===== src/Analysis/History.antt =====
-- snail/analysis/detail/process_history.hpp: what was known of a process or thread id over time.
-- The payload's type and its `==` are parameters: the program's `==` leaves fields out.
pub mod Laws
pub mod Examples
use snail_server.Common.{
  ℕ, Bool, true, false, List, [], ◌∷◌, ◌++◌, Option, none, some, length, leb, if◌then◌else◌,
}
use snail_server.Common.AssocMap.{lookup, insert}

pub record Entry (D : Type 0) : Type 0 where
  pub id : ℕ
  pub timestamp : ℕ
  pub payload : D

-- `entries_by_id`, each vector from the oldest entry to the newest.
abbrev pub History : Type 0 → Type 0
History D = List (ℕ × List (Entry D))

module _ {D : Type 0} where
  abbrev pub entries_of : History D → ℕ → List (Entry D)
  entries_of h id = elim (lookup id h) [ none ↦ [] | some es ↦ es ]

  abbrev pub back : List (Entry D) → Option (Entry D)
  back [] = none
  back (e ∷ []) = some e
  back (e ∷ f ∷ fs) = back (f ∷ fs)

  -- An insertion: whether it says that it inserted, and the entries after it. A timestamp before
  -- the last one runs into `assert(false)`; without asserts nothing is inserted.
  insert_after :
      (D → D → Bool) → Entry D → List (Entry D) → Option (Entry D) → List (Entry D) × Bool
  insert_after eq e es none = (es ++ e ∷ [], true)
  insert_after eq e es (some last) =
      if leb last.timestamp e.timestamp
      then (if eq last.payload e.payload then (es, false) else (es ++ e ∷ [], true))
      else (es, true)

  pub insert_entry : (D → D → Bool) → Entry D → List (Entry D) → List (Entry D) × Bool
  unfolding insert_after
  insert_entry eq e es = insert_after eq e es (back es)

  pub insert_at : (D → D → Bool) → ℕ → ℕ → D → History D → History D × Bool
  insert_at eq id timestamp payload h =
      let (es, inserted) =
        insert_entry eq (record { id = id; timestamp = timestamp; payload = payload })
          (entries_of h id) in
      (insert id es h, inserted)

  -- The scan from the newest entry back.
  pub find_latest : ℕ → List (Entry D) → Option (Entry D)
  find_latest t [] = none
  find_latest t (e ∷ es) = elim (find_latest t es) [
    | some found ↦ some found
    | none ↦ if leb e.timestamp t then some e else none
  ]

  front_or : Bool → List (Entry D) → Option (Entry D)
  front_or true es = none
  front_or false [] = none
  front_or false (e ∷ es) = some e

  find_in : ℕ → Bool → Option (List (Entry D)) → Option (Entry D)
  unfolding front_or
  find_in t strict none = none
  find_in t strict (some es) = elim (find_latest t es) [
    | some found ↦ some found
    | none ↦ front_or strict es
  ]

  -- `nullptr` is `none`.
  pub find_at : ℕ → ℕ → Bool → History D → Option (Entry D)
  unfolding find_in
  find_at id t strict h = find_in t strict (lookup id h)
