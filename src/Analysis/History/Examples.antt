-- ===== src/Analysis/History/Examples.antt =====
-- A history of one process id, and the theorems at it. Payloads are numbers, compared by value.
use snail_server.Common.{ℕ, ◌≡◌, refl, Bool, false, [], ◌∷◌, some, ◌==◌, arith}
use snail_server.Common.AssocMap.{lookup}
use snail_server.Analysis.History.{Entry, History, insert_entry, insert_at, find_latest, find_at}
use snail_server.Analysis.History.Laws.{find_at-insert_at}

abbrev same : ℕ → ℕ → Bool
same a b = a == b

abbrev entry : ℕ → ℕ → Entry ℕ
entry t p = record { id = 5; timestamp = t; payload = p }

abbrev two_names : History ℕ
two_names = (5, entry 10 1 ∷ entry 20 2 ∷ []) ∷ []

find_at-insert_at_example :
    find_at 5 40 false (insert_at same 5 30 3 two_names).0 ≡ some (entry 30 3)
unfolding lookup insert_at insert_entry
find_at-insert_at_example =
    find_at-insert_at same 5 30 5 40 3 false two_names (omega arith) refl (omega arith)

lenient : find_at 5 3 false two_names ≡ some (entry 10 1)
unfolding find_at find_latest lookup
lenient = refl
