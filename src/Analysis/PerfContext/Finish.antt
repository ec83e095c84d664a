-- ===== src/Analysis/PerfContext/Finish.antt =====
-- `finish` of perf_data_file_process_context.cpp: names, unique ids and ends of the processes and
-- threads, and which processes have samples.
use snail_server.Common.{
  ℕ, suc, ◌+◌, ◌*◌, ◌^◌, Bool, true, false, not, List, [], ◌∷◌, Option, none, some, leb,
  if◌then◌else◌,
}
use snail_server.Common.AssocMap.{insert}
use snail_server.Analysis.History.{Entry, History, entries_of, insert_at, find_latest, find_at}
use snail_server.Analysis.PerfContext.{
  ProcessData, same_process, ThreadData, same_thread, IdAt, PerfContext,
}
use snail_server.Analysis.PerfContext.Events.{process_named, thread_named, add_thread_key}

-- The pointer that `find_at` returns: the entry is changed in place.
module _ {D : Type 0} where
  abbrev pub change_found :
      (Entry D → Entry D) → Entry D → List (Entry D) → ℕ → Option (Entry D) → List (Entry D)
  change_found f e later t none = if leb e.timestamp t then f e ∷ later else e ∷ later
  change_found f e later t (some found) = e ∷ later

  unfoldable pub change_latest : (Entry D → Entry D) → ℕ → List (Entry D) → List (Entry D)
  change_latest f t [] = []
  change_latest f t (e ∷ es) = change_found f e (change_latest f t es) t (find_latest t es)

  abbrev pub change_at : (Entry D → Entry D) → ℕ → ℕ → History D → History D
  change_at f id t h = insert id (change_latest f t (entries_of h id)) h

abbrev pub set_process_name : Option (List ℕ) → Entry ProcessData → Entry ProcessData
set_process_name name e = record e { payload = record e.payload { name = name } }

abbrev pub set_thread_name : Option (List ℕ) → Entry ThreadData → Entry ThreadData
set_thread_name name e = record e { payload = record e.payload { name = name } }

abbrev pub is_none {ℓ} : {A : Type ℓ} → Option A → Bool
is_none none = true
is_none (some x) = false

abbrev pub is_nameless_process : Option (Entry ProcessData) → Bool
is_nameless_process none = false
is_nameless_process (some e) = is_none e.payload.name

abbrev pub is_nameless_thread : Option (Entry ThreadData) → Bool
is_nameless_thread none = false
is_nameless_thread (some e) = is_none e.payload.name

-- A name goes to the process that has none, or makes a new entry.
abbrev pub apply_process_name : Entry ProcessData → PerfContext → PerfContext
apply_process_name e c =
    if is_nameless_process (find_at e.id e.timestamp true c.processes)
    then record c {
      processes = change_at (set_process_name e.payload.name) e.id e.timestamp c.processes;
    }
    else record c {
      processes =
          (insert_at same_process e.id e.timestamp (process_named e.payload.name) c.processes).0;
    }

abbrev pub apply_thread_name : Entry ThreadData → PerfContext → PerfContext
apply_thread_name e c =
    if is_nameless_thread (find_at e.id e.timestamp true c.threads)
    then record c {
      threads = change_at (set_thread_name e.payload.name) e.id e.timestamp c.threads;
    }
    else add_thread_key e.payload.process_id (record { id = e.id; time = e.timestamp })
        (record c {
          threads =
              (insert_at same_thread e.id e.timestamp
                (thread_named e.payload.process_id e.payload.name) c.threads).0;
        })

abbrev pub for_each {ℓ} :
    {A : Type ℓ} → (A → PerfContext → PerfContext) → List A → PerfContext → PerfContext
for_each f [] c = c
for_each f (x ∷ xs) c = for_each f xs (f x c)

abbrev pub for_entries {ℓ} :
    {A : Type ℓ} → (A → PerfContext → PerfContext) → List (ℕ × List A) → PerfContext → PerfContext
for_entries f [] c = c
for_entries f ((id, es) ∷ more) c = for_entries f more (for_each f es c)

-- What both kinds of data have, as the two loops that give out unique ids are the same.
pub record Lifetime (D : Type 0) : Type 0 where
  pub with_unique_id : ℕ → D → D
  pub with_end : ℕ → D → D
  pub has_end : D → Bool

abbrev pub process_lifetime : Lifetime ProcessData
process_lifetime = record {
  with_unique_id = λ n d. record d { unique_id = some n };
  with_end = λ t d. record d { end_time = some t };
  has_end = λ d. not (is_none d.end_time);
}

abbrev pub thread_lifetime : Lifetime ThreadData
thread_lifetime = record {
  with_unique_id = λ n d. record d { unique_id = some n };
  with_end = λ t d. record d { end_time = some t };
  has_end = λ d. not (is_none d.end_time);
}

module _ {D : Type 0} (l : Lifetime D) where
  -- The end of an entry is the time of the next one.
  abbrev pub end_by : List (Entry D) → D → D
  end_by [] d = d
  end_by (e ∷ es) d = if l.has_end d then d else l.with_end e.timestamp d

  unfoldable pub assign : ℕ → List (Entry D) → List (Entry D)
  assign next [] = []
  assign next (e ∷ es) =
      record e { payload = end_by es (l.with_unique_id next e.payload) } ∷ assign (suc next) es

  abbrev pub length_of : List (Entry D) → ℕ
  length_of [] = 0
  length_of (e ∷ es) = suc (length_of es)

  unfoldable pub assign_all : ℕ → History D → History D
  assign_all next [] = []
  assign_all next ((id, es) ∷ more) = (id, assign next es) ∷ assign_all (next + length_of es) more

  -- The map from unique ids to keys.
  unfoldable pub keys_of : ℕ → ℕ → List (Entry D) → List (ℕ × IdAt) → List (ℕ × IdAt)
  keys_of id next [] keys = keys
  keys_of id next (e ∷ es) keys =
      keys_of id (suc next) es (insert next (record { id = id; time = e.timestamp }) keys)

  unfoldable pub all_keys : ℕ → History D → List (ℕ × IdAt) → List (ℕ × IdAt)
  all_keys next [] keys = keys
  all_keys next ((id, es) ∷ more) keys =
      all_keys (next + length_of es) more (keys_of id next es keys)

abbrev pub first_process_id : ℕ
first_process_id = 2 ^ 32

abbrev pub first_thread_id : ℕ
first_thread_id = 2 * 2 ^ 32

abbrev pub assign_ids : PerfContext → PerfContext
assign_ids c = record c {
  processes = assign_all process_lifetime first_process_id c.processes;
  unique_process_id_to_key =
      all_keys process_lifetime first_process_id c.processes c.unique_process_id_to_key;
  threads = assign_all thread_lifetime first_thread_id c.threads;
  unique_thread_id_to_key =
      all_keys thread_lifetime first_thread_id c.threads c.unique_thread_id_to_key;
}
