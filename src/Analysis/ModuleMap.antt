-- ===== src/Analysis/ModuleMap.antt =====
-- snail/analysis/detail/module_map.hpp: which module is loaded at an address, at a time.
pub mod Laws
pub mod Insert
pub mod Find
mod Examples
use snail_server.Common.{
  ℕ, zero, suc, ◌+◌, ◌%◌, ◌^◌, min, max, Bool, true, false, ◌&&◌, List, [], ◌∷◌, ◌++◌, map, Option,
  none, some, ◌==◌, ltb, leb, get_elem?, length, if◌then◌else◌,
}

pub record ModuleEntry : Type 0 where
  pub load_timestamp : ℕ
  pub module_index : ℕ

-- A half-open range of addresses.
pub record AddressRange : Type 0 where
  pub begin_address : ℕ
  pub end_address : ℕ
  pub active_modules : List ModuleEntry

abbrev pub contains : ℕ → AddressRange → Bool
contains address r = leb r.begin_address address && ltb address r.end_address

abbrev pub last_or : ModuleEntry → List ModuleEntry → ModuleEntry
last_or e [] = e
last_or e (f ∷ es) = last_or f es

-- `std::ranges::sort` by the time; the order of entries of one time is not specified.
abbrev pub insert_by_time : ModuleEntry → List ModuleEntry → List ModuleEntry
insert_by_time e [] = e ∷ []
insert_by_time e (f ∷ es) =
    if ltb f.load_timestamp e.load_timestamp then f ∷ insert_by_time e es else e ∷ f ∷ es

abbrev pub sort_by_time : List ModuleEntry → List ModuleEntry
sort_by_time [] = []
sort_by_time (e ∷ es) = insert_by_time e (sort_by_time es)

-- A range has a module at least: the vector of a new range is not empty, and nothing is taken out.
unfoldable pub add_active_module : ModuleEntry → AddressRange → AddressRange
add_active_module e r =
    let more = r.active_modules ++ e ∷ [] in
    if leb (last_or e r.active_modules).load_timestamp e.load_timestamp
    then record r { active_modules = more }
    else record r { active_modules = sort_by_time more }

-- The places that `std::ranges::lower_bound` finds in ordered ranges: the ranges before an address, and
-- the others.
abbrev pub span_while :
    (AddressRange → Bool) → List AddressRange → List AddressRange × List AddressRange
span_while p [] = ([], [])
span_while p (r ∷ rs) =
    let more = span_while p rs in if p r then (r ∷ more.0, more.1) else ([], r ∷ rs)

-- The range that overlaps at the beginning is split; the part before comes first.
abbrev pub split_first : ℕ → List AddressRange → List AddressRange × List AddressRange
split_first at [] = ([], [])
split_first at (r ∷ rs) =
    if ltb r.begin_address at
    then (record r { end_address = at } ∷ [], record r { begin_address = at } ∷ rs)
    else ([], r ∷ rs)

-- The range that overlaps at the end is split; the part behind comes second.
abbrev pub split_last : ℕ → List AddressRange → List AddressRange × List AddressRange
split_last at [] = ([], [])
split_last at (r ∷ []) =
    if ltb at r.end_address
    then (record r { end_address = at } ∷ [], record r { begin_address = at } ∷ [])
    else (r ∷ [], [])
split_last at (r ∷ s ∷ rs) = let more = split_last at (s ∷ rs) in (r ∷ more.0, more.1)

abbrev pub new_range : ModuleEntry → ℕ → ℕ → AddressRange
new_range e from to = record { begin_address = from; end_address = to; active_modules = e ∷ [] }

-- The new module in all ranges that overlap it, which are split where they reach out of it.
unfoldable pub overlap : ModuleEntry → ℕ → ℕ → List AddressRange → List AddressRange
overlap e from to ranges =
    let first = split_first from ranges in
    let last = split_last to first.1 in first.0 ++ map (add_active_module e) last.0 ++ last.1

-- The ranges, and whether the new module is kept: an equal one may be there already.
abbrev pub Placed : Type 0
Placed = List AddressRange × Bool

-- `is_same` is the test for a range that is exactly the new module's, with an equal one.
abbrev pub place : (AddressRange → Bool) → ModuleEntry → ℕ → ℕ → List AddressRange → Placed
place is_same e from to [] = (new_range e from to ∷ [], true)
place is_same e from to (r ∷ []) =
    if is_same r then (r ∷ [], false) else (overlap e from to (r ∷ []), true)
place is_same e from to (r ∷ s ∷ rs) = (overlap e from to (r ∷ s ∷ rs), true)

-- The ranges that end before the new one, those that overlap it, and those behind it. None is the
-- step before the first range, where no range starts before the end of the new one.
abbrev pub insert_between :
    (AddressRange → Bool)
    → ModuleEntry
    → ℕ
    → ℕ
    → List AddressRange
    → List AddressRange
    → Option Placed
insert_between is_same e from to [] behind = none
insert_between is_same e from to (r ∷ rs) behind =
    let ended = span_while (λ x. leb x.end_address from) (r ∷ rs) in
    let placed = place is_same e from to ended.1 in some (ended.0 ++ placed.0 ++ behind, placed.1)

unfoldable pub insert_inside :
    (AddressRange → Bool) → ModuleEntry → ℕ → ℕ → List AddressRange → Option Placed
insert_inside is_same e from to ranges =
    let starting = span_while (λ r. ltb r.begin_address to) ranges in
    insert_between is_same e from to starting.0 starting.1

abbrev pub total_end : AddressRange → List AddressRange → ℕ
total_end r [] = r.end_address
total_end r (s ∷ rs) = total_end s rs

-- The part behind the last range.
unfoldable pub insert_behind :
    (AddressRange → Bool) → ModuleEntry → ℕ → ℕ → AddressRange → List AddressRange → Option Placed
insert_behind is_same e from to r rs =
    let current_end = total_end r rs in
    if ltb current_end to
    then (let more = r ∷ rs ++ new_range e (max current_end from) to ∷ [] in
        if leb current_end from
        then some (more, true)
        else insert_inside is_same e from current_end more)
    else insert_inside is_same e from to (r ∷ rs)

-- The part before the first range.
unfoldable pub insert_range :
    (AddressRange → Bool) → ModuleEntry → ℕ → ℕ → List AddressRange → Option Placed
insert_range is_same e from to [] = some (new_range e from to ∷ [], true)
insert_range is_same e from to (r ∷ rs) =
    if ltb from r.begin_address
    then (let before = new_range e from (min r.begin_address to) in
        if leb to r.begin_address
        then some (before ∷ r ∷ rs, true)
        else insert_behind is_same e r.begin_address to before (r ∷ rs))
    else insert_behind is_same e from to r rs

module _ {D : Type 0} (same_payload : D → D → Bool) where
  pub record LoadedModule : Type 0 where
    pub base : ℕ
    pub size : ℕ
    pub payload : D

  pub record ModuleMap : Type 0 where
    pub modules : List LoadedModule
    pub address_ranges : List AddressRange

  abbrev pub module_end : LoadedModule → ℕ
  module_end m = (m.base + m.size) % 2 ^ 64

  abbrev pub has_payload : LoadedModule → Option LoadedModule → Bool
  has_payload m none = false
  has_payload m (some n) = same_payload n.payload m.payload

  -- Whether a range is that of an equal module which is not newer.
  abbrev pub is_same : List LoadedModule → LoadedModule → ModuleEntry → AddressRange → Bool
  is_same modules m e r =
      let newest = last_or e r.active_modules in
      (r.begin_address == m.base)
      && (r.end_address == module_end m)
      && leb newest.load_timestamp e.load_timestamp
      && has_payload m (get_elem? modules newest.module_index)

  abbrev pub keep_module : ModuleMap → LoadedModule → Placed → ModuleMap
  keep_module map m placed = record {
    modules = if placed.1 then map.modules ++ m ∷ [] else map.modules;
    address_ranges = placed.0;
  }

  abbrev pub keep_placed : ModuleMap → LoadedModule → Option Placed → Option ModuleMap
  keep_placed map m none = none
  keep_placed map m (some placed) = some (keep_module map m placed)

  -- None where an iterator leaves the vector.
  unfoldable pub insert : LoadedModule → ℕ → ModuleMap → Option ModuleMap
  insert m load_timestamp map =
      let e : ModuleEntry = record {
        load_timestamp = load_timestamp;
        module_index = length map.modules;
      } in
      keep_placed map m (
        insert_range (is_same (map.modules ++ m ∷ []) m e) e m.base (module_end m)
          map.address_ranges)

  -- From the newest back, up to the oldest.
  abbrev pub latest_of : ℕ → ModuleEntry → List ModuleEntry → ModuleEntry
  latest_of timestamp e [] = e
  latest_of timestamp e (f ∷ es) =
      let later = latest_of timestamp f es in
      if ltb timestamp later.load_timestamp then e else later

  abbrev pub find_active : ℕ → Bool → List ModuleEntry → Option ModuleEntry
  find_active timestamp strict [] = none
  find_active timestamp strict (e ∷ es) =
      let latest = latest_of timestamp e es in
      if strict && ltb timestamp latest.load_timestamp then none else some latest

  abbrev pub last_range : List AddressRange → Option AddressRange
  last_range [] = none
  last_range (r ∷ []) = some r
  last_range (r ∷ s ∷ rs) = last_range (s ∷ rs)

  abbrev pub find_in_range : ℕ → ℕ → Bool → Option AddressRange → Option ModuleEntry
  find_in_range address timestamp strict none = none
  find_in_range address timestamp strict (some r) =
      if contains address r then find_active timestamp strict r.active_modules else none

  abbrev pub with_time : Option LoadedModule → ℕ → Option (LoadedModule × ℕ)
  with_time none load_timestamp = none
  with_time (some m) load_timestamp = some (m, load_timestamp)

  -- `modules[module_index]`. An index behind the vector would be undefined behaviour; here it gives no module.
  abbrev pub module_of : List LoadedModule → Option ModuleEntry → Option (LoadedModule × ℕ)
  module_of modules none = none
  module_of modules (some e) = with_time (get_elem? modules e.module_index) e.load_timestamp

  -- The module with the time at which it was loaded, or none for a null pointer.
  unfoldable pub find : ℕ → ℕ → Bool → ModuleMap → Option (LoadedModule × ℕ)
  find address timestamp strict map = module_of map.modules (
      find_in_range address timestamp strict
        (last_range (span_while (λ r. leb r.begin_address address) map.address_ranges).0))
