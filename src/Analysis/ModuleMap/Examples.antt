-- ===== src/Analysis/ModuleMap/Examples.antt =====
-- A module over two others, with a gap between them.
use snail_server.Common.{ℕ, ◌≡◌, refl, true, false, [], ◌∷◌, Option, none, some, ◌==◌, arith}
use snail_server.Analysis.ModuleMap.{
  AddressRange, module_of, LoadedModule, ModuleMap, insert, find, insert_range, insert_inside,
  insert_behind, overlap, add_active_module,
}
use snail_server.Analysis.ModuleMap.Find.{covering, active_in, find-newest_by}
use snail_server.Analysis.ModuleMap.Insert.{IsOrderedMap, insert-IsOrderedMap}

abbrev range_of : ℕ → ℕ → ℕ → AddressRange
range_of from to module_index = record {
  begin_address = from;
  end_address = to;
  active_modules = record { load_timestamp = 0; module_index = module_index } ∷ [];
}

abbrev module_at : ℕ → ℕ → LoadedModule {D = ℕ} ◌==◌
module_at base size = record { base = base; size = size; payload = base }

abbrev two_modules : ModuleMap {D = ℕ} ◌==◌
two_modules = record {
  modules = module_at 10 10 ∷ module_at 30 10 ∷ [];
  address_ranges = range_of 10 20 0 ∷ range_of 30 40 1 ∷ [];
}

insert-IsOrderedMap_example : IsOrderedMap ◌==◌ (insert ◌==◌ (module_at 15 20) 5 two_modules)
insert-IsOrderedMap_example =
    insert-IsOrderedMap ◌==◌ (module_at 15 20) 5 two_modules (omega arith) (omega arith)
      (40, (omega arith, omega arith, (omega arith, omega arith, omega arith)))

abbrev search_after_insert :
    ℕ → Option (ModuleMap {D = ℕ} ◌==◌) → Option (LoadedModule {D = ℕ} ◌==◌ × ℕ)
search_after_insert address none = none
search_after_insert address (some m) = find ◌==◌ address 9 true m

-- The gap between the two stays without a module, although the new one is there.
gap_not_filled : search_after_insert 25 (insert ◌==◌ (module_at 15 20) 5 two_modules) ≡ none
unfolding insert find insert_range insert_inside insert_behind overlap add_active_module
gap_not_filled = refl

new_over_old :
    search_after_insert 16 (insert ◌==◌ (module_at 15 20) 5 two_modules) ≡ some (module_at 15 20, 5)
unfolding insert find insert_range insert_inside insert_behind overlap add_active_module
new_over_old = refl

-- Two modules in one range, of which the search takes the one that was loaded by then.
abbrev twice_loaded : ModuleMap {D = ℕ} ◌==◌
twice_loaded = record {
  modules = module_at 10 10 ∷ module_at 5 15 ∷ [];
  address_ranges =
      record {
        begin_address = 10;
        end_address = 20;
        active_modules =
            record { load_timestamp = 2; module_index = 0 }
            ∷ record { load_timestamp = 6; module_index = 1 }
            ∷ [];
      }
      ∷ [];
}

find-newest_by_example :
    find ◌==◌ 15 7 true twice_loaded
    ≡ module_of ◌==◌ twice_loaded.modules
        (active_in 7 true (covering 15 twice_loaded.address_ranges))
find-newest_by_example =
    find-newest_by ◌==◌ 15 7 true twice_loaded (20, (omega arith, omega arith, omega arith))

newer_found : find ◌==◌ 15 7 true twice_loaded ≡ some (module_at 5 15, 6)
unfolding find
newer_found = refl

older_found : find ◌==◌ 15 5 true twice_loaded ≡ some (module_at 10 10, 2)
unfolding find
older_found = refl

oldest_if_not_strict : find ◌==◌ 15 1 false twice_loaded ≡ some (module_at 10 10, 2)
unfolding find
oldest_if_not_strict = refl
