-- ===== src/Server/Storage/Page.antt =====
-- The page of a sorted vector, `get_functions_page` of snail/server/detail/storage.cpp.
pub mod Laws
use snail_server.Common.{
  ℕ, ◌+◌, ◌-◌, ◌*◌, ◌%◌, ◌^◌, min, Bool, List, Option, none, some, length, take, drop, leb,
  if◌then◌else◌,
}

module _ {A : Type 0} where
  -- The elements of a span over a vector; nothing when it reaches past the end.
  unfoldable pub span : List A → ℕ → ℕ → Option (List A)
  span xs start count =
      if leb (start + count) (length xs) then some (take count (drop start xs)) else none

  -- `reversed`, `page_size` and `page_index` are `std::size_t`, and so is `page_end - page_start`.
  unfoldable pub page_of : Bool → ℕ → ℕ → List A → Option (List A)
  page_of reversed page_size page_index xs =
      let n = length xs in
      let page_start = min ((page_index * page_size) % 2 ^ 64) n in
      let page_end = min (((page_index + 1) % 2 ^ 64 * page_size) % 2 ^ 64) n in
      let current = (2 ^ 64 + page_end - page_start) % 2 ^ 64 in
      if reversed then span xs (n - page_end) current else span xs page_start current
