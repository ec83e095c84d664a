-- ===== src/Analysis/PathMap.antt =====
-- snail/analysis/path_map.cpp: rules that rewrite the paths of modules.
pub mod Laws
pub mod Examples
use snail_server.Common.{Bool, List, [], ◌∷◌, ◌++◌, Option, none, some, ◌==◌, if◌then◌else◌}
use snail_server.Text.Codes.{Text, equal}

-- What follows the pattern, if the text starts with it.
unfoldable pub after_prefix : Text → Text → Option Text
after_prefix [] input = some input
after_prefix (p ∷ ps) [] = none
after_prefix (p ∷ ps) (c ∷ cs) = let rest = after_prefix ps cs in if c == p then rest else none

abbrev pub replaced : Text → Option Text → Option Text
replaced replace_text none = none
replaced replace_text (some rest) = some (replace_text ++ rest)

abbrev pub or_next : Option Text → Option Text → Option Text
or_next none later = later
or_next (some output) later = some output

-- `Regex` and `regex_replace` are `std::regex` and `std::regex_replace`.
module _ (Regex : Type 0) (regex_replace : Text → Regex → Text → Text) where
  pub data PathMapper : Type 0 where
    simple_path_mapper : Text → Text → PathMapper
    regex_path_mapper : Regex → Text → PathMapper

  -- The new path, or nothing when the mapper returns `false`.
  unfoldable pub apply_mapper : PathMapper → Text → Option Text
  apply_mapper (simple_path_mapper pattern replace_text) input =
      replaced replace_text (after_prefix pattern input)
  apply_mapper (regex_path_mapper pattern replace_text) input =
      let output = regex_replace input pattern replace_text in
      if equal output input then none else some output

  abbrev pub PathRules : Type 0
  PathRules = List PathMapper

  unfoldable pub add_rule : PathMapper → PathRules → PathRules
  add_rule mapper mappers = mappers ++ mapper ∷ []

  unfoldable pub try_apply : PathRules → Text → Option Text
  try_apply [] input = none
  try_apply (mapper ∷ mappers) input = or_next (apply_mapper mapper input) (try_apply mappers input)
