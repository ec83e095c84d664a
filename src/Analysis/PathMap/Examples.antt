-- ===== src/Analysis/PathMap/Examples.antt =====
-- Two rules on one path.
use snail_server.Common.{◌≡◌, refl, [], ◌∷◌, some, none}
use snail_server.Text.Codes.{Text, codes}
use snail_server.Analysis.PathMap.{
  PathMapper, simple_path_mapper, PathRules, add_rule, apply_mapper, after_prefix, try_apply,
}

abbrev kept : Text → Unit {0} → Text → Text
kept input pattern replace_text = input

abbrev home : PathMapper Unit kept
home = simple_path_mapper (codes "/home/") (codes "C:/")

abbrev root : PathMapper Unit kept
root = simple_path_mapper (codes "/") (codes "D:/")

abbrev rules : PathRules Unit kept
rules = add_rule Unit kept root (home ∷ [])

-- The older rule rewrites its paths, the newer one the others, and neither a path without its pattern.
older_rule_first : try_apply Unit kept rules (codes "/home/a") ≡ some (codes "C:/a")
unfolding add_rule try_apply apply_mapper after_prefix
older_rule_first = refl

newer_rule_next : try_apply Unit kept rules (codes "/usr/a") ≡ some (codes "D:/usr/a")
unfolding add_rule try_apply apply_mapper after_prefix
newer_rule_next = refl

no_rule : try_apply Unit kept rules (codes "usr/a") ≡ none
unfolding add_rule try_apply apply_mapper after_prefix
no_rule = refl
