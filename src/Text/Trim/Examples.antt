-- ===== src/Text/Trim/Examples.antt =====
-- `trim` on a text with blanks at both ends and inside.
use snail_server.Common.{ℕ, List, [], ◌∷◌}

abbrev padded : List ℕ
padded = 32 ∷ 9 ∷ 97 ∷ 32 ∷ 98 ∷ 13 ∷ 10 ∷ []
