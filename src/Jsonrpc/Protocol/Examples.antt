-- ===== src/Jsonrpc/Protocol/Examples.antt =====
-- A request with an id, over trees for JSON.
use snail_server.Common.{
  ℕ, ◌≡◌, refl, Bool, true, false, Option, none, some, inr, ◌+◌, if◌then◌else◌,
}
use snail_server.Text.Codes.{Text, codes, equal}
use snail_server.Jsonrpc.Json.{Json, parsed_as}
use snail_server.Jsonrpc.Protocol.{Request, load_request, returns}
use snail_server.Jsonrpc.Protocol.Laws.{IsRequest, load_request_sound}

pub data Tree : Type 0 where
  nothing : Tree
  word : Text → Tree
  number : ℕ → Tree
  end : Tree
  member : Text → Tree → Tree → Tree

unfoldable pub is_members : Tree → Bool
is_members end = true
is_members (member k v t) = true
is_members _ = false

unfoldable pub is_word : Tree → Bool
is_word (word t) = true
is_word _ = false

unfoldable pub is_numeral : Tree → Bool
is_numeral (number n) = true
is_numeral _ = false

unfoldable pub is_nothing : Tree → Bool
is_nothing nothing = true
is_nothing _ = false

unfoldable pub word_of : Tree → Option Text
word_of (word t) = some t
word_of _ = none

unfoldable pub member_of : Tree → Text → Option Tree
member_of (member k v t) key = let rest = member_of t key in if equal k key then some v else rest
member_of _ key = none

unfoldable pub members : Tree → ℕ
members (member k v t) = members t + 1
members _ = 0

abbrev sent : Tree
sent =
    member (codes "jsonrpc") (word (codes "2.0"))
      (member (codes "method") (word (codes "run")) (member (codes "id") (number 4) end))

-- Every text stands for the one request.
abbrev pub trees : Json
trees = record {
  Value = Tree;
  parse = λ text. parsed_as sent;
  dump = λ v. inr (codes "{}");
  is_object = is_members;
  is_array = λ v. false;
  is_string = is_word;
  is_number = is_numeral;
  is_null = is_nothing;
  text_of = word_of;
  find = member_of;
  size = members;
  null = nothing;
  text = word;
  minus = number;
  object = λ k v k' v'. member k v (member k' v' end);
}

abbrev pub asked : Request trees
asked = record { method = codes "run"; params = nothing; id = some (number 4) }

pub loads_sent : load_request trees (codes "{}") ≡ returns asked
unfolding equal load_request member_of members word_of is_members is_numeral is_word is_nothing
loads_sent = refl

load_request_sound_example : IsRequest trees (codes "{}") asked
load_request_sound_example = load_request_sound trees (codes "{}") asked loads_sent
