-- ===== src/Jsonrpc/Json.antt =====
-- The JSON library (nlohmann::json) as far as snail/jsonrpc uses it: what the program takes from
-- outside.
use snail_server.Common.{ℕ, Bool, Option, ◌⊎◌}
use snail_server.Text.Codes.{Text}

-- What a parse comes to: a `parse_error`, any other exception, both by their texts, or a value.
pub data Parsed (V : Type 0) : Type 0 where
  parse_failed : Text → Parsed V
  parse_threw : Text → Parsed V
  parsed_as : V → Parsed V

pub record Json : Type 1 where
  pub Value : Type 0
  pub parse : Text → Parsed Value
  -- A dump throws, with a text, where a string is not in UTF-8.
  pub dump : Value → Text ⊎ Text
  pub is_object : Value → Bool
  pub is_array : Value → Bool
  pub is_string : Value → Bool
  pub is_number : Value → Bool
  pub is_null : Value → Bool
  -- `get<std::string*>`: nothing for a value that is no string.
  pub text_of : Value → Option Text
  pub find : Value → Text → Option Value
  pub size : Value → ℕ
  pub null : Value
  -- A text, a number below zero, and an object as values.
  pub text : Text → Value
  pub minus : ℕ → Value
  pub object : Text → Value → Text → Value → Value
