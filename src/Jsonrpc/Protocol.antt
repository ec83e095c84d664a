-- ===== src/Jsonrpc/Protocol.antt =====
-- snail/jsonrpc/jsonrpc_v2_protocol.cpp and errors.cpp, over the JSON library.
pub mod Laws
pub mod Examples
use snail_server.Common.{
  ℕ, ◌+◌, Bool, true, false, not, ◌&&◌, ◌||◌, ◌⊎◌, inl, inr, [], ◌++◌, Option, none, some, ◌==◌,
  if◌then◌else◌,
}
use snail_server.Text.Codes.{Text, codes, equal}
use snail_server.Jsonrpc.Json.{Json, Parsed, parse_failed, parse_threw, parsed_as}

-- errors.cpp.
pub data RpcError : Type 0 where
  parse_error : Text → RpcError
  invalid_request_error : Text → RpcError
  unknown_method_error : Text → RpcError
  invalid_parameters_error : Text → RpcError
  internal_error : Text → RpcError
  transport_error : Text → RpcError

-- The code of an error without its sign: all are below zero.
unfoldable pub error_code : RpcError → ℕ
error_code (parse_error m) = 32700
error_code (invalid_request_error m) = 32600
error_code (unknown_method_error m) = 32601
error_code (invalid_parameters_error m) = 32602
error_code (internal_error m) = 32603
error_code (transport_error m) = 32000

unfoldable pub error_message : RpcError → Text
error_message (parse_error m) = m
error_message (invalid_request_error m) = m
error_message (unknown_method_error m) = m
error_message (invalid_parameters_error m) = m
error_message (internal_error m) = m
error_message (transport_error m) = m

-- What is thrown: an error of this library, or another exception with its text.
pub data Thrown : Type 0 where
  rpc_error : RpcError → Thrown
  other_exception : Text → Thrown

-- What a function comes to that may throw.
pub data Attempt {ℓ} (T : Type ℓ) : Type ℓ where
  throws : Thrown → Attempt T
  returns : T → Attempt T

infixl 5 ◌>>=◌
abbrev pub ◌>>=◌ {ℓ κ} : {T : Type ℓ} {S : Type κ} → Attempt T → (T → Attempt S) → Attempt S
throws problem >>= next = throws problem
returns value >>= next = next value

infixl 5 ◌>>◌
abbrev pub ◌>>◌ {κ} : {S : Type κ} → Attempt (Unit {0}) → Attempt S → Attempt S
throws problem >> after = throws problem
returns done >> after = after

abbrev pub require : Bool → Text → Attempt (Unit {0})
require true m = returns tt
require false m = throws (rpc_error (invalid_request_error m))

abbrev pub or_invalid : {A : Type 0} → Option A → Text → Attempt A
or_invalid none m = throws (rpc_error (invalid_request_error m))
or_invalid (some a) m = returns a

module _ (j : Json) where
  open j use {Value, parse, dump, is_object, is_array, is_string, is_number, is_null, text_of, find}
  open j use {size, null, text, minus, object}

  pub record Request : Type 0 where
    pub method : Text
    pub params : Value
    pub id : Option Value

  -- Only a `parse_error` of the library becomes one of this protocol.
  abbrev pub parsed : Parsed Value → Attempt Value
  parsed (parse_failed what) = throws (rpc_error (parse_error what))
  parsed (parse_threw what) = throws (other_exception what)
  parsed (parsed_as v) = returns v

  abbrev pub dumped : Text ⊎ Text → Attempt Text
  dumped (inl what) = throws (other_exception what)
  dumped (inr text) = returns text

  abbrev pub given {ℓ} : {A : Type ℓ} → Option A → ℕ
  given none = 0
  given (some a) = 1

  abbrev pub params_of : Option Value → Attempt Value
  params_of none = returns null
  params_of (some p) = do
    require (is_object p || is_array p) (codes "'params' is neither and object, nor an array.")
    returns p

  abbrev pub id_of : Option Value → Attempt (Option Value)
  id_of none = returns none
  id_of (some i) = do
    require (is_string i || (is_number i || is_null i))
        (codes "'id' is neither and string, nor number, nor null.")
    returns (some i)

  unfoldable pub load_request : Text → Attempt Request
  load_request content = do
    root ← parsed (parse content)
    require (is_object root) (codes "Root is not an object")
    jsonrpc ← or_invalid (find root (codes "jsonrpc")) (codes "'jsonrpc' missing")
    jsonrpc_str ← or_invalid (text_of jsonrpc) (codes "'jsonrpc' is not a string")
    require (equal jsonrpc_str (codes "2.0")) (codes "'jsonrpc' has to '2.0'")
    method ← or_invalid (find root (codes "method")) (codes "'method' missing")
    method_str ← or_invalid (text_of method) (codes "'method' is not a string")
    params ← params_of (find root (codes "params"))
    id ← id_of (find root (codes "id"))
    require (size root == 2 + given (find root (codes "params")) + given (find root (codes "id")))
        (codes "to many fields found.")
    returns (record { method = method_str; params = params; id = id })

  pub record Response : Type 0 where
    pub result : Value
    pub response_id : Option Value

  abbrev pub id_part : Option Value → Attempt Text
  id_part none = returns []
  id_part (some i) = do id ← dumped (dump i); returns (codes ",\"id\":" ++ id)

  abbrev pub params_part : Value → Attempt Text
  params_part p =
      if is_null p
      then returns []
      else dumped (dump p) >>= (λ params. returns (codes ",\"params\":" ++ params))

  pub dump_request : Request → Attempt Text
  dump_request r = do
    id ← id_part r.id
    params ← params_part r.params
    returns (
        codes "{\"jsonrpc\":\"2.0\",\"method\":\""
        ++ (r.method ++ (codes "\"" ++ (id ++ (params ++ codes "}")))))

  unfoldable pub dump_response : Response → Attempt Text
  dump_response r = do
    result ← dumped (dump r.result)
    id ← id_part r.response_id
    returns (codes "{\"jsonrpc\":\"2.0\",\"result\":" ++ (result ++ (id ++ codes "}")))

  unfoldable pub dump_error : RpcError → Option Value → Attempt Text
  unfolding error_code error_message
  dump_error e id = do
    error ← dumped (
        dump
          (object (codes "code") (minus (error_code e)) (codes "message") (text (error_message e))))
    its_id ← id_part id
    returns (codes "{\"jsonrpc\":\"2.0\",\"error\":" ++ (error ++ (its_id ++ codes "}")))
