-- ===== src/Jsonrpc/Server/Laws.antt =====
-- Which texts are sent in a session.
use snail_server.Common.{All, ℕ, ◌≡◌, ◌⊎◌, List, [], ◌∷◌, Option, none, some, get_elem?}
use snail_server.Text.Codes.{Text}
use snail_server.Jsonrpc.Json.{Json}
use snail_server.Jsonrpc.Protocol.{
  RpcError, Attempt, returns, throws, Request, load_request, dump_response, dump_error,
}
use snail_server.Jsonrpc.Server.{caught, Event, leaves, receives, calls, Session}

module _ (j : Json) where
  open j use {Value}

  -- An answer that carries the id: a result or an error.
  abbrev pub IsReplyTo : Value → Text → Type 0
  IsReplyTo id text =
      ((result : Value) × (dump_response j (record { result = result; response_id = some id })
          ≡ returns text))
      ⊎ ((e : RpcError) × (dump_error j e (some id) ≡ returns text))

  -- What may be answered: to a request only texts with its id, to a notification only errors without id, and
  -- to all else the error that was caught.
  abbrev pub MayAnswer : Option Value → Text → Type 0
  MayAnswer (some id) text = IsReplyTo id text
  MayAnswer none text = (e : RpcError) × (dump_error j e none ≡ returns text)

  abbrev pub AnswersTo : Attempt (Request j) → Text → Type 0
  AnswersTo (throws e) text = dump_error j (caught e) none ≡ returns text
  AnswersTo (returns r) text = MayAnswer r.id text

  abbrev pub IsAmong : List Text → Text → Type 0
  IsAmong messages message = (i : ℕ) × (get_elem? messages i ≡ some message)

  -- A text that answers one of the messages, and a handler that was called for one of them.
  abbrev pub IsAnswer : List Text → Text → Type 0
  IsAnswer messages text =
      (message : Text) × IsAmong messages message × AnswersTo (load_request j message) text

  abbrev pub IsCalled : List Text → Option Value → Type 0
  IsCalled messages id =
      (message : Text) × IsAmong messages message
      × (r : Request j) × (load_request j message ≡ returns r)
      × (r.id ≡ id)

  module _ (Handler Notifier : Type 0) (messages : List Text) where
    record IsSound (c : Session j Handler Notifier) : Type 0 where
      sent_answers : All (IsAnswer messages) c.sent
      called : All (IsCalled messages) c.wrappers

    abbrev AreAmong : List (Event j Handler Notifier) → Type 0
    AreAmong [] = Unit {0}
    AreAmong (leaves ∷ es) = AreAmong es
    AreAmong (receives message ∷ es) = IsAmong messages message × AreAmong es
    AreAmong (calls k call ∷ es) = AreAmong es

  abbrev pub received : {Handler Notifier : Type 0} → List (Event j Handler Notifier) → List Text
  received [] = []
  received (leaves ∷ es) = received es
  received (receives message ∷ es) = message ∷ received es
  received (calls k call ∷ es) = received es
