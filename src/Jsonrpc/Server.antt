-- ===== src/Jsonrpc/Server.antt =====
-- snail/jsonrpc/server.{hpp,cpp}: which handler gets a message, and what is answered.
pub mod Laws
pub mod Examples
use snail_server.Common.{
  ℕ, Bool, true, false, List, [], ◌∷◌, ◌++◌, Option, none, some, get_elem?, if◌then◌else◌,
}
use snail_server.Text.Codes.{Text, codes, equal}
use snail_server.Jsonrpc.Json.{Json}
use snail_server.Jsonrpc.Protocol.{
  RpcError, unknown_method_error, internal_error, Thrown, rpc_error, other_exception, Attempt,
  returns, throws, Request, load_request, dump_response, dump_error,
}

-- The two `catch` of `handle`.
abbrev pub caught : Thrown → RpcError
caught (rpc_error e) = e
caught (other_exception what) = internal_error what

-- `Handler` and `Notifier` are the functions that are registered for requests and for notifications.
module _ (j : Json) (Handler Notifier : Type 0) where
  open j use {Value}

  pub record RpcServer : Type 0 where
    pub request_handlers : List (Text × Handler)
    pub notification_handlers : List (Text × Notifier)

  unfoldable pub find_handler {ℓ} : {A : Type ℓ} → Text → List (Text × A) → Option A
  find_handler name [] = none
  find_handler name ((key, handler) ∷ handlers) =
      let rest = find_handler name handlers in if equal key name then some handler else rest

  -- `emplace`: the first handler of a name stays.
  abbrev pub keep_or_add {ℓ} :
      {A : Type ℓ} → Option A → Text → A → List (Text × A) → List (Text × A)
  keep_or_add (some old) name handler handlers = handlers
  keep_or_add none name handler handlers = (name, handler) ∷ handlers

  unfoldable pub register_request : Text → Handler → RpcServer → RpcServer
  register_request name handler s = record s {
    request_handlers =
        keep_or_add (find_handler name s.request_handlers) name handler s.request_handlers;
  }

  unfoldable pub register_notification : Text → Notifier → RpcServer → RpcServer
  register_notification name handler s = record s {
    notification_handlers =
        keep_or_add (find_handler name s.notification_handlers) name handler
          s.notification_handlers;
  }

  abbrev pub unknown_request : Text → RpcError
  unknown_request method =
      unknown_method_error (codes "Unknown request method: '" ++ (method ++ codes "'"))

  abbrev pub unknown_notification : Text → RpcError
  unknown_notification method =
      unknown_method_error (codes "Unknown notification method: '" ++ (method ++ codes "'"))

  -- What `handle` does with a message: it responds with one text, where a dump may throw, or it calls a
  -- handler, which gets the id and the parameters, or the parameters only.
  pub data Handled : Type 0 where
    responds_with : Attempt Text → Handled
    calls_handler : Handler → Value → Value → Handled
    calls_notifier : Notifier → Value → Handled

  unfoldable pub handle_request : Option Handler → Text → Value → Value → Handled
  handle_request none method id params =
      responds_with (dump_error j (unknown_request method) (some id))
  handle_request (some handler) method id params = calls_handler handler id params

  unfoldable pub handle_notification : Option Notifier → Text → Value → Handled
  handle_notification none method params =
      responds_with (dump_error j (unknown_notification method) none)
  handle_notification (some handler) method params = calls_notifier handler params

  unfoldable pub handle_loaded : RpcServer → Text → Option Value → Value → Handled
  handle_loaded s method (some id) params =
      handle_request (find_handler method s.request_handlers) method id params
  handle_loaded s method none params =
      handle_notification (find_handler method s.notification_handlers) method params

  unfoldable pub handle_result : RpcServer → Attempt (Request j) → Handled
  handle_result s (throws e) = responds_with (dump_error j (caught e) none)
  handle_result s (returns r) = handle_loaded s r.method r.id r.params

  pub handle : RpcServer → Text → Handled
  handle s message = handle_result s (load_request j message)

  -- What a handler calls of the two functions that it was given, at any time and from any thread.
  pub data Call : Type 0 where
    respond : Value → Call
    report_error : Text → Call

  -- `respond_wrapper` and `error_wrapper` of a request.
  unfoldable pub respond_wrapper : Value → Call → Attempt Text
  respond_wrapper id (respond result) =
      dump_response j (record { result = result; response_id = some id })
  respond_wrapper id (report_error message) = dump_error j (internal_error message) (some id)

  -- `error_wrapper` of a notification, which is given no other function.
  unfoldable pub error_wrapper : Call → Option (Attempt Text)
  error_wrapper (respond result) = none
  error_wrapper (report_error message) = some (dump_error j (internal_error message) none)

  -- A message comes; or the handler that was the `k`-th to be called makes a call; or the loop over the messages
  -- is left, on `exit` or by an exception of a handler. The texts are sent under a lock, one after the other.
  pub data Event : Type 0 where
    leaves : Event
    receives : Text → Event
    calls : ℕ → Call → Event

  -- For each handler that was called the id, if it is that of a request; the texts that were sent; and
  -- whether the loop over the messages was left.
  pub record Session : Type 0 where
    pub wrappers : List (Option Value)
    pub sent : List Text
    pub ended : Bool

  abbrev pub new_session : Session
  new_session = record { wrappers = []; sent = []; ended = false }

  unfoldable pub after_handle : Handled → Session → Session
  after_handle (responds_with (returns text)) c = record c { sent = c.sent ++ text ∷ [] }
  after_handle (responds_with (throws e)) c = record c { ended = true }
  after_handle (calls_handler handler id params) c = record c {
    wrappers = c.wrappers ++ some id ∷ [];
  }
  after_handle (calls_notifier handler params) c = record c { wrappers = c.wrappers ++ none ∷ [] }

  -- An exception of a dump goes to the handler that made the call, and nothing is sent.
  abbrev pub send : Option (Attempt Text) → Session → Session
  send none c = c
  send (some (throws e)) c = c
  send (some (returns text)) c = record c { sent = c.sent ++ text ∷ [] }

  abbrev pub wrapped : Option (Option Value) → Call → Option (Attempt Text)
  wrapped none call = none
  wrapped (some none) call = error_wrapper call
  wrapped (some (some id)) call = some (respond_wrapper id call)

  unfoldable pub step : RpcServer → Event → Session → Session
  step s leaves c = record c { ended = true }
  step s (receives message) c = if c.ended then c else after_handle (handle s message) c
  step s (calls k call) c = send (wrapped (get_elem? c.wrappers k) call) c

  unfoldable pub run : RpcServer → List Event → Session → Session
  run s [] c = c
  run s (e ∷ es) c = run s es (step s e c)
