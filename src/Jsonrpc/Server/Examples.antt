-- ===== src/Jsonrpc/Server/Examples.antt =====
-- A server with one handler for the request of the examples of the protocol. It is called twice, and the second
-- call is answered first.
use snail_server.Common.{ℕ, ◌≡◌, refl, List, [], ◌∷◌, length}
use snail_server.Text.Codes.{codes, equal}
use snail_server.Jsonrpc.Protocol.{
  load_request, error_code, error_message, dump_response, dump_error,
}
use snail_server.Jsonrpc.Protocol.Examples.{
  trees, number, member_of, members, word_of, is_members, is_numeral, is_word, is_nothing,
}
use snail_server.Jsonrpc.Server.{
  RpcServer, Event, receives, calls, respond, report_error, find_handler, handle_request,
  handle_loaded, handle_result, handle, respond_wrapper, after_handle, step, run, new_session,
}

abbrev one_handler : RpcServer trees ℕ ℕ
one_handler = record { request_handlers = (codes "run", 7) ∷ []; notification_handlers = [] }

abbrev history : List (Event trees ℕ ℕ)
history =
    receives (codes "{}")
    ∷ receives (codes "{}")
    ∷ calls 1 (respond (number 1))
    ∷ calls 0 (report_error (codes "late"))
    ∷ []

two_sent : length (run trees ℕ ℕ one_handler history (new_session trees ℕ ℕ)).sent ≡ 2
unfolding run step handle handle_result handle_loaded handle_request find_handler after_handle
    respond_wrapper load_request dump_response dump_error error_code error_message equal member_of
    members word_of is_members is_numeral is_word is_nothing
two_sent = refl
