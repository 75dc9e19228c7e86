-- ===== src/Packets.antt =====
-- packetProcessing (sip/server.go): what the server does with a packet. It reads the message, passes it
-- through the layers, and hands it to the transaction of its key, or to the core where there is none.
pub mod Mux
pub mod Register
pub mod Sound
pub mod Reach
pub mod Retransmission
use tjsip.Base.{ℕ, Bool, true, false, Option, none, some, Bytes, if◌then◌else◌}
use tjsip.Base.Outcome.{Outcome, ok, err, panic, Error}
use tjsip.Message.{Message, create_message}
use tjsip.Message.Read.{Reader, read_message}
use tjsip.Transaction.Key.{
  ClientTransactionKey, ServerTransactionKey, generate_client_transaction_key,
  generate_server_transaction_key,
}
use tjsip.Proxy.{
  Env, Action, Txn, handles_request, receives, pure, lift, emit, branch, for_some, for_ok, ◌>>=◌,
  ◌>>◌,
}
use tjsip.Proxy.Server.{lookup_server_transaction, lookup_client_transaction}
use tjsip.Packets.Mux.{
  ServeMux, HandlerFunc, serve_sip, layer_socket, layer_parser_ingress, layer_transaction,
  layer_core,
}

-- Server.handle, where the server has no handler of its own.
abbrev pub serve : ServeMux → ℕ → Message → Action (Message × Option Error)
serve mux = serve_sip mux

module _ (env : Env) (mux : ServeMux) where
  -- handleToCore and HandleInTransaction; their errors are logged.
  unfoldable pub to_core : ℕ → Message → Action (Unit {0})
  to_core layer msg = serve mux layer msg >> pure tt

  -- ClientTransaction.Handle: a response is handed to the controller and to the core, unless the
  -- controller has closed its channel of responses.
  unfoldable pub handle_response : Bool → Txn ClientTransactionKey → Message → Action (Unit {0})
  unfolding emit to_core
  handle_response takes t msg =
      branch takes (emit (receives t.key msg) >> to_core layer_transaction msg) (pure tt)

  -- A request, whose transaction handles it by ServerTransaction.Handle.
  unfoldable pub request_arrives : Message → Action (Unit {0})
  unfolding emit to_core
  request_arrives msg =
      for_ok (generate_server_transaction_key env.urls.parse_query msg) (λ e. pure tt)
        (λ key. do
          found ← lookup_server_transaction key
          for_some found (to_core layer_core msg) (λ t. emit (handles_request t.key msg)))

  unfoldable pub response_arrives : Bool → Message → Action (Unit {0})
  unfolding handle_response to_core
  response_arrives takes msg =
      for_ok (generate_client_transaction_key env.urls.parse_query msg) (λ e. pure tt)
        (λ key. do
          found ← lookup_client_transaction key
          for_some found (to_core layer_core msg) (λ t. handle_response takes t msg))

  -- The message behind the layer of ingress
  unfoldable pub arrives : Bool → Message → Action (Unit {0})
  unfolding request_arrives response_arrives to_core
  arrives takes msg =
      branch msg.request (request_arrives msg)
        (branch msg.response (response_arrives takes msg) (to_core layer_core msg))

  unfoldable pub through_ingress : Bool → Message → Action (Unit {0})
  unfolding arrives
  through_ingress takes msg = do
    (changed, dropped) ← serve mux layer_parser_ingress msg
    for_some dropped (arrives takes changed) (λ e. pure tt)

  -- packetProcessing of the bytes that came from `addr`. `takes` says whether the transaction of a
  -- response still takes it.
  unfoldable pub packet_processing : Reader → Bool → Bytes → Bytes → Action (Unit {0})
  unfolding through_ingress
  packet_processing reader takes addr bytes = do
    (msg, dropped) ← serve mux layer_socket (create_message addr)
    for_some dropped
        (do
          read ← lift (read_message env.urls reader msg bytes)
          for_some read (pure tt) (through_ingress takes))
        (λ e. pure tt)
