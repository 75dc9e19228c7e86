-- ===== src/Packets/Sound.antt =====
-- Whatever arrives, the server leaves the state of the proxy sound (sip/server.go).
use mathlib.Core.Path.{subst}
use tjsip.Base.{nat_beq, ℕ, Bool, true, false, [], ◌∷◌, Bytes, ◌≡◌, sym, arith, if◌then◌else◌}
use tjsip.Base.Classes.{bytes_eq, nat_eq}
use tjsip.Base.Assoc.{Assoc, lookup}
use tjsip.Message.{Message}
use tjsip.Message.Read.{Reader}
use tjsip.Transaction.Key.{ClientTransactionKey}
use tjsip.Proxy.{Proxy, Env, Txn}
use tjsip.Proxy.Server.{lookup_client_transaction}
use tjsip.Proxy.Sound.{
  Keeps, sound, keeping, IsSound, Leaves, pure-Keeps, gets-Keeps, bind_Keeps, for_some-Keeps,
}
use tjsip.Proxy.Sound.OnRequests.{request_handler-Keeps, lookup_server_transaction-Keeps}
use tjsip.Proxy.Sound.OnResponses.{response_handler-Keeps}
use tjsip.Packets.{
  to_core, handle_response, request_arrives, response_arrives, arrives, through_ingress,
  packet_processing,
}
use tjsip.Packets.Mux.{
  HandlerFunc, ServeMux, serve_each, serve_sip, handlers_of, proxy_core_handler,
}
use tjsip.Packets.Register.{proxy_mux}

abbrev HandlersKeep : Assoc Bytes HandlerFunc → Type 0
HandlersKeep [] = Unit
HandlersKeep ((id, h) ∷ hs) =
    ((layer : ℕ) (msg : Message) → Keeps sound (h layer msg)) × HandlersKeep hs

serve_each-Keeps :
    (hs : Assoc Bytes HandlerFunc) (layer : ℕ) (msg : Message)
    → HandlersKeep hs
    → Keeps sound (serve_each hs layer msg)
unfolding serve_each
serve_each-Keeps [] layer msg k = pure-Keeps
serve_each-Keeps ((id, h) ∷ hs) layer msg k =
    bind_Keeps (k.0 layer msg)
      λ r. for_some-Keeps r.1 (serve_each-Keeps hs layer r.0 k.1) (λ e. pure-Keeps)

abbrev MuxKeeps : ServeMux → Type 0
MuxKeeps [] = Unit
MuxKeeps ((l, hs) ∷ mux) = HandlersKeep hs × MuxKeeps mux

handlers_of-cons :
    (l : ℕ) (hs : Assoc Bytes HandlerFunc) (mux : ServeMux) (layer : ℕ)
    → handlers_of ((l, hs) ∷ mux) layer ≡ (if nat_beq l layer then hs else handlers_of mux layer)
unfolding lookup
handlers_of-cons l hs mux layer = ground arith

one_of_Keeps :
    (b : Bool) (hs hs' : Assoc Bytes HandlerFunc)
    → HandlersKeep hs
    → HandlersKeep hs'
    → HandlersKeep (if b then hs else hs')
one_of_Keeps true hs hs' k k' = k
one_of_Keeps false hs hs' k k' = k'

handlers_of-Keeps :
    (mux : ServeMux) (layer : ℕ) → MuxKeeps mux → HandlersKeep (handlers_of mux layer)
unfolding lookup
handlers_of-Keeps [] layer k = tt
handlers_of-Keeps ((l, hs) ∷ mux) layer k =
    subst HandlersKeep (sym (handlers_of-cons l hs mux layer)) (
      one_of_Keeps (nat_beq l layer) hs (handlers_of mux layer) k.0
        (handlers_of-Keeps mux layer k.1))

lookup_client-Keeps : (k : ClientTransactionKey) → Keeps sound (lookup_client_transaction k)
unfolding lookup_client_transaction
lookup_client-Keeps k = gets-Keeps

module _ (env : Env) where
  proxy_core_handler-Keeps :
      (layer : ℕ) (msg : Message) → Keeps sound (proxy_core_handler env layer msg)
  unfolding proxy_core_handler
  proxy_core_handler-Keeps layer msg =
      search (keeping, request_handler-Keeps, response_handler-Keeps) depth 12

  proxy_mux-Keeps : MuxKeeps (proxy_mux env)
  unfolding proxy_mux
  proxy_mux-Keeps = (
    (proxy_core_handler-Keeps, tt),
    ((proxy_core_handler-Keeps, tt), (((λ l m. pure-Keeps), tt), (((λ l m. pure-Keeps), tt), tt))),
  )

  serve_sip-Keeps : (layer : ℕ) (msg : Message) → Keeps sound (serve_sip (proxy_mux env) layer msg)
  unfolding serve_sip
  serve_sip-Keeps layer msg =
      serve_each-Keeps _ layer msg (handlers_of-Keeps (proxy_mux env) layer proxy_mux-Keeps)

  ruleset keeping_packets =
      (keeping, serve_sip-Keeps, lookup_client-Keeps, lookup_server_transaction-Keeps)

  to_core-Keeps : (layer : ℕ) (msg : Message) → Keeps sound (to_core env (proxy_mux env) layer msg)
  unfolding to_core
  to_core-Keeps layer msg = search keeping_packets

  handle_response-Keeps :
      (takes : Bool) (t : Txn ClientTransactionKey) (msg : Message)
      → Keeps sound (handle_response env (proxy_mux env) takes t msg)
  unfolding handle_response
  handle_response-Keeps takes t msg = search (keeping_packets, to_core-Keeps)

  request_arrives-Keeps : (msg : Message) → Keeps sound (request_arrives env (proxy_mux env) msg)
  unfolding request_arrives
  request_arrives-Keeps msg = search (keeping_packets, to_core-Keeps) depth 12

  response_arrives-Keeps :
      (takes : Bool) (msg : Message) → Keeps sound (response_arrives env (proxy_mux env) takes msg)
  unfolding response_arrives
  response_arrives-Keeps takes msg =
      search (keeping_packets, to_core-Keeps, handle_response-Keeps) depth 12

  arrives-Keeps :
      (takes : Bool) (msg : Message) → Keeps sound (arrives env (proxy_mux env) takes msg)
  unfolding arrives
  arrives-Keeps takes msg =
      search (keeping_packets, to_core-Keeps, request_arrives-Keeps, response_arrives-Keeps)

  through_ingress-Keeps :
      (takes : Bool) (msg : Message) → Keeps sound (through_ingress env (proxy_mux env) takes msg)
  unfolding through_ingress
  through_ingress-Keeps takes msg = search (keeping_packets, arrives-Keeps) depth 12

  packet_processing-Keeps :
      (reader : Reader) (takes : Bool) (addr bytes : Bytes)
      → Keeps sound (packet_processing env (proxy_mux env) reader takes addr bytes)
  unfolding packet_processing
  packet_processing-Keeps reader takes addr bytes =
      search (keeping_packets, through_ingress-Keeps) depth 15

  -- Whatever bytes arrive at the proxy, with the handlers that main registers, the processing of the
  -- packet leaves the state sound, where it returns.
  pub packet_processing-IsSound :
      (reader : Reader) (takes : Bool) (addr bytes : Bytes) (p : Proxy)
      → IsSound p
      → Leaves (packet_processing env (proxy_mux env) reader takes addr bytes p)
  unfolding sound
  packet_processing-IsSound reader takes addr bytes p h =
      (packet_processing-Keeps reader takes addr bytes).keeps p h
