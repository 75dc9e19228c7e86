-- ===== src/Packets/Mux.antt =====
-- ServeMux (sip/server.go): the handlers of the layers of the server, and those of the proxy
-- (proxy_core.go, proxy_smm.go).
use tjsip.Base.{ℕ, ◌||◌, Option, none, some, [], ◌∷◌, Bytes, is_some, nat_beq, if◌then◌else◌}
use tjsip.Base.Classes.{◌==◌, bytes_eq, nat_eq}
use tjsip.Base.Assoc.{Assoc, lookup, insert}
use tjsip.Base.Outcome.{Outcome, ok, panic, Error}
use tjsip.Message.{Message}
use tjsip.Proxy.{Env, Action, pure, branch, for_some, ◌>>=◌}
use tjsip.Proxy.Handle.{request_handler}
use tjsip.Proxy.Responses.{response_handler}

abbrev pub layer_socket : ℕ
layer_socket = 0

abbrev pub layer_parser_ingress : ℕ
layer_parser_ingress = 1

abbrev pub layer_parser_egress : ℕ
layer_parser_egress = 2

abbrev pub layer_transaction : ℕ
layer_transaction = 4

abbrev pub layer_core : ℕ
layer_core = 5

-- A handler is given the layer and a message, which it may change, and returns an error or nil.
abbrev pub HandlerFunc : Type 0
HandlerFunc = ℕ → Message → Action (Message × Option Error)

-- The handlers of each layer by their ids, in the order in which the map gives them.
abbrev pub ServeMux : Type 0
ServeMux = Assoc ℕ (Assoc Bytes HandlerFunc)

abbrev pub handlers_of : ServeMux → ℕ → Assoc Bytes HandlerFunc
handlers_of mux layer = elim (lookup layer mux) [ none ↦ [] | some handlers ↦ handlers ]

-- Handle, and HandleFunc; `none` is the nil handler.
unfoldable pub handle : ServeMux → ℕ → Bytes → Option HandlerFunc → Outcome ServeMux
handle mux layer id none = panic
handle mux layer id (some h) =
    if id == [] || is_some (lookup id (handlers_of mux layer))
    then panic
    else ok (insert layer (insert id h (handlers_of mux layer)) mux)

-- The loop of ServeSIP, which the first error ends.
unfoldable pub serve_each : Assoc Bytes HandlerFunc → HandlerFunc
serve_each [] layer msg = pure (msg, none)
serve_each ((id, h) ∷ hs) layer msg = do
  (changed, failure) ← h layer msg
  for_some failure (serve_each hs layer changed) (λ e. pure (changed, some e))

-- ServeSIP
unfoldable pub serve_sip : ServeMux → HandlerFunc
unfolding serve_each
serve_sip mux layer = serve_each (handlers_of mux layer) layer

-- messageManipulationHandler
abbrev pub message_manipulation_handler : HandlerFunc
message_manipulation_handler layer msg = pure (msg, none)

module _ (env : Env) where
  -- proxyCoreHandler. The message is not used behind the core.
  unfoldable pub proxy_core_handler : HandlerFunc
  proxy_core_handler layer msg =
      branch (nat_beq layer layer_core || nat_beq layer layer_transaction)
        (branch msg.request (do failure ← request_handler env msg; pure (msg, failure))
          (branch msg.response (do failure ← response_handler env msg; pure (msg, failure))
            (pure (msg, none))))
        (pure (msg, none))
