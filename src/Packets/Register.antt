-- ===== src/Packets/Register.antt =====
-- The handlers that main registers (proxy_server.go).
use tjsip.Base.{some, Bytes, codes, [], ◌∷◌, ◌≡◌, refl}
use tjsip.Base.Classes.{bytes_beq, bytes_eq, nat_eq}
use tjsip.Base.Assoc.{lookup, insert}
use tjsip.Base.Outcome.{Outcome, ok, ◌>>=◌}
use tjsip.Proxy.{Env}
use tjsip.Packets.Mux.{
  ServeMux, handle, layer_parser_ingress, layer_parser_egress, layer_transaction, layer_core,
  message_manipulation_handler, proxy_core_handler,
}

abbrev manipulation_id : Bytes
manipulation_id = codes "module sip message manipulation"

-- In the order of main
unfoldable pub register_handlers : Env → ServeMux → Outcome ServeMux
register_handlers env mux = do
  a ← handle mux layer_parser_ingress manipulation_id (some message_manipulation_handler)
  b ← handle a layer_parser_egress manipulation_id (some message_manipulation_handler)
  c ← handle b layer_core (codes "module sip core(proxy)") (some (proxy_core_handler env))
  handle c layer_transaction (codes "module sip core-transaction(proxy)")
      (some (proxy_core_handler env))

-- The multiplexer that this makes
unfoldable pub proxy_mux : Env → ServeMux
proxy_mux env =
    (layer_transaction, (codes "module sip core-transaction(proxy)", proxy_core_handler env) ∷ [])
    ∷ (layer_core, (codes "module sip core(proxy)", proxy_core_handler env) ∷ [])
    ∷ (layer_parser_egress, (manipulation_id, message_manipulation_handler) ∷ [])
    ∷ (layer_parser_ingress, (manipulation_id, message_manipulation_handler) ∷ [])
    ∷ []

-- main starts from no handlers.
pub register_handlers_lem : (env : Env) → register_handlers env [] ≡ ok (proxy_mux env)
unfolding register_handlers proxy_mux handle insert lookup bytes_beq
register_handlers_lem env = refl
