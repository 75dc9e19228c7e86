-- ===== src/Proxy/Responses/Laws.antt =====
-- What the handlers of responses send (proxy_response_controller.go).
use mathlib.Core.List.{reverse, reverse-reverse}
use tjsip.Base.{
  codes, if◌then◌else◌, none, refl, ◌≡◌, sym, ap, ◌∙◌, Option, some, List, [], ◌∷◌, arith, Bytes,
  get_elem?,
}
use tjsip.Base.Outcome.{ok, Error}
use tjsip.Message.{Message}
use tjsip.Message.Via.{Via, ViaHeaders, pop, top_most}
use tjsip.Message.Via.Stack.{stack, ViaHeaders-stack, uncons}
use tjsip.Message.Generate.{clone}
use tjsip.Transaction.Key.{ClientTransactionKey, ServerTransactionKey}
use tjsip.Proxy.Server.{lookup_server_transaction, write_to_server}
use tjsip.Calls.{CallRef}
use tjsip.Base.Classes.{◌==◌, bytes_eq, bytes_beq}
use tjsip.Base.Assoc.{lookup}
use tjsip.Proxy.Errors.{get_param, call_id_text, get_call}
use tjsip.Proxy.{Proxy, Env, Txn, to_server_transaction, emit}
use tjsip.Proxy.Responses.{
  response_handler, respond_by, respond, invite_response_handler, bye_response_handler, on_class,
  forwarding_response, forward_below, reply_address,
}

module _ (env : Env) (msg : Message) (trying : msg.status_code ≡ 100) (p : Proxy) where
  respond_by-trying :
      (ct : ClientTransactionKey) (call : Option CallRef) (method : Bytes)
      → respond_by env msg ct call method p ≡ ok (tt, p)
  unfolding respond_by lookup_server_transaction respond invite_response_handler
      bye_response_handler on_class
  respond_by-trying ct call method = ground arith

  -- A response with status 100 is not forwarded: where the handler returns, nothing is changed and
  -- nothing is sent, whatever its method.
  pub response_handler-trying :
      (q : Proxy) (e : Option Error) → response_handler env msg p ≡ ok (e, q) → q ≡ p
  unfolding response_handler call_id_text get_call
  response_handler-trying q e h = grind (arith, respond_by-trying)

of_stack : (v : ViaHeaders) → v ≡ record { header = reverse (stack v) }
of_stack v = ap (λ (h : List Via). record { header = h }) (sym (reverse-reverse v.header))

below_top :
    (vias : ViaHeaders) (own : Via) (s : List Via)
    → stack vias ≡ own ∷ s
    → (pop vias).0 ≡ record { header = reverse s }
below_top vias own s e =
    of_stack (pop vias).0
    ∙ ap (λ (l : List Via). record { header = reverse l })
        ((ViaHeaders-stack vias own 0).3 ∙ ap (λ (l : List Via). (uncons l).0) e)

top_below : (v : Via) (s : List Via) → top_most (record { header = reverse (v ∷ s) }) ≡ some v
unfolding top_most
top_below v s =
    (ViaHeaders-stack (record { header = reverse (v ∷ s) }) v 0).2
    ∙ ap (λ (l : List Via). get_elem? l 0) (reverse-reverse (v ∷ s))

-- What a Via names as the address, of the values of its parameter `received` and its sent-by: the first
-- value, unless it is empty.
abbrev pub named : Option (List Bytes) → Bytes → Bytes
named (some ((c ∷ received) ∷ _)) sent_by = c ∷ received
named _ sent_by = sent_by

-- The state after the response `msg` was sent on below the Via of this proxy, where `rest` stands
-- below it.
abbrev pub forwarded : Env → Message → Txn ServerTransactionKey → List Via → Proxy → Proxy
forwarded env msg st [] p = p
forwarded env msg st (next ∷ rest) p =
    let sent : Message = record (clone msg) {
      via = some (record { header = reverse (next ∷ rest) });
      remote_addr =
          named (lookup (codes "received") (env.urls.parse_query next.raw_parameter)) next.sent_by;
    } in
    record p { effects = to_server_transaction st.key sent ∷ p.effects }

reply_address-named :
    (env : Env) (via : Via)
    → reply_address env via
      ≡ named (lookup (codes "received") (env.urls.parse_query via.raw_parameter)) via.sent_by
unfolding reply_address get_param bytes_beq
reply_address-named env via =
    by_value (lookup (codes "received") (env.urls.parse_query via.raw_parameter))
  where
    by_value :
        (o : Option (List Bytes))
        → (let received : Bytes = elim o [ none ↦ [] | some [] ↦ [] | some (v ∷ _) ↦ v ] in
            if received == [] then via.sent_by else received)
          ≡ named o via.sent_by
    by_value none = refl
    by_value (some []) = refl
    by_value (some ([] ∷ vs)) = refl
    by_value (some ((c ∷ v) ∷ vs)) = refl

module _ (env : Env) (msg : Message) (vias : ViaHeaders) (own : Via) (p : Proxy) where
  -- A response whose topmost Via is that of this proxy goes, without it, as a message to the server
  -- transaction, and nothing else is changed; its address is the first value of the parameter `received`
  -- of the next Via, or its sent-by where that value is missing or empty. Where there is no other Via it
  -- goes nowhere and nothing is changed.
  pub forwarding_response_lem :
      (st : Txn ServerTransactionKey) (rest : List Via)
      → msg.via ≡ some vias
      → stack vias ≡ own ∷ rest
      → forwarding_response env msg (some st) p ≡ ok (tt, forwarded env msg st rest p)
  unfolding forwarding_response forward_below write_to_server emit
  forwarding_response_lem st rest v e =
      ground (arith, v) ∙ below st rest (below_top vias own rest e)
    where
      below :
          (st : Txn ServerTransactionKey) (rest : List Via)
          → (pop vias).0 ≡ record { header = reverse rest }
          → forward_below env msg (pop vias).0 (some st) p ≡ ok (tt, forwarded env msg st rest p)
      below st [] f = rw f (ground (arith))
      below st (next ∷ rest) f =
          ap (λ (w : ViaHeaders). forward_below env msg w (some st) p) f
          ∙ ground (arith, top_below next rest, reply_address-named env next)
