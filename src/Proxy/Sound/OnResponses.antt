-- ===== src/Proxy/Sound/OnResponses.antt =====
-- The handlers of responses and the end of Timer C keep the state sound
-- (proxy_response_controller.go, proxy_core.go).
use tjsip.Base.{Option, none, some, Bytes, Bool-cases, inl, inr}
use tjsip.Message.{Message, Uri}
use tjsip.Message.Via.{ViaHeaders}
use tjsip.Contexts.TimerC.{Chan}
use tjsip.Transaction.Key.{ClientTransactionKey, ServerTransactionKey}
use tjsip.Calls.{CallRef}
use tjsip.Proxy.{Proxy, Env, Txn, mem, send_on, emit}
use tjsip.Proxy.Redirection.{redirect_to, forward_redirection}
use tjsip.Proxy.Responses.{
  forward_below, forwarding_response, bye_response_handler, ends_call, reset, stop, on_final,
  on_class, invite_response_handler, respond, respond_by, response_handler,
}
use tjsip.Proxy.Expiry.{fire_timer_c, timer_c_fires}
use tjsip.Proxy.Sound.{Invariant, Ends, sound, IsSound, Leaves, Keeps, keeping, pure-Keeps}
use tjsip.Proxy.Sound.Handlers.{
  keeping_calls, make_error_response-Keeps, response_context_closer-Keeps, start_invite-Keeps,
}
use tjsip.Proxy.Sound.OnRequests.{lookup_server_transaction-Keeps}

sends : (V : Invariant) (c : Chan) (p : Proxy) → V.holds p → Ends V (send_on c p)
unfolding send_on emit
sends V c p h = elim (Bool-cases (mem c p.closed_chans)) [
  | inl e ↦ rw (e, send_on) tt
  | inr e ↦ rw (e, send_on) (V.rest p _ _ _ _ _ _ h)
]

module _ {V : Invariant} where
  send_on-Keeps : (c : Chan) → Keeps V (send_on c)
  send_on-Keeps c = record { keeps = sends V c }

  module _ (env : Env) where
    ruleset keeping_ends = (
      keeping_calls, make_error_response-Keeps, response_context_closer-Keeps, start_invite-Keeps,
      lookup_server_transaction-Keeps, send_on-Keeps,
    )

    redirect_to-Keeps :
        (msg : Message) (st : Txn ServerTransactionKey) (r : CallRef) (u : Uri)
        → Keeps V (redirect_to env msg st r u)
    unfolding redirect_to
    redirect_to-Keeps msg st r u = search keeping_ends depth 20

    forward_redirection-Keeps :
        (msg : Message) (r : CallRef) (st : Txn ServerTransactionKey)
        → Keeps V (forward_redirection env msg r st)
    unfolding forward_redirection
    forward_redirection-Keeps msg r st = search (keeping_ends, redirect_to-Keeps) depth 20

    forward_below-Keeps :
        (msg : Message) (v : ViaHeaders) (t : Option (Txn ServerTransactionKey))
        → Keeps V (forward_below env msg v t)
    unfolding forward_below
    forward_below-Keeps msg v t = search keeping_ends depth 12

    forwarding_response-Keeps :
        (msg : Message) (t : Option (Txn ServerTransactionKey))
        → Keeps V (forwarding_response env msg t)
    unfolding forwarding_response
    forwarding_response-Keeps msg t = search (keeping_ends, forward_below-Keeps)

    ends_call-Keeps : (msg : Message) (r : CallRef) → Keeps V (ends_call env msg r)
    unfolding ends_call
    ends_call-Keeps msg r = search keeping_ends

    bye_response_handler-Keeps :
        (msg : Message) (st : Txn ServerTransactionKey) (ct : ClientTransactionKey) (r : CallRef)
        → Keeps V (bye_response_handler env msg st ct r)
    unfolding bye_response_handler
    bye_response_handler-Keeps msg st ct r =
        search (keeping_ends, ends_call-Keeps, forwarding_response-Keeps) depth 12

    reset-Keeps : (c : Option Chan) → Keeps V (reset env c)
    unfolding reset
    reset-Keeps none = pure-Keeps
    reset-Keeps (some c) = send_on-Keeps c

    stop-Keeps : (c d : Option Chan) → Keeps V (stop env c d)
    unfolding stop
    stop-Keeps c none = pure-Keeps
    stop-Keeps none (some d) = search keeping
    stop-Keeps (some c) (some d) = search keeping

    on_final-Keeps :
        (msg : Message) (st : Txn ServerTransactionKey) (r : CallRef)
        → Keeps V (on_final env msg st r)
    unfolding on_final
    on_final-Keeps msg st r =
        search (keeping_ends, forwarding_response-Keeps, forward_redirection-Keeps) depth 12

    on_class-Keeps :
        (msg : Message) (st : Txn ServerTransactionKey) (ct : ClientTransactionKey) (r : CallRef)
        (c d : Option Chan)
        → Keeps V (on_class env msg st ct r c d)
    unfolding on_class
    on_class-Keeps msg st ct r c d =
        search (keeping_ends, reset-Keeps, stop-Keeps, on_final-Keeps, forwarding_response-Keeps)
          depth 12

    invite_response_handler-Keeps :
        (msg : Message) (st : Txn ServerTransactionKey) (ct : ClientTransactionKey) (r : CallRef)
        → Keeps V (invite_response_handler env msg st ct r)
    unfolding invite_response_handler
    invite_response_handler-Keeps msg st ct r = search (keeping_ends, on_class-Keeps)

    respond-Keeps :
        (msg : Message) (st : Txn ServerTransactionKey) (ct : ClientTransactionKey)
        (r : Option CallRef) (method : Bytes)
        → Keeps V (respond env msg st ct r method)
    unfolding respond
    respond-Keeps msg st ct none method = pure-Keeps
    respond-Keeps msg st ct (some r) method =
        search
          (
            keeping_ends, invite_response_handler-Keeps, bye_response_handler-Keeps,
            forwarding_response-Keeps,
          )
          depth 12

    respond_by-Keeps :
        (msg : Message) (ct : ClientTransactionKey) (r : Option CallRef) (method : Bytes)
        → Keeps V (respond_by env msg ct r method)
    unfolding respond_by
    respond_by-Keeps msg ct r method = search (keeping_ends, respond-Keeps) depth 12

    pub response_handler-Keeps : (msg : Message) → Keeps V (response_handler env msg)
    unfolding response_handler
    response_handler-Keeps msg = search (keeping_ends, respond_by-Keeps) depth 15

    fire_timer_c-Keeps :
        (st : Txn ServerTransactionKey) (ct : Txn ClientTransactionKey)
        → Keeps V (fire_timer_c env st ct)
    unfolding fire_timer_c
    fire_timer_c-Keeps st ct = search keeping_ends depth 20

    timer_c_fires-Keeps :
        (st : Txn ServerTransactionKey) (ct : Txn ClientTransactionKey)
        → Keeps V (timer_c_fires env st ct)
    unfolding timer_c_fires
    timer_c_fires-Keeps st ct = search (keeping_ends, fire_timer_c-Keeps)

module _ (env : Env) where
  -- Whatever a response is, the handler of responses leaves the state sound, where it returns: every
  -- bound client transaction stands among the children of its server transaction, no server
  -- transaction has an empty map of children, and the channels of Timer C come in pairs.
  pub response_handler-IsSound :
      (msg : Message) (p : Proxy) → IsSound p → Leaves (response_handler env msg p)
  unfolding sound
  response_handler-IsSound msg p h = (response_handler-Keeps {V = sound} env msg).keeps p h

  -- The firing of Timer C leaves the state sound, where it returns, whichever transactions it is for.
  pub timer_c_fires-IsSound :
      (st : Txn ServerTransactionKey) (ct : Txn ClientTransactionKey) (p : Proxy)
      → IsSound p
      → Leaves (timer_c_fires env st ct p)
  unfolding sound
  timer_c_fires-IsSound st ct p h = (timer_c_fires-Keeps {V = sound} env st ct).keeps p h
