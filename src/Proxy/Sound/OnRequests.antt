-- ===== src/Proxy/Sound/OnRequests.antt =====
-- The handlers of requests keep the state sound (proxy_request_controller.go).
use tjsip.Base.{ℕ, Option, none, some, List, [], ◌∷◌, Bytes}
use tjsip.Base.Outcome.{Error, transaction_timed_out}
use tjsip.Message.{Message}
use tjsip.Transaction.Key.{ClientTransactionKey, ServerTransactionKey}
use tjsip.Proxy.{Proxy, Env, Action, Txn}
use tjsip.Proxy.Server.{lookup_client_transaction, lookup_server_transaction}
use tjsip.Proxy.Requests.{
  open_call, forward_along, invite_forward, invite_handler, ack_handler, non_invite_handler,
  lookup_trunk_type,
}
use tjsip.Proxy.Dispatch.{
  register_handler, cancel_one, cancel_each, cancel_all, cancel_handler, client_transaction_error,
  cancel_error,
}
use tjsip.Proxy.Handle.{admit, on_txn, dispatch, request_handler}
use tjsip.Proxy.Sound.{
  Invariant, sound, IsSound, Leaves, Keeps, keeping, gets-Keeps, crash-Keeps, pure-Keeps,
  bind_Keeps, branch-Keeps,
}
use tjsip.Proxy.Sound.Parts.{keeping_parts, register-Keeps}
use tjsip.Proxy.Sound.Handlers.{
  keeping_calls, make_error_response-Keeps, response_context_closer-Keeps, start_client-Keeps,
  start_invite-Keeps,
}

module _ {V : Invariant} where
  lookup_client_transaction-Keeps :
      (k : ClientTransactionKey) → Keeps V (lookup_client_transaction k)
  unfolding lookup_client_transaction
  lookup_client_transaction-Keeps k = gets-Keeps

  pub lookup_server_transaction-Keeps :
      (k : ServerTransactionKey) → Keeps V (lookup_server_transaction k)
  unfolding lookup_server_transaction
  lookup_server_transaction-Keeps k = gets-Keeps

  lookup_trunk_type-Keeps : (a : Bytes) → Keeps V (lookup_trunk_type a)
  unfolding lookup_trunk_type
  lookup_trunk_type-Keeps a = search keeping

  module _ (env : Env) where
    open_call-Keeps : (msg : Message) → Keeps V (open_call env msg)
    unfolding open_call
    open_call-Keeps msg = search keeping_parts depth 12

    forward_along-Keeps : (vs : List Bytes) (msg : Message) → Keeps V (forward_along env vs msg)
    unfolding forward_along
    forward_along-Keeps [] msg = search keeping depth 12
    forward_along-Keeps (v ∷ vs) msg = search keeping

    invite_forward-Keeps : (msg : Message) → Keeps V (invite_forward env msg)
    unfolding invite_forward
    invite_forward-Keeps msg = forward_along-Keeps _ msg

    ruleset keeping_requests = (
      keeping_calls, make_error_response-Keeps, response_context_closer-Keeps, start_client-Keeps,
      start_invite-Keeps, open_call-Keeps, invite_forward-Keeps, lookup_client_transaction-Keeps,
      lookup_server_transaction-Keeps, lookup_trunk_type-Keeps,
    )

    invite_handler-Keeps :
        (msg : Message) (st : Txn ServerTransactionKey) → Keeps V (invite_handler env msg st)
    unfolding invite_handler
    invite_handler-Keeps msg st = search keeping_requests depth 15

    ack_handler-Keeps : (msg : Message) → Keeps V (ack_handler env msg)
    unfolding ack_handler
    ack_handler-Keeps msg = search keeping_requests depth 15

    non_invite_handler-Keeps :
        (msg : Message) (st : Txn ServerTransactionKey) → Keeps V (non_invite_handler env msg st)
    unfolding non_invite_handler
    non_invite_handler-Keeps msg st = search keeping_requests depth 15

    register_handler-Keeps :
        (msg : Message) (st : Txn ServerTransactionKey) → Keeps V (register_handler env msg st)
    unfolding register_handler
    register_handler-Keeps msg st = search keeping_requests depth 15

    cancel_one-Keeps :
        (st : ServerTransactionKey) (last ct : ClientTransactionKey)
        → Keeps V (cancel_one env st last ct)
    unfolding cancel_one
    cancel_one-Keeps st last ct = search keeping_requests depth 20

    cancel_each-Keeps :
        (st : ServerTransactionKey) (last : ClientTransactionKey) (ks : List ClientTransactionKey)
        → Keeps V (cancel_each env st last ks)
    unfolding cancel_each
    cancel_each-Keeps st last [] = pure-Keeps
    cancel_each-Keeps st last (k ∷ ks) =
        bind_Keeps (cancel_one-Keeps st last k)
          λ goes_on. branch-Keeps goes_on (cancel_each-Keeps st last ks) pure-Keeps

    cancel_all-Keeps :
        (st : ServerTransactionKey) (ks : List ClientTransactionKey)
        → Keeps V (cancel_all env st ks)
    unfolding cancel_all
    cancel_all-Keeps st [] = pure-Keeps
    cancel_all-Keeps st (k ∷ ks) = cancel_each-Keeps st _ (k ∷ ks)

    cancel_handler-Keeps :
        (msg : Message) (st : Txn ServerTransactionKey) → Keeps V (cancel_handler env msg st)
    unfolding cancel_handler
    cancel_handler-Keeps msg st = search (keeping_requests, cancel_all-Keeps) depth 15

    client_transaction_error-Keeps :
        (ct : Txn ClientTransactionKey) → Keeps V (client_transaction_error env ct)
    unfolding client_transaction_error
    client_transaction_error-Keeps ct = search keeping_requests depth 20

    cancel_error-Keeps :
        (st : Txn ServerTransactionKey) (ct : ClientTransactionKey) (e : Option Error)
        → Keeps V (cancel_error env st ct e)
    unfolding cancel_error
    cancel_error-Keeps st ct none = pure-Keeps
    cancel_error-Keeps st ct (some transaction_timed_out) =
        response_context_closer-Keeps env st ct _
    cancel_error-Keeps st ct (some e) = search keeping_requests

    on_txn-Keeps :
        (t : Option (Txn ServerTransactionKey)) (f : Txn ServerTransactionKey → Action (Option ℕ))
        → ((st : Txn ServerTransactionKey) → Keeps V (f st))
        → Keeps V (on_txn env t f)
    unfolding on_txn
    on_txn-Keeps none f k = crash-Keeps
    on_txn-Keeps (some st) f k = k st

    pub dispatch-Keeps :
        (msg : Message) (t : Option (Txn ServerTransactionKey)) → Keeps V (dispatch env msg t)
    unfolding dispatch
    dispatch-Keeps msg t =
        search
          (
            keeping, on_txn-Keeps, invite_handler-Keeps, ack_handler-Keeps,
            non_invite_handler-Keeps, register_handler-Keeps, cancel_handler-Keeps,
          )
          depth 12

admit-Keeps : (k : ServerTransactionKey) (msg : Message) → Keeps sound (admit k msg)
unfolding admit
admit-Keeps k msg = search (keeping_requests, register-Keeps) depth 12

module _ (env : Env) where
  pub request_handler-Keeps : (msg : Message) → Keeps sound (request_handler env msg)
  unfolding request_handler
  request_handler-Keeps msg = search (keeping_requests, admit-Keeps, dispatch-Keeps) depth 15

  -- Whatever a request is, the handler of requests leaves the state sound, where it returns: every
  -- bound client transaction stands among the children of its server transaction, no server
  -- transaction has an empty map of children, and the channels of Timer C come in pairs.
  pub request_handler-IsSound :
      (msg : Message) (p : Proxy) → IsSound p → Leaves (request_handler env msg p)
  unfolding sound
  request_handler-IsSound msg p h = (request_handler-Keeps msg).keeps p h

  -- The failure of a client transaction leaves the state sound, where its error handler returns.
  pub client_transaction_error-IsSound :
      (ct : Txn ClientTransactionKey) (p : Proxy)
      → IsSound p
      → Leaves (client_transaction_error env ct p)
  unfolding sound
  client_transaction_error-IsSound ct p h =
      (client_transaction_error-Keeps {V = sound} env ct).keeps p h

  -- So does the failure of a CANCEL.
  pub cancel_error-IsSound :
      (st : Txn ServerTransactionKey) (key : ClientTransactionKey) (e : Option Error) (p : Proxy)
      → IsSound p
      → Leaves (cancel_error env st key e p)
  unfolding sound
  cancel_error-IsSound st key e p h = (cancel_error-Keeps {V = sound} env st key e).keeps p h
