-- ===== src/Proxy/Sound/Handlers.antt =====
-- The handlers of the proxy core keep the state sound (proxy_request_controller.go,
-- proxy_response_controller.go, proxy_core.go).
use tjsip.Base.{ℕ, Bool, Option}
use tjsip.Message.{Message}
use tjsip.Transaction.Key.{ClientTransactionKey, ServerTransactionKey}
use tjsip.Calls.{CallRef}
use tjsip.Proxy.{Env, Txn}
use tjsip.Proxy.Errors
use tjsip.Proxy.Requests
use tjsip.Proxy.Sound.{Invariant, Keeps}
use tjsip.Proxy.Sound.Parts.{keeping_parts}

module _ {V : Invariant} where
  module _ (env : Env) where
    pub callee-Keeps : (r : CallRef) (msg : Message) → Keeps V (Errors.callee env r msg)
    unfolding Errors.callee
    callee-Keeps r msg = search keeping_parts

    pub established-Keeps : (r : CallRef) (msg : Message) → Keeps V (Errors.established env r msg)
    unfolding Errors.established
    established-Keeps r msg = search keeping_parts

    pub terminated-Keeps :
        (r : CallRef) (msg : Message) (l : ℕ) → Keeps V (Errors.terminated env r msg l)
    unfolding Errors.terminated
    terminated-Keeps r msg l = search keeping_parts

    pub close-Keeps : (r : CallRef) → Keeps V (Errors.close env r)
    unfolding Errors.close
    close-Keeps r = search keeping_parts

    pub add_to_tag-Keeps : (msg : Message) → Keeps V (Errors.add_to_tag env msg)
    unfolding Errors.add_to_tag
    add_to_tag-Keeps msg = search keeping_parts depth 12

    pub ruleset keeping_calls = (
      keeping_parts, callee-Keeps, established-Keeps, terminated-Keeps, close-Keeps,
      add_to_tag-Keeps,
    )

    pub make_error_response-Keeps :
        (msg : Message) (st : Option (Txn ServerTransactionKey)) (s : ℕ)
        → Keeps V (Errors.make_error_response env msg st s)
    unfolding Errors.make_error_response
    make_error_response-Keeps msg st s = search keeping_calls depth 15

    pub response_context_closer-Keeps :
        (st : Txn ServerTransactionKey) (ct : ClientTransactionKey) (s : ℕ)
        → Keeps V (Errors.response_context_closer env st ct s)
    unfolding Errors.response_context_closer
    response_context_closer-Keeps st ct s = search keeping_calls depth 15

    pub start_client-Keeps :
        (b : Bool) (st : Txn ServerTransactionKey) (msg : Message)
        → Keeps V (Requests.start_client env b st msg)
    unfolding Requests.start_client
    start_client-Keeps b st msg = search keeping_calls depth 15

    pub start_invite-Keeps :
        (st : Txn ServerTransactionKey) (msg : Message) (r : CallRef)
        → Keeps V (Requests.start_invite env st msg r)
    unfolding Requests.start_invite
    start_invite-Keeps st msg r = search (keeping_calls, start_client-Keeps) depth 15
