-- ===== src/Proxy/Responses.antt =====
-- The handlers of responses (proxy_response_controller.go).
pub mod Laws
use tjsip.Base.{
  ℕ, Bool, true, false, not, ◌&&◌, ◌||◌, Option, none, some, List, [], ◌∷◌, Bytes, codes, leb, ltb,
  nat_beq, is_some, if◌then◌else◌,
}
use tjsip.Base.Classes.{◌==◌, bytes_eq}
use tjsip.Base.Outcome.{Outcome, ok, err, panic, Error, malformed_message}
use tjsip.Message.{
  Message, Contact, Uri, method_invite, method_bye, method_options, method_register,
}
use tjsip.Message.Via.{Via, ViaHeaders, pop, top_most}
use tjsip.Message.Counters.{MaxForwards, decrement}
use tjsip.Message.Generate.{clone, generate_cancel_request, status_trying}
use tjsip.Transaction.Key.{
  ClientTransactionKey, ServerTransactionKey, generate_client_transaction_key,
}
use tjsip.Contexts.{get_st_from_ct}
use tjsip.Contexts.TimerC
use tjsip.Contexts.TimerC.{Chan}
use tjsip.Calls.{CallRef, info_at}
use tjsip.Proxy.{
  branch, for_some, for_ok, Proxy, Env, Action, Txn, Handler, cancel_error_handler, pure, crash,
  gets, lift, state, modify, close_chan, send_on, ◌>>=◌, ◌>>◌,
}
use tjsip.Proxy.Server.{
  deref, lookup_server_transaction, add_client, destroy_client, new_client_transaction,
  write_to_server, write_to_client, write_message,
}
use tjsip.Proxy.Errors.{
  term_remote, term_internal, get_param, unbind, get_call, call_id_text, established, terminated,
  close, make_error_response, response_context_closer,
}
use tjsip.Proxy.Forwarding.{
  Forward, forward, refuse, status_not_found, status_too_many_hops, status_internal_server_error,
  status_request_timeout,
}
use tjsip.Proxy.Route.{invite_routed}
use tjsip.Proxy.Redirection.{forward_redirection}

module _ (env : Env) where
  -- The address that the next Via names.
  unfoldable pub reply_address : Via → Bytes
  unfolding get_param
  reply_address via =
      let received = get_param (env.urls.parse_query via.raw_parameter) (codes "received") in
      if received == [] then via.sent_by else received

  unfoldable pub forward_below :
      Message → ViaHeaders → Option (Txn ServerTransactionKey) → Action (Unit {0})
  unfolding reply_address
  forward_below msg vias st = for_some (top_most vias) (pure tt) (λ via. do
    let sent : Message = record (clone msg) { via = some vias; remote_addr = reply_address via }
    for_some st (write_message env sent >> pure tt) (λ t. write_to_server t sent))

  -- forwardingResponse; a nil Via panics.
  unfoldable pub forwarding_response :
      Message → Option (Txn ServerTransactionKey) → Action (Unit {0})
  unfolding forward_below pop
  forwarding_response msg st = do vias ← deref msg.via; forward_below msg (pop vias).0 st

  unfoldable pub ends_call : Message → CallRef → Action (Unit {0})
  ends_call msg info =
      if ltb msg.status_code 300
      then terminated env info msg term_remote >> close env info
      else pure tt

  -- byeResponseHandler
  unfoldable pub bye_response_handler :
      Message → Txn ServerTransactionKey → ClientTransactionKey → CallRef → Action (Unit {0})
  unfolding unbind ends_call
  bye_response_handler msg st ct info =
      if nat_beq msg.status_code status_trying
      then pure tt
      else if leb 200 msg.status_code
      then unbind ct >> ends_call msg info >> forwarding_response msg (some st)
      else forwarding_response msg (some st)

  unfoldable pub reset : Option Chan → Action (Unit {0})
  reset none = pure tt
  reset (some c) = send_on c

  unfoldable pub stop : Option Chan → Option Chan → Action (Unit {0})
  stop update none = pure tt
  stop none (some destroy) = close_chan destroy
  stop (some update) (some destroy) = close_chan destroy >> close_chan update

  -- The final response to an INVITE, behind the stop of Timer C and the end of the binding.
  unfoldable pub on_final : Message → Txn ServerTransactionKey → CallRef → Action (Unit {0})
  on_final msg st info =
      if ltb msg.status_code 300
      then established env info msg >> forwarding_response msg (some st)
      else if ltb msg.status_code 400
      then forward_redirection env msg info st
      else terminated env info msg term_remote
        >> close env info
        >> forwarding_response msg (some st)

  unfoldable pub on_class :
      Message
      → Txn ServerTransactionKey
      → ClientTransactionKey
      → CallRef
      → Option Chan
      → Option Chan
      → Action (Unit {0})
  unfolding reset stop on_final unbind
  on_class msg st ct info update destroy =
      if nat_beq msg.status_code status_trying
      then pure tt
      else if ltb 100 msg.status_code && ltb msg.status_code 200
      then reset update >> forwarding_response msg (some st)
      else if leb 200 msg.status_code
      then stop update destroy >> unbind ct >> on_final msg st info
      else forwarding_response msg (some st)

  -- invaiteResponseHandler
  unfoldable pub invite_response_handler :
      Message → Txn ServerTransactionKey → ClientTransactionKey → CallRef → Action (Unit {0})
  unfolding on_class
  invite_response_handler msg st ct info = do
    (update, destroy) ← gets λ p. TimerC.get p.timers ct
    on_class msg st ct info update destroy

  -- A response that belongs to a call: the switch over the methods
  unfoldable pub respond :
      Message
      → Txn ServerTransactionKey
      → ClientTransactionKey
      → Option CallRef
      → Bytes
      → Action (Unit {0})
  unfolding unbind
  respond msg st ct none method = pure tt
  respond msg st ct (some info) method =
      if method == method_invite
      then invite_response_handler msg st ct info
      else if method == method_bye
      then bye_response_handler msg st ct info
      else if nat_beq msg.status_code status_trying
      then pure tt
      else if leb 200 msg.status_code
      then unbind ct >> forwarding_response msg (some st)
      else forwarding_response msg (some st)

  -- The transactions that a response belongs to; one that belongs to none is dropped.
  unfoldable pub respond_by :
      Message → ClientTransactionKey → Option CallRef → Bytes → Action (Unit {0})
  unfolding respond
  respond_by msg ct call method = do
    bound ← gets λ p. get_st_from_ct p.contexts ct
    for_some bound (pure tt) (λ st_key. do
      found ← lookup_server_transaction st_key
      for_some found (pure tt) (λ st. respond msg st ct call method))

  -- responseHandler. Without its call a response is dropped, whether the method asks for a call or not.
  unfoldable pub response_handler : Message → Action (Option Error)
  unfolding respond_by
  response_handler msg = for_some msg.cseq (pure (some malformed_message)) (λ cseq. do
    id ← call_id_text msg
    call ← get_call id
    branch
        (not (cseq.method == method_options || cseq.method == method_register)
          && not (is_some call))
        (pure none)
        (for_ok (generate_client_transaction_key env.urls.parse_query msg) (λ e. pure none)
          (λ ct. respond_by msg ct call cseq.method >> pure none)))
