-- ===== src/Proxy/Requests.antt =====
-- The handlers of requests (proxy_request_controller.go).
use tjsip.Base.{ℕ, Bool, true, false, Option, none, some, List, [], ◌∷◌, ◌++◌, Bytes, codes}
use tjsip.Base.Classes.{bytes_eq}
use tjsip.Base.Text.{split_2}
use tjsip.Message.{Message}
use tjsip.Message.Headers
use tjsip.Message.Headers.{Header}
use tjsip.Transaction.Key.{ClientTransactionKey, ServerTransactionKey}
use tjsip.Contexts.TimerC
use tjsip.Calls
use tjsip.Calls.{CallRef, record_caller, info_at, put, allocate}
use tjsip.Proxy.{
  branch, for_some, Env, Action, Txn, client_transaction_error_handler, waits_for_timer_c, pure,
  crash, gets, lift, state, emit, ◌>>=◌, ◌>>◌,
}
use tjsip.Proxy.Server.{
  deref, add_client, destroy_client, new_client_transaction, write_to_client, write_message,
}
use tjsip.Proxy.Errors.{set_calls, bind, get_call, call_id_text, callee}
use tjsip.Proxy.Forwarding.{
  for_forward, Forward, forward, refuse, generate_forwarding_request,
  generate_forwarding_request_by_route_header, status_no_call, status_internal_server_error,
}
use tjsip.Proxy.Route.{invite_routed}

-- lookupTrunkType, of which the value is not used; `addrPort[1]` panics where there is no colon.
unfoldable pub lookup_trunk_type : Bytes → Action (Unit {0})
lookup_trunk_type addr = for_some (split_2 b':' addr).1 crash (λ port. pure tt)

-- timerCHandler.Add, and the goroutine that waits for Timer C
unfoldable pub add_timer_c : Txn ServerTransactionKey → Txn ClientTransactionKey → Action (Unit {0})
unfolding emit
add_timer_c st ct = do
  (update, destroy) ← state λ p.
      let (timers, update, destroy) = TimerC.add p.timers ct.key in
      ((update, destroy), record p { timers = timers })
  emit (waits_for_timer_c st ct update destroy)

-- NewCallInfo, RecordCaller and Add
unfoldable pub open_call : Env → Message → Action CallRef
open_call env msg = do
  before ← gets λ p. p.calls
  let (calls, r) = allocate before
  info ← lift (record_caller env.urls env.now (info_at calls r) msg)
  set_calls (Calls.add (put calls r info) r).0
  pure r

-- The Record-Route header of this proxy, before those of the message
record_route : Bytes → Header → Header
record_route address h =
    let own = codes "<sip:" ++ address ++ codes ";lr>" in
    add_all (Headers.set h (codes "Record-Route") own) (Headers.values h (codes "Record-Route"))
  where
    add_all : Header → List Bytes → Header
    add_all h [] = h
    add_all h (v ∷ vs) = add_all (Headers.add h (codes "Record-Route") v) vs

module _ (env : Env) where
  -- The answers of the handlers: `none` where the error is nil, and the status of ErrStatusError.

  -- A new client transaction for a request that is forwarded, bound to the server transaction. It is
  -- `none` where it cannot be added; a transaction that cannot be made is a nil whose key is read.
  unfoldable pub start_client :
      Bool → Txn ServerTransactionKey → Message → Action (Option (Txn ClientTransactionKey))
  start_client invite txn msg = do
    made ← new_client_transaction env invite msg client_transaction_error_handler
    ct ← deref made
    _ ← bind txn.key ct.key
    failure ← add_client ct
    for_some failure (write_to_client ct ct.request >> pure (some ct))
        (λ x. destroy_client ct >> pure none)

  -- The same for an INVITE, whose call is recorded and which Timer C watches.
  unfoldable pub start_invite : Txn ServerTransactionKey → Message → CallRef → Action Bool
  unfolding start_client
  start_invite txn msg info = do
    started ← start_client true txn msg
    for_some started (pure false)
        (λ ct. do callee env info ct.request; add_timer_c txn ct; pure true)

  unfoldable pub forward_along : List Bytes → Message → Action Forward
  unfolding record_route
  forward_along (_ ∷ _) msg = lift (generate_forwarding_request_by_route_header env.urls msg)
  forward_along [] msg = do
    made ← lift (generate_forwarding_request env.urls msg)
    for_forward made (λ status. pure (refuse status))
        (λ fwd. do
          p ← gets λ p. p
          routed ← lift (invite_routed env p fwd)
          for_forward routed (λ status. pure (refuse status))
              (λ sent.
                pure (forward (record sent { header = record_route env.address sent.header }))))

  -- The request to forward, along the Route headers where there are any
  unfoldable pub invite_forward : Message → Action Forward
  unfolding forward_along
  invite_forward msg = forward_along (Headers.values msg.header (codes "Route")) msg

  -- inviteHandler. What it reads of P-Preferred-Identity and of an earlier call has no effect.
  unfoldable pub invite_handler : Message → Txn ServerTransactionKey → Action (Option ℕ)
  unfolding invite_forward open_call start_invite lookup_trunk_type
  invite_handler msg txn = do
    _ ← call_id_text msg
    info ← open_call env msg
    made ← invite_forward msg
    for_forward made (λ status. pure (some status))
        (λ fwd. do
          started ← start_invite txn fwd info
          branch started (lookup_trunk_type msg.remote_addr >> pure none)
              (pure (some status_internal_server_error)))

  -- ackHandler
  unfoldable pub ack_handler : Message → Action (Option ℕ)
  ack_handler msg = do
    made ← lift (generate_forwarding_request_by_route_header env.urls msg)
    for_forward made (λ status. pure (some status)) (λ fwd. write_message env fwd >> pure none)

  -- nonInviteHandler
  unfoldable pub non_invite_handler : Message → Txn ServerTransactionKey → Action (Option ℕ)
  unfolding start_client
  non_invite_handler msg txn = do
    id ← call_id_text msg
    call ← get_call id
    for_some call (pure (some status_no_call)) (λ x. do
      made ← lift (generate_forwarding_request_by_route_header env.urls msg)
      for_forward made (λ status. pure (some status))
          (λ fwd. do
            started ← start_client false txn fwd
            for_some started (pure (some status_internal_server_error)) (λ x. pure none)))
