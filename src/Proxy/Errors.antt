-- ===== src/Proxy/Errors.antt =====
-- The ends of a forwarding (proxy_core.go, proxy_request_controller.go): the error response to the
-- caller, and what the handlers do to the record of the call.
use tjsip.Base.{ℕ, Bool, Option, none, some, List, [], ◌∷◌, ◌++◌, Bytes, codes}
use tjsip.Base.Classes.{◌==◌, bytes_eq}
use tjsip.Base.Assoc.{Assoc, lookup}
use tjsip.Base.Text.{trim}
use tjsip.Base.Outcome.{Outcome, ok}
use tjsip.Message.{Message, To}
use tjsip.Message.Print.{print_call_id}
use tjsip.Message.Generate.{generate_response_from_request}
use tjsip.Transaction.Key.{ClientTransactionKey, ServerTransactionKey}
use tjsip.Contexts
use tjsip.Contexts.{Removed}
use tjsip.Calls
use tjsip.Calls.{
  CallInfo, CallStates, CallRef, record_caller, record_callee, record_established,
  record_terminated, print_call, info_at, on_call, close_call,
}
use tjsip.Proxy.{
  branch, for_some, Env, Action, Txn, pure, crash, gets, lift, state, modify, ◌>>=◌, ◌>>◌,
}
use tjsip.Proxy.Server.{deref, draw, write_to_server}

abbrev pub term_remote : ℕ
term_remote = 0

abbrev pub term_internal : ℕ
term_internal = 1

-- url.Values.Get
unfoldable pub get_param : Assoc Bytes (List Bytes) → Bytes → Bytes
get_param params key = elim (lookup key params) [ none ↦ [] | some [] ↦ [] | some (v ∷ _) ↦ v ]

-- responseContexts.Remove
unfoldable pub unbind : ClientTransactionKey → Action Removed
unbind key = state λ p.
    let (contexts, removed) = Contexts.remove p.contexts key in
    (removed, record p { contexts = contexts })

-- responseContexts.Add
unfoldable pub bind : ServerTransactionKey → ClientTransactionKey → Action Bool
bind st ct = state λ p.
    let (contexts, added) = Contexts.add p.contexts st ct in
    (added, record p { contexts = contexts })

unfoldable pub set_calls : CallStates → Action (Unit {0})
set_calls calls = modify λ p. record p { calls = calls }

unfoldable pub on_calls : (CallStates → Outcome CallStates) → Action (Unit {0})
unfolding set_calls
on_calls f = do calls ← gets λ p. p.calls; changed ← lift (f calls); set_calls changed

-- msg.CallID.String()
unfoldable pub call_id_text : Message → Action Bytes
unfolding print_call_id
call_id_text msg = for_some msg.call_id crash (λ c. pure (print_call_id c))

-- callStates.Get
unfoldable pub get_call : Bytes → Action (Option CallRef)
get_call id = gets λ p. Calls.get p.calls id

module _ (env : Env) where
  unfoldable pub callee : CallRef → Message → Action (Unit {0})
  unfolding on_calls
  callee r msg = on_calls λ c. on_call c r (record_callee env.urls env.now (info_at c r) msg)

  unfoldable pub established : CallRef → Message → Action (Unit {0})
  unfolding on_calls
  established r msg =
      on_calls λ c. on_call c r (record_established env.urls env.now (info_at c r) msg)

  unfoldable pub terminated : CallRef → Message → ℕ → Action (Unit {0})
  unfolding on_calls
  terminated r msg location =
      on_calls λ c. on_call c r (ok (record_terminated env.urls env.now (info_at c r) msg location))

  -- callStates.Close
  unfoldable pub close : CallRef → Action (Unit {0})
  unfolding on_calls
  close r = on_calls λ c. close_call (print_call env.urls env.print_time) c r

  -- AddToTag; a nil To panics.
  unfoldable pub add_to_tag : Message → Action Message
  unfolding draw get_param
  add_to_tag msg = do
    to ← deref msg.to
    branch (get_param (env.urls.parse_query to.raw_parameter) (codes "tag") == [])
        (do
          tag ← draw env
          let param = trim (b';' ∷ []) (codes "tag=" ++ tag ++ b';' ∷ to.raw_parameter)
          pure (record msg { to = some (record to { raw_parameter = param }) }))
        (pure msg)

  -- makeErrorResponse; a nil transaction panics.
  unfoldable pub make_error_response :
      Message → Option (Txn ServerTransactionKey) → ℕ → Action (Unit {0})
  unfolding add_to_tag call_id_text get_call terminated close
  make_error_response msg txn status = do
    rep ← add_to_tag (record (generate_response_from_request msg) { status_code = status })
    t ← deref txn
    write_to_server t rep
    id ← call_id_text msg
    info ← get_call id
    for_some info (pure tt) (λ r. do terminated r msg term_internal; close r)

  -- responseContextCloser
  unfoldable pub response_context_closer :
      Txn ServerTransactionKey → ClientTransactionKey → ℕ → Action (Unit {0})
  unfolding unbind add_to_tag
  response_context_closer st ct status = do
    removed ← unbind ct
    branch removed.remove_server_transaction
        (do
          let error = record (generate_response_from_request st.request) { status_code = status }
          let to : Option To = elim st.provisional_res [ none ↦ error.to | some prov ↦ prov.to ]
          tagged ← add_to_tag (record error { to = to })
          write_to_server st tagged)
        (pure tt)
