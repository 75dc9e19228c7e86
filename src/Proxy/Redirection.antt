-- ===== src/Proxy/Redirection.antt =====
-- The redirection of a call (proxy_response_controller.go).
use tjsip.Base.{Option, none, some, List, [], ◌∷◌, if◌then◌else◌}
use tjsip.Base.Classes.{bytes_eq}
use tjsip.Message.{Message, Contact, Uri}
use tjsip.Message.Via.{pop}
use tjsip.Message.Counters.{decrement}
use tjsip.Message.Generate.{clone}
use tjsip.Transaction.Key.{ServerTransactionKey}
use tjsip.Calls.{CallRef, info_at}
use tjsip.Proxy.{branch, for_some, Env, Action, Txn, pure, gets, lift, ◌>>=◌, ◌>>◌}
use tjsip.Proxy.Server.{deref}
use tjsip.Proxy.Errors.{term_internal, terminated, make_error_response}
use tjsip.Proxy.Forwarding.{
  for_forward, status_not_found, status_too_many_hops, status_internal_server_error,
}
use tjsip.Proxy.Route.{invite_routed}
use tjsip.Proxy.Requests.{start_invite}

-- The URI of the first contact, where the redirection can use it.
redirect_uri : Option (List Contact) → Option Uri
redirect_uri none = none
redirect_uri (some []) = none
redirect_uri (some (c ∷ _)) =
    if c.star then none else elim c.addr [ none ↦ none | some addr ↦ addr.uri ]

module _ (env : Env) where
  -- forwardRedirection, from the copy of the request on. Its nil pointers panic.
  unfoldable pub redirect_to :
      Message → Txn ServerTransactionKey → CallRef → Uri → Action (Unit {0})
  redirect_to sent st info uri = do
    hops ← deref sent.max_forwards
    let (left, remain) = decrement hops
    branch remain
        (do
          vias ← deref sent.via
          let fwd : Message = record (clone sent) {
            max_forwards = some left;
            request_uri = some uri;
            via = some (pop vias).0;
          }
          p ← gets λ p. p
          routed ← lift (invite_routed env p fwd)
          for_forward routed (λ status. make_error_response env st.request (some st) status)
              (λ msg. do
                started ← start_invite env st msg info
                branch started (pure tt)
                    (make_error_response env st.request (some st) status_internal_server_error)))
        (make_error_response env st.request (some st) status_too_many_hops)

  unfoldable pub forward_redirection :
      Message → CallRef → Txn ServerTransactionKey → Action (Unit {0})
  unfolding redirect_to redirect_uri
  forward_redirection msg info st =
      for_some (redirect_uri msg.contact)
        (do
          terminated env info msg term_internal
          make_error_response env st.request (some st) status_not_found)
        (λ uri. do
          calls ← gets λ p. p.calls
          sent ← deref (info_at calls info).sent_request
          redirect_to sent st info uri)
