-- ===== src/Proxy/Expiry.antt =====
-- The end of Timer C (proxy_core.go, and the goroutine of proxy_request_controller.go).
use tjsip.Base.{false, is_some}
use tjsip.Base.Classes.{bytes_eq}
use tjsip.Message.Generate.{generate_cancel_request}
use tjsip.Transaction.Key.{ClientTransactionKey, ServerTransactionKey}
use tjsip.Contexts.TimerC
use tjsip.Contexts.TimerC.{Chan}
use tjsip.Proxy.{
  branch, for_some, for_ok, Env, Action, Txn, cancel_error_handler, modify, ◌>>=◌, ◌>>◌,
}
use tjsip.Proxy.Server.{deref, add_client, destroy_client, new_client_transaction, write_to_client}
use tjsip.Proxy.Errors.{response_context_closer}
use tjsip.Proxy.Forwarding.{status_request_timeout}

-- The goroutine that waits for Timer C, when it is told to end and when the timer fires.
unfoldable pub timer_c_ends : Txn ClientTransactionKey → Action (Unit {0})
timer_c_ends ct = modify λ p. record p { timers = (TimerC.remove p.timers ct.key).0 }

module _ (env : Env) where
  -- fireTimerC, of a client transaction as it stands when the timer fires
  unfoldable pub fire_timer_c :
      Txn ServerTransactionKey → Txn ClientTransactionKey → Action (Unit {0})
  fire_timer_c st ct =
      branch (is_some ct.provisional_res)
        (for_ok (generate_cancel_request ct.request)
          (λ e. do destroy_client ct; response_context_closer env st ct.key status_request_timeout)
          (λ can_msg. do
            made ← new_client_transaction env false can_msg (cancel_error_handler st ct.key)
            can_ct ← deref made
            failure ← add_client can_ct
            for_some failure (write_to_client can_ct can_ct.request) (λ x. destroy_client can_ct)))
        (response_context_closer env st ct.key status_request_timeout)

  unfoldable pub timer_c_fires :
      Txn ServerTransactionKey → Txn ClientTransactionKey → Action (Unit {0})
  unfolding fire_timer_c
  timer_c_fires st ct = do fire_timer_c st ct; timer_c_ends ct
