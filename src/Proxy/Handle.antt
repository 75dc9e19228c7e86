-- ===== src/Proxy/Handle.antt =====
-- requestHandler (proxy_request_controller.go): a request is given its server transaction and handed to
-- the handler of its method.
use tjsip.Base.{ℕ, ◌||◌, Option, none, some, if◌then◌else◌}
use tjsip.Base.Classes.{◌==◌, bytes_eq}
use tjsip.Base.Outcome.{Error}
use tjsip.Message.{
  Message, method_invite, method_ack, method_cancel, method_bye, method_options, method_register,
  method_update, method_prack,
}
use tjsip.Transaction.Key.{ServerTransactionKey, generate_server_transaction_key}
use tjsip.Proxy.{for_some, for_ok, Env, Action, Txn, pure, crash, ◌>>=◌, ◌>>◌}
use tjsip.Proxy.Server.{register, new_server_transaction}
use tjsip.Proxy.Errors.{make_error_response}
use tjsip.Proxy.Forwarding.{status_method_not_allowed}
use tjsip.Proxy.Requests.{invite_handler, ack_handler, non_invite_handler}
use tjsip.Proxy.Dispatch.{register_handler, cancel_handler}

-- The new server transaction, which an ACK does not have, and the error where it cannot be added.
unfoldable pub admit :
    ServerTransactionKey → Message → Action (Option (Txn ServerTransactionKey) × Option Error)
unfolding new_server_transaction register
admit key msg = if msg.method == method_ack then pure (none, none) else do
  txn ← new_server_transaction (msg.method == method_invite) key msg
  failure ← register txn
  pure (some txn, failure)

module _ (env : Env) where
  -- A handler that works on the server transaction, which is there for its methods.
  unfoldable pub on_txn :
      Option (Txn ServerTransactionKey)
      → (Txn ServerTransactionKey → Action (Option ℕ))
      → Action (Option ℕ)
  on_txn none f = crash
  on_txn (some t) f = f t

  -- The switch over the methods; 200 is what OPTIONS is answered with.
  unfoldable pub dispatch : Message → Option (Txn ServerTransactionKey) → Action (Option ℕ)
  unfolding on_txn
  dispatch msg txn =
      if msg.method == method_invite
      then on_txn txn (invite_handler env msg)
      else if msg.method == method_bye || msg.method == method_update || msg.method == method_prack
      then on_txn txn (non_invite_handler env msg)
      else if msg.method == method_register
      then on_txn txn (register_handler env msg)
      else if msg.method == method_cancel
      then on_txn txn (cancel_handler env msg)
      else if msg.method == method_options
      then pure (some 200)
      else if msg.method == method_ack
      then ack_handler env msg
      else pure (some status_method_not_allowed)

  unfoldable pub request_handler : Message → Action (Option Error)
  unfolding admit dispatch make_error_response
  request_handler msg =
      for_ok (generate_server_transaction_key env.urls.parse_query msg) (λ e. pure (some e))
        (λ key. do
          (txn, failure) ← admit key msg
          for_some failure
              (do
                refused ← dispatch msg txn
                for_some refused (pure none)
                    (λ status. make_error_response env msg txn status >> pure none))
              (λ e. pure (some e)))
