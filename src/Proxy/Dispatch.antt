-- ===== src/Proxy/Dispatch.antt =====
-- The handlers of REGISTER and CANCEL, the failure of a client transaction, and requestHandler, which
-- hands a request to its handler (proxy_request_controller.go).
use tjsip.Base.{ℕ, Bool, true, false, ◌||◌, Option, none, some, List, [], ◌∷◌, if◌then◌else◌}
use tjsip.Base.Classes.{◌==◌, bytes_eq}
use tjsip.Base.Outcome.{Outcome, ok, err, panic, Error, transaction_timed_out}
use tjsip.Message.{Message, Contact, method_invite}
use tjsip.Message.Generate.{generate_response_from_request, generate_cancel_request}
use tjsip.Transaction.Key.{
  ClientTransactionKey, ServerTransactionKey, generate_server_transaction_key, update_method,
  client_key_eq,
}
use tjsip.Contexts.{ResponseCtx, get_ct_from_st, get_st_from_ct}
use tjsip.Contexts.TimerC
use tjsip.Registration.Bindings.{Tables}
use tjsip.Registration.Issue.{registration}
use tjsip.Proxy.{
  branch, for_some, for_ok, Env, Action, Txn, cancel_error_handler, pure, crash, gets, lift, modify,
  close_chan, ◌>>=◌, ◌>>◌,
}
use tjsip.Proxy.Server.{
  deref, lookup_client_transaction, lookup_server_transaction, add_client, destroy_client,
  new_client_transaction, write_to_server, write_to_client,
}
use tjsip.Proxy.Errors.{unbind, add_to_tag, make_error_response, response_context_closer}
use tjsip.Proxy.Forwarding.{
  status_no_call, status_internal_server_error, status_request_terminated, status_request_timeout,
}

-- The contacts of a response. A nil one panics when the response is printed, here at once.
all_there : List (Option Contact) → Outcome (List Contact)
all_there [] = ok []
all_there (none ∷ cs) = panic
all_there (some c ∷ cs) = elim (all_there cs) [
  | ok rest ↦ ok (c ∷ rest)
  | err e ↦ err e
  | panic ↦ panic
]

response_contacts : Option (List (Option Contact)) → Outcome (Option (List Contact))
unfolding all_there
response_contacts none = ok none
response_contacts (some cs) = elim (all_there cs) [
  | ok rest ↦ ok (some rest)
  | err e ↦ err e
  | panic ↦ panic
]

-- The keys of a map, each once, in the order in which it is ranged over
has_key : ClientTransactionKey → List ClientTransactionKey → Bool
has_key k [] = false
has_key k (x ∷ xs) = x == k || has_key k xs

keys_of : ResponseCtx → List ClientTransactionKey
unfolding has_key
keys_of [] = []
keys_of ((k, _) ∷ m) = let rest = keys_of m in if has_key k rest then rest else k ∷ rest

-- The loop variable, whose address the closures hold, after the loop
last_key : ClientTransactionKey → List ClientTransactionKey → ClientTransactionKey
last_key k [] = k
last_key k (x ∷ xs) = last_key x xs

-- The status that a client transaction which ended with this error is answered with
failure_status : Option Error → ℕ
failure_status (some transaction_timed_out) = status_request_timeout
failure_status _ = status_internal_server_error

unfoldable pub set_tables : Tables → Action (Unit {0})
set_tables tables = modify λ p. record p { tables = tables }

module _ (env : Env) where
  -- registerHandler. The header of a result is always nil.
  unfoldable pub register_handler : Message → Txn ServerTransactionKey → Action (Option ℕ)
  unfolding response_contacts
  register_handler msg txn = do
    before ← gets λ p. p.tables
    (after, result) ←
        lift (registration env.urls env.parse_percent env.unix_now env.db_failure msg before)
    set_tables after
    for_some result (pure (some status_internal_server_error)) (λ r. do
      contacts ← lift (response_contacts r.contact)
      let rep = record (generate_response_from_request msg) {
        status_code = r.status;
        contact = contacts;
      }
      tagged ← add_to_tag env rep
      write_to_server txn tagged
      pure none)

  -- The body of the loop of cancelHandler; false where it returns.
  unfoldable pub cancel_one :
      ServerTransactionKey → ClientTransactionKey → ClientTransactionKey → Action Bool
  cancel_one st_key last key = do
    found_ct ← lookup_client_transaction key
    orig_ct ← deref found_ct
    found_st ← lookup_server_transaction st_key
    orig_st ← deref found_st
    for_ok (generate_cancel_request orig_ct.request) (λ e. crash)
        (λ can_msg. do
          made ← new_client_transaction env false can_msg (cancel_error_handler orig_st last)
          can_ct ← deref made
          failure ← add_client can_ct
          for_some failure (write_to_client can_ct can_ct.request >> pure true) (λ x. do
            destroy_client can_ct
            response_context_closer env orig_st key status_request_terminated
            pure false))

  unfoldable pub cancel_each :
      ServerTransactionKey → ClientTransactionKey → List ClientTransactionKey → Action (Unit {0})
  unfolding cancel_one
  cancel_each st_key last [] = pure tt
  cancel_each st_key last (k ∷ ks) = do
    goes_on ← cancel_one st_key last k
    branch goes_on (cancel_each st_key last ks) (pure tt)

  unfoldable pub cancel_all : ServerTransactionKey → List ClientTransactionKey → Action (Unit {0})
  unfolding cancel_each last_key
  cancel_all st_key [] = pure tt
  cancel_all st_key (k ∷ ks) = cancel_each st_key (last_key k ks) (k ∷ ks)

  -- cancelHandler
  unfoldable pub cancel_handler : Message → Txn ServerTransactionKey → Action (Option ℕ)
  unfolding cancel_all keys_of
  cancel_handler msg txn =
      for_ok (generate_server_transaction_key env.urls.parse_query msg)
        (λ e. pure (some status_internal_server_error))
        (λ own_key. do
          let st_key = update_method own_key method_invite
          bound ← gets λ p. get_ct_from_st p.contexts st_key
          for_some bound (pure (some status_no_call)) (λ cts. do
            write_to_server txn (record (generate_response_from_request msg) { status_code = 200 })
            cancel_all st_key (keys_of cts)
            pure none))

  -- clientTransactionErrorHandler. A nil interface panics in the type assertion.
  unfoldable pub client_transaction_error : Txn ClientTransactionKey → Action (Unit {0})
  unfolding failure_status
  client_transaction_error txn = do
    bound ← gets λ p. get_st_from_ct p.contexts txn.key
    for_some bound (pure tt) (λ st_key. do
      (_, destroy) ← gets λ p. TimerC.get p.timers txn.key
      for_some destroy (pure tt) (λ c. close_chan c)
      found ← lookup_server_transaction st_key
      st ← deref found
      removed ← unbind txn.key
      branch removed.remove_server_transaction
          (make_error_response env st.request (some st) (failure_status txn.error)) (pure tt))

  -- cancelErrorHandler
  unfoldable pub cancel_error :
      Txn ServerTransactionKey → ClientTransactionKey → Option Error → Action (Unit {0})
  cancel_error st key none = pure tt
  cancel_error st key (some transaction_timed_out) =
      response_context_closer env st key status_request_timeout
  cancel_error st key (some _) = response_context_closer env st key status_request_terminated
