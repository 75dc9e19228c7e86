-- ===== src/Proxy/Sound/Parts.antt =====
-- The calls that the handlers make of the other parts keep the state sound.
use tjsip.Base.{Bool, Option, none, some, Bytes}
use tjsip.Base.Outcome.{Outcome}
use tjsip.Message.{Message}
use tjsip.Transaction.Key.{ClientTransactionKey, ServerTransactionKey}
use tjsip.Calls.{CallStates}
use tjsip.Proxy.{Env, Txn, Handler, emit}
use tjsip.Proxy.Server
use tjsip.Proxy.Server.{deref, draw, prepared, contacts_for, lacks_own_via}
use tjsip.Proxy.Errors
use tjsip.Proxy.Requests
use tjsip.Proxy.Expiry
use tjsip.Proxy.Dispatch
use tjsip.Registration.Bindings.{Tables}
use tjsip.Proxy.Sound.{
  Invariant, Ends, keeping, sound, Keeps, pure-Keeps, crash-Keeps, gets-Keeps, lift-Keeps,
  bind_Keeps, then_Keeps, state-Keeps, modify-Keeps, emit-Keeps,
}

-- The admission of a request changes the table of server transactions.
pub register-Keeps : (t : Txn ServerTransactionKey) → Keeps sound (Server.register t)
unfolding Server.register sound
register-Keeps t = state-Keeps λ p h. record { linked = h.linked; paired = h.paired }

module _ {V : Invariant} where
  pub deref-Keeps : {A : Type 0} (o : Option A) → Keeps V (deref o)
  deref-Keeps none = crash-Keeps
  deref-Keeps (some a) = pure-Keeps

  pub bind-Keeps :
      (st : ServerTransactionKey) (ct : ClientTransactionKey) → Keeps V (Errors.bind st ct)
  unfolding Errors.bind
  bind-Keeps st ct = state-Keeps λ p h. V.bound p st ct h

  pub unbind-Keeps : (ct : ClientTransactionKey) → Keeps V (Errors.unbind ct)
  unfolding Errors.unbind
  unbind-Keeps ct = state-Keeps λ p h. V.unbound p ct h

  pub add_client-Keeps : (t : Txn ClientTransactionKey) → Keeps V (Server.add_client t)
  unfolding Server.add_client
  add_client-Keeps t = state-Keeps λ p h. V.rest p _ _ _ _ _ _ h

  pub destroy_client-Keeps : (t : Txn ClientTransactionKey) → Keeps V (Server.destroy_client t)
  unfolding Server.destroy_client
  destroy_client-Keeps t = modify-Keeps λ p h. V.rest p _ _ _ _ _ _ h

  pub new_server_transaction-Keeps :
      (b : Bool) (k : ServerTransactionKey) (msg : Message)
      → Keeps V (Server.new_server_transaction b k msg)
  unfolding Server.new_server_transaction
  new_server_transaction-Keeps b k msg = then_Keeps (emit-Keeps _) pure-Keeps

  pub write_to_server-Keeps :
      (t : Txn ServerTransactionKey) (msg : Message) → Keeps V (Server.write_to_server t msg)
  unfolding Server.write_to_server
  write_to_server-Keeps t msg = emit-Keeps _

  pub write_to_client-Keeps :
      (t : Txn ClientTransactionKey) (msg : Message) → Keeps V (Server.write_to_client t msg)
  unfolding Server.write_to_client
  write_to_client-Keeps t msg = emit-Keeps _

  pub set_calls-Keeps : (c : CallStates) → Keeps V (Errors.set_calls c)
  unfolding Errors.set_calls
  set_calls-Keeps c = modify-Keeps λ p h. V.rest p _ _ _ _ _ _ h

  pub set_tables-Keeps : (t : Tables) → Keeps V (Dispatch.set_tables t)
  unfolding Dispatch.set_tables
  set_tables-Keeps t = modify-Keeps λ p h. V.rest p _ _ _ _ _ _ h

  pub on_calls-Keeps : (f : CallStates → Outcome CallStates) → Keeps V (Errors.on_calls f)
  unfolding Errors.on_calls
  on_calls-Keeps f = search (keeping, set_calls-Keeps)

  pub call_id_text-Keeps : (msg : Message) → Keeps V (Errors.call_id_text msg)
  unfolding Errors.call_id_text
  call_id_text-Keeps msg = search keeping

  pub get_call-Keeps : (id : Bytes) → Keeps V (Errors.get_call id)
  unfolding Errors.get_call
  get_call-Keeps id = gets-Keeps

  pub add_timer_c-Keeps :
      (st : Txn ServerTransactionKey) (ct : Txn ClientTransactionKey)
      → Keeps V (Requests.add_timer_c st ct)
  unfolding Requests.add_timer_c emit
  add_timer_c-Keeps st ct = record { keeps = λ p h. V.rest _ _ _ _ _ _ _ (V.timed p ct.key h) }

  pub timer_c_ends-Keeps : (ct : Txn ClientTransactionKey) → Keeps V (Expiry.timer_c_ends ct)
  unfolding Expiry.timer_c_ends
  timer_c_ends-Keeps ct = modify-Keeps λ p h. V.untimed p ct.key h

  module _ (env : Env) where
    pub draw-Keeps : Keeps V (draw env)
    unfolding draw
    draw-Keeps = state-Keeps λ p h. V.rest p _ _ _ _ _ _ h

    pub insert_own_via-Keeps : (msg : Message) → Keeps V (Server.insert_own_via env msg)
    unfolding Server.insert_own_via
    insert_own_via-Keeps msg = search (keeping, draw-Keeps) depth 12

    pub new_client_transaction-Keeps :
        (b : Bool) (msg : Message) (h : Handler)
        → Keeps V (Server.new_client_transaction env b msg h)
    unfolding Server.new_client_transaction
    new_client_transaction-Keeps b msg h = search (keeping, insert_own_via-Keeps) depth 12

    prepared-Keeps : (msg : Message) → Keeps V (prepared env msg)
    unfolding prepared
    prepared-Keeps msg = search (keeping, insert_own_via-Keeps, deref-Keeps) depth 12

    pub write_message-Keeps : (msg : Message) → Keeps V (Server.write_message env msg)
    unfolding Server.write_message
    write_message-Keeps msg = search (keeping, prepared-Keeps) depth 12

  pub ruleset keeping_parts = (
    keeping, deref-Keeps, bind-Keeps, unbind-Keeps, add_client-Keeps, destroy_client-Keeps,
    new_server_transaction-Keeps, write_to_server-Keeps, write_to_client-Keeps, set_calls-Keeps,
    set_tables-Keeps, on_calls-Keeps, call_id_text-Keeps, get_call-Keeps, add_timer_c-Keeps,
    timer_c_ends-Keeps, draw-Keeps, insert_own_via-Keeps, new_client_transaction-Keeps,
    write_message-Keeps,
  )
