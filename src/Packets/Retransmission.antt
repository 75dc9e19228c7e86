-- ===== src/Packets/Retransmission.antt =====
-- What the layer of transactions absorbs (sip/server.go).
use mathlib.Core.Path.{subst}
use tjsip.Base.{
  Bool, true, false, Option, none, some, ◌∷◌, Bytes, ◌≡◌, ◌≢◌, refl, sym, ap, ◌∙◌, arith,
  if◌then◌else◌,
}
use tjsip.Base.Classes.{bytes_eq, nat_eq, ==_iff, eq_refl, ◌==◌}
use tjsip.Base.Assoc.{Assoc, lookup, insert, lookup-insert}
use tjsip.Base.Outcome.{Outcome, ok, err, panic, Error}
use tjsip.Message.{Message, create_message, method_ack, method_invite}
use tjsip.Message.Read.{Reader, read_message}
use tjsip.Server.Tables.{register_server_transaction-fresh}
use tjsip.Transaction.Key.{ServerTransactionKey, generate_server_transaction_key, server_key_eq}
use tjsip.Proxy.{
  Proxy, Env, Txn, Action, handles_request, emit, starts_server, branch, pure, for_ok, for_some,
  ◌>>=◌, ◌>>◌,
}
use tjsip.Proxy.Server.{lookup_server_transaction, register, new_server_transaction}
use tjsip.Proxy.Errors.{make_error_response}
use tjsip.Proxy.Handle.{admit, dispatch, request_handler}
use tjsip.Proxy.Sound.{Invariant, Ends, Keeps, keeping, bind_Ends, pure-Keeps, for_some-Keeps}
use tjsip.Proxy.Sound.OnRequests.{dispatch-Keeps}
use tjsip.Proxy.Sound.Handlers.{make_error_response-Keeps}
use tjsip.Packets.{request_arrives, arrives, through_ingress, packet_processing, to_core}
use tjsip.Packets.Mux.{layer_core, serve_each, serve_sip, proxy_core_handler}
use tjsip.Packets.Register.{proxy_mux}

abbrev Txns : Type 0
Txns = Assoc ServerTransactionKey (Txn ServerTransactionKey)

-- The table of server transactions is as it was.
unfoldable framed : Txns → Invariant
framed m = record {
  holds = λ p. p.server_transactions ≡ m;
  rest = λ p calls tables clients closed drawn effects h. h;
  bound = λ p st ct h. h;
  unbound = λ p ct h. h;
  timed = λ p ct h. h;
  untimed = λ p ct h. h;
}

-- The effect of a request that is handed to its transaction
unfoldable pub absorbed : ServerTransactionKey → Message → Proxy → Proxy
absorbed key msg p = record p { effects = handles_request key msg ∷ p.effects }

branch-true : {A : Type 0} (m n : Action A) (b : Bool) → b ≡ true → branch b m n ≡ m
branch-true m n b e = rw e refl

for_ok_step :
    {A B : Type 0} (m : Error → Action A) (f : B → Action A) (o : Outcome B) (b : B)
    → o ≡ ok b
    → for_ok o m f ≡ f b
for_ok_step m f o b e = rw e refl

bind_step :
    {A B : Type 0} (m : Action A) (f : A → Action B) (p : Proxy) (a : A) (q : Proxy)
    → m p ≡ ok (a, q)
    → (m >>= f) p ≡ f a q
bind_step {A} {B} m f p a q e =
    ap
      (λ (o : Outcome (A × Proxy)). elim o as (λ _. Outcome (B × Proxy)) [
        | ok (a, q) ↦ f a q
        | err e ↦ err e
        | panic ↦ panic
      ])
      e

registers :
    (t : Txn ServerTransactionKey) (p : Proxy)
    → lookup t.key p.server_transactions ≡ none
    → register t p
      ≡ ok (none, record p { server_transactions = insert t.key t p.server_transactions })
unfolding register
registers t p h =
    ap (λ (r : Txns × Option Error). ok (r.1, record p { server_transactions = r.0 }))
      (register_server_transaction-fresh (λ x. x.key) p.server_transactions t h)

module _ (env : Env) where
  -- main's handlers leave a packet as it is in front of the transactions.
  packet_lem :
      (reader : Reader) (takes : Bool) (addr bytes : Bytes) (msg : Message) (p : Proxy)
      → read_message env.urls reader (create_message addr) bytes ≡ ok (some msg)
      → packet_processing env (proxy_mux env) reader takes addr bytes p
        ≡ arrives env (proxy_mux env) takes msg p
  unfolding packet_processing through_ingress serve_sip serve_each proxy_mux lookup
  packet_lem reader takes addr bytes msg p e = rw e refl

  request_lem :
      (takes : Bool) (msg : Message) (p : Proxy)
      → msg.request ≡ true
      → arrives env (proxy_mux env) takes msg p ≡ request_arrives env (proxy_mux env) msg p
  unfolding arrives
  request_lem takes msg p r = ap (λ (m : Action (Unit {0})). m p) (branch-true _ _ msg.request r)

  -- A request whose key is in the table is handed to its transaction, and nothing else is done.
  known_request :
      (msg : Message) (key : ServerTransactionKey) (t : Txn ServerTransactionKey) (p : Proxy)
      → generate_server_transaction_key env.urls.parse_query msg ≡ ok key
      → lookup key p.server_transactions ≡ some t
      → request_arrives env (proxy_mux env) msg p ≡ ok (tt, absorbed t.key msg p)
  unfolding request_arrives lookup_server_transaction emit absorbed
  known_request msg key t p g h = rw (g, h) refl

  abbrev new_transaction : ServerTransactionKey → Message → Txn ServerTransactionKey
  new_transaction key msg = record {
    key = key;
    request = msg;
    provisional_res = none;
    error = none;
  }

  registered : ServerTransactionKey → Message → Proxy → Invariant
  registered key msg p = framed (insert key (new_transaction key msg) p.server_transactions)

  admitting :
      ServerTransactionKey → Message → Action (Option (Txn ServerTransactionKey) × Option Error)
  admitting key msg = do
    txn ← new_server_transaction (msg.method == method_invite) key msg
    failure ← register txn
    pure (some txn, failure)

  abbrev started : ServerTransactionKey → Message → Proxy → Proxy
  started key msg p = record p {
    effects = starts_server (msg.method == method_invite) (new_transaction key msg) ∷ p.effects;
  }

  admits :
      (key : ServerTransactionKey) (msg : Message) (p : Proxy)
      → msg.method == method_ack ≡ false
      → lookup key p.server_transactions ≡ none
      → admit key msg p
        ≡ ok (
          (some (new_transaction key msg), none),
          record p {
            server_transactions = insert key (new_transaction key msg) p.server_transactions;
            effects =
                starts_server (msg.method == method_invite) (new_transaction key msg) ∷ p.effects;
          },
        )
  unfolding admit new_server_transaction emit admitting
  admits key msg p m h =
      ap (λ (b : Bool). (if b then pure (none, none) else admitting key msg) p) m
      ∙ bind_step (register (new_transaction key msg))
          (λ failure. pure (some (new_transaction key msg), failure)) (started key msg p) none _
          (registers (new_transaction key msg) (started key msg p) h)

  abbrev answered : Message → Option (Txn ServerTransactionKey) → Action (Option Error)
  answered msg txn = do
    refused ← dispatch env msg txn
    for_some refused (pure none) (λ status. make_error_response env msg txn status >> pure none)

  answered-Keeps :
      (V : Invariant) (msg : Message) (txn : Option (Txn ServerTransactionKey))
      → Keeps V (answered msg txn)
  answered-Keeps V msg txn = search (keeping, dispatch-Keeps, make_error_response-Keeps)

  handled :
      (msg : Message) (key : ServerTransactionKey) (p : Proxy)
      → generate_server_transaction_key env.urls.parse_query msg ≡ ok key
      → msg.method == method_ack ≡ false
      → lookup key p.server_transactions ≡ none
      → Ends (registered key msg p) (request_handler env msg p)
  unfolding request_handler registered framed
  handled msg key p g m h =
      subst (Ends (registered key msg p))
        (sym (
          ap (λ (m : Action (Option Error)). m p) (for_ok_step _ _ _ key g)
          ∙ bind_step (admit key msg) _ p _ _ (admits key msg p m h)))
        ((answered-Keeps (registered key msg p) msg (some (new_transaction key msg))).keeps
          (record (started key msg p) {
            server_transactions = insert key (new_transaction key msg) p.server_transactions;
          })
          (refl {A = Txns} {a = insert key (new_transaction key msg) p.server_transactions}))

  core_lem :
      (msg : Message)
      → msg.request ≡ true
      → proxy_core_handler env layer_core msg
        ≡ (request_handler env msg >>= λ (failure : Option Error). pure (msg, failure))
  unfolding proxy_core_handler
  core_lem msg r = branch-true _ _ msg.request r

  to_core-Ends :
      (V : Invariant) (msg : Message) (p : Proxy)
      → msg.request ≡ true
      → Ends V (request_handler env msg p)
      → Ends V (to_core env (proxy_mux env) layer_core msg p)
  unfolding to_core serve_sip serve_each proxy_mux lookup
  to_core-Ends V msg p r h =
      bind_Ends {V = V} (λ (_ : Message × Option Error). pure tt) (served p) (λ _. pure-Keeps)
        (bind_Ends {V = V} finish (proxy_core_handler env layer_core msg p)
          (λ res. for_some-Keeps res.1 pure-Keeps (λ e. pure-Keeps))
          (subst (λ (m : Action (Message × Option Error)). Ends V (m p)) (sym (core_lem msg r))
            (bind_Ends {V = V} (λ (failure : Option Error). pure (msg, failure))
              (request_handler env msg p) (λ _. pure-Keeps) h)))
    where
      finish : Message × Option Error → Action (Message × Option Error)
      finish (changed, failure) =
          for_some failure (pure (changed, none)) (λ e. pure (changed, some e))

      served : Action (Message × Option Error)
      served = proxy_core_handler env layer_core msg >>= finish

  -- The table after a request that has no transaction yet
  fresh_request :
      (msg : Message) (key : ServerTransactionKey) (p : Proxy)
      → msg.request ≡ true
      → generate_server_transaction_key env.urls.parse_query msg ≡ ok key
      → msg.method == method_ack ≡ false
      → lookup key p.server_transactions ≡ none
      → Ends (registered key msg p) (request_arrives env (proxy_mux env) msg p)
  unfolding request_arrives lookup_server_transaction
  fresh_request msg key p r g m h =
      rw (g, h) (to_core-Ends (registered key msg p) msg p r (handled msg key p g m h))

  found_again :
      (msg : Message) (key : ServerTransactionKey) (p q : Proxy) (o : Outcome (Unit {0} × Proxy))
      → o ≡ ok (tt, q)
      → Ends (registered key msg p) o
      → lookup key q.server_transactions ≡ some (new_transaction key msg)
  unfolding registered framed
  found_again msg key p q o e h =
      ap (lookup key) (subst (Ends (registered key msg p)) e h)
      ∙ lookup-insert key key (new_transaction key msg) p.server_transactions
      ∙ rw (eq_refl key) refl

  -- A request other than an ACK that arrives a second time is absorbed: where the server has no
  -- transaction of its key, and the processing of the first packet returns, the second packet of the
  -- same message reaches the transaction that the first one made, and does nothing else. The
  -- handlers are those that main registers.
  pub second_packet_absorbed :
      (reader reader' : Reader) (takes takes' : Bool) (addr bytes bytes' : Bytes) (msg : Message)
      (key : ServerTransactionKey) (p q : Proxy)
      → read_message env.urls reader (create_message addr) bytes ≡ ok (some msg)
      → read_message env.urls reader' (create_message addr) bytes' ≡ ok (some msg)
      → msg.request ≡ true
      → msg.method ≢ method_ack
      → generate_server_transaction_key env.urls.parse_query msg ≡ ok key
      → lookup key p.server_transactions ≡ none
      → packet_processing env (proxy_mux env) reader takes addr bytes p ≡ ok (tt, q)
      → packet_processing env (proxy_mux env) reader' takes' addr bytes' q
        ≡ ok (tt, record q { effects = handles_request key msg ∷ q.effects })
  unfolding absorbed
  second_packet_absorbed reader reader' takes takes' addr bytes bytes' msg key p q e e' r m g h
        done =
      packet_lem reader' takes' addr bytes' msg q e'
      ∙ request_lem takes' msg q r
      ∙ known_request msg key (new_transaction key msg) q g (
          found_again msg key p q _
            (sym (packet_lem reader takes addr bytes msg p e ∙ request_lem takes msg p r) ∙ done)
            (fresh_request msg key p r g (ground (arith, ==_iff msg.method method_ack)) h))
