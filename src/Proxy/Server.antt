-- ===== src/Proxy/Server.antt =====
-- What the handlers call of the server and of the transactions (sip/server.go, sip/transaction.go).
use tjsip.Base.{◌+◌, Bool, true, not, Option, none, some, List, [], ◌∷◌, ◌++◌, Bytes, codes}
use tjsip.Base.Classes.{◌==◌, bytes_eq}
use tjsip.Base.Assoc.{lookup}
use tjsip.Base.Outcome.{Outcome, ok, err, panic, Error}
use tjsip.Message.{Message, Contact}
use tjsip.Message.Via.{Via, ViaHeaders, new_via_headers, top_most, insert}
use tjsip.Message.Generate.{new_via_header}
use tjsip.Message.Parse.{new_contact_header}
use tjsip.Transaction.Key.{
  ClientTransactionKey, ServerTransactionKey, generate_client_transaction_key, client_key_eq,
  server_key_eq,
}
use tjsip.Server.{add_client_transaction, delete_transaction, register_server_transaction}
use tjsip.Proxy.{
  Env, Action, Txn, Handler, to_server_transaction, to_client_transaction, to_wire, starts_server,
  starts_client, pure, crash, gets, lift, state, modify, emit, branch, for_some, for_ok, ◌>>=◌,
  ◌>>◌,
}

-- A pointer that the code reads without a test.
abbrev pub deref : {A : Type 0} → Option A → Action A
deref none = crash
deref (some a) = pure a

unfoldable pub lookup_server_transaction :
    ServerTransactionKey → Action (Option (Txn ServerTransactionKey))
lookup_server_transaction key = gets λ p. lookup key p.server_transactions

unfoldable pub lookup_client_transaction :
    ClientTransactionKey → Action (Option (Txn ClientTransactionKey))
lookup_client_transaction key = gets λ p. lookup key p.client_transactions

unfoldable pub add_client : Txn ClientTransactionKey → Action (Option Error)
unfolding add_client_transaction
add_client t = state λ p.
    let (m, failure) = add_client_transaction (λ x. x.key) p.client_transactions t in
    (failure, record p { client_transactions = m })

-- `Destroy` of a client transaction, as far as the tables go
unfoldable pub destroy_client : Txn ClientTransactionKey → Action (Unit {0})
unfolding delete_transaction
destroy_client t =
    modify λ p. record p {
      client_transactions = delete_transaction (λ x. x.key) p.client_transactions t;
    }

-- AddServerTransaction, and Destroy of a transaction that cannot be added
unfoldable pub register : Txn ServerTransactionKey → Action (Option Error)
unfolding register_server_transaction
register t = state λ p.
    let (m, failure) = register_server_transaction (λ x. x.key) p.server_transactions t in
    (failure, record p { server_transactions = m })

-- NewServerInviteTransaction, and NewServerNonInviteTransaction
unfoldable pub new_server_transaction :
    Bool → ServerTransactionKey → Message → Action (Txn ServerTransactionKey)
unfolding emit
new_server_transaction invite key msg =
    let t : Txn ServerTransactionKey = record {
      key = key;
      request = msg;
      provisional_res = none;
      error = none;
    } in
    emit (starts_server invite t) >> pure t

unfoldable pub write_to_server : Txn ServerTransactionKey → Message → Action (Unit {0})
unfolding emit
write_to_server t msg = emit (to_server_transaction t.key msg)

unfoldable pub write_to_client : Txn ClientTransactionKey → Message → Action (Unit {0})
unfolding emit
write_to_client t msg = emit (to_client_transaction t.key msg)

abbrev magic_via_branch : Bytes
magic_via_branch = codes "z9hG4bK"

module _ (env : Env) where
  -- The next random text.
  unfoldable pub draw : Action Bytes
  draw = state λ p. (env.random p.drawn, record p { drawn = p.drawn + 1 })

  -- A Via of this proxy, whose branch GenerateBranchParam makes.
  unfoldable pub own_via : Bytes → Via
  unfolding new_via_header
  own_via text =
      new_via_header (codes "SIP/2.0/UDP") env.address (codes "branch=" ++ magic_via_branch ++ text)

  -- msg.Via.TopMost() == nil || msg.Via.TopMost().SentBy != localAddr
  unfoldable pub lacks_own_via : Option Via → Bool
  lacks_own_via none = true
  lacks_own_via (some via) = not (via.sent_by == env.address)

  abbrev vias_of : Message → ViaHeaders
  vias_of msg = elim msg.via [ none ↦ new_via_headers | some v ↦ v ]

  unfoldable pub insert_own_via : Message → Action Message
  unfolding lacks_own_via draw own_via
  insert_own_via msg =
      let vias = vias_of msg in
      branch (lacks_own_via (top_most vias))
        (do text ← draw; pure (record msg { via = some (insert vias (own_via text)).0 }))
        (pure (record msg { via = some vias }))

  -- NewClientInviteTransaction, and NewClientNonInviteTransaction; `none` is the nil where the key
  -- cannot be made.
  unfoldable pub new_client_transaction :
      Bool → Message → Handler → Action (Option (Txn ClientTransactionKey))
  unfolding insert_own_via emit
  new_client_transaction invite msg handler = do
    sent ← insert_own_via msg
    for_ok (generate_client_transaction_key env.urls.parse_query sent) (λ e. pure none)
        (λ key.
          let t : Txn ClientTransactionKey = record {
            key = key;
            request = sent;
            provisional_res = none;
            error = none;
          } in
          emit (starts_client invite t handler) >> pure (some t))

  -- Server.WriteMessage. The topmost Via is read for the log, also where there is none. Where the
  -- message has no contact, one with this address is made; where its URI cannot be read the contact
  -- is nil, and printing the message panics.
  own_contact : Outcome (List Contact)
  unfolding new_contact_header
  own_contact = elim (env.urls.parse (codes "sip:" ++ env.address)) [
    | none ↦ panic
    | some uri ↦
        elim (new_contact_header env.urls (some (record { display_name = []; uri = some uri }))
          []) [ ok c ↦ ok (c ∷ []) | err e ↦ err e | panic ↦ panic ]
  ]

  unfoldable pub contacts_for : Option (List Contact) → Outcome (List Contact)
  unfolding own_contact
  contacts_for none = own_contact
  contacts_for (some []) = own_contact
  contacts_for (some (c ∷ cs)) = ok (c ∷ cs)

  unfoldable pub prepared : Message → Action Message
  unfolding insert_own_via contacts_for
  prepared msg =
      branch msg.request
        (do
          _ ← deref (top_most (vias_of msg))
          sent ← insert_own_via msg
          contacts ← lift (contacts_for sent.contact)
          pure (record sent { contact = some contacts }))
        (pure msg)

  unfoldable pub write_message : Message → Action (Option Error)
  unfolding prepared emit
  write_message msg = do
    sent ← prepared msg
    let (final, dropped) = env.egress sent
    for_some dropped (emit (to_wire final) >> pure (env.transport final)) (λ e. pure (some e))
