-- ===== src/Contexts/Consistent.antt =====
-- The two maps of the response contexts (proxy_core.go) mirror each other.
use tjsip.Base.{
  ◌≡◌, ◌↔◌, ◌⊎◌, inl, inr, Bool, true, false, ◌&&◌, none, some, arith, if◌then◌else◌, is_some,
  Bool-cases, Option-cases,
}
use tjsip.Base.Classes.{◌==◌}
use tjsip.Base.Assoc.{
  lookup, insert, delete, is_empty, lookup-insert, lookup-delete, lookup_empty, lookup-nil,
  some_key,
}
use tjsip.Transaction.Key.{
  ClientTransactionKey, ServerTransactionKey, client_key_beq_iff, server_key_beq_iff, client_key_eq,
  server_key_eq,
}
use tjsip.Contexts.{ResponseCtx, ResponseCtxs, children, get_st_from_ct, add, remove, remove_bound}

-- `ct` stands among the children of `st`.
abbrev pub bound : ResponseCtxs → ServerTransactionKey → ClientTransactionKey → Bool
bound c st ct = is_some (lookup ct (children c st))

-- No server transaction has an empty map of children.
abbrev pub IsInhabited : ResponseCtxs → Type 0
IsInhabited c =
    (st : ServerTransactionKey) (cts : ResponseCtx)
    → lookup st c.st_to_ct ≡ some cts
    → is_empty cts ≡ false

pub record IsConsistent (c : ResponseCtxs) : Type 0 where
  pub forward :
      (ct : ClientTransactionKey) (st : ServerTransactionKey)
      → get_st_from_ct c ct ≡ some st
      → bound c st ct ≡ true
  pub backward :
      (ct : ClientTransactionKey) (st : ServerTransactionKey)
      → bound c st ct ≡ true
      → get_st_from_ct c ct ≡ some st
  pub inhabited : IsInhabited c

module _ (c : ResponseCtxs) (st : ServerTransactionKey) (ct : ClientTransactionKey) where
  pub get_st_from_ct-add :
      (x : ClientTransactionKey)
      → get_st_from_ct (add c st ct).0 x ≡ (if ct == x then some st else get_st_from_ct c x)
  unfolding get_st_from_ct add
  get_st_from_ct-add x = lookup-insert ct x st c.ct_to_st

  pub bound-add :
      (s : ServerTransactionKey) (x : ClientTransactionKey)
      → bound (add c st ct).0 s x ≡ (if st == s && ct == x then true else bound c s x)
  unfolding children add
  bound-add s x = ground (
    arith,
    lookup-insert st s (insert ct true (children c st)) c.st_to_ct,
    lookup-insert ct x true (children c st),
    server_key_beq_iff st s,
    client_key_beq_iff ct x,
  )

  pub add-IsInhabited : IsInhabited c → IsInhabited (add c st ct).0
  unfolding add insert is_empty lookup
  add-IsInhabited i s cts h = ground (arith, i s cts)

  -- A client transaction that is bound to nothing, or to this server transaction already, can be
  -- added to a consistent pair of maps.
  pub add-IsConsistent :
      IsConsistent c
      → (get_st_from_ct c ct ≡ none) ⊎ (get_st_from_ct c ct ≡ some st)
      → IsConsistent (add c st ct).0
  add-IsConsistent i free = record {
    forward = λ x s h. ground (
      arith,
      get_st_from_ct-add x,
      bound-add s x,
      i.forward x s,
      server_key_beq_iff st s,
      client_key_beq_iff ct x,
    );
    backward = λ x s h. ground (
      arith,
      get_st_from_ct-add x,
      bound-add s x,
      i.backward x s,
      server_key_beq_iff st s,
      client_key_beq_iff ct x,
    );
    inhabited = add-IsInhabited i.inhabited;
  }

module _ (c : ResponseCtxs) (ct : ClientTransactionKey) where
  pub get_st_from_ct-remove :
      (x : ClientTransactionKey)
      → get_st_from_ct (remove c ct).0 x ≡ (if ct == x then none else get_st_from_ct c x)
  unfolding get_st_from_ct remove
  get_st_from_ct-remove x = ground (arith, lookup-delete ct x c.ct_to_st, client_key_beq_iff ct x)

  pub remove_unfound : get_st_from_ct c ct ≡ none → (remove c ct).0 ≡ c
  unfolding get_st_from_ct remove
  remove_unfound h = rw (h, remove)

  remove_found :
      {st : ServerTransactionKey}
      → get_st_from_ct c ct ≡ some st
      → remove c ct ≡ remove_bound c ct st
  unfolding get_st_from_ct remove
  remove_found h = rw (h, remove)

  bound-remove_bound :
      (st s : ServerTransactionKey) (x : ClientTransactionKey)
      → bound (remove_bound c ct st).0 s x ≡ (if st == s && ct == x then false else bound c s x)
  unfolding children remove_bound
  bound-remove_bound st s x = ground (
    arith,
    lookup-delete ct x (children c st),
    lookup-delete st s c.st_to_ct,
    lookup-insert st s (delete ct (children c st)) c.st_to_ct,
    lookup_empty x (delete ct (children c st)),
    lookup-nil {V = Bool} x,
    server_key_beq_iff st s,
  )

  -- The children of every server transaction after a removal.
  pub bound-remove :
      (st s : ServerTransactionKey) (x : ClientTransactionKey)
      → get_st_from_ct c ct ≡ some st
      → bound (remove c ct).0 s x ≡ (if st == s && ct == x then false else bound c s x)
  bound-remove st s x h = rw (remove_found h) (bound-remove_bound st s x)

  pub remove-IsInhabited : IsInhabited c → IsInhabited (remove c ct).0
  unfolding remove_bound
  remove-IsInhabited i s cts h = elim (Option-cases (get_st_from_ct c ct)) [
    | inl e ↦ i s cts (rw (remove_unfound e) at h)
    | inr (st, e) ↦
        let h' : lookup s (remove_bound c ct st).0.st_to_ct ≡ some cts = rw (remove_found e) at h in
        ground (
          arith,
          i s cts,
          lookup-delete st s c.st_to_ct,
          lookup-insert st s (delete ct (children c st)) c.st_to_ct,
        )
  ]

  -- A removal keeps the two maps consistent, whether the client transaction is found or not.
  pub remove-IsConsistent : IsConsistent c → IsConsistent (remove c ct).0
  remove-IsConsistent i = elim (Option-cases (get_st_from_ct c ct)) [
    | inl e ↦ rw (remove_unfound e) i
    | inr (st, e) ↦ record {
      forward = λ x s h. ground (
        arith,
        get_st_from_ct-remove x,
        bound-remove st s x e,
        i.forward x s,
        client_key_beq_iff ct x,
      );
      backward = λ x s h. ground (
        arith,
        get_st_from_ct-remove x,
        bound-remove st s x e,
        i.backward x s,
        i.backward ct s,
        server_key_beq_iff st s,
        client_key_beq_iff ct x,
      );
      inhabited = remove-IsInhabited i.inhabited;
    }
  ]

  -- In consistent maps, `Remove` of a bound client transaction asks for the removal of its server
  -- transaction exactly when no other client transaction is bound to the same one.
  pub remove_last_iff :
      IsConsistent c
      → (st : ServerTransactionKey) → get_st_from_ct c ct ≡ some st
      → ((remove c ct).1.remove_server_transaction ≡ true)
        ↔ ((x : ClientTransactionKey) → get_st_from_ct c x ≡ some st → x ≡ ct)
  unfolding remove_bound
  remove_last_iff i st h = rw (remove_found h) (
    (λ e x b. ground (
      arith,
      i.forward x st b,
      lookup-delete ct x (children c st),
      lookup_empty x (delete ct (children c st)) e,
      client_key_beq_iff ct x,
    )),
    (λ only. elim (Bool-cases (is_empty (delete ct (children c st)))) [
      | inl e ↦ e
      | inr e ↦
          let (x, k) = some_key (delete ct (children c st)) e in
          ground (
            arith,
            lookup-delete ct x (children c st),
            i.backward x st,
            only x,
            client_key_beq_iff ct x,
          )
    ]),
  )
