-- ===== src/Contexts/Linked.antt =====
-- What the maps of the response contexts (proxy_core.go) keep whatever is added to them: consistency
-- asks that a client transaction is bound once, this does not.
use tjsip.Base.{◌≡◌, inl, inr, true, some, arith, Option-cases}
use tjsip.Transaction.Key.{
  ClientTransactionKey, ServerTransactionKey, client_key_beq_iff, server_key_beq_iff, client_key_eq,
  server_key_eq,
}
use tjsip.Contexts.{ResponseCtxs, get_st_from_ct, add, remove}
use tjsip.Contexts.Consistent.{
  bound, IsInhabited, add-IsInhabited, remove-IsInhabited, get_st_from_ct-add, bound-add,
  get_st_from_ct-remove, bound-remove, remove_unfound,
}

-- A bound client transaction stands among the children of its server transaction, and no server
-- transaction has an empty map of children.
pub record IsLinked (c : ResponseCtxs) : Type 0 where
  pub forward :
      (ct : ClientTransactionKey) (st : ServerTransactionKey)
      → get_st_from_ct c ct ≡ some st
      → bound c st ct ≡ true
  pub inhabited : IsInhabited c

module _ (c : ResponseCtxs) (st : ServerTransactionKey) (ct : ClientTransactionKey) where
  pub add-IsLinked : IsLinked c → IsLinked (add c st ct).0
  add-IsLinked i = record {
    forward = λ x s h. ground (
      arith,
      get_st_from_ct-add c st ct x,
      bound-add c st ct s x,
      i.forward x s,
      server_key_beq_iff st s,
      client_key_beq_iff ct x,
    );
    inhabited = add-IsInhabited c st ct i.inhabited;
  }

module _ (c : ResponseCtxs) (ct : ClientTransactionKey) where
  pub remove-IsLinked : IsLinked c → IsLinked (remove c ct).0
  remove-IsLinked i = elim (Option-cases (get_st_from_ct c ct)) [
    | inl e ↦ rw (remove_unfound c ct e) i
    | inr (st, e) ↦ record {
      forward = λ x s h. ground (
        arith,
        get_st_from_ct-remove c ct x,
        bound-remove c ct st s x e,
        i.forward x s,
        client_key_beq_iff ct x,
      );
      inhabited = remove-IsInhabited c ct i.inhabited;
    }
  ]
