-- ===== src/Transaction/Key/Match.antt =====
-- Which messages belong to one transaction: the keys of a request, of its CANCEL and of its ACK
-- (sip/message.go, sip/transaction.go).
use tjsip.Base.{
  ◌≡◌, refl, ap, ◌∙◌, sym, Bytes, List, [], ◌∷◌, arith, inl, inr, Option-cases, some, codes,
}
use tjsip.Base.Assoc.{Assoc, lookup}
use tjsip.Base.Outcome.{Outcome, ok, ◌>>=◌}
use tjsip.Base.Classes.{bytes_beq, bytes_beq_iff, bytes_eq}
use tjsip.Message.{Message, method_invite, method_cancel}
use tjsip.Message.Counters.{CSeq}
use tjsip.Message.Via.{Via, ViaHeaders, top_most, insert}
use tjsip.Message.Generate.{generate_cancel_request}
use tjsip.Transaction.Key.{
  ServerTransactionKey, generate_server_transaction_key, generate_client_transaction_key,
  update_method, get_top_most_via, branch_of, key_method,
}

abbrev only : Via → ViaHeaders
only v = record { header = v ∷ [] }

top_most-only : (v : Via) → top_most (only v) ≡ some v
unfolding top_most
top_most-only v = refl

-- What a CANCEL takes from its INVITE.
pub record Cancels (cancel req : Message) : Type 0 where
  pub vias : ViaHeaders
  pub top : Via
  pub sequence : CSeq
  pub req_via : req.via ≡ some vias
  pub req_top : top_most vias ≡ some top
  pub req_method : req.method ≡ method_invite
  pub cancel_via : cancel.via ≡ some (only top)
  pub cancel_method : cancel.method ≡ method_cancel
  pub req_cseq : req.cseq ≡ some sequence
  pub cancel_cseq : cancel.cseq ≡ some (record sequence { method = method_cancel })

generate_cancel_request-Cancels :
    (req cancel : Message) → generate_cancel_request req ≡ ok cancel → Cancels cancel req
unfolding generate_cancel_request insert
generate_cancel_request-Cancels req cancel h = elim (Option-cases req.via) [
  | inl e ↦ absurd (ground (arith))
  | inr (vias, e) ↦ elim (Option-cases (top_most vias)) [
    | inl t ↦ absurd (ground (arith))
    | inr (v, t) ↦ elim (Option-cases req.cseq) [
      | inl s ↦ absurd (ground arith)
      | inr (c, s) ↦ record {
        vias = vias;
        top = v;
        sequence = c;
        req_via = e;
        req_top = t;
        req_method = ground (arith, bytes_beq_iff req.method method_invite);
        cancel_via = ground arith;
        cancel_method = ground arith;
        req_cseq = s;
        cancel_cseq = ground arith;
      }
    ]
  ]
]

module _ (parse_query : Bytes → Assoc Bytes (List Bytes)) where
  key_from : Via → Bytes → Outcome ServerTransactionKey
  key_from v method = do
    branch ← branch_of (lookup (codes "branch") (parse_query v.raw_parameter))
    ok (record { via_branch = branch; sent_by = v.sent_by; method = key_method method })

  server_key-from :
      (msg : Message) (vias : ViaHeaders) (v : Via)
      → msg.via ≡ some vias
      → top_most vias ≡ some v
      → generate_server_transaction_key parse_query msg ≡ key_from v msg.method
  unfolding generate_server_transaction_key key_from
  server_key-from msg vias v e t = rw (e, get_top_most_via, t)

  client_key-from :
      (msg : Message) (vias : ViaHeaders) (v : Via) (c : CSeq)
      → msg.via ≡ some vias
      → top_most vias ≡ some v
      → msg.cseq ≡ some c
      → generate_client_transaction_key parse_query msg ≡ (
          branch_of (lookup (codes "branch") (parse_query v.raw_parameter)) >>= λ b.
          ok (record { via_branch = b; cseq_method = c.method }))
  unfolding generate_client_transaction_key
  client_key-from msg vias v c e t s = rw (e, s, get_top_most_via, t)

  -- A CANCEL that is made from a request with a key has that key, but for the method; so `UpdateMethod` with INVITE finds the
  -- transaction that it cancels.
  pub generate_cancel_request-key :
      (req cancel : Message) (key : ServerTransactionKey)
      → generate_cancel_request req ≡ ok cancel
      → generate_server_transaction_key parse_query req ≡ ok key
      → (generate_server_transaction_key parse_query cancel ≡ ok (update_method key method_cancel))
        × (update_method (update_method key method_cancel) method_invite ≡ key)
  unfolding key_from update_method bytes_beq
  generate_cancel_request-key req cancel key h k = proof
    where
      c : Cancels cancel req
      c = generate_cancel_request-Cancels req cancel h

      from_req : key_from c.top method_invite ≡ ok key
      from_req =
          ap (key_from c.top) (sym c.req_method)
          ∙ sym (server_key-from req c.vias c.top c.req_via c.req_top)
          ∙ k

      from_cancel :
          generate_server_transaction_key parse_query cancel ≡ key_from c.top method_cancel
      from_cancel =
          server_key-from cancel (only c.top) c.top c.cancel_via (top_most-only c.top)
          ∙ ap (key_from c.top) c.cancel_method

      proof :
          (generate_server_transaction_key parse_query cancel
            ≡ ok (update_method key method_cancel))
          × (update_method (update_method key method_cancel) method_invite ≡ key)
      proof = rw from_cancel (ground (arith, from_req))
