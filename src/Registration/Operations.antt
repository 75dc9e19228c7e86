-- ===== src/Registration/Operations.antt =====
-- The operations that a REGISTER request leads to (proxy_registration.go).
use tjsip.Base.{
  zero, suc, ℕ, ◌≡◌, ◌≢◌, ◌≤◌, ◌<◌, refl, ap, sym, Bool, true, false, not, ◌&&◌, ◌||◌, Option, none,
  some, List, [], ◌∷◌, ◌++◌, map, Bytes, codes, if◌then◌else◌, is_some, arith, inl, inr, ◌⊎◌,
}
use tjsip.Base.Classes.{◌==◌, bytes_eq}
use tjsip.Base.Assoc.{Assoc}
use tjsip.Base.Int.{ℤ, pos, negsuc}
use tjsip.Base.Text.{parse_int}
use tjsip.Message.{Uri, Contact, Message}
use tjsip.Registration.{
  query, update, del, del_all, RegistrationOperation, new_operation, Result, done, refused,
  out_of_range, too_brief, has_uri, value_of, or_zero, by_expires, determ_operation, bind_of,
  determ_all, collect, expires_text, operations, is_zero, status_interval_too_brief,
  minimum_expires, status_bad_request, with_query, contacts_of,
}

-- At least the least time that a registration may last.
abbrev pub LongEnough : ℤ → Type 0
LongEnough (pos n) = minimum_expires ≤ n
LongEnough (negsuc n) = ⊥

-- A quality that passes the test.
abbrev pub Quality : ℤ → Type 0
Quality x = (x ≡ pos 0) ⊎ (x ≡ pos 1)

-- What is known of an update, where the result is one.
record Updates (bind : Option Uri) (r : Result RegistrationOperation) : Type 0 where
  known :
      (op : RegistrationOperation)
      → r ≡ done op
      → op.operation ≡ update
      → LongEnough op.expires × Quality op.q × (op.bind_addr ≡ bind)

refused-Updates : (bind : Option Uri) (status : ℕ) → Updates bind (refused status)
refused-Updates bind status = record { known = λ op h u. absurd (ground arith) }

del-Updates :
    (bind : Option Uri) (op : RegistrationOperation)
    → op.operation ≢ update
    → Updates bind (done op)
del-Updates bind op n = record { known = λ o h u. absurd (ground arith) }

update-Updates :
    (bind : Option Uri) (expires q : ℤ)
    → LongEnough expires
    → Quality q
    → Updates bind
        (done (record { operation = update; bind_addr = bind; expires = expires; q = q }))
update-Updates bind expires q l h = record { known = λ o e u. from o e }
  where
    value : Result RegistrationOperation → RegistrationOperation
    value (done o) = o
    value (refused s) = new_operation query

    from :
        (o : RegistrationOperation)
        → done (record { operation = update; bind_addr = bind; expires = expires; q = q }) ≡ done o
        → LongEnough o.expires × Quality o.q × (o.bind_addr ≡ bind)
    from o e = rw (sym (ap value e)) (l, h, refl)

if-Updates :
    {bind : Option Uri} (b : Bool) {x y : Result RegistrationOperation}
    → (b ≡ true → Updates bind x)
    → (b ≡ false → Updates bind y)
    → Updates bind (if b then x else y)
if-Updates true hx hy = hx refl
if-Updates false hx hy = hy refl

too_brief-LongEnough : (x : ℤ) → too_brief x ≡ false → LongEnough x
too_brief-LongEnough (pos n) h = ground arith
too_brief-LongEnough (negsuc n) h = absurd (ground arith)

out_of_range-Quality : (x : ℤ) → out_of_range x ≡ false → Quality x
out_of_range-Quality (pos zero) h = inl refl
out_of_range-Quality (pos (suc zero)) h = inr refl
out_of_range-Quality (pos (suc (suc n))) h = absurd (ground arith)
out_of_range-Quality (negsuc n) h = absurd (ground arith)

del-ne-update : del ≢ update
del-ne-update h = absurd (ground arith)

del_all-ne-update : del_all ≢ update
del_all-ne-update h = absurd (ground arith)

module _ (parse_query : Bytes → Assoc Bytes (List Bytes)) (parse_percent : Bytes → Option ℤ) where
  by_expires-Updates :
      (text : Bytes) (q expires : ℤ) (ok_e : Bool) (bind : Option Uri)
      → Quality q
      → Updates bind (by_expires parse_query parse_percent text q expires ok_e bind)
  unfolding by_expires
  by_expires-Updates text q expires ok_e bind h =
      let ok_pe = not (text == []) in
      let p_expires = or_zero (parse_int text) in
      let expected : ℤ =
        if ok_e then expires else if ok_pe then p_expires else pos minimum_expires in
      if-Updates (ok_pe && not (is_some (parse_int text)))
        (λ e. refused-Updates bind status_bad_request)
        (λ e.
          if-Updates ((ok_pe && is_zero p_expires) || (ok_e && is_zero expires && not ok_pe))
            (λ d. del-Updates bind (record (new_operation del) { bind_addr = bind }) del-ne-update)
            (λ d.
              if-Updates (too_brief expected) (λ t. refused-Updates bind status_interval_too_brief)
                (λ t. update-Updates bind expected q (too_brief-LongEnough expected t) h)))

  determ_operation-Updates :
      (contact : Option Contact) (expires : ℤ) (ok_e : Bool) (bind : Option Uri)
      → Updates bind (determ_operation parse_query parse_percent contact expires ok_e bind)
  unfolding determ_operation
  determ_operation-Updates none expires ok_e bind = refused-Updates bind status_bad_request
  determ_operation-Updates (some c) expires ok_e bind =
      let values = parse_query c.raw_parameter in
      let q = or_zero (parse_percent (value_of (codes "q") values)) in
      if-Updates c.star
        (λ s.
          if-Updates (is_zero expires)
            (λ z. del-Updates bind (new_operation del_all) del_all-ne-update)
            (λ z. refused-Updates bind status_bad_request))
        (λ s.
          if-Updates (not (has_uri c.addr)) (λ a. refused-Updates bind status_bad_request)
            (λ a.
              if-Updates (out_of_range q) (λ o. refused-Updates bind status_bad_request)
                (λ o.
                  by_expires-Updates (value_of (codes "expires") values) q expires ok_e bind
                    (out_of_range-Quality q o))))

  -- A registration that is entered lasts at least the least time, is for the address of the
  -- contact, and has a quality of 0 or of 1 hundredth.
  determ_operation-update :
      (contact : Option Contact) (expires : ℤ) (ok_e : Bool) (bind : Option Uri)
      (op : RegistrationOperation)
      → determ_operation parse_query parse_percent contact expires ok_e bind ≡ done op
      → op.operation ≡ update
      → LongEnough op.expires × Quality op.q × (op.bind_addr ≡ bind)
  determ_operation-update contact expires ok_e bind op h u =
      (determ_operation-Updates contact expires ok_e bind).known op h u

  -- A contact other than `*` whose quality is more than one hundredth is refused with 400.
  quality_refused :
      (contact : Contact) (expires : ℤ) (ok_e : Bool) (bind : Option Uri) (n : ℕ)
      → contact.star ≡ false
      → parse_percent (value_of (codes "q") (parse_query contact.raw_parameter)) ≡ some (pos n)
      → 1 < n
      → determ_operation parse_query parse_percent (some contact) expires ok_e bind
        ≡ refused status_bad_request
  unfolding determ_operation
  quality_refused contact expires ok_e bind n s e h = ground arith

  -- What each contact leads to.
  abbrev pub determ : ℤ → Bool → Contact → Result RegistrationOperation
  determ expires ok_e c =
      determ_operation parse_query parse_percent (some c) expires ok_e (bind_of c.addr)

  collect-done :
      (r : Result RegistrationOperation) (rest : Result (List RegistrationOperation))
      (ops : List RegistrationOperation)
      → collect parse_query parse_percent r rest ≡ done ops
      → (o : RegistrationOperation) × (os : List RegistrationOperation) × (r ≡ done o)
        × (rest ≡ done os)
        × (o ∷ os ≡ ops)
  unfolding collect
  collect-done (refused status) rest ops h = absurd (ground arith)
  collect-done (done o) (refused status) ops h = absurd (ground arith)
  collect-done (done o) (done os) ops h = (o, os, refl, refl, ground arith)

  determ_all-done :
      (expires : ℤ) (ok_e : Bool) (cs : List Contact) (ops : List RegistrationOperation)
      → determ_all parse_query parse_percent expires ok_e cs ≡ done ops
      → map (determ expires ok_e) cs ≡ map done ops
  unfolding determ_all
  determ_all-done expires ok_e [] [] h = refl
  determ_all-done expires ok_e [] (o ∷ os) h = absurd (ground arith)
  determ_all-done expires ok_e (c ∷ cs) ops h =
      let (o, os, first, rest, all) =
        collect-done (determ expires ok_e c) (determ_all parse_query parse_percent expires ok_e cs)
          ops h in
      let later : map (determ expires ok_e) cs ≡ map done os =
        determ_all-done expires ok_e cs os rest in
      rw (first, later) (ap (map done) all)

  with_query-done :
      (b : Bool) (r : Result (List RegistrationOperation)) (all : List RegistrationOperation)
      → (if b then refused status_bad_request else with_query parse_query parse_percent r)
        ≡ done all
      → (ops : List RegistrationOperation) × (r ≡ done ops)
        × (all ≡ ops ++ new_operation query ∷ [])
  with_query-done true r all h = absurd (ground arith)
  with_query-done false (refused status) all h = absurd (ground arith)
  with_query-done false (done ops) all h = (ops, refl, ground arith)

  -- A request that is accepted leads to one operation for each contact, in their order, each of which
  -- is accepted by itself, and to a query of the registrations at the end.
  pub operations-done :
      (msg : Message) (all : List RegistrationOperation)
      → operations parse_query parse_percent msg ≡ done all
      → (ops : List RegistrationOperation) × (all ≡ ops ++ new_operation query ∷ [])
        × (map
              (determ (or_zero (parse_int (expires_text msg))) (not (expires_text msg == [])))
              (contacts_of msg.contact)
            ≡ map done ops)
  unfolding operations
  operations-done msg all h =
      let expires : ℤ = or_zero (parse_int (expires_text msg)) in
      let ok_e : Bool = not (expires_text msg == []) in
      let r = determ_all parse_query parse_percent expires ok_e (contacts_of msg.contact) in
      let (ops, rest, end) =
        with_query-done (ok_e && not (is_some (parse_int (expires_text msg)))) r all h in
      (ops, end, determ_all-done expires ok_e (contacts_of msg.contact) ops rest)
