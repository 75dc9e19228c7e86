-- ===== src/Registration/Bindings/Laws.antt =====
-- The rows of the registrar as a map from an address and a binding to a row, and the order of what a
-- query lists (proxy_registration.go).
use tjsip.Base.{
  ℕ, ◌+◌, Bool, not, ◌≡◌, refl, true, false, ◌&&◌, Option, none, some, List, [], ◌∷◌, Bytes, arith,
  if◌then◌else◌, Bool-cases, inl, inr,
}
use tjsip.Base.Classes.{◌==◌, bytes_eq, bytes_beq_iff}
use tjsip.Base.Int.{ℤ, pos, negsuc, ltb_int, add_int64}
use tjsip.Base.Outcome.{ok}
use tjsip.Message.{Uri, Contact}
use tjsip.Message.Urls.{Urls}
use tjsip.Registration.{RegistrationOperation, OperationKind, query, update, del, del_all}
use tjsip.Registration.Bindings.{
  Binding, query_binding, insert_by_q, is_live, delete_binding, delete_bindings, run_operation,
  print_bind,
}

-- The row of an address and a binding
unfoldable pub find_row : Bytes → Bytes → List Binding → Option Binding
find_row a b [] = none
find_row a b (r ∷ rs) = if r.aor == a && r.bind == b then some r else find_row a b rs

find_row-delete_binding :
    (a b aor bind : Bytes) (rows : List Binding)
    → find_row a b (delete_binding aor bind rows)
      ≡ (if aor == a && bind == b then none else find_row a b rows)
unfolding find_row delete_binding
find_row-delete_binding a b aor bind [] = ground arith
find_row-delete_binding a b aor bind (r ∷ rs) = ground (
  arith,
  find_row-delete_binding a b aor bind rs,
  bytes_beq_iff r.aor aor,
  bytes_beq_iff r.bind bind,
  bytes_beq_iff r.aor a,
  bytes_beq_iff r.bind b,
  bytes_beq_iff aor a,
  bytes_beq_iff bind b,
)

find_row-delete_bindings :
    (a b aor : Bytes) (rows : List Binding)
    → find_row a b (delete_bindings aor rows) ≡ (if aor == a then none else find_row a b rows)
unfolding find_row delete_bindings
find_row-delete_bindings a b aor [] = ground arith
find_row-delete_bindings a b aor (r ∷ rs) = ground (
  arith,
  find_row-delete_bindings a b aor rs,
  bytes_beq_iff r.aor aor,
  bytes_beq_iff r.aor a,
  bytes_beq_iff aor a,
)

module _ (urls : Urls) (aor : Bytes) (now : ℕ) (a b : Bytes) where
  -- What an operation makes of the row of `a` and `b`; a query and the deletion of all have no binding.
  pub row_after :
      OperationKind → RegistrationOperation → Option Uri → Option Binding → Option Binding
  row_after query op uri row = row
  row_after update op (some uri) row =
      if aor == a && urls.print uri == b
      then some (record {
        aor = aor;
        bind = urls.print uri;
        q = op.q;
        expired_at = add_int64 op.expires now;
      })
      else row
  row_after del op (some uri) row = if aor == a && urls.print uri == b then none else row
  row_after del_all op uri row = if aor == a then none else row
  row_after _ op none row = row

  by_binding :
      (op : RegistrationOperation) (cs cs' : Option (List (Option Contact)))
      (rows rows' : List Binding)
      → run_operation urls aor now op (cs, rows) ≡ ok (cs', rows')
      → (u : Option Uri) → op.bind_addr ≡ u
      → find_row a b rows' ≡ row_after op.operation op u (find_row a b rows)
  unfolding run_operation print_bind find_row row_after
  by_binding op cs cs' rows rows' h none u = ground (arith, find_row-delete_bindings a b aor rows)
  by_binding op cs cs' rows rows' h (some uri) u = ground (
    arith,
    find_row-delete_binding a b aor (urls.print uri) rows,
    find_row-delete_bindings a b aor rows,
  )

  -- An operation on the bindings of an address, where it succeeds, does to the map of rows what its kind
  -- says: a query keeps it, an update puts the binding in with its quality and its end, a deletion takes
  -- the binding out, and the deletion of all takes out every binding of the address.
  pub run_operation-find_row :
      (op : RegistrationOperation) (cs cs' : Option (List (Option Contact)))
      (rows rows' : List Binding)
      → run_operation urls aor now op (cs, rows) ≡ ok (cs', rows')
      → find_row a b rows' ≡ row_after op.operation op op.bind_addr (find_row a b rows)
  run_operation-find_row op cs cs' rows rows' h =
      by_binding op cs cs' rows rows' h op.bind_addr refl

-- No row of the list has a quality above that of a row before it.
abbrev pub IsDescending : List Binding → Type 0
IsDescending [] = Unit {0}
IsDescending (r ∷ []) = Unit {0}
IsDescending (r ∷ s ∷ rs) = (ltb_int r.q s.q ≡ false) × IsDescending (s ∷ rs)

ltb_int_asym : (x y : ℤ) → ltb_int x y ≡ true → ltb_int y x ≡ false
ltb_int_asym (pos m) (pos n) h = ground arith
ltb_int_asym (pos m) (negsuc n) h = ground arith
ltb_int_asym (negsuc m) (pos n) h = refl
ltb_int_asym (negsuc m) (negsuc n) h = ground arith

insert_by_q-IsDescending :
    (b : Binding) (rows : List Binding) → IsDescending rows → IsDescending (insert_by_q b rows)
unfolding insert_by_q
insert_by_q-IsDescending b [] d = tt
insert_by_q-IsDescending b (c ∷ []) d = elim (Bool-cases (ltb_int b.q c.q)) [
  | inl l ↦ rw l (ltb_int_asym b.q c.q l, tt)
  | inr l ↦ rw l (l, tt)
]
insert_by_q-IsDescending b (c ∷ e ∷ rows) d = elim (Bool-cases (ltb_int b.q c.q)) [
  | inl l ↦
      let ih = insert_by_q-IsDescending b (e ∷ rows) d.1 in
      elim (Bool-cases (ltb_int b.q e.q)) [
        | inl m ↦ rw (l, m) (d.0, rw m at ih)
        | inr m ↦ rw (l, m) (ltb_int_asym b.q c.q l, rw m at ih)
      ]
  | inr l ↦ rw l (l, d)
]

query_binding-IsDescending :
    (aor : Bytes) (now : ℕ) (rows : List Binding) → IsDescending (query_binding aor now rows)
unfolding query_binding
query_binding-IsDescending aor now [] = tt
query_binding-IsDescending aor now (b ∷ bs) = elim (Bool-cases (is_live aor now b)) [
  | inl t ↦ rw t (
      insert_by_q-IsDescending b (query_binding aor now bs) (query_binding-IsDescending aor now bs))
  | inr t ↦ rw t (query_binding-IsDescending aor now bs)
]

-- How many rows pass a test
abbrev pub count : (Binding → Bool) → List Binding → ℕ
count f [] = 0
count f (r ∷ rs) = (if f r then 1 else 0) + count f rs

count-insert_by_q :
    (f : Binding → Bool) (b : Binding) (rows : List Binding)
    → count f (insert_by_q b rows) ≡ count f (b ∷ rows)
unfolding insert_by_q
count-insert_by_q f b [] = refl
count-insert_by_q f b (c ∷ cs) = ground (arith, count-insert_by_q f b cs)

-- A row of the address whose end is not before the time
abbrev pub in_force : Bytes → ℕ → Binding → Bool
in_force aor now r = r.aor == aor && not (ltb_int r.expired_at (pos now))

count-query_binding :
    (aor : Bytes) (now : ℕ) (rows : List Binding) (f : Binding → Bool)
    → count f (query_binding aor now rows) ≡ count (λ r. f r && in_force aor now r) rows
unfolding query_binding is_live
count-query_binding aor now [] f = refl
count-query_binding aor now (b ∷ bs) f =
    ground
      (arith, count-query_binding aor now bs f, count-insert_by_q f b (query_binding aor now bs))

-- A query lists the rows of the address whose end is not before the time, each as often as the table
-- has it, and none has a quality above that of one before it.
pub query_binding_lem :
    (aor : Bytes) (now : ℕ) (rows : List Binding)
    → IsDescending (query_binding aor now rows)
      × ((f : Binding → Bool)
          → count f (query_binding aor now rows) ≡ count (λ r. f r && in_force aor now r) rows)
query_binding_lem aor now rows =
    (query_binding-IsDescending aor now rows, count-query_binding aor now rows)
