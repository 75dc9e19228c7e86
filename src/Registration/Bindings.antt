-- ===== src/Registration/Bindings.antt =====
-- The tables of the registrar and the transaction that works on them (proxy_registration.go). A row is
-- a record and a table is the list of its rows; an SQL statement is the function on lists that it says.
pub mod Laws
use tjsip.Base.{
  ℕ, zero, suc, ◌+◌, ◌-◌, ◌/◌, ◌%◌, Bool, true, false, not, ◌&&◌, Option, none, some, List, [], ◌∷◌,
  ◌++◌, Bytes, codes, leb, ltb, length, if◌then◌else◌,
}
use tjsip.Base.Classes.{◌==◌, bytes_eq}
use tjsip.Base.Int.{ℤ, pos, negsuc, ltb_int, add_int64, sub_int64}
use tjsip.Base.Text.{format_int, trim, blanks}
use tjsip.Base.Outcome.{Outcome, ok, err, panic, ◌>>=◌}
use tjsip.Message.{Uri, To, Contact, CallId, Message}
use tjsip.Message.Urls.{Urls}
use tjsip.Message.Counters.{CSeq}
use tjsip.Message.Print.{print_call_id}
use tjsip.Message.Parse.{new_contact_header}
use tjsip.Message.Headers.{Header}
use tjsip.Registration.{
  RegistrationOperation, query, update, del, del_all, operations, done, refused, status_bad_request,
  bind_of,
}

-- A row of `register`, which is also a TableReigster.
pub record Binding : Type 0 where
  pub aor : Bytes
  pub bind : Bytes
  pub q : ℤ
  pub expired_at : ℤ

-- A row of `register_seq`
pub record Sequence : Type 0 where
  pub aor : Bytes
  pub call_id : Bytes
  pub seq : ℤ

pub record Tables : Type 0 where
  pub register : List Binding
  pub register_seq : List Sequence

-- Contact is nil where no operation was a query. A contact is nil where its URI cannot be read.
pub record RegistrationResult : Type 0 where
  pub status : ℕ
  pub contact : Option (List (Option Contact))

abbrev pub new_registration_result : ℕ → RegistrationResult
new_registration_result status = record { status = status; contact = none }

-- ORDER BY q DESC; SQL leaves the order of equal rows open.
insert_by_q : Binding → List Binding → List Binding
insert_by_q b [] = b ∷ []
insert_by_q b (c ∷ cs) =
    let rest = insert_by_q b cs in if ltb_int b.q c.q then c ∷ rest else b ∷ c ∷ cs

-- WHERE aor = ? AND expired_at >= ?
unfoldable pub is_live : Bytes → ℕ → Binding → Bool
is_live aor now b = b.aor == aor && not (ltb_int b.expired_at (pos now))

-- queryBinding
unfoldable pub query_binding : Bytes → ℕ → List Binding → List Binding
unfolding insert_by_q is_live
query_binding aor now [] = []
query_binding aor now (b ∷ bs) =
    let rest = query_binding aor now bs in if is_live aor now b then insert_by_q b rest else rest

-- DELETE FROM register WHERE aor = ? AND bind = ?
unfoldable pub delete_binding : Bytes → Bytes → List Binding → List Binding
delete_binding aor bind [] = []
delete_binding aor bind (b ∷ bs) =
    let rest = delete_binding aor bind bs in
    if b.aor == aor && b.bind == bind then rest else b ∷ rest

-- DELETE FROM register WHERE aor = ?
unfoldable pub delete_bindings : Bytes → List Binding → List Binding
delete_bindings aor [] = []
delete_bindings aor (b ∷ bs) =
    let rest = delete_bindings aor bs in if b.aor == aor then rest else b ∷ rest

-- fmt's %.2f of a number of hundredths
abbrev two_places : ℕ → Bytes
two_places n =
    format_int (pos (n / 100)) ++ b'.' ∷ format_int (pos (n / 10 % 10)) ++ format_int (pos (n % 10))

hundredths : ℤ → Bytes
hundredths (pos n) = two_places n
hundredths (negsuc n) = b'-' ∷ two_places (n + 1)

module _ (urls : Urls) where
  -- NewContactHeaderFromString("", bind, rawParam)
  unfoldable pub contact_from_string : Bytes → Bytes → Outcome (Option Contact)
  unfolding new_contact_header
  contact_from_string text param =
      if trim blanks text == codes "*"
      then ok (some (record { star = true; addr = none; raw_parameter = [] }))
      else elim (urls.parse text) [
        | none ↦ ok none
        | some uri ↦ do
          c ← new_contact_header urls (some (record { display_name = []; uri = some uri })) param
          ok (some c)
      ]

  listed : ℕ → List Binding → Outcome (List (Option Contact))
  unfolding contact_from_string hundredths
  listed now [] = ok []
  listed now (b ∷ bs) = do
    c ← contact_from_string b.bind (
        codes "q="
        ++ hundredths b.q
        ++ codes ";expires="
        ++ format_int (sub_int64 b.expired_at now))
    cs ← listed now bs
    ok (c ∷ cs)

  print_bind : Option Uri → Outcome Bytes
  print_bind none = panic
  print_bind (some uri) = ok (urls.print uri)

  -- One round of the loop over the operations: the contacts that the last query found, and the rows.
  unfoldable pub run_operation :
      Bytes
      → ℕ
      → RegistrationOperation
      → Option (List (Option Contact)) × List Binding
      → Outcome (Option (List (Option Contact)) × List Binding)
  unfolding listed print_bind
  run_operation aor now op (contacts, rows) = elim op.operation [
    | query ↦ do found ← listed now (query_binding aor now rows); ok (some found, rows)
    | update ↦ do
      bind ← print_bind op.bind_addr
      ok (
        contacts,
        record { aor = aor; bind = bind; q = op.q; expired_at = add_int64 op.expires now }
            ∷ delete_binding aor bind rows,
      )
    | del ↦ do bind ← print_bind op.bind_addr; ok (contacts, delete_binding aor bind rows)
    | del_all ↦ ok (contacts, delete_bindings aor rows)
  ]

  unfoldable pub run_operations :
      Bytes
      → ℕ
      → List RegistrationOperation
      → Option (List (Option Contact)) × List Binding
      → Outcome (Option (List (Option Contact)) × List Binding)
  unfolding run_operation
  run_operations aor now [] s = ok s
  run_operations aor now (op ∷ ops) s = do
    t ← run_operation aor now op s
    run_operations aor now ops t
