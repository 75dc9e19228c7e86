-- ===== src/Registration/Issue.antt =====
-- issueTransaction and registration (proxy_registration.go), on the tables of the registrar. `failure`
-- says that the database refuses to begin, and whether with a syntax error.
pub mod Laws
use tjsip.Base.{
  ℕ, Bool, true, false, not, ◌&&◌, Option, none, some, List, [], ◌∷◌, Bytes, ltb, length,
  if◌then◌else◌,
}
use tjsip.Base.Classes.{◌==◌, bytes_eq}
use tjsip.Base.Int.{ℤ, ltb_int}
use tjsip.Base.Outcome.{Outcome, ok, err, panic}
use tjsip.Message.{Uri, To, Contact, CallId, Message}
use tjsip.Message.Urls.{Urls}
use tjsip.Message.Counters.{CSeq}
use tjsip.Message.Print.{print_call_id}
use tjsip.Registration.{
  RegistrationOperation, operations, done, refused, status_bad_request, bind_of,
}
use tjsip.Registration.Bindings.{
  Binding, Sequence, Tables, RegistrationResult, new_registration_result, run_operations,
}

-- SELECT aor, callId, seq FROM register_seq WHERE aor = ?, of the primary key
unfoldable pub find_sequence : Bytes → List Sequence → Option Sequence
find_sequence aor [] = none
find_sequence aor (s ∷ ss) = if s.aor == aor then some s else find_sequence aor ss

delete_sequence : Bytes → List Sequence → List Sequence
delete_sequence aor [] = []
delete_sequence aor (s ∷ ss) =
    let rest = delete_sequence aor ss in if s.aor == aor then rest else s ∷ rest

-- What issueTransaction returns: a result, an error, or the two nils after a panic that it recovers
-- from. But for a result of 200 the tables are rolled back.
pub data Issued : Type 0 where
  result : RegistrationResult → Issued
  failed : Bool → Issued
  recovered : Issued

module _ (urls : Urls) where
  -- len(operations) > 1 && dbCallId == callId && dbSeq <= cseqNum, for the row of the address
  unfoldable pub is_refused : Bytes → List RegistrationOperation → Bytes → ℤ → List Sequence → Bool
  unfolding find_sequence
  is_refused aor ops call_id seq rows = elim (find_sequence aor rows) [
    | none ↦ false
    | some s ↦
        not (s.aor == []) && ltb 1 (length ops) && s.call_id == call_id && not (ltb_int seq s.seq)
  ]

  commit :
      Bytes
      → Bytes
      → ℤ
      → Tables
      → Outcome (Option (List (Option Contact)) × List Binding)
      → Tables × Issued
  unfolding delete_sequence
  commit aor call_id seq tables panic = (tables, recovered)
  commit aor call_id seq tables (err e) = (tables, recovered)
  commit aor call_id seq tables (ok (contacts, rows)) = (
    record {
      register = rows;
      register_seq =
          record { aor = aor; call_id = call_id; seq = seq }
          ∷ delete_sequence aor tables.register_seq;
    },
    result (record { status = 200; contact = contacts }),
  )

  unfoldable pub issue_transaction :
      ℕ
      → Option Bool
      → Option Uri
      → List RegistrationOperation
      → Bytes
      → ℤ
      → Tables
      → Tables × Issued
  unfolding is_refused commit run_operations
  issue_transaction now (some syntax) aor ops call_id seq tables = (tables, failed syntax)
  issue_transaction now none none ops call_id seq tables = (tables, recovered)
  issue_transaction now none (some uri) ops call_id seq tables =
      let aor = urls.print uri in
      if is_refused aor ops call_id seq tables.register_seq
      then (tables, result (new_registration_result status_bad_request))
      else commit aor call_id seq tables (run_operations urls aor now ops (none, tables.register))

  abbrev aor_of : Option To → Option Uri
  aor_of none = none
  aor_of (some to) = bind_of to.addr

  -- The result of `registration`; `none` is the nil after a recovered panic.
  answer : Issued → Option RegistrationResult
  answer (result r) = some r
  answer (failed true) = some (new_registration_result 500)
  answer (failed false) = some (new_registration_result status_bad_request)
  answer recovered = none

  -- `origCallID.String()` and `origCSeq.Sequence` are read through pointers that may be nil.
  issue :
      ℕ
      → Option Bool
      → Message
      → List RegistrationOperation
      → Option CallId
      → Option CSeq
      → Tables
      → Outcome (Tables × Option RegistrationResult)
  unfolding issue_transaction answer print_call_id
  issue now failure msg ops none cseq tables = panic
  issue now failure msg ops (some id) none tables = panic
  issue now failure msg ops (some id) (some cseq) tables =
      let (after, issued) =
        issue_transaction now failure (aor_of msg.to) ops (print_call_id id) cseq.sequence tables in
      ok (after, answer issued)

  -- `registration`; the quality of a contact is read by `parse_percent`.
  unfoldable pub registration :
      (Bytes → Option ℤ)
      → ℕ
      → Option Bool
      → Message
      → Tables
      → Outcome (Tables × Option RegistrationResult)
  unfolding issue
  registration parse_percent now failure msg tables =
      elim (operations urls.parse_query parse_percent msg) [
        | refused status ↦ ok (tables, some (new_registration_result status))
        | done ops ↦ issue now failure msg ops msg.call_id msg.cseq tables
      ]
