-- ===== src/Registration/Issue/Laws.antt =====
-- Two registrations for an address, one after the other (proxy_registration.go).
use tjsip.Base.{ℕ, ◌≡◌, ◌≢◌, ◌<◌, ◌↔◌, false, Option, none, some, List, [], Bytes, arith, length}
use tjsip.Base.Classes.{bytes_eq, bytes_beq_iff}
use tjsip.Base.Int.{ℤ, ltb_int}
use tjsip.Base.Outcome.{Outcome, ok, err, panic}
use tjsip.Message.{Uri, Contact}
use tjsip.Message.Urls.{Urls}
use tjsip.Registration.{RegistrationOperation, status_bad_request}
use tjsip.Registration.Bindings.{
  Binding, Tables, Sequence, RegistrationResult, new_registration_result, run_operations,
}
use tjsip.Registration.Issue.{issue_transaction, is_refused, find_sequence, commit, result}

module _ (urls : Urls) (uri : Uri) (call_id : Bytes) where
  -- The row that a registration leaves for the address
  abbrev row : ℤ → Sequence
  row seq = record { aor = urls.print uri; call_id = call_id; seq = seq }

  commit-row :
      (seq : ℤ) (tables tables' : Tables) (r : RegistrationResult)
      (o : Outcome (Option (List (Option Contact)) × List Binding))
      → commit urls (urls.print uri) call_id seq tables o ≡ (tables', result r)
      → find_sequence (urls.print uri) tables'.register_seq ≡ some (row seq)
  unfolding commit find_sequence
  commit-row seq tables tables' r panic h = absurd (ground arith)
  commit-row seq tables tables' r (err e) h = absurd (ground arith)
  commit-row seq tables tables' r (ok (contacts, rows)) h =
      ground (arith, bytes_beq_iff (urls.print uri) (urls.print uri))

  commit-accepts :
      (seq : ℤ) (tables tables' : Tables)
      (o : Outcome (Option (List (Option Contact)) × List Binding))
      → commit urls (urls.print uri) call_id seq tables o
        ≢ (tables', result (new_registration_result status_bad_request))
  unfolding commit
  commit-accepts seq tables tables' panic h = ground arith
  commit-accepts seq tables tables' (err e) h = ground arith
  commit-accepts seq tables tables' (ok (contacts, rows)) h = ground arith

  first_row :
      (now : ℕ) (ops : List RegistrationOperation) (seq : ℤ) (tables tables' : Tables)
      (r : RegistrationResult)
      → r.status ≡ 200
      → issue_transaction urls now none (some uri) ops call_id seq tables ≡ (tables', result r)
      → find_sequence (urls.print uri) tables'.register_seq ≡ some (row seq)
  unfolding issue_transaction
  first_row now ops seq tables tables' r success first =
      commit-row seq tables tables' r
        (run_operations urls (urls.print uri) now ops (none, tables.register)) (ground arith)

  -- A registration that follows a successful one for the same address, with the same Call-ID and at least
  -- one contact, is refused with 400, and changes nothing, exactly when its number is not below that of the
  -- first: a refresh, whose number is higher, is refused, and an older one is not.
  pub refresh_refused :
      (now now' : ℕ) (ops ops' : List RegistrationOperation) (seq seq' : ℤ)
      (tables tables' : Tables) (r : RegistrationResult)
      → issue_transaction urls now none (some uri) ops call_id seq tables ≡ (tables', result r)
      → r.status ≡ 200
      → urls.print uri ≢ []
      → 1 < length ops'
      → (issue_transaction urls now' none (some uri) ops' call_id seq' tables'
          ≡ (tables', result (new_registration_result status_bad_request)))
        ↔ (ltb_int seq' seq ≡ false)
  unfolding issue_transaction is_refused
  refresh_refused now now' ops ops' seq seq' tables tables' r first success named many =
      let there : find_sequence (urls.print uri) tables'.register_seq ≡ some (row seq) =
        first_row now ops seq tables tables' r success first in
      ground (
        arith,
        bytes_beq_iff (urls.print uri) [],
        bytes_beq_iff call_id call_id,
        commit-accepts seq' tables' tables'
            (run_operations urls (urls.print uri) now' ops' (none, tables'.register)),
      )
