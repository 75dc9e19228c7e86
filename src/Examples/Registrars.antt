-- ===== src/Examples/Registrars.antt =====
-- The tables of the registrar at work.
use tjsip.Base.{
  ◌↔◌, Bool, ◌&&◌, List, false, ℕ, ◌≡◌, ◌≢◌, refl, none, some, [], ◌∷◌, Bytes, codes, arith,
}
use tjsip.Base.Classes.{bytes_beq}
use tjsip.Base.Int.{pos, ltb_int}
use tjsip.Base.Outcome.{ok}
use tjsip.Registration.{RegistrationOperation, query, del, new_operation}
use tjsip.Registration.Bindings.{
  Binding, Tables, Sequence, new_registration_result, run_operation, query_binding, delete_binding,
  is_live, run_operations,
}
use tjsip.Registration.Bindings.Laws.{
  find_row, row_after, run_operation-find_row, query_binding_lem, IsDescending, count, in_force,
}
use tjsip.Registration.Issue.{issue_transaction, find_sequence, result, is_refused}
use tjsip.Registration.Issue.Laws.{refresh_refused}
use tjsip.Examples.Proxies.{urls, plain_uri}

abbrev alice : Bytes
alice = codes "b"

abbrev binding : ℕ → Binding
binding q = record { aor = alice; bind = codes "b"; q = pos q; expired_at = pos 9 }

abbrev last : Sequence
last = record { aor = alice; call_id = codes "c"; seq = pos 1 }

abbrev deletion : RegistrationOperation
deletion = record (new_operation del) { bind_addr = some plain_uri }

deleted : run_operation urls alice 5 deletion (none, binding 1 ∷ []) ≡ ok (none, [])
unfolding run_operation delete_binding bytes_beq
deleted = refl

run_operation-find_row_example :
    find_row alice (codes "b") []
    ≡ row_after urls alice 5 alice
        (codes "b")
        del
        deletion
        (some plain_uri)
        (find_row alice (codes "b") (binding 1 ∷ []))
run_operation-find_row_example =
    run_operation-find_row urls alice 5 alice (codes "b") deletion none none (binding 1 ∷ []) []
      deleted

-- A row that ends before the time is not listed, and the better one comes first.
listed_rows :
    query_binding alice 9 (record (binding 2) { expired_at = pos 8 } ∷ binding 0 ∷ binding 1 ∷ [])
    ≡ binding 1 ∷ binding 0 ∷ []
unfolding query_binding is_live bytes_beq
listed_rows = refl

query_binding_lem_example :
    IsDescending (query_binding alice 5 (binding 0 ∷ binding 1 ∷ []))
    × ((f : Binding → Bool)
        → count f (query_binding alice 5 (binding 0 ∷ binding 1 ∷ []))
          ≡ count (λ r. f r && in_force alice 5 r) (binding 0 ∷ binding 1 ∷ []))
query_binding_lem_example = query_binding_lem alice 5 (binding 0 ∷ binding 1 ∷ [])

named : alice ≢ []
named e = absurd cc

abbrev both : List RegistrationOperation
both = deletion ∷ new_operation query ∷ []

abbrev no_tables : Tables
no_tables = record { register = []; register_seq = [] }

abbrev registered : Tables
registered = record { register = []; register_seq = last ∷ [] }

first_registration :
    issue_transaction urls 5 none (some plain_uri) both (codes "c") (pos 1) no_tables
    ≡ (registered, result (record { status = 200; contact = some [] }))
unfolding issue_transaction is_refused run_operations run_operation find_sequence bytes_beq
    query_binding delete_binding
first_registration = refl

refresh_refused_example :
    (issue_transaction urls 6 none (some plain_uri) both (codes "c") (pos 2) registered
      ≡ (registered, result (new_registration_result 400)))
    ↔ (ltb_int (pos 2) (pos 1) ≡ false)
refresh_refused_example =
    refresh_refused urls plain_uri (codes "c") 5 6 both both (pos 1) (pos 2) no_tables registered
      (record { status = 200; contact = some [] }) first_registration refl named (omega arith)
