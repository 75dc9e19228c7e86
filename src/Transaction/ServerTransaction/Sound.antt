-- ===== src/Transaction/ServerTransaction/Sound.antt =====
-- The invariant of a server transaction (sip/transaction.go).
use tjsip.Base.{List, [], ◌∷◌, refl, Bool, true, false, ◌≡◌, none, arith, is_some}
use tjsip.Base.Classes.{bytes_eq}
use tjsip.Transaction.Timers.{
  TransactionState, trying, proceeding, completed, confirmed, closed, Event,
}
use tjsip.Message.{Message}
use tjsip.Transaction.ServerTransaction.{
  run, new_server_transaction, Place, at_invite, at_invite_loop, at_invite_completed, at_confirmed,
  at_trying, at_proceeding, at_completed, returned, panicked, ServerTransaction, step, at_place,
  write, destroy, controller_terminated, on_invite, on_invite_loop, on_invite_completed,
  on_confirmed, on_trying, on_proceeding, on_completed, complete, write_final, send_provisional,
  send_success, send_failure,
}

-- What holds at each place of the code.
abbrev pub AtPlace : Place → ServerTransaction → Type 0
AtPlace at_invite t = (t.state ≡ proceeding) × (t.final_res ≡ none)
AtPlace at_invite_loop t = (t.state ≡ proceeding) × (t.final_res ≡ none)
AtPlace (at_invite_completed g h) t = (t.state ≡ completed) × (is_some t.final_res ≡ true)
AtPlace at_confirmed t = (t.state ≡ confirmed) × (is_some t.final_res ≡ true)
AtPlace at_trying t = (t.state ≡ trying) × (t.final_res ≡ none)
AtPlace at_proceeding t = (t.state ≡ proceeding) × (t.final_res ≡ none)
AtPlace at_completed t = (t.state ≡ completed) × (is_some t.final_res ≡ true)
AtPlace returned t = Unit {0}
AtPlace panicked t = ⊥

abbrev pub is_closed : TransactionState → Bool
is_closed closed = true
is_closed _ = false

pub record IsSound (t : ServerTransaction) : Type 0 where
  pub at_place : AtPlace t.place t
  pub removed : t.removed ≡ is_closed t.state

at_place-IsSound :
    (p : Place) (e : Event) (t : ServerTransaction)
    → t.place ≡ p
    → IsSound t
    → AtPlace p t
    → IsSound (at_place p e t)
unfolding at_place on_invite on_invite_loop on_invite_completed on_confirmed on_trying on_proceeding
    on_completed complete write_final send_provisional send_success send_failure
    controller_terminated destroy write
at_place-IsSound at_invite e t p s a = ground arith
at_place-IsSound at_invite_loop e t p s a = ground arith
at_place-IsSound _ e t p s a = ground arith

-- Each wake-up of a controller keeps a sound transaction sound.
pub server-step-IsSound : (t : ServerTransaction) (e : Event) → IsSound t → IsSound (step t e)
unfolding step
server-step-IsSound t e s = at_place-IsSound t.place e t refl s s.at_place

new_server_transaction-IsSound :
    (is_invite : Bool) (msg : Message) → IsSound (new_server_transaction is_invite msg)
unfolding new_server_transaction
new_server_transaction-IsSound true msg = record { at_place = (refl, refl); removed = refl }
new_server_transaction-IsSound false msg = record { at_place = (refl, refl); removed = refl }

run_any-IsSound : (es : List Event) (t : ServerTransaction) → IsSound t → IsSound (run t es)
unfolding run
run_any-IsSound [] t s = s
run_any-IsSound (e ∷ es) t s = run_any-IsSound es (step t e) (server-step-IsSound t e s)

-- A new server transaction, which only its own controller destroys, is sound after any sequence of
-- events: the state fits the place in the
-- code, a final response is there from the completed state on and not before, the server is told to
-- delete the transaction when and only when it is closed, and the controller does not panic.
pub run-IsSound :
    (is_invite : Bool) (msg : Message) (es : List Event)
    → IsSound (run (new_server_transaction is_invite msg) es)
run-IsSound is_invite msg es =
    run_any-IsSound es (new_server_transaction is_invite msg)
      (new_server_transaction-IsSound is_invite msg)
