-- ===== src/Transaction/ServerTransaction/Handle.antt =====
-- What Handle does with requests that arrive again (sip/transaction.go).
use tjsip.Base.{◌≡◌, ◌≢◌, true, ◌||◌, List, [], ◌∷◌, arith, is_some}
use tjsip.Base.Classes.{bytes_eq, bytes_beq_iff}
use tjsip.Message.{Message, method_ack}
use tjsip.Transaction.Timers.{Event}
use tjsip.Transaction.ServerTransaction.{
  Place, at_invite, at_invite_loop, at_invite_completed, at_confirmed, at_trying, at_proceeding,
  at_completed, returned, panicked, ServerTransaction, step, run, at_place, write, destroy,
  controller_terminated, blocks, handle, write_message, on_invite, on_invite_loop,
  on_invite_completed, on_confirmed, on_trying, on_proceeding, on_completed, complete, write_final,
  send_provisional, send_success, send_failure,
}

-- A response is recorded.
abbrev pub HasResponse : ServerTransaction → Type 0
HasResponse t = (is_some t.final_res || is_some t.provisional_res) ≡ true

at_place-HasResponse :
    (p : Place) (e : Event) (t : ServerTransaction) → HasResponse t → HasResponse (at_place p e t)
unfolding at_place on_invite on_invite_loop on_invite_completed on_confirmed on_trying on_proceeding
    on_completed complete write_final send_provisional send_success send_failure
    controller_terminated destroy write
at_place-HasResponse at_invite e t h = ground arith
at_place-HasResponse at_invite_loop e t h = ground arith
at_place-HasResponse (at_invite_completed x y) e t h = ground arith
at_place-HasResponse at_confirmed e t h = ground arith
at_place-HasResponse at_trying e t h = ground arith
at_place-HasResponse at_proceeding e t h = ground arith
at_place-HasResponse at_completed e t h = ground arith
at_place-HasResponse returned e t h = ground arith
at_place-HasResponse panicked e t h = ground arith

run-HasResponse : (es : List Event) (t : ServerTransaction) → HasResponse t → HasResponse (run t es)
unfolding run step
run-HasResponse [] t h = h
run-HasResponse (e ∷ es) t h = run-HasResponse es (step t e) (at_place-HasResponse t.place e t h)

-- Once a response is recorded, `Handle` of any request but an ACK never returns, whatever events come
-- before it: it waits for the mutex that it holds itself.
pub handle_blocks :
    (t : ServerTransaction) (es : List Event) (req : Message)
    → HasResponse t
    → req.method ≢ method_ack
    → handle (run t es) req ≡ blocks
unfolding handle write_message
handle_blocks t es req h other =
    ground (arith, run-HasResponse es t h, bytes_beq_iff req.method method_ack)
