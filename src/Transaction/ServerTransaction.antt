-- ===== src/Transaction/ServerTransaction.antt =====
-- The server transaction of sip/transaction.go, in the manner of the client transaction: `place` is
-- the `select` at which the controller waits, and `step` what it does with what it receives.
pub mod Sound
pub mod Retransmission
pub mod Responses
pub mod Handle
use tjsip.Base.{
  ℕ, ◌+◌, ◌-◌, ◌*◌, Bool, true, false, not, ◌&&◌, ◌||◌, Option, none, some, List, [], ◌∷◌, Bytes,
  ltb, leb, if◌then◌else◌,
}
use tjsip.Base.Classes.{◌==◌, bytes_eq}
use tjsip.Base.Outcome.{Error, transaction_unexpected_message}
use tjsip.Message.{Message, method_ack}
use tjsip.Message.Generate.{generate_response_from_request}
use tjsip.Transaction.Timers.{
  TransactionState, init, trying, calling, proceeding, completed, confirmed, terminated, closed,
  Event, deleted, from_tu, response, silence, fires_first, is_success, is_failure, double_to_t2,
  timer_g, timer_h,
}

pub data Place : Type 0 where
  at_invite : Place
  at_invite_loop : Place
  at_invite_completed : ℕ → ℕ → Place
  at_confirmed : Place
  at_trying : Place
  at_proceeding : Place
  at_completed : Place
  returned : Place
  panicked : Place

-- `removed` says that the server has been told to delete the transaction. The messages written to
-- the transport are kept in `sent`, the last one first.
pub record ServerTransaction : Type 0 where
  pub invite : Bool
  pub state : TransactionState
  pub place : Place
  pub request : Message
  pub provisional_res : Option Message
  pub final_res : Option Message
  pub error : Option Error
  pub removed : Bool
  pub sent : List Message

-- newServerTransaction, up to the first select of its controller
unfoldable pub new_server_transaction : Bool → Message → ServerTransaction
new_server_transaction is_invite msg = record {
  invite = is_invite;
  state = if is_invite then proceeding else trying;
  place = if is_invite then at_invite else at_trying;
  request = msg;
  provisional_res = none;
  final_res = none;
  error = none;
  removed = false;
  sent = [];
}

-- `Destroy`, called by the controller, which then returns
unfoldable pub destroy : ServerTransaction → ServerTransaction
destroy t = record t { state = closed; removed = true; place = returned }

-- controllerTerminated
unfoldable pub controller_terminated : ServerTransaction → ServerTransaction
controller_terminated t = destroy (record t { state = terminated })

unfoldable pub write : Message → ServerTransaction → ServerTransaction
write m t = record t { sent = m ∷ t.sent }

-- 100 < status < 200
abbrev pub is_own_provisional : ℕ → Bool
is_own_provisional status = ltb 100 status && ltb status 200

-- What both selects of inviteController do with a provisional or a successful response.
send_provisional : Message → ServerTransaction → ServerTransaction
send_provisional msg t = write msg (record t { provisional_res = some msg; place = at_invite_loop })

send_success : Message → ServerTransaction → ServerTransaction
send_success msg t = controller_terminated (write msg (record t { final_res = some msg }))

unfoldable pub send_failure : Message → ServerTransaction → ServerTransaction
send_failure msg t = write msg (record t {
  final_res = some msg;
  state = completed;
  place = at_invite_completed timer_g timer_h;
})

-- The first select of inviteController; the silence is Timer100Try.
on_invite : Event → ServerTransaction → ServerTransaction
on_invite deleted t = record t { place = returned }
on_invite (silence _) t = send_provisional (generate_response_from_request t.request) t
on_invite (from_tu none) t = record t { place = returned }
on_invite (from_tu (some msg)) t =
    if not msg.response
    then destroy (record t { error = some transaction_unexpected_message })
    else if is_own_provisional msg.status_code
    then send_provisional msg t
    else if is_success msg.status_code
    then send_success msg t
    else if is_failure msg.status_code
    then send_failure msg t
    else record t { place = at_invite_loop }
on_invite _ t = t

-- 300 ≤ status ≤ 600, the test of the loop
abbrev is_loop_failure : ℕ → Bool
is_loop_failure status = leb 300 status && leb status 600

-- The loop of inviteController
on_invite_loop : Event → ServerTransaction → ServerTransaction
on_invite_loop deleted t = record t { place = returned }
on_invite_loop (from_tu none) t = record t { place = returned }
on_invite_loop (from_tu (some msg)) t =
    if not msg.response
    then destroy t
    else if is_own_provisional msg.status_code
    then send_provisional msg t
    else if is_success msg.status_code
    then send_success msg t
    else if is_loop_failure msg.status_code
    then send_failure msg t
    else record t { place = returned }
on_invite_loop _ t = t

-- Writing the nil message to the transport panics.
write_final : Option Message → ServerTransaction → ServerTransaction
write_final none t = record t { place = panicked }
write_final (some msg) t = write msg t

-- The loop of inviteControllerCompleted. It does not wait for the deletion.
on_invite_completed : ℕ → ℕ → Event → ServerTransaction → ServerTransaction
on_invite_completed g h (silence tie) t =
    if fires_first tie g h
    then write_final t.final_res (record t { place = at_invite_completed (double_to_t2 g) (h - g) })
    else controller_terminated t
on_invite_completed g h (from_tu none) t = record t { place = returned }
on_invite_completed g h (from_tu (some msg)) t =
    if msg.request && msg.method == method_ack
    then record t { state = confirmed; place = at_confirmed }
    else t
on_invite_completed g h _ t = t

-- inviteControllerConfirmed; the silence is Timer I
on_confirmed : Event → ServerTransaction → ServerTransaction
on_confirmed deleted t = record t { place = returned }
on_confirmed (from_tu none) t = record t { place = returned }
on_confirmed (silence _) t = controller_terminated t
on_confirmed _ t = t

-- What nonInviteController and nonInviteControllerProceeding do with a final response
complete : Message → ServerTransaction → ServerTransaction
complete msg t = record t { final_res = some msg; state = completed; place = at_completed }

-- nonInviteController
on_trying : Event → ServerTransaction → ServerTransaction
on_trying deleted t = record t { place = returned }
on_trying (from_tu none) t = record t { place = returned }
on_trying (from_tu (some msg)) t =
    if not msg.response
    then destroy (record t { error = some transaction_unexpected_message })
    else let sending = write msg t in
      if is_own_provisional msg.status_code
      then record sending { provisional_res = some msg; state = proceeding; place = at_proceeding }
      else if is_success msg.status_code || is_failure msg.status_code
      then complete msg sending
      else record sending { place = returned }
on_trying _ t = t

-- The loop of nonInviteControllerProceeding
on_proceeding : Event → ServerTransaction → ServerTransaction
on_proceeding deleted t = record t { place = returned }
on_proceeding (from_tu none) t = record t { place = returned }
on_proceeding (from_tu (some msg)) t =
    if not msg.response
    then destroy (record t { error = some transaction_unexpected_message })
    else let sending = write msg t in
      if is_own_provisional msg.status_code
      then record sending { provisional_res = some msg }
      else if is_success msg.status_code || is_failure msg.status_code
      then complete msg sending
      else sending
on_proceeding _ t = t

-- nonInviteControllerCompleted; the silence is Timer J
on_completed : Event → ServerTransaction → ServerTransaction
on_completed deleted t = record t { place = returned }
on_completed (silence _) t = controller_terminated t
on_completed _ t = t

at_place : Place → Event → ServerTransaction → ServerTransaction
at_place at_invite e t = on_invite e t
at_place at_invite_loop e t = on_invite_loop e t
at_place (at_invite_completed g h) e t = on_invite_completed g h e t
at_place at_confirmed e t = on_confirmed e t
at_place at_trying e t = on_trying e t
at_place at_proceeding e t = on_proceeding e t
at_place at_completed e t = on_completed e t
at_place returned e t = t
at_place panicked e t = t

unfoldable pub step : ServerTransaction → Event → ServerTransaction
unfolding at_place on_invite on_invite_loop on_invite_completed on_confirmed on_trying on_proceeding
    on_completed complete write_final send_provisional send_success send_failure
    controller_terminated destroy write
step t e = at_place t.place e t

unfoldable pub run : ServerTransaction → List Event → ServerTransaction
unfolding step
run t [] = t
run t (e ∷ es) = run (step t e) es

-- What a call ends with: a message for the controller, which is received from the channel of the
-- transaction user; nothing; a panic; or a wait that does not end while the transaction is as it is.
pub data Call : Type 0 where
  delivers : Message → Call
  nothing : Call
  panics : Call
  blocks : Call

abbrev is_over : TransactionState → Bool
is_over terminated = true
is_over closed = true
is_over _ = false

abbrev is_closed_chan : TransactionState → Bool
is_closed_chan closed = true
is_closed_chan _ = false

-- The selects that receive from TuChan
abbrev receives : Place → Bool
receives at_completed = false
receives returned = false
receives panicked = false
receives _ = true

-- `t.TuChan <- msg`: the channel has no buffer, and DestroyChanel closes it.
unfoldable pub send_tu : ServerTransaction → Message → Call
send_tu t msg =
    if is_closed_chan t.state then panics else if receives t.place then delivers msg else blocks

-- `WriteMessage` of BaseTransaction. It takes the mutex, which the flag says that the caller holds; a
-- mutex of Go is not reentrant.
unfoldable pub write_message : Bool → ServerTransaction → Message → Call
unfolding send_tu
write_message held t msg =
    if held then blocks else if is_over t.state then nothing else send_tu t msg

-- `Handle`, which holds the mutex to its end
unfoldable pub handle : ServerTransaction → Message → Call
unfolding send_tu write_message
handle t req = if req.method == method_ack then send_tu t req else elim t.final_res [
  | some msg ↦ write_message true t msg
  | none ↦ elim t.provisional_res [ none ↦ nothing | some msg ↦ write_message true t msg ]
]
