-- ===== src/Transaction/Client.antt =====
-- The client transaction of sip/transaction.go. A controller is a machine: `place` is the `select`
-- at which its goroutine waits, with the timers of that select, and `step` is what it does with
-- what the select receives, up to the next select or its end. The lines that it writes to the
-- transport are kept in `sent`, the last one first. Logging is left out.
pub mod Sound
pub mod Retransmission
pub mod Acknowledge
use tjsip.Base.{
  ℕ, zero, suc, ◌+◌, ◌-◌, ◌*◌, Bool, true, false, not, ◌&&◌, ◌||◌, Option, none, some, List, [],
  ◌∷◌, Bytes, is_some, if◌then◌else◌,
}
use tjsip.Base.Classes.{◌==◌, bytes_eq}
use tjsip.Base.Assoc.{Assoc}
use tjsip.Base.Outcome.{
  Error, Outcome, ok, err, panic, transaction_unexpected_message, transaction_timed_out,
  transaction_closed, non_2xx_response,
}
use tjsip.Message.{Message, method_invite}
use tjsip.Message.Generate.{generate_ack}
use tjsip.Transaction.Timers.{
  TransactionState, init, trying, calling, proceeding, completed, terminated, closed, Event,
  deleted, from_tu, response, silence, fires_first, is_provisional, is_success, is_failure,
  double_to_t2, timer_a, timer_b, timer_e, timer_f,
}

pub data Place : Type 0 where
  starting : Place
  in_calling : ℕ → ℕ → Place
  in_invite_proceeding : Place
  in_invite_completed : Place
  in_proceeding : ℕ → ℕ → Place
  in_completed : Place
  returned : Place
  panicked : Place

-- `res_open` says that resChan is not nil, and `inform` that ErrorInformFunc is not nil; `informed`
-- counts its calls, and `removed` says that the server has been told to delete the transaction.
pub record ClientTransaction : Type 0 where
  pub invite : Bool
  pub state : TransactionState
  pub place : Place
  pub request : Message
  pub ack : Option Message
  pub provisional_res : Option Message
  pub final_res : Option Message
  pub error : Option Error
  pub res_open : Bool
  pub inform : Bool
  pub informed : ℕ
  pub removed : Bool
  pub sent : List Message

-- newClientTransaction, up to the first select of its controller
unfoldable pub new_client_transaction : Bool → Message → Bool → ClientTransaction
new_client_transaction is_invite msg inform = record {
  invite = is_invite;
  state = if is_invite then calling else trying;
  place = starting;
  request = msg;
  ack = none;
  provisional_res = none;
  final_res = none;
  error = none;
  res_open = true;
  inform = inform;
  informed = 0;
  removed = false;
  sent = [];
}

-- `Destroy`, called by the controller, which then returns. Closing the nil channel panics.
unfoldable pub destroy : ClientTransaction → ClientTransaction
destroy t =
    if t.res_open
    then record t {
      res_open = false;
      state = closed;
      place = returned;
      removed = true;
      informed = if is_some t.error && t.inform then t.informed + 1 else t.informed;
    }
    else record t { place = panicked }

unfoldable pub fail_with : Error → ClientTransaction → ClientTransaction
fail_with e t = destroy (record t { error = some e })

-- controllerTerminated
unfoldable pub controller_terminated : ClientTransaction → ClientTransaction
controller_terminated t = destroy (record t { state = terminated })

unfoldable pub write : Message → ClientTransaction → ClientTransaction
write m t = record t { sent = m ∷ t.sent }

enter_proceeding : ClientTransaction → ClientTransaction
enter_proceeding t = record t { state = proceeding; place = in_proceeding timer_e timer_f }

-- The first select, of inviteController and of nonInviteController. The message is read without a
-- test for nil.
on_starting : Event → ClientTransaction → ClientTransaction
on_starting deleted t = record t { place = returned }
on_starting (from_tu none) t = record t { place = panicked }
on_starting (from_tu (some msg)) t =
    if not msg.request
      || (if t.invite then not (msg.method == method_invite) else msg.method == method_invite)
    then fail_with transaction_unexpected_message t
    else let sending = write msg (record t { request = msg }) in
      if t.invite
      then record sending { place = in_calling timer_a timer_b }
      else enter_proceeding sending
on_starting _ t = t

-- The loop of nonInviteControllerProceeding
on_proceeding : ℕ → ℕ → Event → ClientTransaction → ClientTransaction
on_proceeding e f deleted t = record t { place = returned }
on_proceeding e f (silence tie) t =
    if fires_first tie e f
    then write t.request (record t { place = in_proceeding (double_to_t2 e) (f - e) })
    else controller_terminated (record t { error = some transaction_timed_out })
on_proceeding e f (response none) t = record t { place = returned }
on_proceeding e f (response (some msg)) t =
    if not msg.response
    then destroy t
    else if is_provisional msg.status_code
    then enter_proceeding (record t { provisional_res = some msg })
    else record t {
      error =
          if is_failure msg.status_code then some (non_2xx_response msg.status_code) else t.error;
      final_res = some msg;
      state = completed;
      place = in_completed;
    }
on_proceeding e f _ t = t

-- nonInviteControllerCompleted; the silence is Timer K
on_completed : Event → ClientTransaction → ClientTransaction
on_completed deleted t = record t { place = returned }
on_completed (silence _) t = controller_terminated t
on_completed (response none) t = record t { place = returned }
on_completed _ t = t

-- inviteControllerCompleted; the silence is Timer D
ack_again : Option Message → ClientTransaction → ClientTransaction
ack_again none t = record t { place = panicked }
ack_again (some ack) t = write ack t

on_invite_completed : Event → ClientTransaction → ClientTransaction
on_invite_completed deleted t = record t { place = returned }
on_invite_completed (silence _) t = controller_terminated t
on_invite_completed (response none) t = record t { place = returned }
on_invite_completed (response (some msg)) t =
    if is_failure msg.status_code then ack_again t.ack t else t
on_invite_completed _ t = t

module _ (parse_query : Bytes → Assoc Bytes (List Bytes)) (branch : Bytes) where
  -- The acknowledgement of a final response that is no success, or the end where none can be made.
  acknowledge : Outcome Message → ClientTransaction → ClientTransaction
  acknowledge (ok ack) t =
      write ack (record t { ack = some ack; state = completed; place = in_invite_completed })
  acknowledge (err e) t = fail_with e t
  acknowledge panic t = record t { place = panicked }

  -- The loop of inviteController
  on_calling : ℕ → ℕ → Event → ClientTransaction → ClientTransaction
  on_calling a b deleted t = record t { error = some transaction_closed; place = returned }
  on_calling a b (silence tie) t =
      if fires_first tie a b
      then write t.request (record t { place = in_calling (a * 2) (b - a) })
      else controller_terminated (record t { error = some transaction_timed_out })
  on_calling a b (response none) t = record t { place = returned }
  on_calling a b (response (some msg)) t =
      if not msg.response
      then fail_with transaction_unexpected_message t
      else if is_success msg.status_code
      then controller_terminated (record t { final_res = some msg })
      else if is_failure msg.status_code
      then acknowledge (generate_ack parse_query branch t.request msg)
          (record t { final_res = some msg; error = some (non_2xx_response msg.status_code) })
      else if is_provisional msg.status_code
      then record t { provisional_res = some msg; state = proceeding; place = in_invite_proceeding }
      else t
  on_calling a b _ t = t

  -- The loop of inviteControllerProceeding
  on_invite_proceeding : Event → ClientTransaction → ClientTransaction
  on_invite_proceeding deleted t = record t { place = returned }
  on_invite_proceeding (response none) t = fail_with transaction_unexpected_message t
  on_invite_proceeding (response (some msg)) t =
      if not msg.response
      then fail_with transaction_unexpected_message t
      else if is_provisional msg.status_code
      then record t { provisional_res = some msg }
      else if is_success msg.status_code
      then controller_terminated (record t { final_res = some msg })
      else if is_failure msg.status_code
      then acknowledge (generate_ack parse_query branch t.request msg)
          (record t { final_res = some msg })
      else t
  on_invite_proceeding _ t = t

  at_place : Place → Event → ClientTransaction → ClientTransaction
  at_place starting e t = on_starting e t
  at_place (in_calling a b) e t = on_calling a b e t
  at_place in_invite_proceeding e t = on_invite_proceeding e t
  at_place in_invite_completed e t = on_invite_completed e t
  at_place (in_proceeding x y) e t = on_proceeding x y e t
  at_place in_completed e t = on_completed e t
  at_place returned e t = t
  at_place panicked e t = t

  unfoldable pub step : ClientTransaction → Event → ClientTransaction
  unfolding at_place on_starting on_calling on_invite_proceeding on_invite_completed on_proceeding
      on_completed acknowledge ack_again fail_with controller_terminated destroy write
      enter_proceeding
  step t e = at_place t.place e t

  unfoldable pub run : ClientTransaction → List Event → ClientTransaction
  run t [] = t
  run t (e ∷ es) = run (step t e) es
