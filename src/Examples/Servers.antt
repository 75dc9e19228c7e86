-- ===== src/Examples/Servers.antt =====
-- The server transaction at work.
use tjsip.Base.{◌≡◌, ◌≢◌, refl, Bool, true, false, some, List, [], ◌∷◌, arith}
use tjsip.Transaction.Timers.{
  from_tu, silence, deleted, closed, completed, confirmed, timer_g, timer_h,
}
use tjsip.Transaction.ServerTransaction.{
  ServerTransaction, new_server_transaction, step, run, at_invite_completed, at_confirmed, returned,
  handle, blocks, panics, delivers, send_tu,
}
use tjsip.Transaction.ServerTransaction.Sound.{IsSound, run-IsSound}
use tjsip.Transaction.ServerTransaction.Responses.{
  final_response_stays, failure_responses, Answered, from_user,
}
use tjsip.Transaction.ServerTransaction.Handle.{handle_blocks}
use tjsip.Message.{Message, method_ack}
use tjsip.Transaction.ServerTransaction.Retransmission.{silences, completed_times_out, Ended}
use tjsip.Base.Classes.{bytes_beq}
use tjsip.Examples.{invite, status, empty_message}

abbrev received_invite : ServerTransaction
received_invite = new_server_transaction true invite

abbrev refused_invite : ServerTransaction
refused_invite = record received_invite {
  state = completed;
  place = at_invite_completed timer_g timer_h;
  final_res = some (status 486);
  sent = status 486 ∷ [];
}

abbrev confirmed_invite : ServerTransaction
confirmed_invite = record refused_invite { state = confirmed; place = at_confirmed }

abbrev ack : Message
ack = record invite { method = method_ack }

refused_invite-IsSound : IsSound refused_invite
unfolding new_server_transaction
refused_invite-IsSound = record { at_place = (refl, refl); removed = refl }

run-IsSound_example :
    IsSound
      (run (new_server_transaction true invite) (from_tu (some (status 486)) ∷ silence true ∷ []))
run-IsSound_example = run-IsSound true invite (from_tu (some (status 486)) ∷ silence true ∷ [])

final_response_stays_example :
    (step refused_invite (from_tu (some (status 200)))).final_res ≡ some (status 486)
final_response_stays_example =
    final_response_stays refused_invite (from_tu (some (status 200))) refused_invite-IsSound refl

-- A 603 behind a 180
failure_responses_example :
    Answered (status 180 ∷ []) (status 603) (
      step
        (run (new_server_transaction true invite) (from_user (status 180 ∷ [])))
        (from_tu (some (status 603))))
    × (run
          (step
            (run (new_server_transaction true invite) (from_user (status 180 ∷ [])))
            (from_tu (some (status 603))))
          (deleted ∷ [])
        ≡ step
            (run (new_server_transaction true invite) (from_user (status 180 ∷ [])))
            (from_tu (some (status 603))))
failure_responses_example =
    failure_responses invite (status 180 ∷ []) (status 603) (deleted ∷ [])
      (refl, omega arith, omega arith, tt) refl (omega arith) (omega arith)

-- An ACK is received where a select waits for it, and panics behind the end.
ack_received : handle refused_invite ack ≡ delivers ack
unfolding handle send_tu new_server_transaction bytes_beq
ack_received = refl

ack_late : handle (record refused_invite { state = closed; place = returned }) ack ≡ panics
unfolding handle send_tu new_server_transaction bytes_beq
ack_late = refl

not_ack : invite.method ≢ method_ack
unfolding empty_message
not_ack e = absurd (ground arith)

handle_blocks_example :
    handle (run refused_invite (silence true ∷ silence false ∷ [])) invite ≡ blocks
handle_blocks_example =
    handle_blocks refused_invite (silence true ∷ silence false ∷ []) invite refl not_ack

short_refusal : ServerTransaction
unfolding new_server_transaction
short_refusal = record refused_invite { place = at_invite_completed 1 3 }

four_silences : List Bool
four_silences = true ∷ false ∷ true ∷ false ∷ []

completed_times_out_example : Ended (silences four_silences short_refusal) 3
unfolding short_refusal four_silences
completed_times_out_example =
    completed_times_out four_silences short_refusal (status 486) 1 3 refl refl (omega arith)
      (omega arith)
