-- ===== src/Examples/Clients.antt =====
-- The client transaction at work.
use tjsip.Base.{◌≡◌, refl, Bool, true, false, none, some, List, [], ◌∷◌, codes, arith}
use tjsip.Base.Text.{format_int, canonical}
use tjsip.Base.Classes.{bytes_beq}
use tjsip.Base.Assoc
use tjsip.Base.Assoc.{lookup}
use tjsip.Message.Via.{top_most, insert}
use tjsip.Base.Outcome.{ok}
use tjsip.Message.{Message, create_message, method_ack}
use tjsip.Message.Headers
use tjsip.Message.Generate.{generate_ack}
use tjsip.Transaction.Timers.{response, completed, proceeding, timer_a, timer_b, timer_e, timer_f}
use tjsip.Transaction.Client.{
  ClientTransaction, new_client_transaction, step, run, in_calling, in_invite_proceeding,
  in_proceeding, in_invite_completed, panicked,
}
use tjsip.Transaction.Client.Retransmission.{
  silences, calling_times_out, proceeding_times_out, GivenUp,
}
use tjsip.Transaction.Client.Acknowledge.{
  acknowledges_each_failure, destroyed_ends, destroy_outside, responses,
}
use tjsip.Examples.{one_parameter, branch, invite, bye, status, top_via, empty_message}

-- An INVITE that has been sent, and one that has been answered by a provisional response.
abbrev calling_invite : ClientTransaction
calling_invite = record (new_client_transaction true invite true) {
  place = in_calling timer_a timer_b;
  sent = invite ∷ [];
}

abbrev ringing_invite : ClientTransaction
ringing_invite = record calling_invite { state = proceeding; place = in_invite_proceeding }

abbrev sent_bye : ClientTransaction
sent_bye = record (new_client_transaction false bye true) {
  place = in_proceeding timer_e timer_f;
  state = proceeding;
  sent = bye ∷ [];
}

-- Two rounds of silence, of one and of two milliseconds, end a Timer B of three.
short_invite : ClientTransaction
unfolding new_client_transaction
short_invite = record calling_invite { place = in_calling 1 3 }

short_bye : ClientTransaction
unfolding new_client_transaction
short_bye = record sent_bye { place = in_proceeding 1 3 }

four_silences : List Bool
four_silences = true ∷ false ∷ true ∷ false ∷ []

calling_times_out_example :
    GivenUp one_parameter branch (silences one_parameter branch four_silences short_invite) 3
unfolding short_invite four_silences
calling_times_out_example =
    calling_times_out one_parameter branch four_silences short_invite 1 3 refl refl (omega arith)
      (omega arith)

proceeding_times_out_example :
    GivenUp one_parameter branch (silences one_parameter branch four_silences short_bye) 3
unfolding short_bye four_silences
proceeding_times_out_example =
    proceeding_times_out one_parameter branch four_silences short_bye 1 3 refl refl (omega arith)
      (omega arith)

-- The acknowledgement of a failure response to `invite`.
made_ack : Message
unfolding create_message
made_ack = record (create_message []) {
  request = true;
  method = method_ack;
  via = some (record { header = top_via ∷ [] });
  header = (codes "Cseq", codes "1 ACK" ∷ []) ∷ [];
}

made_ack_made : generate_ack one_parameter branch invite (status 486) ≡ ok made_ack
unfolding generate_ack made_ack create_message empty_message format_int top_most insert canonical
    lookup bytes_beq Headers.add Headers.get Assoc.insert
made_ack_made = refl

acknowledges_each_failure_example :
    run one_parameter branch ringing_invite (responses (status 486 ∷ status 503 ∷ []))
    ≡ record ringing_invite {
      ack = some made_ack;
      final_res = some (status 486);
      state = completed;
      place = in_invite_completed;
      sent = made_ack ∷ made_ack ∷ invite ∷ [];
    }
acknowledges_each_failure_example =
    acknowledges_each_failure one_parameter branch ringing_invite (status 486) made_ack
      (status 503 ∷ []) refl (unfold new_client_transaction in made_ack_made)
      (refl, refl, (refl, refl, tt))

destroyed_ends_example :
    (step one_parameter branch (destroy_outside ringing_invite) (response none)).place ≡ panicked
destroyed_ends_example =
    destroyed_ends one_parameter branch ringing_invite (unfold new_client_transaction in refl)
