-- ===== src/Transaction/Client/Acknowledge.antt =====
-- How an INVITE client transaction (sip/transaction.go) acknowledges a final response that is no
-- success, and what happens to it when another goroutine destroys it.
use tjsip.Base.{ℕ, ◌≡◌, refl, ap, ◌∙◌, true, false, none, some, List, [], ◌∷◌, Bytes, arith}
use tjsip.Base.Assoc.{Assoc}
use tjsip.Base.Outcome.{ok, non_2xx_response}
use tjsip.Message.{Message}
use tjsip.Message.Generate.{generate_ack}
use tjsip.Transaction.Timers.{completed, Event, response, is_failure, is_success, is_provisional}
use tjsip.Transaction.Client.{
  Place, starting, in_calling, in_invite_proceeding, in_invite_completed, returned, panicked,
  ClientTransaction, step, run, at_place, destroy, fail_with, on_starting, write, acknowledge,
  on_calling, on_invite_proceeding, on_invite_completed, ack_again, on_proceeding, on_completed,
}

-- A list of responses, each of which is final and no success.
abbrev pub AllFailures : List Message → Type 0
AllFailures [] = Unit {0}
AllFailures (m ∷ ms) = (m.response ≡ true) × (is_failure m.status_code ≡ true) × AllFailures ms

abbrev pub responses : List Message → List Event
responses [] = []
responses (m ∷ ms) = response (some m) ∷ responses ms

-- The message, once for each response, before what was sent.
abbrev pub once_each : List Message → Message → List Message → List Message
once_each [] ack out = out
once_each (m ∷ ms) ack out = once_each ms ack (ack ∷ out)

-- `Destroy`, called from another goroutine: the controller still waits where it was.
unfoldable pub destroy_outside : ClientTransaction → ClientTransaction
unfolding destroy
destroy_outside t = record (destroy t) { place = t.place }

-- Where a destroyed controller goes on from.
abbrev pub ends_at : Place → Place
ends_at in_invite_proceeding = panicked
ends_at panicked = panicked
ends_at starting = starting
ends_at _ = returned

failure-not_success : (s : ℕ) → is_failure s ≡ true → is_success s ≡ false
failure-not_success s h = ground arith

failure-not_provisional : (s : ℕ) → is_failure s ≡ true → is_provisional s ≡ false
failure-not_provisional s h = ground arith

module _ (parse_query : Bytes → Assoc Bytes (List Bytes)) (branch : Bytes) where
  step-place :
      (t : ClientTransaction) (p : Place) (e : Event)
      → t.place ≡ p
      → step parse_query branch t e ≡ at_place parse_query branch p e t
  unfolding step
  step-place t p e h = ap (λ (q : Place). at_place parse_query branch q e t) h

  -- In the completed state every further failure response has the acknowledgement sent once more,
  -- and nothing else changes.
  completed_acknowledges :
      (ms : List Message) (t : ClientTransaction) (ack : Message)
      → t.place ≡ in_invite_completed
      → t.ack ≡ some ack
      → AllFailures ms
      → run parse_query branch t (responses ms) ≡ record t { sent = once_each ms ack t.sent }
  unfolding run
  completed_acknowledges [] t ack p a h = refl
  completed_acknowledges (m ∷ ms) t ack p a h =
      let once : step parse_query branch t (response (some m)) ≡ record t { sent = ack ∷ t.sent } =
        step-place t in_invite_completed (response (some m)) p
        ∙ unfold at_place on_invite_completed ack_again write in simp (h.1, a) in
      rw (once, run) (completed_acknowledges ms (record t { sent = ack ∷ t.sent }) ack p a h.2)

  -- A failure response, in the calling or the proceeding state, from which an acknowledgement can
  -- be made: it is sent, kept, and the transaction completes.
  abbrev completing : Message → Message → ClientTransaction → ClientTransaction
  completing ack msg t = write ack (record t {
    ack = some ack;
    final_res = some msg;
    state = completed;
    place = in_invite_completed;
  })

  proceeding_acknowledges :
      (t : ClientTransaction) (msg ack : Message)
      → t.place ≡ in_invite_proceeding
      → msg.response ≡ true
      → is_failure msg.status_code ≡ true
      → generate_ack parse_query branch t.request msg ≡ ok ack
      → step parse_query branch t (response (some msg)) ≡ completing ack msg t
  unfolding at_place on_invite_proceeding acknowledge write
  proceeding_acknowledges t msg ack p r f g =
      step-place t in_invite_proceeding (response (some msg)) p
      ∙ simp (
        r,
        f,
        failure-not_success msg.status_code f,
        failure-not_provisional msg.status_code f,
        g,
      )

  calling_acknowledges :
      (t : ClientTransaction) (a b : ℕ) (msg ack : Message)
      → t.place ≡ in_calling a b
      → msg.response ≡ true
      → is_failure msg.status_code ≡ true
      → generate_ack parse_query branch t.request msg ≡ ok ack
      → step parse_query branch t (response (some msg))
        ≡ completing ack msg (record t { error = some (non_2xx_response msg.status_code) })
  unfolding at_place on_calling acknowledge write
  calling_acknowledges t a b msg ack p r f g =
      step-place t (in_calling a b) (response (some msg)) p
      ∙ simp (r, f, failure-not_success msg.status_code f, g)

  -- From the proceeding state of an INVITE, where an acknowledgement of the first failure response
  -- can be made: that response and each failure response that follows it has the same
  -- acknowledgement sent once, and the first one stays the final response.
  pub acknowledges_each_failure :
      (t : ClientTransaction) (msg ack : Message) (ms : List Message)
      → t.place ≡ in_invite_proceeding
      → generate_ack parse_query branch t.request msg ≡ ok ack
      → AllFailures (msg ∷ ms)
      → run parse_query branch t (responses (msg ∷ ms)) ≡ record t {
        ack = some ack;
        final_res = some msg;
        state = completed;
        place = in_invite_completed;
        sent = once_each (msg ∷ ms) ack t.sent;
      }
  unfolding run write
  acknowledges_each_failure t msg ack ms p g h =
      rw (proceeding_acknowledges t msg ack p h.0 h.1 g, run)
        (completed_acknowledges ms (completing ack msg t) ack refl refl h.2)

  -- From the calling state of an INVITE, where an acknowledgement of the first failure response can
  -- be made: that response and each failure response that follows it has the same acknowledgement
  -- sent once, and the first one stays the final response and the error of the transaction.
  calling_acknowledges_each_failure :
      (t : ClientTransaction) (a b : ℕ) (msg ack : Message) (ms : List Message)
      → t.place ≡ in_calling a b
      → generate_ack parse_query branch t.request msg ≡ ok ack
      → AllFailures (msg ∷ ms)
      → run parse_query branch t (responses (msg ∷ ms)) ≡ record t {
        ack = some ack;
        error = some (non_2xx_response msg.status_code);
        final_res = some msg;
        state = completed;
        place = in_invite_completed;
        sent = once_each (msg ∷ ms) ack t.sent;
      }
  unfolding run write
  calling_acknowledges_each_failure t a b msg ack ms p g h =
      rw (calling_acknowledges t a b msg ack p h.0 h.1 g, run)
        (completed_acknowledges ms
          (completing ack msg (record t { error = some (non_2xx_response msg.status_code) })) ack
          refl refl h.2)

  at_place-destroyed :
      (p : Place) (t : ClientTransaction)
      → t.place ≡ p
      → t.res_open ≡ false
      → (at_place parse_query branch p (response none) t).place ≡ ends_at p
  unfolding at_place on_starting on_calling on_invite_proceeding on_invite_completed on_proceeding
      on_completed fail_with destroy
  at_place-destroyed in_invite_proceeding t p o = ground arith
  at_place-destroyed _ t p o = ground arith

  -- A transaction with an open channel of responses that another goroutine destroys while its
  -- controller waits for a response: the
  -- nil response that the closed channel gives ends the controller, but in the proceeding state of
  -- an INVITE the controller closes the channel once more and panics.
  pub destroyed_ends :
      (t : ClientTransaction)
      → t.res_open ≡ true
      → (step parse_query branch (destroy_outside t) (response none)).place ≡ ends_at t.place
  unfolding step destroy_outside
  destroyed_ends t o =
      at_place-destroyed t.place (record (destroy t) { place = t.place }) refl (ground arith)
