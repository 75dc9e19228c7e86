-- ===== src/Transaction/ServerTransaction/Responses.antt =====
-- Which responses a server transaction (sip/transaction.go) sends and keeps.
use tjsip.Base.{
  Bool, false, ◌<◌, ◌≤◌, ◌≡◌, refl, ap, ◌∙◌, true, false, none, some, List, [], ◌∷◌, arith,
  if◌then◌else◌, is_some, leb,
}
use tjsip.Base.Classes.{bytes_eq}
use tjsip.Message.{Message}
use tjsip.Transaction.Timers.{
  timer_g, timer_h, proceeding, completed, Event, deleted, from_tu, response, silence,
}
use tjsip.Transaction.ServerTransaction.{
  Place, at_invite, at_invite_loop, at_invite_completed, at_confirmed, at_trying, at_proceeding,
  at_completed, returned, panicked, ServerTransaction, step, run, at_place, write, destroy,
  controller_terminated, new_server_transaction, on_invite, on_invite_loop, on_invite_completed,
  on_confirmed, on_trying, on_proceeding, on_completed, complete, write_final, send_provisional,
  send_success, send_failure,
}
use tjsip.Transaction.ServerTransaction.Sound.{AtPlace, IsSound}

at_place-keeps :
    (p : Place) (e : Event) (t : ServerTransaction)
    → AtPlace p t
    → is_some t.final_res ≡ true
    → (at_place p e t).final_res ≡ t.final_res
unfolding at_place on_invite on_invite_loop on_invite_completed on_confirmed on_trying on_proceeding
    on_completed complete write_final send_provisional send_success send_failure
    controller_terminated destroy write
at_place-keeps at_invite e t a f = absurd (ground arith)
at_place-keeps at_invite_loop e t a f = absurd (ground arith)
at_place-keeps at_trying e t a f = absurd (ground arith)
at_place-keeps at_proceeding e t a f = absurd (ground arith)
at_place-keeps _ e t a f = ground arith

-- A sound transaction that has a final response keeps it: no event replaces it by another.
pub final_response_stays :
    (t : ServerTransaction) (e : Event)
    → IsSound t
    → is_some t.final_res ≡ true
    → (step t e).final_res ≡ t.final_res
unfolding step
final_response_stays t e s f = at_place-keeps t.place e t s.at_place f

step-place :
    (t : ServerTransaction) (p : Place) (e : Event) → t.place ≡ p → step t e ≡ at_place p e t
unfolding step
step-place t p e h = ap (λ (q : Place). at_place q e t) h

-- Provisional responses, other than 100, of the transaction user
abbrev pub AreProvisional : List Message → Type 0
AreProvisional [] = Unit {0}
AreProvisional (m ∷ ms) =
    (m.response ≡ true) × 100 < m.status_code × m.status_code < 200 × AreProvisional ms

abbrev pub from_user : List Message → List Event
from_user [] = []
from_user (m ∷ ms) = from_tu (some m) ∷ from_user ms

-- The messages, one after the other, on top of others
abbrev pub onto : List Message → List Message → List Message
onto [] sent = sent
onto (m ∷ ms) sent = onto ms (m ∷ sent)

-- Whether the controller takes a failure response: always as the first response, and up to status 600
-- behind provisional ones
abbrev pub is_taken : List Message → Message → Bool
is_taken [] msg = true
is_taken (_ ∷ _) msg = leb msg.status_code 600

abbrev WaitsInLoop : ServerTransaction → Type 0
WaitsInLoop t =
    (t.place ≡ at_invite_loop) × (t.state ≡ proceeding) × (t.final_res ≡ none) × (t.removed ≡ false)

step-provisional :
    (t : ServerTransaction) (m : Message)
    → WaitsInLoop t
    → m.response ≡ true
    → 100 < m.status_code
    → m.status_code < 200
    → WaitsInLoop (step t (from_tu (some m))) × ((step t (from_tu (some m))).sent ≡ m ∷ t.sent)
unfolding step at_place on_invite_loop send_provisional write
step-provisional t m (p, s, f, r) answer low high =
    rw (step-place t at_invite_loop (from_tu (some m)) p) (ground arith)

run-provisionals :
    (ps : List Message) (t : ServerTransaction)
    → WaitsInLoop t
    → AreProvisional ps
    → WaitsInLoop (run t (from_user ps)) × ((run t (from_user ps)).sent ≡ onto ps t.sent)
unfolding run
run-provisionals [] t w h = (w, refl)
run-provisionals (m ∷ ms) t w (answer, low, high, h) =
    let (v, e) = step-provisional t m w answer low high in
    let (u, f) = run-provisionals ms (step t (from_tu (some m))) v h in (u, f ∙ ap (onto ms) e)

first-failure :
    (t : ServerTransaction) (msg : Message)
    → t.place ≡ at_invite
    → msg.response ≡ true
    → 300 ≤ msg.status_code
    → msg.status_code < 700
    → step t (from_tu (some msg)) ≡ record t {
      sent = msg ∷ t.sent;
      final_res = some msg;
      state = completed;
      place = at_invite_completed timer_g timer_h;
    }
unfolding step at_place on_invite send_failure write
first-failure t msg p answer low high =
    rw (step-place t at_invite (from_tu (some msg)) p) (ground arith)

late-failure :
    (t : ServerTransaction) (msg : Message)
    → t.place ≡ at_invite_loop
    → msg.response ≡ true
    → 300 ≤ msg.status_code
    → msg.status_code < 700
    → step t (from_tu (some msg)) ≡ (
        if leb msg.status_code 600
        then record t {
          sent = msg ∷ t.sent;
          final_res = some msg;
          state = completed;
          place = at_invite_completed timer_g timer_h;
        }
        else record t { place = returned })
unfolding step at_place on_invite_loop send_failure write
late-failure t msg p answer low high =
    rw (step-place t at_invite_loop (from_tu (some msg)) p) (ground arith)

first-provisional :
    (req m : Message)
    → m.response ≡ true
    → 100 < m.status_code
    → m.status_code < 200
    → WaitsInLoop (step (new_server_transaction true req) (from_tu (some m)))
      × ((step (new_server_transaction true req) (from_tu (some m))).sent ≡ m ∷ [])
unfolding step at_place on_invite send_provisional write new_server_transaction
first-provisional req m answer low high = ground arith

run-returned : (es : List Event) (t : ServerTransaction) → t.place ≡ returned → run t es ≡ t
unfolding run at_place
run-returned [] t p = refl
run-returned (e ∷ es) t p =
    ap (λ (u : ServerTransaction). run u es) (step-place t returned e p) ∙ run-returned es t p

ends_returned :
    (b : Bool) (t : ServerTransaction) (es : List Event)
    → t.place ≡ (if b then at_invite_completed timer_g timer_h else returned)
    → (if b then t else run t es) ≡ t
ends_returned true t es h = refl
ends_returned false t es h = run-returned es t h

-- What becomes of a failure response behind provisional ones
pub record Answered (ps : List Message) (msg : Message) (t : ServerTransaction) : Type 0 where
  pub sends : t.sent ≡ (if is_taken ps msg then msg ∷ onto ps [] else onto ps [])
  pub keeps : t.final_res ≡ (if is_taken ps msg then some msg else none)
  pub goes_to : t.state ≡ (if is_taken ps msg then completed else proceeding)
  pub waits : t.place ≡ (if is_taken ps msg then at_invite_completed timer_g timer_h else returned)
  pub stays : t.removed ≡ false

late-Answered :
    (p : Message) (ps : List Message) (msg : Message) (t : ServerTransaction)
    → WaitsInLoop t
    → t.sent ≡ onto ps (p ∷ [])
    → msg.response ≡ true
    → 300 ≤ msg.status_code
    → msg.status_code < 700
    → Answered (p ∷ ps) msg (step t (from_tu (some msg)))
late-Answered p ps msg t (place, s, f, r) e answer low high =
    rw (late-failure t msg place answer low high) (record {
      sends = ground arith;
      keeps = ground arith;
      goes_to = ground arith;
      waits = ground arith;
      stays = ground arith;
    })

-- A failure response of the transaction user, behind any number of provisional ones other than 100: a new
-- INVITE transaction has sent these, and then sends the failure response, keeps it and waits for its
-- acknowledgement with Timers G and H, where it is the first response or has a status up to 600. Behind a
-- provisional response one from 601 to 699 is not sent, and the controller returns: the transaction is not
-- removed, and no event changes it any more.
pub failure_responses :
    (req : Message) (ps : List Message) (msg : Message) (es : List Event)
    → AreProvisional ps
    → msg.response ≡ true
    → 300 ≤ msg.status_code
    → msg.status_code < 700
    → let t : ServerTransaction =
        step (run (new_server_transaction true req) (from_user ps)) (from_tu (some msg)) in
      Answered ps msg t × ((if is_taken ps msg then t else run t es) ≡ t)
unfolding run new_server_transaction
failure_responses req [] msg es h answer low high = (
  rw (first-failure (new_server_transaction true req) msg refl answer low high)
      (record { sends = refl; keeps = refl; goes_to = refl; waits = refl; stays = refl }),
  refl,
)
failure_responses req (p ∷ ps) msg es (a, l, u, h) answer low high =
    let (waiting, e) = first-provisional req p a l u in
    let first : ServerTransaction = step (new_server_transaction true req) (from_tu (some p)) in
    let (waits, f) = run-provisionals ps first waiting h in
    let done =
      late-Answered p ps msg (run first (from_user ps)) waits (f ∙ ap (onto ps) e) answer low
        high in
    (
      done,
      ends_returned (leb msg.status_code 600) (step (run first (from_user ps)) (from_tu (some msg)))
          es done.waits,
    )

abbrev pub IsConfirmed : Place → Type 0
IsConfirmed at_confirmed = Unit {0}
IsConfirmed returned = Unit {0}
IsConfirmed _ = ⊥

at_place-IsConfirmed :
    (p : Place) (t : ServerTransaction) (e : Event)
    → t.place ≡ p
    → IsConfirmed p
    → ((at_place p e t).sent ≡ t.sent) × IsConfirmed (at_place p e t).place
unfolding at_place on_confirmed controller_terminated destroy
at_place-IsConfirmed at_confirmed t deleted h c = (refl, tt)
at_place-IsConfirmed at_confirmed t (from_tu none) h c = (refl, tt)
at_place-IsConfirmed at_confirmed t (from_tu (some m)) h c = (refl, rw h tt)
at_place-IsConfirmed at_confirmed t (response m) h c = (refl, rw h tt)
at_place-IsConfirmed at_confirmed t (silence tie) h c = (refl, tt)
at_place-IsConfirmed returned t e h c = (refl, rw h tt)
at_place-IsConfirmed at_invite t e h c = elim c [ ]
at_place-IsConfirmed at_invite_loop t e h c = elim c [ ]
at_place-IsConfirmed (at_invite_completed _ _) t e h c = elim c [ ]
at_place-IsConfirmed at_trying t e h c = elim c [ ]
at_place-IsConfirmed at_proceeding t e h c = elim c [ ]
at_place-IsConfirmed at_completed t e h c = elim c [ ]
at_place-IsConfirmed panicked t e h c = elim c [ ]

step-IsConfirmed :
    (t : ServerTransaction) (e : Event)
    → IsConfirmed t.place
    → ((step t e).sent ≡ t.sent) × IsConfirmed (step t e).place
unfolding step
step-IsConfirmed t e c = at_place-IsConfirmed t.place t e refl c

-- No message is sent any more, whatever the events, once an INVITE transaction has received the
-- acknowledgement and waits in the confirmed state, or once its controller has returned.
pub confirmed_sends_nothing :
    (es : List Event) (t : ServerTransaction) → IsConfirmed t.place → (run t es).sent ≡ t.sent
unfolding run
confirmed_sends_nothing [] t p = refl
confirmed_sends_nothing (e ∷ es) t p =
    let (s, q) = step-IsConfirmed t e p in confirmed_sends_nothing es (step t e) q ∙ s
