-- ===== src/Transaction/Client/Sound.antt =====
-- What a client transaction (sip/transaction.go) does with the responses that it gets.
use tjsip.Base.{
  ◌≡◌, ◌≢◌, refl, Bool, true, false, not, ◌&&◌, none, some, List, Bytes, arith, if◌then◌else◌,
  is_some,
}
use tjsip.Base.Assoc.{Assoc}
use tjsip.Base.Outcome.{Outcome, panic}
use tjsip.Base.Classes.{◌==◌, bytes_eq}
use tjsip.Message.{Message, method_invite}
use tjsip.Message.Generate.{generate_ack}
use tjsip.Transaction.Timers.{trying, calling, proceeding, completed, Event, from_tu, response}
use tjsip.Transaction.Client.{
  Place, starting, in_calling, in_invite_proceeding, in_invite_completed, in_proceeding,
  in_completed, returned, panicked, ClientTransaction, new_client_transaction, at_place,
}

-- What holds of a transaction that only its own controller destroys, at each place of it.
abbrev AtPlace : Place → ClientTransaction → Type 0
AtPlace starting t = (t.state ≡ (if t.invite then calling else trying)) × (t.res_open ≡ true)
AtPlace (in_calling a b) t =
    (t.state ≡ calling) × (t.res_open ≡ true) × (t.invite ≡ true) × (is_some t.request.via ≡ true)
AtPlace in_invite_proceeding t =
    (t.state ≡ proceeding)
    × (t.res_open ≡ true)
    × (t.invite ≡ true)
    × (is_some t.request.via ≡ true)
AtPlace in_invite_completed t =
    (t.state ≡ completed) × (t.res_open ≡ true) × (t.invite ≡ true) × (is_some t.ack ≡ true)
AtPlace (in_proceeding e f) t = (t.state ≡ proceeding) × (t.res_open ≡ true) × (t.invite ≡ false)
AtPlace in_completed t =
    (t.state ≡ completed) × (t.res_open ≡ true) × (t.invite ≡ false) × (is_some t.final_res ≡ true)
AtPlace returned t = Unit {0}
AtPlace panicked t = ⊥

pub record IsSound (t : ClientTransaction) : Type 0 where
  pub at_place : AtPlace t.place t
  pub removed : t.removed ≡ not t.res_open
  pub told : t.informed ≡ (if not t.res_open && is_some t.error && t.inform then 1 else 0)

-- Nobody has destroyed the transaction yet.
abbrev IsLive : ClientTransaction → Type 0
IsLive t = (t.res_open ≡ true) × (t.removed ≡ false) × (t.informed ≡ 0)

IsLive-IsSound : (t : ClientTransaction) → IsLive t → AtPlace t.place t → IsSound t
IsLive-IsSound t l p = record { at_place = p; removed = ground arith; told = ground arith }

-- An acknowledgement can be made, or refused, wherever the request has Via headers.
pub generate_ack-ne-panic :
    (parse_query : Bytes → Assoc Bytes (List Bytes)) (branch : Bytes) (req res : Message)
    → is_some req.via ≡ true
    → generate_ack parse_query branch req res ≢ panic
unfolding generate_ack
generate_ack-ne-panic q b req res h = ground arith

module _ (parse_query : Bytes → Assoc Bytes (List Bytes)) (branch : Bytes) where
  -- An INVITE without Via headers, for a transaction of an INVITE
  abbrev pub lacks_via : Bool → Message → Bool
  lacks_via invite msg =
      invite && msg.request && msg.method == method_invite && not (is_some msg.via)

  -- What may wake a controller that nobody else has destroyed: at the start a message that is not
  -- nil and no INVITE without Via headers; later no nil response.
  abbrev IsOwn : Bool → Place → Event → Type 0
  IsOwn invite starting (from_tu none) = ⊥
  IsOwn invite starting (from_tu (some msg)) = lacks_via invite msg ≡ false
  IsOwn invite in_invite_proceeding (response none) = ⊥
  IsOwn invite p e = Unit {0}

-- A new transaction is sound.
pub new_client_transaction-IsSound :
    (is_invite : Bool) (msg : Message) (inform : Bool)
    → IsSound (new_client_transaction is_invite msg inform)
unfolding new_client_transaction
new_client_transaction-IsSound is_invite msg inform =
    IsLive-IsSound _ (refl, refl, refl) (refl, refl)
