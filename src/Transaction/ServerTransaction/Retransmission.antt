-- ===== src/Transaction/ServerTransaction/Retransmission.antt =====
-- How long an INVITE server transaction (sip/transaction.go) waits for the acknowledgement.
use tjsip.Base.{
  repeat, ℕ, ◌+◌, ◌-◌, ◌≤◌, ◌<◌, ◌≡◌, refl, ap, ◌∙◌, Bool, true, false, some, List, [], ◌∷◌, arith,
  length, if◌then◌else◌, Bool-cases, inl, inr,
}
use tjsip.Base.Classes.{bytes_eq}
use tjsip.Message.{Message}
use tjsip.Transaction.Timers.{
  fires_first-le, double_to_t2_pos, closed, Event, silence, fires_first, double_to_t2, timer_g,
  timer_h,
}
use tjsip.Transaction.ServerTransaction.{
  Place, at_invite_completed, returned, ServerTransaction, step, at_place, write, destroy,
  controller_terminated, on_invite_completed, write_final,
}

-- How long the select of a completed INVITE transaction waits.
unfoldable pub wait : Place → Bool → ℕ
wait (at_invite_completed g h) tie = if fires_first tie g h then g else h
wait _ tie = 0

-- Silence, as often as the list is long, and the time that passes.
unfoldable pub silences : List Bool → ServerTransaction → ServerTransaction × ℕ
unfolding wait step
silences [] t = (t, 0)
silences (tie ∷ ties) t =
    let (u, n) = silences ties (step t (silence tie)) in (u, wait t.place tie + n)

step-place :
    (t : ServerTransaction) (p : Place) (e : Event) → t.place ≡ p → step t e ≡ at_place p e t
unfolding step
step-place t p e h = ap (λ (q : Place). at_place q e t) h

wait-place :
    (t : ServerTransaction) (p : Place) (tie : Bool) → t.place ≡ p → wait t.place tie ≡ wait p tie
wait-place t p tie h = ap (λ (q : Place). wait q tie) h

silences-returned :
    (ties : List Bool) (t : ServerTransaction) → t.place ≡ returned → silences ties t ≡ (t, 0)
unfolding silences
silences-returned [] t r = refl
silences-returned (tie ∷ ties) t r =
    let e : step t (silence tie) ≡ t = step-place t returned (silence tie) r in
    let w : wait t.place tie ≡ 0 = wait-place t returned tie r in
    rw (e, w, silences-returned ties t r) (ground arith)

-- What is known of a transaction that has ended after the time `n`.
abbrev pub Ended : ServerTransaction × ℕ → ℕ → Type 0
Ended r n = (r.1 ≡ n) × (r.0.state ≡ closed) × (r.0.removed ≡ true) × (r.0.place ≡ returned)

round :
    (tie : Bool) (ties : List Bool) (t u : ServerTransaction) (n m : ℕ)
    → step t (silence tie) ≡ u
    → wait t.place tie ≡ n
    → Ended (silences ties u) m
    → Ended (silences (tie ∷ ties) t) (n + m)
unfolding silences
round tie ties t u n m e w h = rw (e, w) (ap (λ (k : ℕ). n + k) h.0, h.1, h.2, h.3)

over :
    (ties : List Bool) (t : ServerTransaction) → Ended (silences ties (controller_terminated t)) 0
unfolding controller_terminated destroy
over ties t = rw (silences-returned ties (controller_terminated t) refl) (refl, refl, refl, refl)

abbrev resend : Message → Place → ServerTransaction → ServerTransaction
resend m p t = write m (record t { place = p })

fires :
    (tie : Bool) (t : ServerTransaction) (m : Message) (g h : ℕ)
    → t.place ≡ at_invite_completed g h
    → t.final_res ≡ some m
    → fires_first tie g h ≡ true
    → (step t (silence tie) ≡ resend m (at_invite_completed (double_to_t2 g) (h - g)) t)
      × (wait t.place tie ≡ g)
unfolding at_place on_invite_completed write_final wait
fires tie t m g h p s f = (
  step-place t (at_invite_completed g h) (silence tie) p ∙ simp (f, s),
  wait-place t (at_invite_completed g h) tie p ∙ rw f refl,
)

expires :
    (tie : Bool) (t : ServerTransaction) (g h : ℕ)
    → t.place ≡ at_invite_completed g h
    → fires_first tie g h ≡ false
    → (step t (silence tie) ≡ controller_terminated t) × (wait t.place tie ≡ h)
unfolding at_place on_invite_completed wait
expires tie t g h p f = (
  step-place t (at_invite_completed g h) (silence tie) p ∙ rw f refl,
  wait-place t (at_invite_completed g h) tie p ∙ rw f refl,
)

-- A final response that is not acknowledged in the completed state of an INVITE: whatever the two
-- timers, Timer G not being zero, the transaction ends and is removed from the server after exactly
-- the time of Timer H. There are more rounds of silence than Timer H has milliseconds.
pub completed_times_out :
    (ties : List Bool) (t : ServerTransaction) (m : Message) (g h : ℕ)
    → t.place ≡ at_invite_completed g h
    → t.final_res ≡ some m
    → 0 < g
    → h < length ties
    → Ended (silences ties t) h
completed_times_out [] t m g h p s k l = absurd (omega arith)
completed_times_out (tie ∷ ties) t m g h p s k l = elim (Bool-cases (fires_first tie g h)) [
  | inl f ↦
      let le : g ≤ h = fires_first-le tie g h f in
      let (e, w) = fires tie t m g h p s f in
      let later =
        completed_times_out ties (resend m (at_invite_completed (double_to_t2 g) (h - g)) t) m
          (double_to_t2 g) (h - g) (unfold write in refl) (unfold write in s) (double_to_t2_pos g k)
          (omega arith) in
      let total : g + (h - g) ≡ h = omega arith in
      rw total at (round tie ties t _ g (h - g) e w later)
  | inr f ↦
      let (e, w) = expires tie t g h p f in
      let total : h + 0 ≡ h = omega arith in rw total at (round tie ties t _ h 0 e w (over ties t))
]

-- The transaction when its failure response has just been sent, with the timers of the source.
abbrev pub waiting_ack : Message → ServerTransaction → ServerTransaction
waiting_ack m t = record t { final_res = some m; place = at_invite_completed timer_g timer_h }

-- A failure response that is not acknowledged after its first sending is sent ten times more in 32
-- seconds, after which the transaction ends, whichever of two timers that fire at once is taken.
pub failure_resends :
    (t : ServerTransaction) (m : Message) (a b c d e f g h i j k : Bool)
    → let run = silences (a ∷ b ∷ c ∷ d ∷ e ∷ f ∷ g ∷ h ∷ i ∷ j ∷ k ∷ []) (waiting_ack m t) in
      (run.0.sent ≡ repeat 10 m t.sent) × Ended run 32000
unfolding silences controller_terminated write
failure_resends t m a b c d e f g h i j k = (refl, (refl, refl, refl, refl))
