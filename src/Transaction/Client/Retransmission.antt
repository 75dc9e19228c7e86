-- ===== src/Transaction/Client/Retransmission.antt =====
-- How long a client transaction (sip/transaction.go) waits for a server that stays silent.
use tjsip.Base.{
  repeat, ℕ, ◌+◌, ◌-◌, ◌*◌, ◌≤◌, ◌<◌, ◌≡◌, refl, ap, ◌∙◌, Bool, true, false, some, List, [], ◌∷◌,
  Bytes, arith, length, if◌then◌else◌, Bool-cases, inl, inr,
}
use tjsip.Base.Assoc.{Assoc}
use tjsip.Base.Outcome.{transaction_timed_out}
use tjsip.Transaction.Timers.{
  fires_first-le, double_to_t2_pos, Event, silence, fires_first, double_to_t2, timer_a, timer_b,
  timer_e, timer_f, t4, closed,
}
use tjsip.Transaction.Client.{
  Place, in_calling, in_invite_completed, in_proceeding, in_completed, returned, ClientTransaction,
  step, at_place, on_calling, on_proceeding, controller_terminated, destroy, write,
}

-- TimerD and TimerK
abbrev pub timer_d : ℕ
timer_d = 32000

abbrev pub timer_k : ℕ
timer_k = t4

-- How long a select waits before its next timer fires.
unfoldable pub wait : Place → Bool → ℕ
wait (in_calling a b) tie = if fires_first tie a b then a else b
wait (in_proceeding e f) tie = if fires_first tie e f then e else f
wait in_invite_completed tie = timer_d
wait in_completed tie = timer_k
wait _ tie = 0

module _ (parse_query : Bytes → Assoc Bytes (List Bytes)) (branch : Bytes) where
  -- Silence, as often as the list is long, and the time that passes.
  unfoldable pub silences : List Bool → ClientTransaction → ClientTransaction × ℕ
  unfolding wait step
  silences [] t = (t, 0)
  silences (tie ∷ ties) t =
      let (u, n) = silences ties (step parse_query branch t (silence tie)) in
      (u, wait t.place tie + n)

  step-place :
      (t : ClientTransaction) (p : Place) (e : Event)
      → t.place ≡ p
      → step parse_query branch t e ≡ at_place parse_query branch p e t
  unfolding step
  step-place t p e h = ap (λ (q : Place). at_place parse_query branch q e t) h

  wait-place :
      (t : ClientTransaction) (p : Place) (tie : Bool) → t.place ≡ p → wait t.place tie ≡ wait p tie
  wait-place t p tie h = ap (λ (q : Place). wait q tie) h

  silences-returned :
      (ties : List Bool) (t : ClientTransaction) → t.place ≡ returned → silences ties t ≡ (t, 0)
  unfolding silences
  silences-returned [] t r = refl
  silences-returned (tie ∷ ties) t r =
      let e : step parse_query branch t (silence tie) ≡ t = step-place t returned (silence tie) r in
      let w : wait t.place tie ≡ 0 = wait-place t returned tie r in
      rw (e, w, silences-returned ties t r) (ground arith)

  -- What is known of a transaction that has given up after the time `n`.
  abbrev pub GivenUp : ClientTransaction × ℕ → ℕ → Type 0
  GivenUp r n =
      (r.1 ≡ n)
      × (r.0.error ≡ some transaction_timed_out)
      × (r.0.state ≡ closed)
      × (r.0.place ≡ returned)

  -- One round at a select of two timers, of which the first sends again.
  round :
      (tie : Bool) (ties : List Bool) (t u : ClientTransaction) (n m : ℕ)
      → step parse_query branch t (silence tie) ≡ u
      → wait t.place tie ≡ n
      → GivenUp (silences ties u) m
      → GivenUp (silences (tie ∷ ties) t) (n + m)
  unfolding silences
  round tie ties t u n m e w h = rw (e, w) (ap (λ (k : ℕ). n + k) h.0, h.1, h.2, h.3)

  abbrev give_up : ClientTransaction → ClientTransaction
  give_up t = controller_terminated (record t { error = some transaction_timed_out })

  give_up-fields :
      (t : ClientTransaction)
      → t.res_open ≡ true
      → ((give_up t).error ≡ some transaction_timed_out)
        × ((give_up t).state ≡ closed)
        × ((give_up t).place ≡ returned)
  unfolding controller_terminated destroy
  give_up-fields t o = ground arith

  expired :
      (ties : List Bool) (t : ClientTransaction)
      → t.res_open ≡ true
      → GivenUp (silences ties (give_up t)) 0
  expired ties t o =
      let f = give_up-fields t o in
      rw (silences-returned ties (give_up t) f.2) (refl, f.0, f.1, f.2)

  abbrev resend : Place → ClientTransaction → ClientTransaction
  resend p t = write t.request (record t { place = p })

  calling_fires :
      (tie : Bool) (t : ClientTransaction) (a b : ℕ)
      → t.place ≡ in_calling a b
      → fires_first tie a b ≡ true
      → (step parse_query branch t (silence tie) ≡ resend (in_calling (a * 2) (b - a)) t)
        × (wait t.place tie ≡ a)
  unfolding at_place on_calling wait
  calling_fires tie t a b p f = (
    step-place t (in_calling a b) (silence tie) p ∙ rw f refl,
    wait-place t (in_calling a b) tie p ∙ rw f refl,
  )

  calling_expires :
      (tie : Bool) (t : ClientTransaction) (a b : ℕ)
      → t.place ≡ in_calling a b
      → fires_first tie a b ≡ false
      → (step parse_query branch t (silence tie) ≡ give_up t) × (wait t.place tie ≡ b)
  unfolding at_place on_calling wait
  calling_expires tie t a b p f = (
    step-place t (in_calling a b) (silence tie) p ∙ rw f refl,
    wait-place t (in_calling a b) tie p ∙ rw f refl,
  )

  -- An INVITE that is not answered in the calling state: whatever the two timers, Timer A not being
  -- zero, the transaction gives up with the time-out error after exactly the time of Timer B. The
  -- channel of responses is open, and there are more rounds of silence than Timer B has
  -- milliseconds.
  pub calling_times_out :
      (ties : List Bool) (t : ClientTransaction) (a b : ℕ)
      → t.place ≡ in_calling a b
      → t.res_open ≡ true
      → 0 < a
      → b < length ties
      → GivenUp (silences ties t) b
  calling_times_out [] t a b p o h l = absurd (omega arith)
  calling_times_out (tie ∷ ties) t a b p o h l = elim (Bool-cases (fires_first tie a b)) [
    | inl f ↦
        let le : a ≤ b = fires_first-le tie a b f in
        let (s, w) = calling_fires tie t a b p f in
        let later =
          calling_times_out ties (resend (in_calling (a * 2) (b - a)) t) (a * 2) (b - a)
            (unfold write in refl) (unfold write in o) (omega arith) (omega arith) in
        let total : a + (b - a) ≡ b = omega arith in
        rw total at (round tie ties t _ a (b - a) s w later)
    | inr f ↦
        let (s, w) = calling_expires tie t a b p f in
        let total : b + 0 ≡ b = omega arith in
        rw total at (round tie ties t _ b 0 s w (expired ties t o))
  ]

  proceeding_fires :
      (tie : Bool) (t : ClientTransaction) (e f : ℕ)
      → t.place ≡ in_proceeding e f
      → fires_first tie e f ≡ true
      → (step parse_query branch t (silence tie)
          ≡ resend (in_proceeding (double_to_t2 e) (f - e)) t)
        × (wait t.place tie ≡ e)
  unfolding at_place on_proceeding wait
  proceeding_fires tie t e f p h = (
    step-place t (in_proceeding e f) (silence tie) p ∙ rw h refl,
    wait-place t (in_proceeding e f) tie p ∙ rw h refl,
  )

  proceeding_expires :
      (tie : Bool) (t : ClientTransaction) (e f : ℕ)
      → t.place ≡ in_proceeding e f
      → fires_first tie e f ≡ false
      → (step parse_query branch t (silence tie) ≡ give_up t) × (wait t.place tie ≡ f)
  unfolding at_place on_proceeding wait
  proceeding_expires tie t e f p h = (
    step-place t (in_proceeding e f) (silence tie) p ∙ rw h refl,
    wait-place t (in_proceeding e f) tie p ∙ rw h refl,
  )

  -- A request other than INVITE that gets no answer in the proceeding state: whatever the two
  -- timers, Timer E not being zero, the transaction gives up with the time-out error after exactly
  -- the time of Timer F. The channel of responses is open, and there are more rounds of silence
  -- than Timer F has milliseconds.
  pub proceeding_times_out :
      (ties : List Bool) (t : ClientTransaction) (e f : ℕ)
      → t.place ≡ in_proceeding e f
      → t.res_open ≡ true
      → 0 < e
      → f < length ties
      → GivenUp (silences ties t) f
  proceeding_times_out [] t e f p o h l = absurd (omega arith)
  proceeding_times_out (tie ∷ ties) t e f p o h l = elim (Bool-cases (fires_first tie e f)) [
    | inl k ↦
        let le : e ≤ f = fires_first-le tie e f k in
        let (s, w) = proceeding_fires tie t e f p k in
        let later =
          proceeding_times_out ties (resend (in_proceeding (double_to_t2 e) (f - e)) t)
            (double_to_t2 e) (f - e) (unfold write in refl) (unfold write in o)
            (double_to_t2_pos e h) (omega arith) in
        let total : e + (f - e) ≡ f = omega arith in
        rw total at (round tie ties t _ e (f - e) s w later)
    | inr k ↦
        let (s, w) = proceeding_expires tie t e f p k in
        let total : f + 0 ≡ f = omega arith in
        rw total at (round tie ties t _ f 0 s w (expired ties t o))
  ]

  -- The transaction at its first wait for a response, with the timers of the source.
  abbrev pub waiting_invite : ClientTransaction → ClientTransaction
  waiting_invite t = record t { place = in_calling timer_a timer_b; res_open = true }

  abbrev pub waiting_request : ClientTransaction → ClientTransaction
  waiting_request t = record t { place = in_proceeding timer_e timer_f; res_open = true }

  -- An INVITE that is not answered after its first sending is sent six times more in 32 seconds,
  -- after which the transaction gives up, whichever of two timers that fire at once is taken.
  pub invite_resends :
      (t : ClientTransaction) (a b c d e f g : Bool)
      → ((silences (a ∷ b ∷ c ∷ d ∷ e ∷ f ∷ g ∷ []) (waiting_invite t)).0.sent
          ≡ repeat 6 t.request t.sent)
        × (GivenUp (silences (a ∷ b ∷ c ∷ d ∷ e ∷ f ∷ g ∷ []) (waiting_invite t)) 32000)
  unfolding silences controller_terminated write
  invite_resends t a b c d e f g = (refl, (refl, refl, refl, refl))

  -- Another request that is not answered after its first sending is sent ten times more in 32
  -- seconds, after which the transaction gives up, whichever of two timers that fire at once is
  -- taken.
  pub request_resends :
      (t : ClientTransaction) (a b c d e f g h i j k : Bool)
      → ((silences (a ∷ b ∷ c ∷ d ∷ e ∷ f ∷ g ∷ h ∷ i ∷ j ∷ k ∷ []) (waiting_request t)).0.sent
          ≡ repeat 10 t.request t.sent)
        × (GivenUp
            (silences (a ∷ b ∷ c ∷ d ∷ e ∷ f ∷ g ∷ h ∷ i ∷ j ∷ k ∷ []) (waiting_request t))
            32000)
  unfolding silences controller_terminated write
  request_resends t a b c d e f g h i j k = (refl, (refl, refl, refl, refl))
