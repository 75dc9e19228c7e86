-- ===== src/Calls/Laws.antt =====
-- Laws of the table of calls (proxy_server.go).
use tjsip.Base.{
  ℕ, zero, suc, ◌≡◌, ◌≢◌, ◌<◌, refl, true, none, some, List, [], ◌∷◌, Bytes, arith, if◌then◌else◌,
  get_elem?,
}
use tjsip.Base.Classes.{◌==◌, bytes_eq, bytes_beq_iff, nat_eq}
use tjsip.Base.Assoc.{lookup-insert, lookup-delete}
use tjsip.Base.Outcome.{ok}
use tjsip.Message.{Message}
use tjsip.Message.Urls.{Urls}
use tjsip.Calls.{
  CallInfo, CallStates, CallRef, record_caller, record_callee, record_established,
  record_terminated, info_at, add, remove, wake, get,
}

-- No record of a closed call changes it.
pub closed_stays :
    (urls : Urls) (now : ℕ) (c : CallInfo) (msg : Message) (location : ℕ)
    → c.closed ≡ true
    → (record_caller urls now c msg ≡ ok c)
      × (record_callee urls now c msg ≡ ok c)
      × (record_established urls now c msg ≡ ok c)
      × (record_terminated urls now c msg location ≡ c)
unfolding record_caller record_callee record_established record_terminated
closed_stays urls now c msg location h = rw h (refl, refl, refl, refl)

module _ (c : CallStates) (r : CallRef) where
  pub get-remove_call :
      (k : Bytes) → get (remove c r).0 k ≡ (if (info_at c r).call_id == k then none else get c k)
  unfolding get remove
  get-remove_call k = ground (
    arith,
    lookup-delete (info_at c r).call_id k c.calls,
    bytes_beq_iff (info_at c r).call_id k,
    bytes_beq_iff (info_at c r).call_id [],
    bytes_beq_iff k [],
  )

  -- A call with an identifier is added under it, and every other identifier keeps its call.
  pub get-add_call :
      (k : Bytes)
      → (info_at c r).call_id ≢ []
      → get (add c r).0 k ≡ (if (info_at c r).call_id == k then some r else get c k)
  unfolding get add
  get-add_call k h = ground (
    arith,
    lookup-insert (info_at c r).call_id k r c.calls,
    bytes_beq_iff (info_at c r).call_id k,
    bytes_beq_iff (info_at c r).call_id [],
    bytes_beq_iff k [],
  )

-- The goroutine of a closed call, when it wakes up, takes the entry of the call's identifier out of
-- the table, whichever call stands there by then, and leaves the other entries.
pub get-wake :
    (c : CallStates) (r : CallRef) (rs : List CallRef) (k : Bytes)
    → c.removals ≡ r ∷ rs
    → get (wake c) k ≡ (if (info_at c r).call_id == k then none else get c k)
unfolding wake
get-wake c r rs k h =
    rw h (unfold info_at in unfold get in get-remove_call (record c { removals = rs }) r k)

wake-fields :
    (c : CallStates) (r : CallRef) (rs : List CallRef)
    → c.removals ≡ r ∷ rs
    → ((wake c).removals ≡ rs) × ((x : CallRef) → info_at (wake c) x ≡ info_at c x)
unfolding wake remove info_at
wake-fields c r rs h = rw h (ground arith, λ x. ground arith)

wake-none : (c : CallStates) (k : Bytes) → get c k ≡ none → get (wake c) k ≡ none
wake-none c k h = by_removals c.removals refl
  where
    by_removals : (l : List CallRef) → c.removals ≡ l → get (wake c) k ≡ none
    by_removals [] e = unfold wake get in rw e h
    by_removals (r ∷ rs) e = ground (arith, get-wake c r rs k e)

-- The table after `n` sleeping goroutines have woken up.
unfoldable pub wakes : ℕ → CallStates → CallStates
wakes zero c = c
wakes (suc n) c = wakes n (wake c)

wakes-none : (n : ℕ) (c : CallStates) (k : Bytes) → get c k ≡ none → get (wakes n c) k ≡ none
unfolding wakes
wakes-none zero c k h = h
wakes-none (suc n) c k h = wakes-none n (wake c) k (wake-none c k h)

removed_in_turn :
    (n i : ℕ) (l : List CallRef) (c : CallStates) (r : CallRef)
    → c.removals ≡ l
    → get_elem? l i ≡ some r
    → i < n
    → get (wakes n c) (info_at c r).call_id ≡ none
unfolding wakes
removed_in_turn n i [] c r e h lt = absurd (ground arith)
removed_in_turn zero i (x ∷ l) c r e h lt = absurd (omega arith)
removed_in_turn (suc n) zero (x ∷ l) c r e h lt =
    let same : x ≡ r = ground arith in
    wakes-none n (wake c) (info_at c r).call_id (
      ground (
        arith,
        get-wake c x l (info_at c r).call_id e,
        bytes_beq_iff (info_at c r).call_id (info_at c r).call_id,
      ))
removed_in_turn (suc n) (suc i) (x ∷ l) c r e h lt =
    let (fields, infos) = wake-fields c x l e in
    rw (infos r) at (removed_in_turn n i l (wake c) r fields h (omega arith))

-- A closed call is taken out of the table: once its goroutine has woken up in its turn, behind those
-- of the calls that were closed before it, its identifier has no entry, however many more wake up; nothing else happens in
-- between.
pub closed_call_removed :
    (n i : ℕ) (c : CallStates) (r : CallRef)
    → get_elem? c.removals i ≡ some r
    → i < n
    → get (wakes n c) (info_at c r).call_id ≡ none
closed_call_removed n i c r h lt = removed_in_turn n i c.removals c r refl h lt
