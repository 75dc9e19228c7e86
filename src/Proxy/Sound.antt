-- ===== src/Proxy/Sound.antt =====
-- What the handlers of the proxy core keep, with the rules by which it is proved of an action.
pub mod Parts
pub mod Handlers
pub mod OnRequests
pub mod OnResponses
use tjsip.Base.{
  ◌≡◌, refl, Bool, true, false, Option, none, some, List, [], ◌∷◌, arith, Bool-cases, inl, inr, ℕ,
  if◌then◌else◌,
}
use tjsip.Base.Outcome.{Outcome, ok, err, panic, Error}
use tjsip.Message.{Message}
use tjsip.Proxy.Forwarding.{Forward, forward, refuse, for_forward}
use tjsip.Contexts
use tjsip.Contexts.Linked.{IsLinked, add-IsLinked, remove-IsLinked}
use tjsip.Contexts.TimerC
use tjsip.Contexts.TimerC.{IsPaired, Chan, add-IsPaired, remove-IsPaired}
use tjsip.Base.Assoc.{Assoc, lookup}
use tjsip.Calls.{CallStates}
use tjsip.Registration.Bindings.{Tables}
use tjsip.Transaction.Key.{ClientTransactionKey, ServerTransactionKey}
use tjsip.Contexts.{get_st_from_ct, children}
use tjsip.Proxy.{
  new_proxy, Proxy, Txn, Action, Effect, pure, crash, gets, lift, state, modify, emit, close_chan,
  send_on, mem, branch, for_some, for_ok, ◌>>=◌, ◌>>◌,
}

-- The response contexts are linked, and the channels of Timer C come in pairs.
pub record IsSound (p : Proxy) : Type 0 where
  pub linked : IsLinked p.contexts
  pub paired : IsPaired p.timers

-- The state of a proxy that starts is sound.
pub new_proxy-IsSound : IsSound new_proxy
unfolding get_st_from_ct children lookup
new_proxy-IsSound = record {
  linked = record { forward = λ ct st e. absurd cc; inhabited = λ st cts e. absurd cc };
  paired = record { pair = λ k. refl };
}

-- A property of the state that the parts of a handler keep: the changes of the fields that no property
-- here is about, and the operations on the response contexts and on the table of channels. Only the
-- admission of a request changes the table of server transactions.
pub record Invariant : Type 1 where
  pub holds : Proxy → Type 0
  pub rest :
      (p : Proxy) (calls : CallStates) (tables : Tables)
      (clients : Assoc ClientTransactionKey (Txn ClientTransactionKey)) (closed : List Chan)
      (drawn : ℕ) (effects : List Effect)
      → holds p
      → holds (record p {
        calls = calls;
        tables = tables;
        client_transactions = clients;
        closed_chans = closed;
        drawn = drawn;
        effects = effects;
      })
  pub bound :
      (p : Proxy) (st : ServerTransactionKey) (ct : ClientTransactionKey)
      → holds p
      → holds (record p { contexts = (Contexts.add p.contexts st ct).0 })
  pub unbound :
      (p : Proxy) (ct : ClientTransactionKey)
      → holds p
      → holds (record p { contexts = (Contexts.remove p.contexts ct).0 })
  pub timed :
      (p : Proxy) (ct : ClientTransactionKey)
      → holds p
      → holds (record p { timers = (TimerC.add p.timers ct).0 })
  pub untimed :
      (p : Proxy) (ct : ClientTransactionKey)
      → holds p
      → holds (record p { timers = (TimerC.remove p.timers ct).0 })

-- The state that an action leaves where it returns
abbrev pub Ends : Invariant → {A : Type 0} → Outcome (A × Proxy) → Type 0
Ends V (ok (a, p)) = V.holds p
Ends V (err e) = Unit
Ends V panic = Unit

pub record Keeps {A : Type 0} (V : Invariant) (m : Action A) : Type 0 where
  pub keeps : (p : Proxy) → V.holds p → Ends V (m p)

-- An action on a channel
closes : (V : Invariant) (c : Chan) (p : Proxy) → V.holds p → Ends V (close_chan c p)
unfolding close_chan
closes V c p h = elim (Bool-cases (mem c p.closed_chans)) [
  | inl e ↦ rw (e, close_chan) tt
  | inr e ↦ rw (e, close_chan) (V.rest p _ _ _ _ _ _ h)
]

module _ {V : Invariant} where
  module _ {A : Type 0} where
    pub pure-Keeps : {a : A} → Keeps V (pure a)
    pure-Keeps = record { keeps = λ p h. h }

    pub crash-Keeps : Keeps {A = A} V crash
    crash-Keeps = record { keeps = λ p h. tt }

    pub gets-Keeps : {f : Proxy → A} → Keeps V (gets f)
    gets-Keeps = record { keeps = λ p h. h }

    pub lift-Keeps : (o : Outcome A) → Keeps V (lift o)
    lift-Keeps o = record { keeps = λ p h. lifted o p h }
      where
        lifted : (o : Outcome A) (p : Proxy) → V.holds p → Ends V (lift o p)
        lifted (ok a) p h = h
        lifted (err e) p h = tt
        lifted panic p h = tt

  pub bind_Ends :
      {A B : Type 0} (f : A → Action B) (o : Outcome (A × Proxy))
      → ((a : A) → Keeps V (f a))
      → Ends V o
      → Ends V (elim o as (λ _. Outcome (B × Proxy)) [
        | ok (a, q) ↦ f a q
        | err e ↦ err e
        | panic ↦ panic
      ])
  bind_Ends f (ok (a, q)) k h = (k a).keeps q h
  bind_Ends f (err e) k h = tt
  bind_Ends f panic k h = tt

  module _ {A B : Type 0} where
    pub bind_Keeps :
        {m : Action A} {f : A → Action B}
        → Keeps V m
        → ((a : A) → Keeps V (f a))
        → Keeps V (m >>= f)
    bind_Keeps {m} {f} k l = record { keeps = λ p h. bind_Ends f (m p) l (k.keeps p h) }

    pub then_Keeps : {m : Action A} {n : Action B} → Keeps V m → Keeps V n → Keeps V (m >> n)
    then_Keeps k l = bind_Keeps k (λ _. l)

  -- An action on the other fields
  pub state-Keeps :
      {A : Type 0} {f : Proxy → A × Proxy}
      → ((p : Proxy) → V.holds p → V.holds (f p).1)
      → Keeps V (state f)
  state-Keeps k = record { keeps = k }

  pub modify-Keeps :
      {f : Proxy → Proxy} → ((p : Proxy) → V.holds p → V.holds (f p)) → Keeps V (modify f)
  modify-Keeps k = record { keeps = k }

  pub emit-Keeps : (e : Effect) → Keeps V (emit e)
  unfolding emit
  emit-Keeps e = record { keeps = λ p h. V.rest p _ _ _ _ _ _ h }

  pub close_chan-Keeps : (c : Chan) → Keeps V (close_chan c)
  close_chan-Keeps c = record { keeps = closes V c }

  -- The rules for the branches of an action
  module _ {A : Type 0} where
    pub if_Keeps :
        {m n : Action A} (b : Bool) → Keeps V m → Keeps V n → Keeps V (if b then m else n)
    if_Keeps true k l = k
    if_Keeps false k l = l

    pub branch-Keeps : {m n : Action A} (b : Bool) → Keeps V m → Keeps V n → Keeps V (branch b m n)
    branch-Keeps true k l = k
    branch-Keeps false k l = l

    pub for_some-Keeps :
        {B : Type 0} {m : Action A} {f : B → Action A} (o : Option B)
        → Keeps V m
        → ((b : B) → Keeps V (f b))
        → Keeps V (for_some o m f)
    for_some-Keeps none k l = k
    for_some-Keeps (some b) k l = l b

    pub for_ok-Keeps :
        {B : Type 0} {m : Error → Action A} {f : B → Action A} (o : Outcome B)
        → ((e : Error) → Keeps V (m e))
        → ((b : B) → Keeps V (f b))
        → Keeps V (for_ok o m f)
    for_ok-Keeps (ok b) k l = l b
    for_ok-Keeps (err e) k l = k e
    for_ok-Keeps panic k l = crash-Keeps

    pub for_forward-Keeps :
        {m : ℕ → Action A} {f : Message → Action A} (w : Forward)
        → ((s : ℕ) → Keeps V (m s))
        → ((msg : Message) → Keeps V (f msg))
        → Keeps V (for_forward w m f)
    for_forward-Keeps (refuse s) k l = k s
    for_forward-Keeps (forward msg) k l = l msg

-- The response contexts are linked and the channels paired, as an invariant of the handlers.
unfoldable pub sound : Invariant
sound = record {
  holds = IsSound;
  rest = λ p calls tables clients closed drawn effects h. record {
    linked = h.linked;
    paired = h.paired;
  };
  bound =
      λ p st ct h. record { linked = add-IsLinked p.contexts st ct h.linked; paired = h.paired };
  unbound = λ p ct h. record { linked = remove-IsLinked p.contexts ct h.linked; paired = h.paired };
  timed = λ p ct h. record { linked = h.linked; paired = add-IsPaired p.timers ct h.paired };
  untimed = λ p ct h. record { linked = h.linked; paired = remove-IsPaired p.timers ct h.paired };
}

-- Where it returns, an action leaves a sound state.
abbrev pub Leaves : {A : Type 0} → Outcome (A × Proxy) → Type 0
unfolding sound
Leaves o = Ends sound o

-- The rules, by which `search` follows an action
pub ruleset keeping = (
  pure-Keeps, crash-Keeps, gets-Keeps, lift-Keeps, bind_Keeps, then_Keeps, emit-Keeps,
  close_chan-Keeps, if_Keeps, branch-Keeps, for_some-Keeps, for_ok-Keeps, for_forward-Keeps,
)
