-- ===== src/Proxy.antt =====
-- The state that the handlers of the proxy core work on (proxy_core.go, proxy_request_controller.go,
-- proxy_response_controller.go, proxy_server.go), and the calls they make of the other parts.
pub mod Server
pub mod Errors
pub mod Forwarding
pub mod Route
pub mod Requests
pub mod Dispatch
pub mod Handle
pub mod Redirection
pub mod Responses
pub mod Expiry
pub mod Sound
use tjsip.Base.{
  ℕ, ◌+◌, Bool, true, false, Option, none, some, List, [], ◌∷◌, ◌++◌, Bytes, codes, is_some,
  if◌then◌else◌,
}
use tjsip.Base.Classes.{◌==◌, nat_eq}
use tjsip.Base.Assoc.{Assoc, lookup}
use tjsip.Base.Outcome.{Outcome, ok, err, panic, Error}
use tjsip.Message.{Message}
use tjsip.Message.Urls.{Urls}
use tjsip.Transaction.Key.{ClientTransactionKey, ServerTransactionKey}
use tjsip.Contexts.{ResponseCtxs, new_response_ctxs}
use tjsip.Contexts.TimerC.{TimerCHandlers, Chan, new_timer_c_handlers}
use tjsip.Base.Int.{ℤ}
use tjsip.Routing.{PrefixTrie}
use tjsip.Registration.Bindings.{Tables}
use tjsip.Calls.{CallStates, new_call_states}

-- What the core reads of a transaction. Its controller writes the last two fields.
pub record Txn (K : Type 0) : Type 0 where
  pub key : K
  pub request : Message
  pub provisional_res : Option Message
  pub error : Option Error

-- ErrorInformFunc: clientTransactionErrorHandler, or the cancelErrorHandler that holds a server
-- transaction and the key of the client transaction that is cancelled.
pub data Handler : Type 0 where
  client_transaction_error_handler : Handler
  cancel_error_handler : Txn ServerTransactionKey → ClientTransactionKey → Handler

-- What a handler does to the goroutines and to the network: messages handed to the controller of a
-- transaction, messages written to the transport, controllers and Timer C goroutines started, and
-- the channels of the latter used; and a message of the network handed to the `Handle` of a server
-- transaction, or to the controller of a client transaction.
pub data Effect : Type 0 where
  to_server_transaction : ServerTransactionKey → Message → Effect
  to_client_transaction : ClientTransactionKey → Message → Effect
  to_wire : Message → Effect
  starts_server : Bool → Txn ServerTransactionKey → Effect
  starts_client : Bool → Txn ClientTransactionKey → Handler → Effect
  waits_for_timer_c :
      Txn ServerTransactionKey → Txn ClientTransactionKey → Option Chan → Option Chan → Effect
  resets : Chan → Effect
  handles_request : ServerTransactionKey → Message → Effect
  receives : ClientTransactionKey → Message → Effect

-- `effects` has the last one first; `drawn` counts the random texts that were made.
pub record Proxy : Type 0 where
  pub contexts : ResponseCtxs
  pub timers : TimerCHandlers
  pub calls : CallStates
  pub tables : Tables
  pub server_transactions : Assoc ServerTransactionKey (Txn ServerTransactionKey)
  pub client_transactions : Assoc ClientTransactionKey (Txn ClientTransactionKey)
  pub closed_chans : List Chan
  pub drawn : ℕ
  pub effects : List Effect

abbrev pub new_proxy : Proxy
new_proxy = record {
  contexts = new_response_ctxs;
  timers = new_timer_c_handlers;
  calls = new_call_states;
  tables = record { register = []; register_seq = [] };
  server_transactions = [];
  client_transactions = [];
  closed_chans = [];
  drawn = 0;
  effects = [];
}

-- What surrounds the proxy: the functions on URIs, the address of the socket (Server.Address), the
-- time (in nanoseconds, and in seconds) and how a time is printed, the random texts in the order in
-- which they are made, the handlers of the egress layer, the error of the transport, the routing table,
-- the runes of a text, the choice of one of n (rand.Intn), how the registrar reads a quality, and
-- whether its database refuses.
pub record Env : Type 0 where
  pub urls : Urls
  pub address : Bytes
  pub now : ℕ
  pub unix_now : ℕ
  pub print_time : Option ℕ → Bytes
  pub random : ℕ → Bytes
  pub egress : Message → Message × Option Error
  pub transport : Message → Option Error
  pub table : PrefixTrie
  pub runes : Bytes → Bytes
  pub choose : ℕ → ℕ
  pub parse_percent : Bytes → Option ℤ
  pub db_failure : Option Bool

-- A handler runs on the state; it returns a value and the state it leaves, or panics.
abbrev pub Action : Type 0 → Type 0
Action A = Proxy → Outcome (A × Proxy)

module _ {A : Type 0} where
  abbrev pub pure : A → Action A
  pure a p = ok (a, p)

  abbrev pub crash : Action A
  crash p = panic

  abbrev pub gets : (Proxy → A) → Action A
  gets f p = ok (f p, p)

  -- A function of the other parts that may fail; none of the handlers' callees returns the error.
  abbrev pub lift : Outcome A → Action A
  lift (ok a) p = ok (a, p)
  lift (err e) p = err e
  lift panic p = panic

  abbrev pub state : (Proxy → A × Proxy) → Action A
  state f p = ok (f p)

infixl 5 ◌>>=◌
abbrev pub ◌>>=◌ : {A B : Type 0} → Action A → (A → Action B) → Action B
◌>>=◌ m f p = elim (m p) [ ok (a, q) ↦ f a q | err e ↦ err e | panic ↦ panic ]

infixl 5 ◌>>◌
abbrev pub ◌>>◌ : {A B : Type 0} → Action A → Action B → Action B
m >> k = m >>= λ _. k

abbrev pub modify : (Proxy → Proxy) → Action (Unit {0})
modify f p = ok (tt, f p)

-- The branches of a handler
module _ {A : Type 0} where
  abbrev pub branch : Bool → Action A → Action A → Action A
  branch true m n = m
  branch false m n = n

  abbrev pub for_some : {B : Type 0} → Option B → Action A → (B → Action A) → Action A
  for_some none m f = m
  for_some (some b) m f = f b

  abbrev pub for_ok : {B : Type 0} → Outcome B → (Error → Action A) → (B → Action A) → Action A
  for_ok (ok b) m f = f b
  for_ok (err e) m f = m e
  for_ok panic m f = crash

unfoldable pub emit : Effect → Action (Unit {0})
emit e = modify (λ p. record p { effects = e ∷ p.effects })

mem : Chan → List Chan → Bool
mem c [] = false
mem c (x ∷ xs) = if c == x then true else mem c xs

-- close(c), which panics on a closed channel
unfoldable pub close_chan : Chan → Action (Unit {0})
unfolding mem
close_chan c p = elim (mem c p.closed_chans) [
  | true ↦ panic
  | false ↦ ok (tt, record p { closed_chans = c ∷ p.closed_chans })
]

-- c <- true, which panics on a closed channel; that the goroutine takes the value is the effect.
unfoldable pub send_on : Chan → Action (Unit {0})
unfolding mem emit
send_on c p = elim (mem c p.closed_chans) [ true ↦ panic | false ↦ emit (resets c) p ]
