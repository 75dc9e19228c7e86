-- ===== src/Packets/Reach.antt =====
-- The goroutines of the proxy as steps: what arrives, what fails, what Timer C does, and what the
-- controllers do to the tables, in any order (sip/server.go, sip/transaction.go, proxy_core.go,
-- proxy_server.go). The environment, and so the time, may be another at each step.
use mathlib.Core.Path.{subst}
use tjsip.Base.{Bool, Option, Bytes, ◌≡◌}
use tjsip.Base.Assoc.{insert}
use tjsip.Base.Outcome.{Outcome, ok, Error}
use tjsip.Message.Read.{Reader}
use tjsip.Server.{delete_transaction}
use tjsip.Transaction.Key.{ClientTransactionKey, ServerTransactionKey, client_key_eq, server_key_eq}
use tjsip.Calls
use tjsip.Proxy.{Proxy, Env, Txn, new_proxy}
use tjsip.Proxy.Dispatch.{client_transaction_error, cancel_error}
use tjsip.Proxy.Expiry.{timer_c_ends, timer_c_fires}
use tjsip.Proxy.Sound.{IsSound, Leaves, sound, new_proxy-IsSound}
use tjsip.Proxy.Sound.OnRequests.{client_transaction_error-IsSound, cancel_error-IsSound}
use tjsip.Proxy.Sound.OnResponses.{timer_c_fires-IsSound}
use tjsip.Proxy.Sound.Parts.{timer_c_ends-Keeps}
use tjsip.Packets.{packet_processing}
use tjsip.Packets.Register.{proxy_mux}
use tjsip.Packets.Sound.{packet_processing-IsSound}

pub data Step (p : Proxy) (q : Proxy) : Type 0 where
  -- a packet
  packet :
      (env : Env) (reader : Reader) (takes : Bool) (addr bytes : Bytes)
      → packet_processing env (proxy_mux env) reader takes addr bytes p ≡ ok (tt, q)
      → Step p q
  -- the error handler of a client transaction, and that of a CANCEL
  failure :
      (env : Env) (ct : Txn ClientTransactionKey)
      → client_transaction_error env ct p ≡ ok (tt, q)
      → Step p q
  cancel_failure :
      (env : Env) (st : Txn ServerTransactionKey) (ct : ClientTransactionKey) (e : Option Error)
      → cancel_error env st ct e p ≡ ok (tt, q)
      → Step p q
  -- the goroutine that waits for Timer C
  timer_c :
      (env : Env) (st : Txn ServerTransactionKey) (ct : Txn ClientTransactionKey)
      → timer_c_fires env st ct p ≡ ok (tt, q)
      → Step p q
  timer_c_stopped : (ct : Txn ClientTransactionKey) → timer_c_ends ct p ≡ ok (tt, q) → Step p q
  -- a controller that records a provisional response or an error, and one that destroys its transaction
  client_changes :
      (t : Txn ClientTransactionKey)
      → q ≡ record p { client_transactions = insert t.key t p.client_transactions }
      → Step p q
  client_ends :
      (t : Txn ClientTransactionKey)
      → q
        ≡ record p { client_transactions = delete_transaction (λ x. x.key) p.client_transactions t }
      → Step p q
  server_ends :
      (t : Txn ServerTransactionKey)
      → q
        ≡ record p { server_transactions = delete_transaction (λ x. x.key) p.server_transactions t }
      → Step p q
  -- the goroutine that removes a closed call
  call_ends : q ≡ record p { calls = Calls.wake p.calls } → Step p q

pub data Reach : Proxy → Type 0 where
  starts : Reach new_proxy
  later : {p q : Proxy} → Reach p → Step p q → Reach q

-- The state behind an action that returned
left : {q : Proxy} (o : Outcome (Unit {0} × Proxy)) → o ≡ ok (tt, q) → Leaves o → IsSound q
unfolding sound
left o e h = subst Leaves e h

Step-IsSound : {p q : Proxy} → Step p q → IsSound p → IsSound q
unfolding sound
Step-IsSound {p} (packet env reader takes addr bytes e) h =
    left _ e (packet_processing-IsSound env reader takes addr bytes p h)
Step-IsSound {p} (failure env ct e) h = left _ e (client_transaction_error-IsSound env ct p h)
Step-IsSound {p} (cancel_failure env st ct f e) h = left _ e (cancel_error-IsSound env st ct f p h)
Step-IsSound {p} (timer_c env st ct e) h = left _ e (timer_c_fires-IsSound env st ct p h)
Step-IsSound {p} (timer_c_stopped ct e) h = left _ e ((timer_c_ends-Keeps {V = sound} ct).keeps p h)
Step-IsSound (client_changes t e) h = rw e (record { linked = h.linked; paired = h.paired })
Step-IsSound (client_ends t e) h = rw e (record { linked = h.linked; paired = h.paired })
Step-IsSound (server_ends t e) h = rw e (record { linked = h.linked; paired = h.paired })
Step-IsSound (call_ends e) h = rw e (record { linked = h.linked; paired = h.paired })

-- In whatever order packets, failures, Timer C, the controllers of transactions and the removals of calls
-- follow each other, every state that the proxy reaches is sound: each bound client transaction stands
-- among the children of its server transaction, no server transaction has an empty map of children, and
-- the channels of Timer C come in pairs.
pub Reach-IsSound : {p : Proxy} → Reach p → IsSound p
Reach-IsSound starts = new_proxy-IsSound
Reach-IsSound (later r st) = Step-IsSound st (Reach-IsSound r)
