-- ===== src/Contexts/TimerC.antt =====
-- proxy_core.go: the channels by which a response handler reaches the goroutine that waits for
-- Timer C. A channel is modelled by its identity; `next` is the identity of the next `make`.
use tjsip.Base.{ℕ, ◌+◌, ◌≡◌, Bool, ◌||◌, Option, none, some, [], arith, if◌then◌else◌, is_some}
use tjsip.Base.Classes.{◌==◌}
use tjsip.Base.Assoc.{Assoc, lookup, insert, delete, lookup-insert, lookup-delete}
use tjsip.Transaction.Key.{ClientTransactionKey, client_key_beq_iff, client_key_eq}

abbrev pub Chan : Type 0
Chan = ℕ

pub record TimerCHandlers : Type 0 where
  pub update : Assoc ClientTransactionKey Chan
  pub destroy : Assoc ClientTransactionKey Chan
  pub next : Chan

abbrev pub new_timer_c_handlers : TimerCHandlers
new_timer_c_handlers = record { update = []; destroy = []; next = 0 }

-- The channels of `make` are never nil, so a stored one is deleted.
unfoldable pub remove : TimerCHandlers → ClientTransactionKey → TimerCHandlers × Bool
remove t txn =
    let ok_u = is_some (lookup txn t.update) in
    let ok_d = is_some (lookup txn t.destroy) in
    (
      record t {
        update = if ok_u then delete txn t.update else t.update;
        destroy = if ok_d then delete txn t.destroy else t.destroy;
      },
      ok_u || ok_d,
    )

unfoldable pub get : TimerCHandlers → ClientTransactionKey → Option Chan × Option Chan
get t txn = elim (lookup txn t.update) [
  | none ↦ (none, none)
  | some chan_u ↦ elim (lookup txn t.destroy) [
    | none ↦ (none, none)
    | some chan_d ↦ (some chan_u, some chan_d)
  ]
]

unfoldable pub add :
    TimerCHandlers → ClientTransactionKey → TimerCHandlers × Option Chan × Option Chan
add t txn = (
  record t {
    update = insert txn t.next t.update;
    destroy = insert txn (t.next + 1) t.destroy;
    next = t.next + 2;
  },
  some t.next,
  some (t.next + 1),
)

-- A key has an update channel exactly when it has a destroy channel.
pub record IsPaired (t : TimerCHandlers) : Type 0 where
  pub pair : (k : ClientTransactionKey) → is_some (lookup k t.update) ≡ is_some (lookup k t.destroy)

module _ (t : TimerCHandlers) (txn : ClientTransactionKey) where
  -- `Add` keeps the two maps paired.
  pub add-IsPaired : IsPaired t → IsPaired (add t txn).0
  unfolding add
  add-IsPaired p = record {
    pair = λ k. ground (
      arith,
      lookup-insert txn k t.next t.update,
      lookup-insert txn k (t.next + 1) t.destroy,
      p.pair k,
    );
  }

  -- `Remove` keeps the two maps paired.
  pub remove-IsPaired : IsPaired t → IsPaired (remove t txn).0
  unfolding remove
  remove-IsPaired p = record {
    pair = λ k. ground (
      arith,
      lookup-delete txn k t.update,
      lookup-delete txn k t.destroy,
      p.pair k,
      p.pair txn,
      client_key_beq_iff txn k,
    );
  }

  -- After `Remove`, the key has no channels and every other key keeps its own.
  pub get-remove :
      IsPaired t
      → (k : ClientTransactionKey)
      → get (remove t txn).0 k ≡ (if txn == k then (none, none) else get t k)
  unfolding get remove
  get-remove p k = ground (
    arith,
    lookup-delete txn k t.update,
    lookup-delete txn k t.destroy,
    p.pair txn,
    client_key_beq_iff txn k,
  )

  -- After `Add`, the key has the two channels that `Add` returned, and every other key its own.
  pub get-add :
      (k : ClientTransactionKey)
      → get (add t txn).0 k ≡ (if txn == k then ((add t txn).1, (add t txn).2) else get t k)
  unfolding get add
  get-add k = ground (
    arith,
    lookup-insert txn k t.next t.update,
    lookup-insert txn k (t.next + 1) t.destroy,
    client_key_beq_iff txn k,
  )
