-- ===== src/Server/Tables.antt =====
-- Laws of the tables of transactions (sip/server.go).
use tjsip.Base.{◌≡◌, none, some, arith, if◌then◌else◌}
use tjsip.Base.Classes.{Eq, ◌==◌}
use tjsip.Base.Assoc.{Assoc, lookup, insert, lookup-insert, lookup-delete}
use tjsip.Base.Outcome.{transaction_duplicated}
use tjsip.Server.{add_server_transaction, delete_transaction, register_server_transaction}

module _ {K A : Type 0} ⦃e : Eq K⦄ (key_of : A → K) (m : Assoc K A) (t : A) where
  -- Under a new key a server transaction is added without an error and found again, and every
  -- other entry stays.
  pub lookup-add_server_transaction :
      lookup (key_of t) m ≡ none
      → (k : K)
      → ((add_server_transaction key_of m t).1 ≡ none)
        × (lookup k (add_server_transaction key_of m t).0
            ≡ (if key_of t == k then some t else lookup k m))
  unfolding add_server_transaction
  lookup-add_server_transaction h k = ground (arith, lookup-insert (key_of t) k t m)

  -- Under a new key a server transaction is registered.
  pub register_server_transaction-fresh :
      lookup (key_of t) m ≡ none
      → register_server_transaction key_of m t ≡ (insert (key_of t) t m, none)
  unfolding register_server_transaction add_server_transaction
  register_server_transaction-fresh h = ground arith

  -- Deleting a transaction removes the entry of its key, whatever transaction stands there, and
  -- no other.
  pub lookup-delete_transaction :
      (k : K)
      → lookup k (delete_transaction key_of m t) ≡ (if key_of t == k then none else lookup k m)
  unfolding delete_transaction
  lookup-delete_transaction k = ground (arith, lookup-delete (key_of t) k m, e.beq_iff (key_of t) k)

  -- A second server transaction under a key in use is refused, and its destruction takes the first
  -- one out of the table; the other entries stay.
  pub register_server_transaction-duplicate :
      (old : A) (k : K)
      → lookup (key_of t) m ≡ some old
      → ((register_server_transaction key_of m t).1 ≡ some transaction_duplicated)
        × (lookup (key_of t) (register_server_transaction key_of m t).0 ≡ none)
        × (lookup k (register_server_transaction key_of m t).0
            ≡ (if key_of t == k then none else lookup k m))
  unfolding register_server_transaction
  register_server_transaction-duplicate old k h = ground (
    arith,
    lookup-delete (key_of t) k m,
    lookup-delete (key_of t) (key_of t) m,
    e.beq_iff (key_of t) (key_of t),
  )
