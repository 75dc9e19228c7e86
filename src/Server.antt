-- ===== src/Server.antt =====
-- The tables of transactions that sip/server.go keeps, and how an arriving message finds its
-- transaction. The tables hold transactions of any type `A`; `key_of` reads a transaction's key.
pub mod Tables
use tjsip.Base.{
  ◌≡◌, refl, Bool, true, false, Option, none, some, List, [], ◌∷◌, if◌then◌else◌, is_some,
}
use tjsip.Base.Classes.{Eq}
use tjsip.Base.Assoc.{Assoc, lookup, insert, delete}
use tjsip.Base.Outcome.{Error, transaction_duplicated}

module _ {K A : Type 0} ⦃e : Eq K⦄ (key_of : A → K) where
  -- AddServerTransaction: an entry with the same key is left, and the error returned.
  unfoldable pub add_server_transaction : Assoc K A → A → Assoc K A × Option Error
  add_server_transaction m t =
      if is_some (lookup (key_of t) m)
      then (m, some transaction_duplicated)
      else (insert (key_of t) t m, none)

  -- AddClientTransaction: an entry with the same key is overwritten.
  unfoldable pub add_client_transaction : Assoc K A → A → Assoc K A × Option Error
  add_client_transaction m t = (insert (key_of t) t m, none)

  -- DeleteServerTransaction and DeleteClientTransaction delete by the key.
  unfoldable pub delete_transaction : Assoc K A → A → Assoc K A
  delete_transaction m t = if is_some (lookup (key_of t) m) then delete (key_of t) m else m

  -- What requestHandler of proxy_request_controller.go does with a new server transaction: one that
  -- cannot be added is destroyed, and Destroy deletes it from the table.
  unfoldable pub register_server_transaction : Assoc K A → A → Assoc K A × Option Error
  unfolding add_server_transaction delete_transaction
  register_server_transaction m t =
      let (m', failure) = add_server_transaction m t in
      elim failure [ none ↦ (m', none) | some error ↦ (delete_transaction m' t, some error) ]
