-- ===== src/Contexts.antt =====
-- proxy_core.go: the response contexts, which bind the client transactions of a forwarded request
-- to the server transaction that it came from. The mutex makes each method one step.
pub mod Consistent
pub mod Linked
pub mod TimerC
use tjsip.Base.{Bool, true, false, Option, none, some, List, []}
use tjsip.Base.Assoc.{Assoc, lookup, insert, delete, is_empty}
use tjsip.Transaction.Key.{ClientTransactionKey, ServerTransactionKey, client_key_eq, server_key_eq}

abbrev pub ResponseCtx : Type 0
ResponseCtx = Assoc ClientTransactionKey Bool

pub record ResponseCtxs : Type 0 where
  pub st_to_ct : Assoc ServerTransactionKey ResponseCtx
  pub ct_to_st : Assoc ClientTransactionKey ServerTransactionKey

abbrev pub new_response_ctxs : ResponseCtxs
new_response_ctxs = record { st_to_ct = []; ct_to_st = [] }

unfoldable pub get_st_from_ct : ResponseCtxs → ClientTransactionKey → Option ServerTransactionKey
get_st_from_ct ctxs ct = lookup ct ctxs.ct_to_st

unfoldable pub get_ct_from_st : ResponseCtxs → ServerTransactionKey → Option ResponseCtx
get_ct_from_st ctxs st = lookup st ctxs.st_to_ct

-- What reading a missing key gives: the nil map, which has no key.
unfoldable pub children : ResponseCtxs → ServerTransactionKey → ResponseCtx
children ctxs st = elim (lookup st ctxs.st_to_ct) [ none ↦ [] | some cts ↦ cts ]

-- `make` does not return nil, so the result is always true.
unfoldable pub add :
    ResponseCtxs → ServerTransactionKey → ClientTransactionKey → ResponseCtxs × Bool
unfolding children
add ctxs st ct = (
  record {
    st_to_ct = insert st (insert ct true (children ctxs st)) ctxs.st_to_ct;
    ct_to_st = insert ct st ctxs.ct_to_st;
  },
  true,
)

-- The named results of `Remove`; `st` is the zero key where nothing was found.
pub record Removed : Type 0 where
  pub complete : Bool
  pub found : Bool
  pub remove_server_transaction : Bool
  pub st : ServerTransactionKey

abbrev pub zero_key : ServerTransactionKey
zero_key = record { via_branch = []; sent_by = []; method = [] }

remove_bound : ResponseCtxs → ClientTransactionKey → ServerTransactionKey → ResponseCtxs × Removed
unfolding children
remove_bound ctxs ct st =
    let rest : ResponseCtx = delete ct (children ctxs st) in
    let last : Bool = is_empty rest in
    (
      record {
        st_to_ct = elim last [
          | true ↦ delete st ctxs.st_to_ct
          | false ↦ insert st rest ctxs.st_to_ct
        ];
        ct_to_st = delete ct ctxs.ct_to_st;
      },
      record { complete = true; found = true; remove_server_transaction = last; st = st },
    )

unfoldable pub remove : ResponseCtxs → ClientTransactionKey → ResponseCtxs × Removed
unfolding remove_bound
remove ctxs ct = elim (lookup ct ctxs.ct_to_st) [
  | none ↦ (
    ctxs,
    record { complete = false; found = false; remove_server_transaction = false; st = zero_key },
  )
  | some st ↦ remove_bound ctxs ct st
]
