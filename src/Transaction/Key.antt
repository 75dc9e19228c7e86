-- ===== src/Transaction/Key.antt =====
-- The keys under which the transactions are stored (sip/transaction.go).
pub mod Match
use tjsip.Base.{
  ◌≡◌, ◌↔◌, Bool, true, false, ◌&&◌, Option, none, some, List, [], ◌∷◌, arith, Bytes, codes,
  if◌then◌else◌,
}
use tjsip.Base.Classes.{Eq, ◌==◌, bytes_beq, bytes_beq_iff, bytes_eq}
use tjsip.Base.Assoc.{Assoc, lookup}
use tjsip.Base.Outcome.{
  Outcome, ok, err, panic, ◌>>=◌, missing_mandatory_header, header_parse_error,
}
use tjsip.Message.Via.{ViaHeaders, top_most}
use tjsip.Message.Counters.{CSeq}
use tjsip.Message.{Message, method_invite, method_ack}

pub record ClientTransactionKey : Type 0 where
  pub via_branch : Bytes
  pub cseq_method : Bytes

pub record ServerTransactionKey : Type 0 where
  pub via_branch : Bytes
  pub sent_by : Bytes
  pub method : Bytes

unfoldable pub update_method : ServerTransactionKey → Bytes → ServerTransactionKey
update_method k s = record k { method = s }

-- Go compares the keys of a map field by field.
unfoldable pub client_key_beq : ClientTransactionKey → ClientTransactionKey → Bool
client_key_beq a b = bytes_beq a.via_branch b.via_branch && bytes_beq a.cseq_method b.cseq_method

pub client_key_beq_iff : (a b : ClientTransactionKey) → (client_key_beq a b ≡ true) ↔ (a ≡ b)
unfolding client_key_beq
client_key_beq_iff a b =
    ground
      (arith, bytes_beq_iff a.via_branch b.via_branch, bytes_beq_iff a.cseq_method b.cseq_method)

unfoldable pub server_key_beq : ServerTransactionKey → ServerTransactionKey → Bool
server_key_beq a b =
    bytes_beq a.via_branch b.via_branch
    && bytes_beq a.sent_by b.sent_by
    && bytes_beq a.method b.method

pub server_key_beq_iff : (a b : ServerTransactionKey) → (server_key_beq a b ≡ true) ↔ (a ≡ b)
unfolding server_key_beq
server_key_beq_iff a b = ground (
  arith,
  bytes_beq_iff a.via_branch b.via_branch,
  bytes_beq_iff a.sent_by b.sent_by,
  bytes_beq_iff a.method b.method,
)

instance abbrev pub client_key_eq : Eq ClientTransactionKey
client_key_eq = record { beq = client_key_beq; beq_iff = client_key_beq_iff }

instance abbrev pub server_key_eq : Eq ServerTransactionKey
server_key_eq = record { beq = server_key_beq; beq_iff = server_key_beq_iff }

abbrev pub branch_of : Option (List Bytes) → Outcome Bytes
branch_of none = err header_parse_error
branch_of (some []) = err header_parse_error
branch_of (some (b ∷ _)) = ok b

-- `GetCSeq`, of which the key takes the method
abbrev pub get_cseq_method : Option CSeq → Outcome Bytes
get_cseq_method none = err missing_mandatory_header
get_cseq_method (some c) = ok c.method

-- An acknowledgement belongs to the transaction of its INVITE.
abbrev pub key_method : Bytes → Bytes
key_method method = if method == method_ack then method_invite else method

-- `Parameter()` of a Via, by net/url.ParseQuery.
module _ (parse_query : Bytes → Assoc Bytes (List Bytes)) where
  -- `GetTopMostVia`: the sent-by host and the parameters. An empty list of headers has no topmost
  -- one, and reading its fields panics.
  abbrev pub get_top_most_via : Option ViaHeaders → Outcome (Bytes × Assoc Bytes (List Bytes))
  get_top_most_via none = err missing_mandatory_header
  get_top_most_via (some vias) = elim (top_most vias) [
    | none ↦ panic
    | some via ↦ ok (via.sent_by, parse_query via.raw_parameter)
  ]

  unfoldable pub generate_client_transaction_key : Message → Outcome ClientTransactionKey
  generate_client_transaction_key msg = do
    (sent_by, params) ← get_top_most_via msg.via
    branch ← branch_of (lookup (codes "branch") params)
    method ← get_cseq_method msg.cseq
    ok (record { via_branch = branch; cseq_method = method })

  unfoldable pub generate_server_transaction_key : Message → Outcome ServerTransactionKey
  generate_server_transaction_key msg = do
    (sent_by, params) ← get_top_most_via msg.via
    branch ← branch_of (lookup (codes "branch") params)
    ok (record { via_branch = branch; sent_by = sent_by; method = key_method msg.method })
