-- ===== src/Message/Create.antt =====
-- Messages and headers that the proxy makes itself (sip/message.go, sip/header.go), with the random
-- texts of sip/helper.go. The bytes of the random source are an argument, `none` where it fails.
pub mod Generated
use mathlib.Core.List.{map}
use tjsip.Base.{
  ℕ, ◌%◌, Bool, true, false, Option, none, some, List, [], ◌∷◌, ◌++◌, Bytes, codes, get_elem?,
  if◌then◌else◌,
}
use tjsip.Base.Classes.{◌==◌, bytes_eq}
use tjsip.Base.Int.{pos}
use tjsip.Base.Text.{trim, blanks}
use tjsip.Message.{
  Message, CallId, create_message, method_invite, method_ack, method_bye, method_cancel,
}
use tjsip.Message.Counters.{CSeq, MaxForwards}
use tjsip.Message.Urls.{Urls}

abbrev pub letters : Bytes
letters = codes "0123456789ABCDEFGHIJKLMNOPQRSTUVWXYZabcdefghijklmnopqrstuvwxyz-"

-- letters[b % 63]
unfoldable pub letter : ℕ → ℕ
letter b = elim (get_elem? letters (b % 63)) [ none ↦ 0 | some c ↦ c ]

-- GenerateRandomString; `none` is its error.
unfoldable pub random_string : Option Bytes → Option Bytes
unfolding letter
random_string none = none
random_string (some bytes) = some (map letter bytes)

-- GenerateTag
unfoldable generate_tag : Option Bytes → Bytes
unfolding random_string
generate_tag random = elim (random_string random) [ none ↦ [] | some s ↦ s ]

-- GenerateBranchParam
unfoldable generate_branch_param : Option Bytes → Bytes
unfolding random_string
generate_branch_param random = elim (random_string random) [
  | none ↦ []
  | some s ↦ codes "z9hG4bK" ++ s
]

-- InitH, of a new header: where the source fails it stays empty.
unfoldable pub init_h : Option Bytes → Bytes → CallId
unfolding random_string
init_h random host = elim (random_string random) [
  | none ↦ record { identifier = []; host = [] }
  | some s ↦ record { identifier = s; host = host }
]

-- NewCallIDHeaderWithAddr
unfoldable pub new_call_id : Option Bytes → Bytes → CallId
unfolding init_h
new_call_id random local_addr = init_h random (trim blanks local_addr)

-- NewCSeqHeader; the random number is below 2 << 31.
unfoldable new_cseq : Option ℕ → Bytes → Option CSeq
new_cseq none method = none
new_cseq (some n) method = some (record { sequence = pos n; method = trim blanks method })

-- NewMaxForwardsHeader
abbrev new_max_forwards : MaxForwards
new_max_forwards = record { remains = pos 70 }

unfoldable create_request : Option Bytes → Bytes → Message
unfolding create_message new_call_id
create_request random addr = record (create_message addr) {
  request = true;
  max_forwards = some new_max_forwards;
  call_id = some (new_call_id random []);
}

-- CreateACK and CreateCACNEL
unfoldable create_ack : Option Bytes → Bytes → Message
unfolding create_request
create_ack random addr = record (create_request random addr) { method = method_ack }

unfoldable create_cancel : Option Bytes → Bytes → Message
unfolding create_request
create_cancel random addr = record (create_request random addr) { method = method_cancel }

module _ (urls : Urls) where
  -- CreateINVITE and CreateBYE; `none` is nil.
  unfoldable create_invite : Option Bytes → Bytes → Bytes → Option Message
  unfolding create_request
  create_invite random addr ruri = elim (urls.parse ruri) [
    | none ↦ none
    | some uri ↦
        some
          (record (create_request random addr) { method = method_invite; request_uri = some uri })
  ]

  unfoldable create_bye : Option Bytes → Bytes → Bytes → Option Message
  unfolding create_request
  create_bye random addr ruri = elim (urls.parse ruri) [
    | none ↦ none
    | some uri ↦
        some (record (create_request random addr) { method = method_bye; request_uri = some uri })
  ]
