-- ===== src/Message.antt =====
-- The messages of sip/message.go and the header types of sip/header.go. A nil pointer is `none`.
-- Objects are values here: where the code shares one (the To of a response is that of its
-- request), a later write through one of them is not seen through the other. `Cancel` and the
-- context, which nothing in these modules reads, are left out.
pub mod Via
pub mod Counters
pub mod Headers
pub mod Generate
pub mod Urls
pub mod Print
pub mod Parse
pub mod Wire
pub mod Write
pub mod Read
pub mod Text
pub mod Create
use tjsip.Base.{ℕ, Bool, false, Option, none, List, [], ◌∷◌, ◌++◌, Bytes, codes, if◌then◌else◌}
use tjsip.Base.Classes.{Eq, ◌==◌, bytes_eq}
use tjsip.Base.Int.{ℤ, pos}
use tjsip.Message.Headers.{Header}
use tjsip.Message.Via.{ViaHeaders}
use tjsip.Message.Counters.{CSeq, MaxForwards}

-- net/url.Userinfo
pub record Userinfo : Type 0 where
  pub username : Bytes
  pub password : Option Bytes

-- The URI of sip/uri.go.
pub record Uri : Type 0 where
  pub scheme : Bytes
  pub opaque : Bytes
  pub user : Option Userinfo
  pub host : Bytes
  pub path : Bytes
  pub raw_path : Bytes
  pub force_parameter : Bool
  pub raw_parameter : Bytes
  pub force_query : Bool
  pub raw_query : Bytes
  pub absolute : Bool
  pub fragment : Bytes
  pub raw_fragment : Bytes

pub record NameAddr : Type 0 where
  pub display_name : Bytes
  pub uri : Option Uri

-- `From` is the same type.
pub record To : Type 0 where
  pub addr : Option NameAddr
  pub raw_parameter : Bytes

pub record CallId : Type 0 where
  pub identifier : Bytes
  pub host : Bytes

pub record Contact : Type 0 where
  pub star : Bool
  pub addr : Option NameAddr
  pub raw_parameter : Bytes

pub record Message : Type 0 where
  pub remote_addr : Bytes
  pub request : Bool
  pub method : Bytes
  pub request_uri : Option Uri
  pub response : Bool
  pub status_code : ℕ
  pub reason_phrase : Bytes
  pub proto : Bytes
  pub proto_major : ℕ
  pub proto_minor : ℕ
  pub to : Option To
  pub from : Option To
  pub via : Option ViaHeaders
  pub max_forwards : Option MaxForwards
  pub cseq : Option CSeq
  pub call_id : Option CallId
  pub contact : Option (List Contact)
  pub header : Header
  pub body : Option Bytes
  pub content_length : ℕ
  pub close : Bool

-- CreateMessage
unfoldable pub create_message : Bytes → Message
create_message addr = record {
  remote_addr = addr;
  request = false;
  method = [];
  request_uri = none;
  response = false;
  status_code = 0;
  reason_phrase = [];
  proto = codes "SIP/2.0";
  proto_major = 2;
  proto_minor = 0;
  to = none;
  from = none;
  via = none;
  max_forwards = none;
  cseq = none;
  call_id = none;
  contact = none;
  header = [];
  body = none;
  content_length = 0;
  close = false;
}

-- The methods of sip/method.go that the modules name.
abbrev pub method_invite : Bytes
method_invite = codes "INVITE"

abbrev pub method_ack : Bytes
method_ack = codes "ACK"

abbrev pub method_cancel : Bytes
method_cancel = codes "CANCEL"

abbrev pub method_bye : Bytes
method_bye = codes "BYE"

abbrev pub method_options : Bytes
method_options = codes "OPTIONS"

abbrev pub method_register : Bytes
method_register = codes "REGISTER"

abbrev pub method_update : Bytes
method_update = codes "UPDATE"

abbrev pub method_prack : Bytes
method_prack = codes "PRACK"
