-- ===== src/Uri.antt =====
-- The URIs of SIP (sip/uri.go): an adaptation of net/url. What it calls of net/url is an interface.
pub mod Escape
pub mod Parse
pub mod Print
pub mod RoundTrip
use tjsip.Base.{Option, none, some, List, Bool, Bytes}
use tjsip.Base.Assoc.{Assoc}
use tjsip.Base.Outcome.{Outcome, panic, ok}
use tjsip.Message.{Userinfo}

-- The fields of url.URL that the code reads
pub record NetUrl : Type 0 where
  pub scheme : Bytes
  pub opaque : Bytes
  pub user : Option Userinfo
  pub host : Bytes
  pub path : Bytes
  pub raw_path : Bytes
  pub force_query : Bool
  pub raw_query : Bytes

pub record NetUrls : Type 0 where
  -- url.Parse; `none` is an error
  pub parse : Bytes → Option NetUrl
  -- Userinfo.String, of a pointer that is not nil
  pub print_user : Userinfo → Bytes
  -- EscapedFragment of the embedded url.URL, of which no field is ever set
  pub escaped_fragment : Bytes
  -- url.ParseQuery
  pub parse_query : Bytes → Assoc Bytes (List Bytes)
