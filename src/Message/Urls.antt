-- ===== src/Message/Urls.antt =====
-- The functions of sip/uri.go and net/url that the headers call, as an interface. A nil
-- pointer is `none`; a function that may panic on one has an outcome.
use tjsip.Base.{Option, List, Bytes}
use tjsip.Base.Assoc.{Assoc}
use tjsip.Base.Outcome.{Outcome}
use tjsip.Message.{Uri, Userinfo}

pub record Urls : Type 0 where
  -- Parse; `none` is an error
  pub parse : Bytes → Option Uri
  -- URI.String
  pub print : Uri → Bytes
  -- url.Userinfo.String
  pub print_user : Option Userinfo → Outcome Bytes
  -- url.ParseQuery
  pub parse_query : Bytes → Assoc Bytes (List Bytes)
