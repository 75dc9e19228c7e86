-- ===== src/Message/Print.antt =====
-- The printing of the headers of sip/header.go.
use mathlib.Core.List.{reverse}
use tjsip.Base.{Bool, ◌&&◌, Option, none, some, List, [], ◌∷◌, ◌++◌, Bytes, codes, if◌then◌else◌}
use tjsip.Base.Classes.{◌==◌, bytes_eq}
use tjsip.Base.Text.{is_token, to_upper, format_int}
use tjsip.Base.Int.{ℤ}
use tjsip.Base.Outcome.{Outcome, ok, panic, ◌>>=◌}
use tjsip.Message.{Uri, NameAddr, To, CallId, Contact}
use tjsip.Message.Via.{Via, ViaHeaders}
use tjsip.Message.Urls.{Urls}

-- "<" + text + ">"
abbrev pub in_angles : Bytes → Bytes
in_angles s = b'<' ∷ s ++ b'>' ∷ []

abbrev quoted : Bytes → Bytes
quoted s = if is_token s then s else b'"' ∷ s ++ b'"' ∷ []

abbrev pub crlf : Bytes
crlf = b'\r' ∷ b'\n' ∷ []

-- The end of a header value: its parameters, where there are any.
abbrev pub with_parameter : Bytes → Bytes → Bytes
with_parameter s param = if param == [] then s else s ++ b';' ∷ param

-- Via.String
unfoldable pub print_via : Via → Bytes
print_via v = v.sent_protocol ++ b' ' ∷ with_parameter v.sent_by v.raw_parameter

unfoldable pub print_vias : Bytes → List Via → Bytes
unfolding print_via
print_vias key [] = []
print_vias key (v ∷ vs) = key ++ print_via v ++ crlf ++ print_vias key vs

-- ViaHeaders.WriteHeader, from the topmost down
unfoldable pub write_vias : Bool → ViaHeaders → Bytes
unfolding print_vias
write_vias compact v =
    print_vias (if compact then codes "v: " else codes "Via: ") (reverse v.header)

-- Via.SetProtocol: `%1d` is the number itself.
unfoldable pub set_protocol : Via → Bytes → ℤ → ℤ → Bytes → Via
unfolding to_upper
set_protocol via name major minor trans = record via {
  sent_protocol =
      to_upper name ++ b'/' ∷ format_int major ++ b'.' ∷ format_int minor ++ b'/' ∷ to_upper trans;
}

-- CallID.String
unfoldable pub print_call_id : CallId → Bytes
print_call_id c = if c.host == [] then c.identifier else c.identifier ++ b'@' ∷ c.host

module _ (urls : Urls) where
  -- NameAddr.String of an address with a URI, and the text of its user part
  name_addr_text : Bytes → Uri → Bytes → Bytes
  unfolding is_token
  name_addr_text display uri user =
      if display == []
      then (if uri.raw_parameter == [] && is_token user && is_token uri.host
          then urls.print uri
          else in_angles (urls.print uri))
      else quoted display ++ b' ' ∷ in_angles (urls.print uri)

  -- NameAddr.String; a nil address or a nil URI panics.
  unfoldable pub print_name_addr : Option NameAddr → Outcome Bytes
  unfolding name_addr_text
  print_name_addr none = panic
  print_name_addr (some addr) = elim addr.uri [
    | none ↦ panic
    | some uri ↦ do user ← urls.print_user uri.user; ok (name_addr_text addr.display_name uri user)
  ]

  print_address : Option NameAddr → Bytes → Outcome Bytes
  unfolding print_name_addr
  print_address addr param = do s ← print_name_addr addr; ok (with_parameter s param)

  -- To.String, which is NameAddrFormat.String too
  unfoldable pub print_to : To → Outcome Bytes
  unfolding print_address
  print_to t = print_address t.addr t.raw_parameter

  -- Contact.String
  unfoldable pub print_contact : Contact → Outcome Bytes
  unfolding print_address
  print_contact c = if c.star then ok (codes "*") else print_address c.addr c.raw_parameter

  print_contacts : Bytes → List Contact → Outcome Bytes
  unfolding print_contact
  print_contacts key [] = ok []
  print_contacts key (c ∷ cs) = do
    s ← print_contact c
    rest ← print_contacts key cs
    ok (key ++ s ++ crlf ++ rest)

  -- ContactHeaders.WriteHeader
  unfoldable pub write_contacts : Bool → List Contact → Outcome Bytes
  unfolding print_contacts
  write_contacts compact cs = print_contacts (if compact then codes "c: " else codes "Contact: ") cs
