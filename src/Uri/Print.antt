-- ===== src/Uri/Print.antt =====
-- The printing of a URI (sip/uri.go): validEncoded, EscapedPath and String; and sip/uri.go as what the
-- headers call.
use tjsip.Base.{
  Bool, true, false, not, ◌&&◌, ◌||◌, Option, none, some, [], ◌∷◌, ◌++◌, Bytes, codes, nat_beq,
  is_some, if◌then◌else◌,
}
use tjsip.Base.Classes.{◌==◌, bytes_eq}
use tjsip.Base.Text.{contains_byte, split_2}
use tjsip.Base.Outcome.{Outcome, ok, panic}
use tjsip.Message.{Uri, Userinfo}
use tjsip.Message.Urls.{Urls}
use tjsip.Uri.{NetUrls}
use tjsip.Uri.Escape.{Encoding, encode_path, encode_host, should_escape, unescape, escape}
use tjsip.Uri.Parse.{parse_uri}

unfoldable pub valid_encoded : Encoding → Bytes → Bool
valid_encoded mode [] = true
valid_encoded mode (c ∷ s) =
    (contains_byte (codes "!$&'()*+,;=:@[]%") c || not (should_escape mode c))
    && valid_encoded mode s

default_path : Bytes → Bytes
default_path path = if path == codes "*" then codes "*" else escape encode_path path

unfoldable pub escaped_path : Uri → Bytes
unfolding default_path
escaped_path u =
    if not (u.raw_path == []) && valid_encoded encode_path u.raw_path
    then elim (unescape encode_path u.raw_path) [
      | none ↦ default_path u.path
      | some p ↦ if p == u.path then u.raw_path else default_path u.path
    ]
    else default_path u.path

-- A text that is written where a test holds
abbrev when : Bool → Bytes → Bytes
when true s = s
when false s = []

abbrev filled : Bytes → Bool
filled s = not (s == [])

abbrev starts_with_slash : Bytes → Bool
starts_with_slash [] = false
starts_with_slash (c ∷ s) = nat_beq c b'/'

-- Whether the first segment of a path holds a colon
colon_in_segment : Bytes → Bool
colon_in_segment path =
    let (front, rear) = split_2 b':' path in
    elim rear [ none ↦ false | some _ ↦ not (contains_byte front b'/') ]

module _ (net : NetUrls) where
  -- What stands between the scheme and the path
  unfoldable pub authority : Uri → Bytes
  authority u = when (filled u.scheme || filled u.host || is_some u.user) (
      when (u.absolute && (filled u.host || filled u.path || is_some u.user)) (codes "//")
      ++ (elim u.user [ none ↦ [] | some user ↦ net.print_user user ++ b'@' ∷ [] ]
          ++ when (filled u.host) (escape encode_host u.host)))

  -- The path, behind what is written before it
  with_path : Uri → Bytes → Bytes → Bytes
  unfolding colon_in_segment
  with_path u before path =
      let front =
        before ++ when (filled path && not (starts_with_slash path) && filled u.host) (codes "/") in
      front ++ when (front == [] && colon_in_segment path) (codes "./") ++ path

  -- URI.String
  unfoldable pub print_uri : Uri → Bytes
  unfolding with_path authority
  print_uri u =
      let scheme = when (filled u.scheme) (u.scheme ++ b':' ∷ []) in
      (if filled u.opaque
        then scheme ++ u.opaque
        else with_path u (scheme ++ authority u) (escaped_path u))
      ++ (when (u.force_parameter || filled u.raw_parameter) (b';' ∷ u.raw_parameter)
          ++ (when (u.force_query || filled u.raw_query) (b'?' ∷ u.raw_query)
              ++ when (filled u.fragment) (b'#' ∷ net.escaped_fragment)))

  print_user : Option Userinfo → Outcome Bytes
  print_user none = panic
  print_user (some user) = ok (net.print_user user)

  -- sip/uri.go, as the headers call it
  unfoldable pub uri_urls : Urls
  unfolding print_user
  uri_urls = record {
    parse = parse_uri net;
    print = print_uri;
    print_user = print_user;
    parse_query = net.parse_query;
  }
