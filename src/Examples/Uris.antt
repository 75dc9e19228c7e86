-- ===== src/Examples/Uris.antt =====
-- The reading and printing of URIs at work.
use tjsip.Base.{[], ◌∷◌, ◌++◌, Bytes, codes, ◌≡◌, refl, some, none, true, false, arith, Option}
use tjsip.Message.{Userinfo}
use tjsip.Uri.{NetUrls}
use tjsip.Uri.Escape.{encode_user_password, unescape, escape, byte_allowed}
use tjsip.Uri.Escape.Inverse.{unescape-escape}
use tjsip.Uri.Parse.{parse_uri}
use tjsip.Uri.Print.{print_uri}
use tjsip.Uri.RoundTrip.Users.{user_text}
use tjsip.Uri.RoundTrip.Behind.{sip_uri}
use tjsip.Uri.RoundTrip.Whole.{parse-print_uri}
use tjsip.Examples.{one_parameter}

-- A net/url that escapes users as it should and reads nothing else
abbrev net : NetUrls
net = record {
  parse = λ s. none;
  print_user = user_text;
  escaped_fragment = [];
  parse_query = one_parameter;
}

abbrev alice : Userinfo
alice = record { username = codes "al:ice"; password = some (codes "p") }

alice_text :
    print_uri net (sip_uri (codes "sip") (some alice) (codes "a.b:5060") (codes "lr"))
    ≡ codes "sip:al%3Aice:p@a.b:5060;lr"
unfolding parse_uri tjsip.Uri.Parse.parse tjsip.Base.Text.split_2 tjsip.Base.Classes.bytes_beq
    tjsip.Uri.Parse.getscheme tjsip.Uri.Parse.parse_below tjsip.Uri.Parse.parse_authority
    tjsip.Uri.Parse.parse_host print_uri escape tjsip.Uri.Print.escaped_path
alice_text = refl

-- The fragment of a URI is not printed, but its mark is.
fragment_lost :
    print_uri net (record (sip_uri (codes "sip") none (codes "a") []) { fragment = codes "x" })
    ≡ codes "sip:a#"
unfolding parse_uri tjsip.Uri.Parse.parse tjsip.Base.Text.split_2 tjsip.Base.Classes.bytes_beq
    tjsip.Uri.Parse.getscheme tjsip.Uri.Parse.parse_below tjsip.Uri.Parse.parse_authority
    tjsip.Uri.Parse.parse_host print_uri escape tjsip.Uri.Print.escaped_path
fragment_lost = refl

no_scheme : parse_uri net (codes ":a") ≡ none
unfolding parse_uri tjsip.Uri.Parse.parse tjsip.Base.Text.split_2 tjsip.Base.Classes.bytes_beq
    tjsip.Uri.Parse.getscheme tjsip.Uri.Parse.parse_below tjsip.Uri.Parse.parse_authority
    tjsip.Uri.Parse.parse_host
no_scheme = refl

bad_port : parse_uri net (codes "sip:a:b") ≡ none
unfolding parse_uri tjsip.Uri.Parse.parse tjsip.Base.Text.split_2 tjsip.Base.Classes.bytes_beq
    tjsip.Uri.Parse.getscheme tjsip.Uri.Parse.parse_below tjsip.Uri.Parse.parse_authority
    tjsip.Uri.Parse.parse_host
bad_port = refl

unescape-escape_example :
    unescape encode_user_password (escape encode_user_password (codes "a@b")) ≡ some (codes "a@b")
unfolding byte_allowed
unescape-escape_example =
    unescape-escape encode_user_password (codes "a@b") (λ e. absurd (ground arith))
      (omega arith, refl, (omega arith, refl, (omega arith, refl, tt)))

parse-print_uri_example :
    parse_uri net (
      print_uri net
        (sip_uri (codes "sip") (some alice) (codes "a.b" ++ codes ":5060") (codes "lr")))
    ≡ some (sip_uri (codes "sip") (some alice) (codes "a.b" ++ codes ":5060") (codes "lr"))
unfolding byte_allowed tjsip.Uri.RoundTrip.lower tjsip.Uri.RoundTrip.Hosts.name_byte
parse-print_uri_example =
    parse-print_uri net (λ user. refl) (codes "sip") (some alice) (codes "a.b") (codes ":5060")
      (codes "lr") (λ e. absurd (cc)) (refl, (refl, (refl, tt)))
      ((refl, (refl, (refl, (refl, (refl, (refl, tt)))))), (refl, tt)) (λ e. absurd (cc))
      (refl, (refl, (refl, tt))) (refl, (refl, (refl, (refl, (refl, tt))))) (refl, (refl, tt))
