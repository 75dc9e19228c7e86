-- ===== src/Message/Wire/Lines.antt =====
-- The parts of the first line of a message (sip/message.go, sip/helper.go).
use tjsip.Base.{ℕ, ◌≡◌, ◌≢◌, refl, true, false, none, some, [], ◌∷◌, ◌++◌, Bytes, codes, arith}
use tjsip.Base.Classes.{bytes_eq, bytes_beq, bytes_beq_iff}
use tjsip.Base.Text.{
  split_2, parse_int, is_digit, is_token, contains_byte, format_int, decimal_from,
}
use tjsip.Message.{Message, Uri}
use tjsip.Message.Urls.{Urls}
use tjsip.Base.Trimmed.{Without, split_2-Without}
use tjsip.Base.Outcome.{ok}
use tjsip.Message.Wire.{
  parse_request_line, parts_of, uri_and_rest, parse_sip_version, version_of, request_text,
  valid_method, read_first_line, by_version, request_line,
}

-- A line of three parts, of which the first two hold no space, is read as these parts.
pub parse_request_line_lem :
    (method uri rest : Bytes)
    → Without b' ' method
    → Without b' ' uri
    → parse_request_line (method ++ b' ' ∷ (uri ++ b' ' ∷ rest)) ≡ some (method, uri, rest)
unfolding parse_request_line parts_of uri_and_rest
parse_request_line_lem method uri rest m u =
    rw (split_2-Without b' ' method (uri ++ b' ' ∷ rest) m, split_2-Without b' ' uri rest u)

-- A version with one digit before its dot is refused, whatever stands behind the dot, unless it is 2.0.
pub parse_sip_version-refused :
    (d : ℕ) (minor : Bytes)
    → is_digit d ≡ true
    → codes "SIP/" ++ d ∷ b'.' ∷ minor ≢ codes "SIP/2.0"
    → parse_sip_version (codes "SIP/" ++ d ∷ b'.' ∷ minor) ≡ ok none
unfolding parse_sip_version version_of split_2 parse_int
parse_sip_version-refused d minor h other =
    ground (arith, bytes_beq_iff (codes "SIP/" ++ d ∷ b'.' ∷ minor) (codes "SIP/2.0"))

method-Without : (s : Bytes) → is_token s ≡ true → Without b' ' s
unfolding is_token contains_byte
method-Without [] h = tt
method-Without (c ∷ s) h = (ground arith, method-Without s (ground arith))

is_token-valid : (s : Bytes) → valid_method s ≡ true → is_token s ≡ true
is_token-valid s h = ground arith

two_zero :
    (msg : Message)
    → msg.proto_major ≡ 2
    → msg.proto_minor ≡ 0
    → (uri : Bytes) → request_text msg uri ≡ msg.method ++ b' ' ∷ (uri ++ b' ' ∷ codes "SIP/2.0")
unfolding request_text format_int decimal_from
two_zero msg major minor uri = rw (major, minor) refl

module _ (urls : Urls) where
  -- A request whose method is a token, in version 2.0, is written so that its first line is read again, where its URI is printed without a space and read again.
  pub read-write_request_line :
      (old msg : Message) (uri : Uri)
      → valid_method msg.method ≡ true
      → msg.proto_major ≡ 2
      → msg.proto_minor ≡ 0
      → Without b' ' (urls.print uri)
      → urls.parse (urls.print uri) ≡ some uri
      → read_first_line urls old (request_text msg (urls.print uri))
        ≡ ok (
            some (record old {
              method = msg.method;
              request_uri = some uri;
              proto = codes "SIP/2.0";
              proto_major = 2;
              proto_minor = 0;
              request = true;
              response = false;
            }))
  unfolding read_first_line by_version request_line parse_sip_version bytes_beq
  read-write_request_line old msg uri valid major minor clean parsed =
      let token = is_token-valid msg.method valid in
      rw
        (
          two_zero msg major minor (urls.print uri),
          parse_request_line_lem msg.method (urls.print uri) (codes "SIP/2.0")
              (method-Without msg.method token) clean,
          read_first_line,
          parsed,
          request_line,
          valid,
        )
        refl
