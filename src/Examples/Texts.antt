-- ===== src/Examples/Texts.antt =====
-- The reading of header fields at work.
use tjsip.Base.{true, none, some, List, [], ◌∷◌, Bytes, codes, ◌≡◌, refl, arith}
use tjsip.Base.Classes.{bytes_beq, bytes_eq, nat_eq}
use tjsip.Base.Assoc.{lookup, insert}
use tjsip.Base.Outcome.{◌>>=◌}
use tjsip.Base.Text.{contains_byte, is_token, canonical, capitalise, split_2, trim, trim_left}
use tjsip.Base.Trimmed.{contains_byte-Without}
use tjsip.Message.{Message, create_message}
use tjsip.Message.Headers.{Header, values}
use tjsip.Message.Text.{read_fields, read_line, read_mime_header}
use tjsip.Message.Text.Compact.{compact_form_dropped}
use tjsip.Message.Text.Fields.{AreFields, fields_text}
use tjsip.Message.Text.Values.{read_mime_header-values, values_of}
use tjsip.Base.Int.{pos}
use tjsip.Examples.Proxies.{plain_uri}

-- A line that goes on, a second value for a name, and a compact form.
read_mime_header_text :
    read_mime_header (codes "subject: a\r\n  b \r\nTo: x\r\nf: z\r\nSUBJECT:\r\n\r\nrest")
    ≡ some (
      (codes "Subject", codes "a b" ∷ [] ∷ [])
          ∷ (codes "To", codes "x" ∷ [])
          ∷ (codes "Subject", codes "a b" ∷ [])
          ∷ [],
      codes "rest",
    )
unfolding read_mime_header read_line split_2 trim_left trim bytes_beq canonical insert lookup
read_mime_header_text = refl

-- No colon, and white space before the first name
no_colon : read_mime_header (codes "To: x\r\nfrom\r\n\r\n") ≡ none
unfolding read_mime_header read_line split_2 trim
no_colon = refl

leading_space : read_mime_header (codes " To: x\r\n\r\n") ≡ none
unfolding read_mime_header
leading_space = refl

-- "v" is the compact form of "Via".
compact_form_dropped_example :
    read_fields 2 [] (codes "v: a\r\n\r\n") ≡ read_fields 1 [] (codes "\r\n")
unfolding is_token contains_byte
compact_form_dropped_example =
    compact_form_dropped 1 [] b'v' (codes " a") (codes "\r\n") refl
      (contains_byte-Without b'\n' (codes " a") refl) refl

abbrev two_fields : List (Bytes × Bytes)
two_fields = (codes "to", codes "x") ∷ (codes "CSeq", []) ∷ []

two_fields-AreFields : AreFields two_fields
unfolding is_token contains_byte canonical capitalise
two_fields-AreFields =
    ((refl, omega arith), ((refl, tt), refl, refl), ((refl, omega arith), (tt, refl, refl), tt))

read_mime_header-values_example :
    (h : Header) × (read_mime_header (fields_text two_fields (codes "b")) ≡ some (h, codes "b"))
    × ((key : Bytes) → values h key ≡ values_of (canonical key) two_fields)
read_mime_header-values_example =
    read_mime_header-values two_fields (codes "b") two_fields-AreFields

abbrev options : Message
options = record (create_message []) {
  request = true;
  method = codes "OPTIONS";
  request_uri = some plain_uri;
  max_forwards = some (record { remains = pos 70 });
  header = (codes "Server", codes "s" ∷ []) ∷ [];
  body = some (codes "body");
  content_length = 4;
}
