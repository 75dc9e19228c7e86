-- ===== src/Examples/Lines.antt =====
-- The writing of messages, and the reading of their first lines, at work.
use tjsip.Base.{[], codes, ◌≡◌, refl, some, true, false, arith, ◌∷◌}
use tjsip.Base.Int.{pos}
use tjsip.Base.Classes.{bytes_beq, bytes_eq, nat_eq}
use tjsip.Base.Assoc.{lookup, insert}
use tjsip.Base.Outcome.{ok}
use tjsip.Base.Text.{format_int, decimal_from, canonical, to_lower}
use tjsip.Message.{Message, create_message}
use tjsip.Message.Counters.Text.{print_max_forwards}
use tjsip.Message.Headers.{values, add}
use tjsip.Message.Wire.{read_first_line, request_text, parse_sip_version}
use tjsip.Message.Write.{response_text, write, sorted_keys, write_response, write_header}
use tjsip.Message.Write.RoundTrip.{read-write_status_line}
use tjsip.Examples.Proxies.{urls}

abbrev options : Message
options = record (create_message []) { request = true; method = codes "OPTIONS" }

options_text : request_text options (codes "b") ≡ codes "OPTIONS b SIP/2.0"
unfolding request_text create_message format_int decimal_from
options_text = refl

abbrev busy : Message
busy = record (create_message []) {
  response = true;
  status_code = 486;
  max_forwards = some (record { remains = pos 70 });
  header =
      (codes "Server", codes "s" ∷ [])
      ∷ (codes "Max-Forwards", codes "1" ∷ [])
      ∷ (codes "Date", codes "d" ∷ codes "e" ∷ [])
      ∷ [];
}

-- The fields are sorted by name, a field that the message holds as a header is left out, and an empty
-- reason is that of the code.
busy_text :
    write urls false [] busy
    ≡ ok (
        codes
          "SIP/2.0 486 Busy Here\r\nMax-Forwards: 70\r\nDate: d\r\nDate: e\r\nServer: s\r\n\r\n")
unfolding write write_response write_header response_text create_message format_int decimal_from
    canonical bytes_beq lookup print_max_forwards sorted_keys to_lower values
busy_text = refl

read-write_status_line_example :
    read_first_line urls (create_message []) (response_text busy)
    ≡ ok (
        some (record (create_message []) {
          proto = codes "SIP/2.0";
          proto_major = 2;
          proto_minor = 0;
          reason_phrase = codes "Busy Here";
          status_code = 486;
          request = false;
          response = true;
        }))
unfolding create_message parse_sip_version bytes_beq lookup
read-write_status_line_example =
    read-write_status_line urls (create_message []) busy refl refl (omega arith) (omega arith) refl

-- A field that is added twice is written once for each of its two values.
abbrev dated : Message
dated = record busy { header = add (add [] (codes "date") (codes "d")) (codes "Date") (codes "e") }

added_twice :
    write urls false [] dated
    ≡ ok (codes "SIP/2.0 486 Busy Here\r\nMax-Forwards: 70\r\nDate: d\r\nDate: e\r\n\r\n")
unfolding add insert write write_response write_header response_text create_message format_int
    decimal_from canonical bytes_beq lookup print_max_forwards sorted_keys to_lower values
added_twice = refl
