-- ===== src/Examples/Headers.antt =====
-- The printing and reading of headers at work.
use tjsip.Base.{inr, codes, ◌≡◌, refl}
use tjsip.Base.Outcome.{ok}
use tjsip.Base.Text.{split_2, trim, trim_left, contains_byte}
use tjsip.Base.Trimmed.{contains_byte-Without}
use tjsip.Message.Via.{Via, new_via_headers, append}
use tjsip.Message.Parse.{parse_vias}
use tjsip.Message.Parse.Vias.{parse-print_via, IsVia}
use tjsip.Message.Print.{print_via}
use tjsip.Examples.{two_vias}

first_value_on_top :
    parse_vias (codes "SIP/2.0/UDP b;branch=z2, SIP/2.0/UDP a;branch=z1") new_via_headers
    ≡ ok two_vias
unfolding parse_vias split_2 trim append
first_value_on_top = refl

abbrev new_via : Via
new_via = record {
  sent_protocol = codes "SIP/2.0/UDP";
  sent_by = codes "b:5060";
  raw_parameter = codes "branch=z3";
}

new_via-IsVia : IsVia new_via
unfolding contains_byte trim trim_left
new_via-IsVia = record {
  protocol = (refl, refl);
  no_space = contains_byte-Without b' ' new_via.sent_protocol refl;
  by = (refl, refl);
  no_semicolon = contains_byte-Without b';' new_via.sent_by refl;
  no_comma = contains_byte-Without b',' new_via.sent_by refl;
  parameters = inr (
    contains_byte-Without b',' new_via.raw_parameter refl,
    contains_byte-Without b'"' new_via.raw_parameter refl,
    refl,
    (refl, refl),
  );
}

parse-print_via_example : parse_vias (print_via new_via) two_vias ≡ ok (append two_vias new_via).0
parse-print_via_example = parse-print_via new_via two_vias new_via-IsVia
