-- ===== src/Examples.antt =====
-- The messages on which the tests of these modules run, and the tests, one module for each part of
-- the program.
pub mod Clients
pub mod Servers
pub mod Tables
pub mod Routes
pub mod Logins
pub mod Registrations
pub mod Messages
pub mod Headers
pub mod Lines
pub mod Texts
pub mod Proxies
pub mod Packets
pub mod Uris
pub mod Calls
pub mod Registrars
use tjsip.Base.{ℕ, Option, none, some, List, [], ◌∷◌, Bytes, codes, Bool, true, false}
use tjsip.Base.Assoc.{Assoc}
use tjsip.Base.Text.{split_2}
use tjsip.Base.Int.{pos}
use tjsip.Message.Via.{Via, ViaHeaders}
use tjsip.Message.Counters.{CSeq}
use tjsip.Message.{Message, create_message, method_invite, method_bye, method_ack}

-- Parameters `key=value`, of which there is one.
abbrev pub one_parameter : Bytes → Assoc Bytes (List Bytes)
one_parameter raw =
    let (key, value) = split_2 b'=' raw in elim value [ none ↦ [] | some v ↦ (key, v ∷ []) ∷ [] ]

abbrev pub branch : Bytes
branch = codes "z9"

abbrev pub bottom_via : Via
bottom_via = record {
  sent_protocol = codes "SIP/2.0/UDP";
  sent_by = codes "a";
  raw_parameter = codes "branch=z1";
}

abbrev pub top_via : Via
top_via = record {
  sent_protocol = codes "SIP/2.0/UDP";
  sent_by = codes "b";
  raw_parameter = codes "branch=z2";
}

abbrev pub two_vias : ViaHeaders
two_vias = record { header = bottom_via ∷ top_via ∷ [] }

abbrev pub first_cseq : CSeq
first_cseq = record { sequence = pos 1; method = method_invite }

unfoldable pub empty_message : Message
unfolding create_message
empty_message = create_message []

abbrev pub invite : Message
invite = record empty_message {
  request = true;
  method = method_invite;
  via = some two_vias;
  cseq = some first_cseq;
}

abbrev pub bye : Message
bye = record invite { method = method_bye }

abbrev pub status : ℕ → Message
status code = record empty_message {
  response = true;
  status_code = code;
  via = some two_vias;
  cseq = some first_cseq;
}
