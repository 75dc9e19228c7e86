-- ===== src/Examples/Registrations.antt =====
-- The registrar at work.
use tjsip.Base.{
  ◌≡◌, refl, false, not, Option, none, some, List, [], ◌∷◌, ◌++◌, map, Bytes, codes, if◌then◌else◌,
}
use tjsip.Base.Classes.{◌==◌, bytes_eq, bytes_beq}
use tjsip.Base.Assoc.{lookup}
use tjsip.Base.Int.{ℤ, pos}
use tjsip.Base.Text.{split_2, parse_int, canonical}
use tjsip.Message.{Uri, Contact, Message}
use tjsip.Message.Headers
use tjsip.Registration.{
  RegistrationOperation, new_operation, query, update, done, determ_operation, operations, or_zero,
  expires_text, contacts_of,
}
use tjsip.Registration.Operations.{operations-done, determ}
use tjsip.Examples.{one_parameter, empty_message}

-- The hundredths of the texts that these examples use.
abbrev percent : Bytes → Option ℤ
percent s = if s == codes "1" then some (pos 100) else none

abbrev home : Uri
home = record {
  scheme = codes "sip";
  opaque = [];
  user = none;
  host = codes "192.0.2.9";
  path = [];
  raw_path = [];
  force_parameter = false;
  raw_parameter = [];
  force_query = false;
  raw_query = [];
  absolute = false;
  fragment = [];
  raw_fragment = [];
}

abbrev contact : Bytes → Contact
contact parameter = record {
  star = false;
  addr = some (record { display_name = []; uri = some home });
  raw_parameter = parameter;
}

abbrev entered : RegistrationOperation
entered = record { operation = update; bind_addr = some home; expires = pos 120; q = pos 0 }

enters :
    determ_operation one_parameter percent
      (some (contact (codes "expires=120")))
      (pos 0)
      false
      (some home)
    ≡ done entered
unfolding determ_operation split_2 lookup parse_int bytes_beq
enters = refl

quality_1 : percent (codes "1") ≡ some (pos 100)
unfolding bytes_beq
quality_1 = refl

abbrev register : Message
register = record empty_message { contact = some (contact (codes "expires=120") ∷ []) }

registers : operations one_parameter percent register ≡ done (entered ∷ new_operation query ∷ [])
unfolding operations determ_operation split_2 lookup parse_int bytes_beq empty_message Headers.get
    canonical
registers = refl

operations-done_example :
    (ops : List RegistrationOperation) × (entered ∷ new_operation query ∷ []
      ≡ ops ++ new_operation query ∷ [])
    × (map
          (determ one_parameter percent
            (or_zero (parse_int (expires_text register)))
            (not (expires_text register == [])))
          (contacts_of register.contact)
        ≡ map done ops)
operations-done_example =
    operations-done one_parameter percent register (entered ∷ new_operation query ∷ []) registers
