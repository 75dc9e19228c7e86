-- ===== src/Examples/Messages.antt =====
-- The headers at work.
use tjsip.Base.{some, ◌∷◌, [], inr, codes, ◌≡◌, ◌≢◌, refl, arith}
use tjsip.Base.Trimmed.{IsTrimmed}
use tjsip.Base.Text.{trim, trim_left, contains_byte, blanks}
use tjsip.Base.Outcome.{ok, panic}
use tjsip.Message.Counters.Text.{parse_cseq, print_cseq}
use tjsip.Message.Counters.Text.RoundTrip.{parse-print_cseq, parse_cseq-panic, NoSpace}
use tjsip.Base.Int.{pos, negsuc, max_int64}
use tjsip.Message.{method_invite}
use tjsip.Message.Parse.{parse_call_id}
use tjsip.Message.Print.{print_call_id}
use tjsip.Message.Create.{new_call_id, init_h, random_string, letter}
use tjsip.Message.Create.Generated.{parse-new_call_id}
use tjsip.Examples.{first_cseq}

not_smallest : pos 1 ≢ negsuc max_int64
not_smallest e = absurd (ground arith)

invite-IsTrimmed : IsTrimmed method_invite
unfolding contains_byte
invite-IsTrimmed = (refl, refl)

print_cseq_read : parse_cseq (print_cseq first_cseq) ≡ ok (some first_cseq)
print_cseq_read = parse-print_cseq 1 method_invite (omega arith) invite-IsTrimmed

number_only : NoSpace (trim blanks (codes " 12"))
unfolding trim trim_left contains_byte
number_only = (refl, (refl, tt))

number_only_panics : parse_cseq (codes " 12") ≡ panic
number_only_panics = parse_cseq-panic (codes " 12") number_only

-- The alphabet has 63 letters.
generated :
    new_call_id (some (10 ∷ 62 ∷ 63 ∷ [])) [] ≡ record { identifier = codes "A-0"; host = [] }
unfolding new_call_id init_h random_string letter trim trim_left
generated = refl

host-IsTrimmed : IsTrimmed (codes "h")
unfolding contains_byte
host-IsTrimmed = (refl, refl)

parse-new_call_id_example :
    parse_call_id (print_call_id (new_call_id (some (10 ∷ 62 ∷ 255 ∷ [])) (codes "h")))
    ≡ new_call_id (some (10 ∷ 62 ∷ 255 ∷ [])) (codes "h")
parse-new_call_id_example = parse-new_call_id 10 (62 ∷ 255 ∷ []) (codes "h") (inr host-IsTrimmed)
