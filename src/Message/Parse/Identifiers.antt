-- ===== src/Message/Parse/Identifiers.antt =====
-- A Call-ID that is printed is read again (sip/header.go).
use tjsip.Base.{◌≡◌, ◌⊎◌, inl, inr, ap, ◌∙◌, [], ◌∷◌, Bytes, arith}
use tjsip.Base.Classes.{bytes_beq}
use tjsip.Base.Trimmed.{IsTrimmed, trim-IsTrimmed, Without, split_2-Without, split_2-none}
use tjsip.Message.Print.{print_call_id}
use tjsip.Message.Parse.{parse_call_id, call_id_of}

-- A Call-ID is printed so that it is read again, where its identifier holds no `@` and has no blanks
-- at its ends, and its host is empty or has no blanks at its ends.
pub parse-print_call_id :
    (identifier host : Bytes)
    → IsTrimmed identifier
    → Without b'@' identifier
    → (host ≡ []) ⊎ IsTrimmed host
    → parse_call_id (print_call_id (record { identifier = identifier; host = host }))
      ≡ record { identifier = identifier; host = host }
unfolding parse_call_id call_id_of print_call_id bytes_beq
parse-print_call_id identifier [] t w h =
    ap call_id_of (split_2-none b'@' identifier w) ∙ ground (arith, trim-IsTrimmed identifier t)
parse-print_call_id identifier (c ∷ s) t w (inl e) = absurd cc
parse-print_call_id identifier (c ∷ s) t w (inr h) =
    ap call_id_of (split_2-Without b'@' identifier (c ∷ s) w)
    ∙ ground (arith, trim-IsTrimmed identifier t, trim-IsTrimmed (c ∷ s) h)
