-- ===== src/Message/Write/RoundTrip.antt =====
-- A status line that is written is read again (sip/message.go).
use tjsip.Base.{
  ℕ, zero, suc, ◌/◌, ◌%◌, ◌+◌, ◌≤◌, ◌<◌, ◌≡◌, refl, ap, true, false, none, some, [], ◌∷◌, ◌++◌,
  Bytes, codes, length, arith,
}
use tjsip.Base.Classes.{bytes_eq, bytes_beq, nat_eq}
use tjsip.Base.Int.{pos}
use tjsip.Base.Text.{format_int, decimal_from}
use tjsip.Base.Decimal.{parse_int-format_int}
use tjsip.Base.Outcome.{ok}
use tjsip.Message.{Message}
use tjsip.Message.Counters.Text.RoundTrip.{format_int-NoSpace}
use tjsip.Message.Urls.{Urls}
use tjsip.Message.Wire.{parse_sip_version, read_first_line, by_version, status_line, status_of}
use tjsip.Message.Wire.Lines.{parse_request_line_lem}
use tjsip.Message.Write.{response_text, reason_of, three_digits}

one_digit :
    (fuel n : ℕ) (out : Bytes) → n < 10 → length (decimal_from fuel n out) ≡ suc (length out)
unfolding decimal_from
one_digit zero n out h = refl
one_digit (suc fuel) n out h = ground arith

another_digit :
    (fuel n : ℕ) (out : Bytes)
    → 10 ≤ n
    → decimal_from (suc fuel) n out ≡ decimal_from fuel (n / 10) ((b'0' + n % 10) ∷ out)
unfolding decimal_from
another_digit fuel n out h = ground arith

format_int-length : (n : ℕ) → 100 ≤ n → n < 1000 → length (format_int (pos n)) ≡ 3
unfolding format_int
format_int-length zero h l = absurd (omega arith)
format_int-length (suc zero) h l = absurd (omega arith)
format_int-length (suc (suc k)) h l =
    let n = suc (suc k) in
    rw
      (
        another_digit (suc k) n [] (omega arith),
        another_digit k (n / 10) ((b'0' + n % 10) ∷ []) (omega arith),
      )
      (one_digit k (n / 10 / 10) ((b'0' + n / 10 % 10) ∷ (b'0' + n % 10) ∷ []) (omega arith))

three_digits_lem : (n : ℕ) → 100 ≤ n → three_digits n ≡ format_int (pos n)
unfolding three_digits
three_digits_lem n h = ground arith

status_of_lem : (n : ℕ) → 100 ≤ n → n < 1000 → status_of (format_int (pos n)) ≡ some n
unfolding status_of
status_of_lem n h l = rw (format_int-length n h l, parse_int-format_int n (omega arith)) refl

version_two :
    (msg : Message)
    → msg.proto_major ≡ 2
    → msg.proto_minor ≡ 0
    → response_text msg
      ≡ codes "SIP/2.0" ++ b' ' ∷ (three_digits msg.status_code ++ b' ' ∷ reason_of msg)
unfolding response_text format_int decimal_from
version_two msg major minor = rw (major, minor) refl

module _ (urls : Urls) where
  status_line_lem :
      (old : Message) (n : ℕ) (reason : Bytes)
      → 100 ≤ n
      → n < 1000
      → status_line urls old (codes "SIP/2.0") (format_int (pos n)) reason (some (2, 0))
        ≡ some (record old {
          proto = codes "SIP/2.0";
          proto_major = 2;
          proto_minor = 0;
          reason_phrase = reason;
          status_code = n;
          request = false;
          response = true;
        })
  unfolding status_line
  status_line_lem old n reason h l = rw (status_line, status_of_lem n h l) refl

  -- The first line of a response in version 2.0 with a status code of three digits is written so that it
  -- is read again, where its reason does not read as a version. An empty reason is read as the text of
  -- the status code.
  pub read-write_status_line :
      (old msg : Message)
      → msg.proto_major ≡ 2
      → msg.proto_minor ≡ 0
      → 100 ≤ msg.status_code
      → msg.status_code < 1000
      → parse_sip_version (reason_of msg) ≡ ok none
      → read_first_line urls old (response_text msg)
        ≡ ok (
            some (record old {
              proto = codes "SIP/2.0";
              proto_major = 2;
              proto_minor = 0;
              reason_phrase = reason_of msg;
              status_code = msg.status_code;
              request = false;
              response = true;
            }))
  unfolding read_first_line by_version status_line parse_sip_version bytes_beq
  read-write_status_line old msg major minor least most reason =
      rw
        (
          version_two msg major minor,
          three_digits_lem msg.status_code least,
          parse_request_line_lem (codes "SIP/2.0") (format_int (pos msg.status_code))
              (reason_of msg) (refl, (refl, (refl, (refl, (refl, (refl, (refl, tt)))))))
              (format_int-NoSpace msg.status_code),
          read_first_line,
          reason,
        )
        (ap ok (status_line_lem old msg.status_code (reason_of msg) least most))
