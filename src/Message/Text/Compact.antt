-- ===== src/Message/Text/Compact.antt =====
-- What becomes of the compact forms of header names (sip/reader.go).
use tjsip.Base.{
  ℕ, suc, ◌∙◌, true, false, some, [], ◌∷◌, ◌++◌, Bytes, ◌≡◌, refl, nat_beq, Bool-cases, inl, inr,
  ap,
}
use tjsip.Base.Classes.{bytes_eq, bytes_beq, nat_eq}
use tjsip.Base.Assoc.{lookup}
use tjsip.Base.Text.{canonical, is_token, capitalise, to_upper_byte}
use tjsip.Message.Headers.{Header}
use tjsip.Message.Text.{
  translated, index_byte, field_key, add_value, add_field, read_fields, starts_white,
}
use tjsip.Message.Print.{crlf}
use tjsip.Message.Text.Lines.{read_fields-line, trim_right}
use tjsip.Base.Trimmed.{Without}

-- No entry of the table is reached: the number is that of the byte zero in the key.
not_translated : (c : ℕ) → translated (index_byte (c ∷ []) 0) ≡ []
unfolding index_byte lookup translated
not_translated c = elim (Bool-cases (nat_beq c 0)) [
  | inl there ↦ rw (there) refl
  | inr absent ↦ rw (absent) refl
]

canonical-one : (c : ℕ) → (d : ℕ) × canonical (c ∷ []) ≡ d ∷ []
unfolding canonical capitalise
canonical-one c = elim (Bool-cases (is_token (c ∷ []))) [
  | inl there ↦ (to_upper_byte c, rw (there) refl)
  | inr absent ↦ (c, rw (absent) refl)
]

field_key-one : (c : ℕ) → field_key (c ∷ []) ≡ []
unfolding field_key canonical
field_key-one c = let (d, same) = canonical-one c in rw (same, not_translated d) refl

add_field-one : (m : Header) (c : ℕ) (value : Bytes) → add_field m (c ∷ [], some value) ≡ m
unfolding add_field add_value bytes_beq
add_field-one m c value = rw (field_key-one c) refl

-- A field whose name is one byte of a token, and whose line is not continued, is read and dropped: it leaves no trace in the header, whichever compact form the byte is.
pub compact_form_dropped :
    (fuel : ℕ) (m : Header) (c : ℕ) (value rest : Bytes)
    → is_token (c ∷ []) ≡ true
    → Without b'\n' value
    → starts_white rest ≡ false
    → read_fields (suc fuel) m ((c ∷ b':' ∷ value) ++ crlf ++ rest) ≡ read_fields fuel m rest
compact_form_dropped fuel m c value rest token w next =
    read_fields-line fuel m c [] value rest token w next
    ∙ ap (λ h. read_fields fuel h rest) (add_field-one m c (trim_right value))
