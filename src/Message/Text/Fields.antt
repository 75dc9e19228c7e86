-- ===== src/Message/Text/Fields.antt =====
-- The fields of a header are read again (sip/reader.go).
use mathlib.Core.List.{reverse, reverse-reverse, reverse-append}
use mathlib.Core.Path.{ap₂}
use tjsip.Base.{
  ℕ, zero, suc, inl, inr, Bool-cases, Bool, true, false, true, false, some, List, [], ◌∷◌, ◌++◌,
  Bytes, ◌≡◌, ◌≢◌, refl, ap, sym, ◌∙◌, arith, nat_beq, length, length-append, ◌<◌, ◌≤◌,
}
use tjsip.Base.Classes.{bytes_eq}
use tjsip.Base.Text.{split_2, contains_byte, trim_left, canonical, capitalise, is_token}
use tjsip.Base.Trimmed.{Without}
use tjsip.Message.Headers.{Header}
use tjsip.Message.Print.{crlf}
use tjsip.Message.Text.{
  white, read_line, line_of, drop_return, starts_white, read_continued_line, field_key, add_value,
  add_field, read_fields, read_mime_header,
}
use tjsip.Message.Text.Lines.{trim_right, read_fields-line}

-- A name of more than one byte, in whatever case
abbrev pub IsName : Bytes → Type 0
IsName k = (is_token k ≡ true) × 1 < length k

-- A value on one line, without white space at its ends; it may be empty.
abbrev pub IsValue : Bytes → Type 0
IsValue v = Without b'\n' v × (starts_white v ≡ false) × (starts_white (reverse v) ≡ false)

abbrev pub AreFields : List (Bytes × Bytes) → Type 0
AreFields [] = Unit {0}
AreFields ((k, v) ∷ fs) = IsName k × IsValue v × AreFields fs

-- Fields as `writeHeader` writes them, and the empty line
unfoldable pub fields_text : List (Bytes × Bytes) → Bytes → Bytes
fields_text [] rest = crlf ++ rest
fields_text ((k, v) ∷ fs) rest = (k ++ b':' ∷ b' ' ∷ v) ++ crlf ++ fields_text fs rest

abbrev pub with_fields : Header → List (Bytes × Bytes) → Header
with_fields m [] = m
with_fields m ((k, v) ∷ fs) = with_fields (add_value m (canonical k) v) fs

trim_left-none : (s : Bytes) → starts_white s ≡ false → trim_left white s ≡ s
unfolding trim_left
trim_left-none [] h = refl
trim_left-none (c ∷ s) h = rw (trim_left, h) refl

starts-append : (s r : Bytes) → s ≢ [] → starts_white s ≡ false → starts_white (s ++ r) ≡ false
starts-append [] r n h = absurd (n refl)
starts-append (c ∷ s) r n h = h

cons-ne_nil : {c : ℕ} {s : Bytes} → c ∷ s ≢ []
cons-ne_nil e = absurd (cc)

reverse-nonempty : (c : ℕ) (s : Bytes) → reverse (c ∷ s) ≢ []
reverse-nonempty c s e = cons-ne_nil (sym (reverse-reverse (c ∷ s)) ∙ ap reverse e)

trim_right-none :
    (c : ℕ) (s : Bytes)
    → starts_white (reverse (c ∷ s)) ≡ false
    → trim_right (b' ' ∷ c ∷ s) ≡ b' ' ∷ c ∷ s
unfolding trim_right
trim_right-none c s h =
    rw
      (
        reverse-append (b' ' ∷ []) (c ∷ s),
        trim_left-none (reverse (c ∷ s) ++ b' ' ∷ [])
            (starts-append (reverse (c ∷ s)) (b' ' ∷ []) (reverse-nonempty c s) h),
        reverse-append (reverse (c ∷ s)) (b' ' ∷ []),
        reverse-reverse (c ∷ s),
      )
      refl

-- The space that is written before a value is not read.
value_read : (v : Bytes) → IsValue v → trim_left white (trim_right (b' ' ∷ v)) ≡ v
unfolding trim_right trim_left contains_byte
value_read [] h = refl
value_read (c ∷ v) (w, b, e) = rw (trim_right-none c v e) (trim_left-none (c ∷ v) b)

fields_text-visible :
    (fs : List (Bytes × Bytes)) (rest : Bytes)
    → AreFields fs
    → starts_white (fields_text fs rest) ≡ false
unfolding fields_text is_token contains_byte
fields_text-visible [] rest h = refl
fields_text-visible (([], v) ∷ fs) rest ((token, long), value, h) = absurd (omega arith)
fields_text-visible ((c ∷ k, v) ∷ fs) rest ((token, long), value, h) = ground arith

not_one : (n : ℕ) → 1 < n → nat_beq n 1 ≡ false
not_one n h = ground arith

length-capitalise : (upper : Bool) (k : Bytes) → length (capitalise upper k) ≡ length k
unfolding capitalise
length-capitalise upper [] = refl
length-capitalise upper (c ∷ k) = ap suc (length-capitalise (nat_beq c b'-') k)

pub length-canonical : (k : Bytes) → length (canonical k) ≡ length k
unfolding canonical
length-canonical k = elim (Bool-cases (is_token k)) [
  | inl token ↦ rw (token) (length-capitalise true k)
  | inr other ↦ rw (other) refl
]

field_key-name : (k : Bytes) → IsName k → field_key k ≡ canonical k
unfolding field_key
field_key-name k (token, long) = rw (length-canonical k, not_one (length k) long) refl

add_field-field :
    (m : Header) (k v : Bytes)
    → IsName k
    → IsValue v
    → add_field m (k, some (trim_right (b' ' ∷ v))) ≡ add_value m (canonical k) v
unfolding add_field
add_field-field m k v n w = ap₂ (add_value m) (field_key-name k n) (value_read v w)

read_continued_line-end : (rest : Bytes) → read_continued_line (crlf ++ rest) ≡ some ([], rest)
unfolding read_continued_line read_line split_2 line_of drop_return
read_continued_line-end rest = refl

read_fields-text :
    (fuel : ℕ) (m : Header) (fs : List (Bytes × Bytes)) (rest : Bytes)
    → length fs < fuel
    → AreFields fs
    → read_fields fuel m (fields_text fs rest) ≡ some (with_fields m fs, rest)
unfolding fields_text read_fields
read_fields-text zero m fs rest h f = absurd (omega arith)
read_fields-text (suc fuel) m [] rest h f = rw (read_fields, read_continued_line-end rest) refl
read_fields-text (suc fuel) m (([], v) ∷ fs) rest h ((token, long), value, f) = absurd (omega arith)
read_fields-text (suc fuel) m ((c ∷ k, v) ∷ fs) rest h (name, value, f) =
    read_fields-line fuel m c k (b' ' ∷ v) (fields_text fs rest) name.0 (refl, value.0)
      (fields_text-visible fs rest f)
    ∙ ap (λ n. read_fields fuel n (fields_text fs rest)) (add_field-field m (c ∷ k) v name value)
    ∙ read_fields-text fuel (add_value m (canonical (c ∷ k)) v) fs rest (omega arith) f

length-fields_text :
    (fs : List (Bytes × Bytes)) (rest : Bytes) → length fs ≤ length (fields_text fs rest)
unfolding fields_text
length-fields_text [] rest = omega arith
length-fields_text ((k, v) ∷ fs) rest = omega (
  arith,
  length-append ((k ++ b':' ∷ b' ' ∷ v) ++ crlf) (fields_text fs rest),
  length-append (k ++ b':' ∷ b' ' ∷ v) crlf,
  length-fields_text fs rest,
)

pub read_mime_header-fields :
    (fs : List (Bytes × Bytes)) (rest : Bytes)
    → AreFields fs
    → read_mime_header (fields_text fs rest) ≡ some (with_fields [] fs, rest)
unfolding read_mime_header
read_mime_header-fields fs rest f = rw (fields_text-visible fs rest f) (
    read_fields-text (suc (length (fields_text fs rest))) [] fs rest
      (omega (arith, length-fields_text fs rest)) f)
