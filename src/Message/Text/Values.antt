-- ===== src/Message/Text/Values.antt =====
-- The values of a header that is read (sip/reader.go).
use mathlib.Core.List.{append_assoc, append-nil}
use tjsip.Base.{
  ℕ, Bool, true, false, Option, none, some, List, [], ◌∷◌, ◌++◌, Bytes, ◌≡◌, refl, ap, sym, ◌∙◌,
  arith, if◌then◌else◌, length, ◌<◌,
}
use tjsip.Base.Classes.{◌==◌, bytes_eq, bytes_beq, bytes_beq_iff}
use tjsip.Base.Assoc.{lookup, lookup-insert}
use tjsip.Base.Text.{canonical}
use tjsip.Message.Headers.{Header, values}
use tjsip.Message.Text.{add_value, read_mime_header}
use tjsip.Message.Text.Fields.{
  AreFields, IsName, fields_text, with_fields, length-canonical, read_mime_header-fields,
}

-- The values of the fields with a name in canonical form, in their order
abbrev pub values_of : Bytes → List (Bytes × Bytes) → List Bytes
values_of k [] = []
values_of k ((l, v) ∷ fs) = let more = values_of k fs in if canonical l == k then v ∷ more else more

values-add_value :
    (m : Header) (l v key : Bytes)
    → 0 < length l
    → values (add_value m l v) key
      ≡ (if l == canonical key then values m key ++ v ∷ [] else values m key)
unfolding values add_value lookup tjsip.Base.Assoc.insert bytes_beq
values-add_value m [] v key n = absurd (omega arith)
values-add_value m (c ∷ l) v key n = ground (arith, bytes_beq_iff (c ∷ l) (canonical key))

canonical-nonempty : (l : Bytes) → IsName l → 0 < length (canonical l)
canonical-nonempty l (token, long) = omega (arith, length-canonical l)

values-with_fields :
    (m : Header) (fs : List (Bytes × Bytes)) (key : Bytes)
    → AreFields fs
    → values (with_fields m fs) key ≡ values m key ++ values_of (canonical key) fs
values-with_fields m [] key h = sym (append-nil (values m key))
values-with_fields m ((l, v) ∷ fs) key (n, w, h) = ground (
  arith,
  values-with_fields (add_value m (canonical l) v) fs key h,
  values-add_value m (canonical l) v key (canonical-nonempty l n),
  append_assoc (values m key) (v ∷ []) (values_of (canonical key) fs),
)

-- The fields of a header, each with a name of more than one byte, in any case, and a value on one line without white space at its ends, are read from the text that is written for them: the header then gives for each key the values of the fields whose names have the same canonical form, in their order, and what stands behind the empty line is left.
pub read_mime_header-values :
    (fs : List (Bytes × Bytes)) (rest : Bytes)
    → AreFields fs
    → (h : Header) × (read_mime_header (fields_text fs rest) ≡ some (h, rest))
      × ((key : Bytes) → values h key ≡ values_of (canonical key) fs)
unfolding values lookup
read_mime_header-values fs rest f =
    (with_fields [] fs, read_mime_header-fields fs rest f, λ key. values-with_fields [] fs key f)
