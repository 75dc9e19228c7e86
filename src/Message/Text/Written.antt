-- ===== src/Message/Text/Written.antt =====
-- The fields of a message that is written, as lines (sip/message.go), for the reader of sip/reader.go.
use mathlib.Core.List.{append_assoc, reverse}
use tjsip.Base.{
  false, Option, none, some, List, [], ◌∷◌, ◌++◌, Bytes, codes, ◌≡◌, refl, ap, ◌∙◌, if◌then◌else◌,
  Bool-cases, inl, inr,
}
use tjsip.Base.Outcome.{ok}
use tjsip.Message.{Message}
use tjsip.Message.Headers
use tjsip.Message.Headers.{Header}
use tjsip.Message.Via.{Via, ViaHeaders}
use tjsip.Message.Print.{crlf, print_via, print_vias, write_vias, print_to, print_call_id}
use tjsip.Message.Counters.Text.{print_cseq, print_max_forwards}
use tjsip.Message.Urls.{Urls}
use tjsip.Message.Write.{
  write_values, write_fields, original, spelled, contains, sorted_keys, write_header, write_below,
  body_text, ignored_keys, contact_text, formatted, line, written,
}
use tjsip.Message.Text.Fields.{fields_text}

-- A field for each value of a key, before the others
abbrev pairs : Bytes → List Bytes → List (Bytes × Bytes) → List (Bytes × Bytes)
pairs k [] fs = fs
pairs k (v ∷ vs) fs = (k, v) ∷ pairs k vs fs

abbrev fields_of : Header → List Bytes → List Bytes → List (Bytes × Bytes)
fields_of h ignores [] = []
fields_of h ignores (low ∷ keys) =
    let rest = fields_of h ignores keys in
    if contains low ignores
    then rest
    else pairs (spelled (original h low [])) (Headers.values h low) rest

-- The line of a header that the message may hold, before the others
abbrev optional :
    {A : Type 0} → Bytes → Option A → (A → Bytes) → List (Bytes × Bytes) → List (Bytes × Bytes)
optional key none f fs = fs
optional key (some a) f fs = (key, f a) ∷ fs

-- A line for each Via
abbrev via_lines : List Via → List (Bytes × Bytes) → List (Bytes × Bytes)
via_lines [] fs = fs
via_lines (v ∷ vs) fs = (codes "Via", print_via v) ∷ via_lines vs fs

line-fields_text :
    (k v : Bytes) (fs : List (Bytes × Bytes)) (rest : Bytes)
    → (k ++ codes ": " ++ v ++ crlf) ++ fields_text fs rest ≡ fields_text ((k, v) ∷ fs) rest
unfolding fields_text
line-fields_text k v fs rest =
    ap (λ s. s ++ crlf ++ fields_text fs rest) (append_assoc k (codes ": ") v)

write_values-fields_text :
    (k : Bytes) (vs : List Bytes) (fs : List (Bytes × Bytes)) (rest : Bytes)
    → write_values k vs ++ fields_text fs rest ≡ fields_text (pairs k vs fs) rest
unfolding write_values
write_values-fields_text k [] fs rest = refl
write_values-fields_text k (v ∷ vs) fs rest =
    append_assoc (k ++ codes ": " ++ v ++ crlf) (write_values k vs) (fields_text fs rest)
    ∙ ap (λ s. (k ++ codes ": " ++ v ++ crlf) ++ s) (write_values-fields_text k vs fs rest)
    ∙ line-fields_text k v (pairs k vs fs) rest

write_fields-fields_text :
    (h : Header) (ignores keys : List Bytes) (rest : Bytes)
    → write_fields h ignores keys ++ (crlf ++ rest) ≡ fields_text (fields_of h ignores keys) rest
unfolding write_fields fields_text
write_fields-fields_text h ignores [] rest = refl
write_fields-fields_text h ignores (low ∷ keys) rest = elim (Bool-cases (contains low ignores)) [
  | inl there ↦ rw (there) (write_fields-fields_text h ignores keys rest)
  | inr absent ↦ rw (absent) (
      append_assoc (write_values (spelled (original h low [])) (Headers.values h low))
        (write_fields h ignores keys) (crlf ++ rest)
      ∙ ap (λ s. write_values (spelled (original h low [])) (Headers.values h low) ++ s)
          (write_fields-fields_text h ignores keys rest)
      ∙ write_values-fields_text (spelled (original h low [])) (Headers.values h low)
          (fields_of h ignores keys) rest)
]

print_vias-fields_text :
    (vs : List Via) (fs : List (Bytes × Bytes)) (rest : Bytes)
    → print_vias (codes "Via: ") vs ++ fields_text fs rest ≡ fields_text (via_lines vs fs) rest
unfolding print_vias
print_vias-fields_text [] fs rest = refl
print_vias-fields_text (v ∷ vs) fs rest =
    append_assoc (codes "Via: " ++ print_via v ++ crlf) (print_vias (codes "Via: ") vs)
      (fields_text fs rest)
    ∙ ap (λ s. (codes "Via: " ++ print_via v ++ crlf) ++ s) (print_vias-fields_text vs fs rest)
    ∙ line-fields_text (codes "Via") (print_via v) (via_lines vs fs) rest

-- A part that is written in front of others
in_front : (x : Bytes) {y z w : Bytes} → x ++ z ≡ w → y ≡ z → x ++ y ≡ w
in_front x e f = ap (λ s. x ++ s) f ∙ e

eight_parts :
    (a b c d e f g h r : Bytes)
    → (a ++ b ++ c ++ d ++ e ++ f ++ g ++ h) ++ r
      ≡ a ++ (b ++ (c ++ (d ++ (e ++ (f ++ (g ++ (h ++ r)))))))
eight_parts a b c d e f g h r = simp (append_assoc)

module _ (urls : Urls) (caught : Bytes) where
  written-fields_text :
      {A : Type 0} (key : Bytes) (o : Option A) (f : A → Bytes) (fs : List (Bytes × Bytes))
      (rest : Bytes)
      → written urls false caught o (λ a. line key (f a)) ++ fields_text fs rest
        ≡ fields_text (optional key o f fs) rest
  written-fields_text key none f fs rest = refl
  written-fields_text key (some a) f fs rest = line-fields_text key (f a) fs rest

  vias-fields_text :
      (o : Option ViaHeaders) (fs : List (Bytes × Bytes)) (rest : Bytes)
      → written urls false caught o (write_vias false) ++ fields_text fs rest
        ≡ fields_text (elim o [ none ↦ fs | some v ↦ via_lines (reverse v.header) fs ]) rest
  unfolding write_vias
  vias-fields_text none fs rest = refl
  vias-fields_text (some v) fs rest = print_vias-fields_text (reverse v.header) fs rest

  abbrev below_vias : Message → List (Bytes × Bytes)
  below_vias msg = optional (codes "Max-Forwards") msg.max_forwards print_max_forwards (
      optional (codes "Call-ID") msg.call_id print_call_id (
        optional (codes "CSeq") msg.cseq print_cseq
          (fields_of msg.header (ignored_keys urls false caught msg) (sorted_keys msg.header))))

  -- The lines that a message without contacts is written in, when compact forms are not in use
  abbrev pub lines_of : Message → List (Bytes × Bytes)
  lines_of msg =
      optional (codes "To") msg.to (λ t. formatted urls false caught (print_to urls t))
        (optional (codes "From") msg.from (λ t. formatted urls false caught (print_to urls t))
          (elim msg.via as (λ x. List (Bytes × Bytes)) [
            | none ↦ below_vias msg
            | some v ↦ via_lines (reverse v.header) (below_vias msg)
          ]))

  abbrev to_text : Message → Bytes
  to_text msg =
      written urls false caught msg.to
        (λ t. line (codes "To") (formatted urls false caught (print_to urls t)))

  abbrev from_text : Message → Bytes
  from_text msg =
      written urls false caught msg.from
        (λ t. line (codes "From") (formatted urls false caught (print_to urls t)))

  abbrev via_text : Message → Bytes
  via_text msg = written urls false caught msg.via (write_vias false)

  abbrev hops_text : Message → Bytes
  hops_text msg =
      written urls false caught msg.max_forwards
        (λ m. line (codes "Max-Forwards") (print_max_forwards m))

  abbrev call_text : Message → Bytes
  call_text msg =
      written urls false caught msg.call_id (λ c. line (codes "Call-ID") (print_call_id c))

  abbrev cseq_text : Message → Bytes
  cseq_text msg = written urls false caught msg.cseq (λ c. line (codes "CSeq") (print_cseq c))

  abbrev rest_text : Message → Bytes
  rest_text msg =
      write_fields msg.header (ignored_keys urls false caught msg) (sorted_keys msg.header)

  header-lines_of :
      (msg : Message) (rest : Bytes)
      → (to_text msg
            ++ from_text msg
            ++ via_text msg
            ++ hops_text msg
            ++ call_text msg
            ++ cseq_text msg
            ++ []
            ++ rest_text msg)
          ++ (crlf ++ rest)
        ≡ fields_text (lines_of msg) rest
  header-lines_of msg rest =
      eight_parts (to_text msg) (from_text msg) (via_text msg) (hops_text msg) (call_text msg)
        (cseq_text msg) [] (rest_text msg) (crlf ++ rest)
      ∙ in_front (to_text msg)
          (written-fields_text (codes "To") msg.to
            (λ t. formatted urls false caught (print_to urls t)) _ rest)
          (in_front (from_text msg)
            (written-fields_text (codes "From") msg.from
              (λ t. formatted urls false caught (print_to urls t)) _ rest)
            (in_front (via_text msg) (vias-fields_text msg.via (below_vias msg) rest) (
              in_front (hops_text msg)
                (written-fields_text (codes "Max-Forwards") msg.max_forwards print_max_forwards _
                  rest)
                (in_front (call_text msg)
                  (written-fields_text (codes "Call-ID") msg.call_id print_call_id _ rest)
                  (in_front (cseq_text msg)
                    (written-fields_text (codes "CSeq") msg.cseq print_cseq _ rest)
                    (write_fields-fields_text msg.header (ignored_keys urls false caught msg)
                      (sorted_keys msg.header) rest))))))

  abbrev header_text : Message → Bytes
  header_text msg =
      to_text msg
      ++ from_text msg
      ++ via_text msg
      ++ hops_text msg
      ++ call_text msg
      ++ cseq_text msg
      ++ []
      ++ rest_text msg

  write_header-text :
      (msg : Message)
      → msg.contact ≡ none
      → write_header urls false caught msg ≡ ok (header_text msg)
  unfolding write_header contact_text
  write_header-text msg c = rw (write_header, c) refl

  write_below-text :
      (first : Bytes) (msg : Message) (body : Bytes)
      → msg.contact ≡ none
      → body_text msg ≡ ok body
      → write_below urls false caught first msg
        ≡ ok (first ++ crlf ++ header_text msg ++ crlf ++ body)
  unfolding write_below
  write_below-text first msg body c b = rw (write_below, write_header-text msg c, b) refl

  pub write_below-lines_of :
      (first : Bytes) (msg : Message) (body : Bytes)
      → msg.contact ≡ none
      → body_text msg ≡ ok body
      → write_below urls false caught first msg
        ≡ ok (first ++ crlf ++ fields_text (lines_of msg) body)
  write_below-lines_of first msg body c b =
      write_below-text first msg body c b
      ∙ ap (λ (s : Bytes). ok s)
          (append_assoc (first ++ crlf ++ header_text msg) crlf body
            ∙ append_assoc (first ++ crlf) (header_text msg) (crlf ++ body)
            ∙ ap (λ s. (first ++ crlf) ++ s) (header-lines_of msg body))
