-- ===== src/Message/Parse/Vias.antt =====
-- A Via header that is printed is read again (sip/header.go).
use mathlib.Core.List.{reverse, reverse-append}
use tjsip.Base.{
  true, false, some, [], ◌∷◌, ◌++◌, Bytes, ◌≡◌, ◌≢◌, ◌⊎◌, inl, inr, refl, sym, ap, ◌∙◌, arith,
}
use tjsip.Base.Classes.{bytes_eq, bytes_beq}
use tjsip.Base.Text.{trim, trim_left, blanks, contains_byte}
use tjsip.Base.Trimmed.{IsTrimmed, trim-IsTrimmed, begins_clean, Without, split_2-Without}
use tjsip.Base.Outcome.{ok}
use tjsip.Message.Via
use tjsip.Message.Via.{Via, ViaHeaders}
use tjsip.Message.Print.{print_via, with_parameter}
use tjsip.Message.Parse.{parse_vias, first_via, until_separator, until_comma}
use tjsip.Message.Parse.Fuel.{parse_vias_lem}

-- The parameters of a Via: no commas and quotes, and no blanks and semicolons at the ends
abbrev pub AreParameters : Bytes → Type 0
AreParameters s = Without b',' s × Without b'"' s × (trim (blanks ++ b';' ∷ []) s ≡ s) × IsTrimmed s

-- The parts of a Via
pub record IsVia (v : Via) : Type 0 where
  pub protocol : IsTrimmed v.sent_protocol
  pub no_space : Without b' ' v.sent_protocol
  pub by : IsTrimmed v.sent_by
  pub no_semicolon : Without b';' v.sent_by
  pub no_comma : Without b',' v.sent_by
  pub parameters : (v.raw_parameter ≡ []) ⊎ AreParameters v.raw_parameter

begins-append : (s r : Bytes) → begins_clean s ≡ true → begins_clean (s ++ r) ≡ true
begins-append [] r h = absurd (cc)
begins-append (c ∷ s) r h = h

-- The ends of a text that begins and ends with trimmed texts
append-IsTrimmed : (s m r : Bytes) → IsTrimmed s → IsTrimmed r → IsTrimmed (s ++ (m ++ r))
append-IsTrimmed s m r (b, e) (b', e') = (
  begins-append s (m ++ r) b,
  rw (reverse-append s (m ++ r), reverse-append m r)
      (begins-append (reverse r ++ reverse m) (reverse s)
        (begins-append (reverse r) (reverse m) e')),
)

until_separator-none : (s : Bytes) → Without b';' s → Without b',' s → until_separator s ≡ (s, [])
unfolding until_separator
until_separator-none [] a b = refl
until_separator-none (c ∷ s) (h, a) (k, b) = ground (arith, until_separator-none s a b)

until_separator-found :
    (s r : Bytes)
    → Without b';' s
    → Without b',' s
    → until_separator (s ++ b';' ∷ r) ≡ (s, b';' ∷ r)
unfolding until_separator
until_separator-found [] r a b = ground arith
until_separator-found (c ∷ s) r (h, a) (k, b) = ground (arith, until_separator-found s r a b)

until_comma-none : (s : Bytes) → Without b',' s → Without b'"' s → until_comma false s ≡ (s, [])
unfolding until_comma
until_comma-none [] a b = refl
until_comma-none (c ∷ s) (h, a) (k, b) = ground (arith, until_comma-none s a b)

-- A text with the protocol before its first space, whose rest is read in one step
parse_vias-text :
    (p w : Bytes) (v : Via) (vs : ViaHeaders)
    → IsTrimmed p
    → Without b' ' p
    → IsTrimmed w
    → first_via (p, some w) ≡ ok (v, [])
    → parse_vias (p ++ b' ' ∷ w) vs ≡ ok (Via.append vs v).0
parse_vias-text [] w v vs (b, e) a t h = absurd (cc)
parse_vias-text (c ∷ p) w v vs b a t h =
    (parse_vias_lem c (p ++ b' ' ∷ w) vs).1
    ∙ rw
        (
          trim-IsTrimmed ((c ∷ p) ++ b' ' ∷ w) (append-IsTrimmed (c ∷ p) (b' ' ∷ []) w b t),
          split_2-Without b' ' (c ∷ p) w a,
          h,
        )
        (parse_vias_lem c p (Via.append vs v).0).0

trim_nothing : (cut : Bytes) → trim cut [] ≡ []
unfolding trim trim_left
trim_nothing cut = refl

trim-semicolon : (s : Bytes) → trim (blanks ++ b';' ∷ []) (b';' ∷ s) ≡ trim (blanks ++ b';' ∷ []) s
unfolding trim trim_left contains_byte
trim-semicolon s = refl

first_via-plain :
    (p sent : Bytes)
    → IsTrimmed p
    → IsTrimmed sent
    → Without b';' sent
    → Without b',' sent
    → first_via (p, some sent)
      ≡ ok (record { sent_protocol = p; sent_by = sent; raw_parameter = [] }, [])
unfolding first_via
first_via-plain p sent hp hs a b = simp (
  trim-IsTrimmed sent hs,
  until_separator-none sent a b,
  trim-IsTrimmed p hp,
  trim_nothing (blanks ++ b';' ∷ []),
  trim_nothing (blanks ++ b',' ∷ []),
)

first_via-parameters :
    (p sent raw : Bytes)
    → IsTrimmed p
    → IsTrimmed sent
    → Without b';' sent
    → Without b',' sent
    → AreParameters raw
    → first_via (p, some (sent ++ b';' ∷ raw))
      ≡ ok (record { sent_protocol = p; sent_by = sent; raw_parameter = raw }, [])
unfolding first_via
first_via-parameters p sent raw hp hs a b (c, q, t, e) = simp (
  trim-IsTrimmed (sent ++ b';' ∷ raw) (append-IsTrimmed sent (b';' ∷ []) raw hs e),
  until_separator-found sent raw a b,
  until_comma-none raw c q,
  trim-IsTrimmed sent hs,
  trim-IsTrimmed p hp,
  trim-semicolon raw,
  t,
  trim_nothing (blanks ++ b',' ∷ []),
)

with_parameter-none : (s raw : Bytes) → raw ≡ [] → with_parameter s raw ≡ s
unfolding bytes_beq
with_parameter-none s raw e = rw e refl

with_parameter-some : (s raw : Bytes) → raw ≢ [] → with_parameter s raw ≡ s ++ b';' ∷ raw
unfolding bytes_beq
with_parameter-some s [] other = absurd (other refl)
with_parameter-some s (c ∷ raw) other = refl

AreParameters-some : (raw : Bytes) → AreParameters raw → raw ≢ []
AreParameters-some [] (c, q, t, (b, e)) = absurd (cc)
AreParameters-some (c ∷ raw) h = λ e. absurd (cc)

module _ (v : Via) (vs : ViaHeaders) (h : IsVia v) where
  print_via-plain : v.raw_parameter ≡ [] → parse_vias (print_via v) vs ≡ ok (Via.append vs v).0
  unfolding print_via
  print_via-plain e =
      ap (λ (w : Bytes). parse_vias (v.sent_protocol ++ b' ' ∷ w) vs)
        (with_parameter-none v.sent_by v.raw_parameter e)
      ∙ parse_vias-text v.sent_protocol v.sent_by v vs h.protocol h.no_space h.by (
          first_via-plain v.sent_protocol v.sent_by h.protocol h.by h.no_semicolon h.no_comma
          ∙ ap
              (λ (r : Bytes). ok (
                record { sent_protocol = v.sent_protocol; sent_by = v.sent_by; raw_parameter = r },
                [],
              ))
              (sym e))

  print_via-parameters :
      AreParameters v.raw_parameter → parse_vias (print_via v) vs ≡ ok (Via.append vs v).0
  unfolding print_via
  print_via-parameters (c, q, t, e) =
      ap (λ (w : Bytes). parse_vias (v.sent_protocol ++ b' ' ∷ w) vs)
        (with_parameter-some v.sent_by v.raw_parameter
          (AreParameters-some v.raw_parameter (c, q, t, e)))
      ∙ parse_vias-text v.sent_protocol (v.sent_by ++ b';' ∷ v.raw_parameter) v vs h.protocol
          h.no_space (append-IsTrimmed v.sent_by (b';' ∷ []) v.raw_parameter h.by e)
          (first_via-parameters v.sent_protocol v.sent_by v.raw_parameter h.protocol h.by
            h.no_semicolon h.no_comma (c, q, t, e))

-- A Via header is read again from the text that `Via.String` makes of it: with its protocol, the host
-- and port it was sent by, and its parameters, each in its place, as the new bottom of the headers, and
-- with nothing left over. The protocol and the host are not empty and have no blanks at their ends; the
-- protocol has no space, the host no semicolon and no comma, and the parameters, where there are any, no
-- comma and no quote, and no blank and no semicolon at their ends.
pub parse-print_via :
    (v : Via) (vs : ViaHeaders) → IsVia v → parse_vias (print_via v) vs ≡ ok (Via.append vs v).0
parse-print_via v vs h = elim h.parameters [
  | inl e ↦ print_via-plain v vs h e
  | inr raw ↦ print_via-parameters v vs h raw
]
