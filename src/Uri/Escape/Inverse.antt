-- ===== src/Uri/Escape/Inverse.antt =====
-- unescape undoes escape (sip/uri.go).
use mathlib.Core.Path.{ap₂, subst}
use tjsip.Base.{
  ◌&&◌, sym, if◌then◌else◌, ap, false, ℕ, ◌/◌, ◌%◌, ◌<◌, ◌≡◌, ◌≢◌, refl, true, false, some, [], ◌∷◌,
  Bytes, arith, Bool-cases, inl, inr, nat_beq, nat_beq_iff,
}
use tjsip.Base.Text.{contains_byte}
use tjsip.Uri.Escape.{
  Encoding, encode_path, encode_path_segment, encode_host, encode_zone, encode_user_password,
  encode_query_component, encode_fragment, should_escape, byte_allowed, well_formed, decoded,
  unescape, escape, is_query, plus_stands_for, upperhex, unhex, ishex, at_byte, pair_allowed,
}

-- The bytes of a text that a mode may escape; a host may hold no byte of ASCII that it would escape.
abbrev pub IsEscapable : Encoding → Bytes → Type 0
IsEscapable mode [] = Unit {0}
IsEscapable mode (c ∷ s) = (c < 256) × (byte_allowed mode c ≡ true) × IsEscapable mode s

unhex-upperhex : (n : ℕ) → n < 16 → (unhex (upperhex n) ≡ n) × (ishex (upperhex n) ≡ true)
unhex-upperhex n h = ground arith

percent_escaped : (mode : Encoding) → should_escape mode b'%' ≡ true
unfolding should_escape contains_byte
percent_escaped encode_path = refl
percent_escaped encode_path_segment = refl
percent_escaped encode_host = refl
percent_escaped encode_zone = refl
percent_escaped encode_user_password = refl
percent_escaped encode_query_component = refl
percent_escaped encode_fragment = refl

byte_eq : (c d : ℕ) → nat_beq c d ≡ true → c ≡ d
byte_eq c d e = omega (arith, (nat_beq_iff c d).0 e)

-- A byte that is kept is no `%`, and reads as itself.
kept-not-percent : (mode : Encoding) (c : ℕ) → should_escape mode c ≡ false → nat_beq c b'%' ≡ false
kept-not-percent mode c h = elim (Bool-cases (nat_beq c b'%')) [
  | inl e ↦
      absurd (ground (arith, percent_escaped mode, ap (should_escape mode) (byte_eq c b'%' e)))
  | inr e ↦ e
]

kept_plus :
    (mode : Encoding) (c : ℕ)
    → should_escape mode c ≡ false
    → (if nat_beq c b'+' then plus_stands_for mode else c) ≡ c
unfolding should_escape contains_byte
kept_plus encode_path c h = ground arith
kept_plus encode_path_segment c h = ground arith
kept_plus encode_host c h = ground arith
kept_plus encode_zone c h = ground arith
kept_plus encode_user_password c h = ground arith
kept_plus encode_query_component c h = ground arith
kept_plus encode_fragment c h = ground arith

pair_of :
    (mode : Encoding) (c : ℕ)
    → c < 256
    → mode ≢ encode_zone
    → should_escape mode c ≡ true
    → byte_allowed mode c ≡ true
    → pair_allowed mode (upperhex (c / 16)) (upperhex (c % 16)) ≡ true
unfolding pair_allowed byte_allowed
pair_of encode_path c h z e b = refl
pair_of encode_path_segment c h z e b = refl
pair_of encode_host c h z e b = ground (arith, (unhex-upperhex (c / 16) (omega arith)).0)
pair_of encode_zone c h z e b = absurd (z refl)
pair_of encode_user_password c h z e b = refl
pair_of encode_query_component c h z e b = refl
pair_of encode_fragment c h z e b = refl

-- The text of one byte, and what the two loops make of it in front of `rest`
Reads : Encoding → Bytes → Bytes → Type 0
Reads mode t s = (well_formed mode at_byte t ≡ true) × (decoded mode at_byte t ≡ s)

space_Reads :
    (mode : Encoding) (t s : Bytes)
    → is_query mode ≡ true
    → Reads mode t s
    → Reads mode (b'+' ∷ t) (b' ' ∷ s)
unfolding Reads well_formed decoded byte_allowed
space_Reads encode_query_component t s q r = (r.0, ap (◌∷◌ b' ') r.1)
space_Reads encode_path t s q r = cc
space_Reads encode_path_segment t s q r = cc
space_Reads encode_host t s q r = cc
space_Reads encode_zone t s q r = cc
space_Reads encode_user_password t s q r = cc
space_Reads encode_fragment t s q r = cc

hex_Reads :
    (mode : Encoding) (c : ℕ) (t s : Bytes)
    → c < 256
    → pair_allowed mode (upperhex (c / 16)) (upperhex (c % 16)) ≡ true
    → Reads mode t s
    → Reads mode (b'%' ∷ upperhex (c / 16) ∷ upperhex (c % 16) ∷ t) (c ∷ s)
unfolding Reads well_formed decoded
hex_Reads mode c t s h p r =
    (rw (high.1, low.1, p) (r.0), ap₂ (◌∷◌) (rw (high.0, low.0) (omega arith)) r.1)
  where
    high : (unhex (upperhex (c / 16)) ≡ c / 16) × (ishex (upperhex (c / 16)) ≡ true)
    high = unhex-upperhex (c / 16) (omega arith)

    low : (unhex (upperhex (c % 16)) ≡ c % 16) × (ishex (upperhex (c % 16)) ≡ true)
    low = unhex-upperhex (c % 16) (omega arith)

kept_Reads :
    (mode : Encoding) (c : ℕ) (t s : Bytes)
    → should_escape mode c ≡ false
    → byte_allowed mode c ≡ true
    → Reads mode t s
    → Reads mode (c ∷ t) (c ∷ s)
unfolding Reads well_formed decoded
kept_Reads mode c t s e b r =
    rw (kept-not-percent mode c e, b, kept_plus mode c e) (r.0, ap (◌∷◌ c) r.1)

space_of :
    (mode : Encoding) (c : ℕ)
    → nat_beq c b' ' && is_query mode ≡ true
    → (c ≡ b' ') × (is_query mode ≡ true)
space_of mode c q = ground arith

escape-Reads :
    (mode : Encoding) (s : Bytes)
    → mode ≢ encode_zone
    → IsEscapable mode s
    → Reads mode (escape mode s) s
unfolding Reads escape
escape-Reads mode [] z h = unfold well_formed decoded in (refl, refl)
escape-Reads mode (c ∷ s) z (small, allowed, rest) =
    elim (Bool-cases (nat_beq c b' ' && is_query mode)) [
      | inl q ↦ rw q (
          subst (λ x. Reads mode (b'+' ∷ escape mode s) (x ∷ s)) (sym (space_of mode c q).0)
            (space_Reads mode _ s (space_of mode c q).1 (escape-Reads mode s z rest)))
      | inr q ↦ elim (Bool-cases (should_escape mode c)) [
        | inl e ↦
            rw (q, e)
              (hex_Reads mode c _ s small (pair_of mode c small z e allowed)
                (escape-Reads mode s z rest))
        | inr e ↦ rw (q, e) (kept_Reads mode c _ s e allowed (escape-Reads mode s z rest))
      ]
    ]

-- What is escaped in a mode other than that of zones is read again, where the text is of bytes, and a
-- host has no byte of ASCII that is to be escaped.
pub unescape-escape :
    (mode : Encoding) (s : Bytes)
    → mode ≢ encode_zone
    → IsEscapable mode s
    → unescape mode (escape mode s) ≡ some s
unfolding unescape Reads
unescape-escape mode s z h = let (w, d) = escape-Reads mode s z h in rw (w, d) refl
