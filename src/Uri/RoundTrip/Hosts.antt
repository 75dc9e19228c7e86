-- ===== src/Uri/RoundTrip/Hosts.antt =====
-- A host with or without a port is read as it stands (sip/uri.go).
use tjsip.Base.{
  ℕ, ◌<◌, Bool, true, false, ◌||◌, none, some, [], ◌∷◌, ◌++◌, Bytes, codes, ◌≡◌, ◌≢◌, refl, sym, ap,
  ◌∙◌, arith, nat_beq,
}
use tjsip.Base.Text.{contains_byte, is_digit}
use tjsip.Base.Trimmed.{Without}
use tjsip.Uri.Escape.{encode_host, is_alphanum, unescape, escape, should_escape, byte_allowed}
use tjsip.Uri.Escape.Inverse.{IsEscapable, unescape-escape}
use tjsip.Uri.Parse.{split_last, valid_optional_port, all_digits, parse_host, starts_with}
use tjsip.Uri.RoundTrip.{
  Each, Each-append, Each-weaken, Each-Without, split_last-none, split_last-Without,
}

-- The bytes of a name, and those of a name with a port
unfoldable pub name_byte : ℕ → Bool
unfolding contains_byte
name_byte c = is_alphanum c || contains_byte (codes "-_.~") c

unfoldable pub host_byte : ℕ → Bool
host_byte c = name_byte c || nat_beq c b':'

-- A port with its colon, or nothing
abbrev pub IsPort : Bytes → Type 0
IsPort [] = Unit {0}
IsPort (c ∷ s) = (c ≡ b':') × Each is_digit s

kept_host_byte :
    (c : ℕ)
    → host_byte c ≡ true
    → (should_escape encode_host c ≡ false) × (byte_allowed encode_host c ≡ true) × (c < 256)
unfolding host_byte name_byte should_escape byte_allowed contains_byte
kept_host_byte c h = ground arith

pub escape-host : (s : Bytes) → Each host_byte s → escape encode_host s ≡ s
unfolding escape
escape-host [] h = refl
escape-host (c ∷ s) h = ground (arith, kept_host_byte c h.0, escape-host s h.1)

IsEscapable-host : (s : Bytes) → Each host_byte s → IsEscapable encode_host s
IsEscapable-host [] h = tt
IsEscapable-host (c ∷ s) h = let (k, a, l) = kept_host_byte c h.0 in (l, a, IsEscapable-host s h.1)

unescape-host : (s : Bytes) → Each host_byte s → unescape encode_host s ≡ some s
unescape-host s h =
    ap (unescape encode_host) (sym (escape-host s h))
    ∙ unescape-escape encode_host s (λ e. absurd (ground arith)) (IsEscapable-host s h)

pub host_of :
    (name port : Bytes) → Each name_byte name → IsPort port → Each host_byte (name ++ port)
unfolding host_byte
host_of name [] h p =
    Each-append host_byte name [] (Each-weaken name_byte host_byte name (λ c e. rw e refl) h) tt
host_of name (c ∷ s) h p =
    Each-append host_byte name (c ∷ s) (Each-weaken name_byte host_byte name (λ c e. rw e refl) h)
      (ground (arith, p.0), Each-weaken is_digit host_byte s digit_host_byte p.1)
  where
    digit_host_byte : (c : ℕ) → is_digit c ≡ true → host_byte c ≡ true
    digit_host_byte c e = unfold name_byte contains_byte in ground arith

name_no_colon : (c : ℕ) → name_byte c ≡ true → nat_beq c b':' ≡ false
unfolding name_byte contains_byte
name_no_colon c h = ground arith

all_digits-Each : (s : Bytes) → Each is_digit s → all_digits s ≡ true
unfolding all_digits
all_digits-Each [] h = refl
all_digits-Each (c ∷ s) h = rw (all_digits-Each s h.1) (ground (arith, h.0))

not_bracket : (s port : Bytes) → s ≢ [] → Each name_byte s → starts_with b'[' (s ++ port) ≡ false
unfolding starts_with name_byte contains_byte
not_bracket [] port n h = absurd (n refl)
not_bracket (c ∷ s) port n h = ground (arith, h.0)

without_port :
    (host : Bytes)
    → starts_with b'[' host ≡ false
    → split_last b':' host ≡ none
    → parse_host host ≡ unescape encode_host host
unfolding parse_host
without_port host b e = rw (b, e, parse_host) refl

with_port :
    (host front port : Bytes)
    → starts_with b'[' host ≡ false
    → split_last b':' host ≡ some (front, port)
    → valid_optional_port (b':' ∷ port) ≡ true
    → parse_host host ≡ unescape encode_host host
unfolding parse_host
with_port host front port b e v = rw (b, e, v, parse_host) refl

name_Without : (name : Bytes) → Each name_byte name → Without b':' (name ++ [])
name_Without name h =
    Each-Without name_byte b':' (name ++ []) name_no_colon (Each-append name_byte name [] h tt)

port_Without : (s : Bytes) → Each is_digit s → Without b':' s
port_Without s h = Each-Without is_digit b':' s (λ c e. ground arith) h

pub parse_host_lem :
    (name port : Bytes)
    → name ≢ []
    → Each name_byte name
    → IsPort port
    → parse_host (name ++ port) ≡ some (name ++ port)
unfolding valid_optional_port
parse_host_lem name [] n h p =
    without_port (name ++ []) (not_bracket name [] n h)
      (split_last-none b':' (name ++ []) (name_Without name h))
    ∙ unescape-host (name ++ []) (host_of name [] h p)
parse_host_lem name (c ∷ s) n h p =
    with_port (name ++ c ∷ s) name s (not_bracket name (c ∷ s) n h)
      (ap (λ d. split_last b':' (name ++ d ∷ s)) p.0
        ∙ split_last-Without b':' name s (port_Without s p.1))
      (all_digits-Each s p.1)
    ∙ unescape-host (name ++ c ∷ s) (host_of name (c ∷ s) h p)
