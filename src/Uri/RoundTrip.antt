-- ===== src/Uri/RoundTrip.antt =====
-- The parts of a SIP URI that is printed are read again (sip/uri.go).
pub mod Users
pub mod Hosts
pub mod Behind
pub mod Whole
use mathlib.Core.Path.{subst, ap₂}
use tjsip.Base.{
  ℕ, Bool, true, false, not, ◌&&◌, ◌||◌, Option, none, some, List, [], ◌∷◌, ◌++◌, Bytes, codes, ◌≡◌,
  ◌≢◌, refl, sym, ap, ◌∙◌, arith, nat_beq, ltb, leb, if◌then◌else◌, Bool-cases, inl, inr, ◌<◌,
  is_some,
}
use tjsip.Base.Classes.{◌==◌, bytes_eq, bytes_beq}
use tjsip.Base.Text.{contains_byte, is_digit, split_2, to_lower}
use tjsip.Base.Trimmed.{Without, split_2-Without, split_2-none}
use tjsip.Message.{Uri, Userinfo}
use tjsip.Uri.{NetUrl, NetUrls}
use tjsip.Uri.Escape.{
  Encoding, encode_host, encode_path, encode_user_password, between, is_alphanum, unescape, escape,
  should_escape,
}
use tjsip.Uri.Escape.Inverse.{IsEscapable, unescape-escape}
use tjsip.Uri.Parse.{
  absent, missing, found, scheme_of, getscheme, split, split_last, valid_optional_port, parse_host,
  valid_userinfo, user_of, parse_authority, contains_ctl, new_uri, parse_below, parse, parse_uri,
}
use tjsip.Uri.Print.{print_uri, authority, escaped_path}

-- Every byte of the text passes the test.
abbrev pub Each : (ℕ → Bool) → Bytes → Type 0
Each test [] = Unit {0}
Each test (c ∷ s) = (test c ≡ true) × Each test s

Each-weaken :
    (t u : ℕ → Bool) (s : Bytes) → ((c : ℕ) → t c ≡ true → u c ≡ true) → Each t s → Each u s
Each-weaken t u [] w h = tt
Each-weaken t u (c ∷ s) w h = (w c h.0, Each-weaken t u s w h.1)

Each-append : (t : ℕ → Bool) (s r : Bytes) → Each t s → Each t r → Each t (s ++ r)
Each-append t [] r h k = k
Each-append t (c ∷ s) r h k = (h.0, Each-append t s r h.1 k)

Each-Without :
    (t : ℕ → Bool) (sep : ℕ) (s : Bytes)
    → ((c : ℕ) → t c ≡ true → nat_beq c sep ≡ false)
    → Each t s
    → Without sep s
Each-Without t sep [] w h = tt
Each-Without t sep (c ∷ s) w h = (w c h.0, Each-Without t sep s w h.1)

-- scheme ":" rest
unfoldable pub lower : ℕ → Bool
lower = between b'a' b'z'

scheme_of-found :
    (first : Bool) (s rest : Bytes)
    → Each lower s
    → (first ≡ true → s ≢ [])
    → scheme_of first (s ++ b':' ∷ rest) ≡ found s rest
unfolding scheme_of lower
scheme_of-found true [] rest h n = absurd (n refl refl)
scheme_of-found false [] rest h n = refl
scheme_of-found first (c ∷ s) rest h n =
    ground (arith, scheme_of-found false s rest h.1 (λ (e : false ≡ true). absurd (cc)))

getscheme-found :
    (c : ℕ) (s rest : Bytes)
    → Each lower (c ∷ s)
    → getscheme (c ∷ s ++ b':' ∷ rest) ≡ some (c ∷ s, rest)
unfolding getscheme
getscheme-found c s rest h =
    rw (scheme_of-found true (c ∷ s) rest h (λ e f. absurd (cc)), getscheme) refl

to_lower-lower : (s : Bytes) → Each lower s → to_lower s ≡ s
unfolding to_lower lower
to_lower-lower [] h = refl
to_lower-lower (c ∷ s) h = ground (arith, to_lower-lower s h.1)

-- The last separator
split_last-none : (sep : ℕ) (s : Bytes) → Without sep s → split_last sep s ≡ none
unfolding split_last
split_last-none sep [] h = refl
split_last-none sep (c ∷ s) h = rw (split_last-none sep s h.1, h.0) refl

split_last-Without :
    (sep : ℕ) (s r : Bytes) → Without sep r → split_last sep (s ++ sep ∷ r) ≡ some (s, r)
unfolding split_last
split_last-Without sep [] r h = rw (split_last-none sep r h) (ground arith)
split_last-Without sep (c ∷ s) r h = rw (split_last-Without sep s r h) refl
