-- ===== src/Uri/RoundTrip/Users.antt =====
-- The user of a SIP URI, as net/url prints it, is read again (sip/uri.go).
use tjsip.Base.{
  ℕ, Bool, true, false, ◌||◌, Option, none, some, [], ◌∷◌, ◌++◌, Bytes, codes, ◌≡◌, refl, ◌<◌, ◌/◌,
  ◌%◌, arith, nat_beq, ltb, if◌then◌else◌, Bool-cases, inl, inr,
}
use tjsip.Base.Text.{contains_byte, split_2}
use tjsip.Base.Trimmed.{split_2-Without, split_2-none}
use tjsip.Message.{Userinfo}
use tjsip.Uri.Escape.{
  encode_user_password, is_alphanum, unescape, escape, should_escape, byte_allowed, upperhex,
}
use tjsip.Uri.Escape.Inverse.{IsEscapable, unescape-escape}
use tjsip.Uri.Parse.{valid_userinfo, user_of}
use tjsip.Uri.RoundTrip.{Each, Each-Without}

abbrev pub is_byte : ℕ → Bool
is_byte c = ltb c 256

-- The bytes of an escaped name or password
unfoldable pub user_byte : ℕ → Bool
unfolding contains_byte
user_byte c = is_alphanum c || contains_byte (codes "-_.~$&+,;=%") c

hex_user_byte : (n : ℕ) → n < 16 → user_byte (upperhex n) ≡ true
unfolding user_byte
hex_user_byte n h = ground arith

kept_user_byte : (c : ℕ) → should_escape encode_user_password c ≡ false → user_byte c ≡ true
unfolding user_byte should_escape contains_byte
kept_user_byte c h = ground arith

percent_user_byte : user_byte b'%' ≡ true
unfolding user_byte contains_byte
percent_user_byte = refl

-- No byte of a user is escaped as in a query.
escape-cons :
    (c : ℕ) (s : Bytes)
    → escape encode_user_password (c ∷ s) ≡ (
        if should_escape encode_user_password c
        then b'%' ∷ upperhex (c / 16) ∷ upperhex (c % 16) ∷ escape encode_user_password s
        else c ∷ escape encode_user_password s)
unfolding escape
escape-cons c s = ground arith

pub escape-Each : (s : Bytes) → Each is_byte s → Each user_byte (escape encode_user_password s)
escape-Each [] h = unfold escape in tt
escape-Each (c ∷ s) h = elim (Bool-cases (should_escape encode_user_password c)) [
  | inl e ↦
      rw (escape-cons c s, e)
        (
          percent_user_byte,
          (
            hex_user_byte (c / 16) (ground arith),
            (hex_user_byte (c % 16) (omega arith), escape-Each s h.1),
          ),
        )
  | inr e ↦ rw (escape-cons c s, e) (kept_user_byte c e, escape-Each s h.1)
]

IsEscapable-user : (s : Bytes) → Each is_byte s → IsEscapable encode_user_password s
unfolding byte_allowed
IsEscapable-user [] h = tt
IsEscapable-user (c ∷ s) h = (ground arith, refl, IsEscapable-user s h.1)

valid_userinfo-Each : (s : Bytes) → Each user_byte s → valid_userinfo s ≡ true
unfolding valid_userinfo user_byte contains_byte
valid_userinfo-Each [] h = refl
valid_userinfo-Each (c ∷ s) h = rw (valid_userinfo-Each s h.1) (ground (arith, h.0))

valid_userinfo-both :
    (s r : Bytes) → Each user_byte s → Each user_byte r → valid_userinfo (s ++ b':' ∷ r) ≡ true
unfolding valid_userinfo user_byte contains_byte
valid_userinfo-both [] r h k = valid_userinfo-Each r k
valid_userinfo-both (c ∷ s) r h k = rw (valid_userinfo-both s r h.1 k) (ground (arith, h.0))

no_colon : (c : ℕ) → user_byte c ≡ true → nat_beq c b':' ≡ false
unfolding user_byte contains_byte
no_colon c h = ground arith

-- Userinfo.String: the name, and the password behind a colon, escaped as net/url does it
abbrev pub user_text : Userinfo → Bytes
user_text user = elim user.password [
  | none ↦ escape encode_user_password user.username
  | some word ↦ escape encode_user_password user.username ++ b':' ∷ escape encode_user_password word
]

abbrev pub IsUser : Userinfo → Type 0
IsUser user =
    Each is_byte user.username
    × (elim user.password [ none ↦ Unit {0} | some word ↦ Each is_byte word ])

abbrev pub Parsed : Userinfo → Type 0
Parsed user =
    (valid_userinfo (user_text user) ≡ true) × (user_of (split_2 b':' (user_text user)) ≡ some user)

escaped-user :
    (s : Bytes)
    → Each is_byte s
    → unescape encode_user_password (escape encode_user_password s) ≡ some s
escaped-user s h =
    unescape-escape encode_user_password s (λ e. absurd (ground arith)) (IsEscapable-user s h)

pub user_text-Parsed : (user : Userinfo) → IsUser user → Parsed user
user_text-Parsed user h = by_password user.username user.password h
  where
    by_password :
        (name : Bytes) (password : Option Bytes)
        → IsUser (record { username = name; password = password })
        → Parsed (record { username = name; password = password })
    by_password name none h = (
      valid_userinfo-Each (escape encode_user_password name) (escape-Each name h.0),
      rw
          (split_2-none b':' (escape encode_user_password name)
            (Each-Without user_byte b':' _ no_colon (escape-Each name h.0)))
          (unfold user_of in rw (escaped-user name h.0) refl),
    )
    by_password name (some word) h = (
      valid_userinfo-both _ _ (escape-Each name h.0) (escape-Each word h.1),
      rw
          (split_2-Without b':' (escape encode_user_password name)
            (escape encode_user_password word)
            (Each-Without user_byte b':' _ no_colon (escape-Each name h.0)))
          (unfold user_of in rw (escaped-user name h.0, escaped-user word h.1) refl),
    )
