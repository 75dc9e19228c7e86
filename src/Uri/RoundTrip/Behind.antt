-- ===== src/Uri/RoundTrip/Behind.antt =====
-- A SIP URI as it is printed, and the reading of what stands behind its scheme (sip/uri.go).
use mathlib.Core.List.{append_assoc, append-nil}
use tjsip.Base.{
  ℕ, Bool, true, false, not, ◌&&◌, ◌||◌, Option, none, some, [], ◌∷◌, ◌++◌, Bytes, ◌≡◌, ◌≢◌, refl,
  ap, ◌∙◌, arith, nat_beq, ltb,
}
use tjsip.Base.Classes.{bytes_eq, bytes_beq}
use tjsip.Base.Text.{contains_byte}
use tjsip.Base.Trimmed.{Without, split_2-Without, split_2-none}
use tjsip.Message.{Uri, Userinfo}
use tjsip.Uri.{NetUrls}
use tjsip.Uri.Escape.{encode_user_password, encode_path, escape}
use tjsip.Uri.Parse.{split, parse_authority, new_uri, starts_with}
use tjsip.Uri.Print.{print_uri, authority, escaped_path}
use tjsip.Uri.RoundTrip.{
  Each, Each-append, Each-weaken, Each-Without, lower, split_last-none, split_last-Without,
}
use tjsip.Uri.RoundTrip.Hosts.{name_byte, host_byte, IsPort, host_of, escape-host, parse_host_lem}
use tjsip.Uri.RoundTrip.Users.{is_byte, user_byte, user_text, IsUser, user_text-Parsed, escape-Each}

-- Text in front of `@`, where there is a user, and text behind `;`, where there are parameters
abbrev pub at_text : NetUrls → Option Userinfo → Bytes → Bytes
at_text net none rest = rest
at_text net (some user) rest = net.print_user user ++ b'@' ∷ rest

abbrev pub parameter_text : Bytes → Bytes
parameter_text [] = []
parameter_text (c ∷ s) = b';' ∷ c ∷ s

abbrev pub sip_uri : Bytes → Option Userinfo → Bytes → Bytes → Uri
sip_uri scheme user host parameter = record new_uri {
  scheme = scheme;
  user = user;
  host = host;
  raw_parameter = parameter;
}

escape-nil : escape encode_path [] ≡ []
unfolding escape
escape-nil = refl

module _ (net : NetUrls) where
  pub print_lem :
      (c : ℕ) (s : Bytes) (user : Option Userinfo) (d : ℕ) (t parameter : Bytes)
      → Each host_byte (d ∷ t)
      → print_uri net (sip_uri (c ∷ s) user (d ∷ t) parameter)
        ≡ (c ∷ s) ++ b':' ∷ at_text net user ((d ∷ t) ++ parameter_text parameter)
  unfolding print_uri authority escaped_path bytes_beq
  print_lem c s none d t [] h = simp (escape-host (d ∷ t) h, escape-nil, append_assoc, append-nil)
  print_lem c s (some user) d t [] h =
      simp (escape-host (d ∷ t) h, escape-nil, append_assoc, append-nil)
  print_lem c s none d t (e ∷ p) h =
      simp (escape-host (d ∷ t) h, escape-nil, append_assoc, append-nil)
  print_lem c s (some user) d t (e ∷ p) h =
      simp (escape-host (d ∷ t) h, escape-nil, append_assoc, append-nil)

-- The bytes that stand in no way of the reading of the whole text, and those of parameters
abbrev pub body_byte : ℕ → Bool
body_byte c = not (ltb c b' ' || nat_beq c 0x7f) && not (nat_beq c b'?') && not (nat_beq c b'#')

abbrev pub parameter_byte : ℕ → Bool
parameter_byte c = body_byte c && not (nat_beq c b'@')

-- net/url escapes a user as the copy in sip/uri.go does.
abbrev pub EscapesUsers : NetUrls → Type 0
EscapesUsers net = (user : Userinfo) → net.print_user user ≡ user_text user

abbrev pub HasUser : Option Userinfo → Type 0
HasUser none = Unit {0}
HasUser (some user) = IsUser user

pub lower_body : (c : ℕ) → lower c ≡ true → body_byte c ≡ true
unfolding lower
lower_body c h = ground arith

-- The bytes of a user, with the colon before a password
unfoldable text_byte : ℕ → Bool
text_byte c = user_byte c || nat_beq c b':'

text_body : (c : ℕ) → text_byte c ≡ true → body_byte c ≡ true
unfolding text_byte user_byte contains_byte
text_body c h = ground arith

text_no_slash : (c : ℕ) → text_byte c ≡ true → nat_beq c b'/' ≡ false
unfolding text_byte user_byte contains_byte
text_no_slash c h = ground arith

user_text_byte : (c : ℕ) → user_byte c ≡ true → text_byte c ≡ true
unfolding text_byte
user_text_byte c h = rw h refl

colon_text_byte : text_byte b':' ≡ true
unfolding text_byte user_byte contains_byte
colon_text_byte = refl

-- A text that is followed by `@` begins with no slash where it has none.
no_slash_before : (s rest : Bytes) → Without b'/' s → starts_with b'/' (s ++ b'@' ∷ rest) ≡ false
unfolding starts_with
no_slash_before [] rest h = refl
no_slash_before (c ∷ s) rest h = h.0

pub host_body : (c : ℕ) → host_byte c ≡ true → parameter_byte c ≡ true
unfolding host_byte name_byte contains_byte
host_body c h = ground arith

pub parameter_body : (c : ℕ) → parameter_byte c ≡ true → body_byte c ≡ true
parameter_body c h = ground arith

host_no_semicolon : (c : ℕ) → host_byte c ≡ true → nat_beq c b';' ≡ false
unfolding host_byte name_byte contains_byte
host_no_semicolon c h = ground arith

no_at : (c : ℕ) → parameter_byte c ≡ true → nat_beq c b'@' ≡ false
no_at c h = ground arith

pub no_question : (c : ℕ) → body_byte c ≡ true → nat_beq c b'?' ≡ false
no_question c h = ground arith

pub no_hash : (c : ℕ) → body_byte c ≡ true → nat_beq c b'#' ≡ false
no_hash c h = ground arith

-- The host and what follows it
pub rear_Each :
    (host p : Bytes)
    → Each host_byte host
    → Each parameter_byte p
    → Each parameter_byte (host ++ parameter_text p)
rear_Each host [] h k =
    Each-append parameter_byte host [] (Each-weaken host_byte parameter_byte host host_body h) tt
rear_Each host (c ∷ p) h k =
    Each-append parameter_byte host (b';' ∷ c ∷ p)
      (Each-weaken host_byte parameter_byte host host_body h) (refl, k)

pub split-none : (sep : ℕ) (s : Bytes) → Without sep s → split sep s ≡ (s, [])
unfolding split
split-none sep s h = rw (split_2-none sep s h) refl

pub split_rear :
    (host p : Bytes) → Each host_byte host → split b';' (host ++ parameter_text p) ≡ (host, p)
unfolding split
split_rear host [] h =
    ap (split b';') (append-nil host)
    ∙ split-none b';' host (Each-Without host_byte b';' host host_no_semicolon h)
split_rear host (c ∷ p) h =
    rw (split_2-Without b';' host (c ∷ p) (Each-Without host_byte b';' host host_no_semicolon h))
      refl

user_text-Each : (user : Userinfo) → IsUser user → Each text_byte (user_text user)
user_text-Each user h = by_password user.password h
  where
    escaped : (s : Bytes) → Each is_byte s → Each text_byte (escape encode_user_password s)
    escaped s k = Each-weaken user_byte text_byte _ user_text_byte (escape-Each s k)

    by_password :
        (password : Option Bytes)
        → IsUser (record { username = user.username; password = password })
        → Each text_byte (user_text (record { username = user.username; password = password }))
    by_password none h = escaped user.username h.0
    by_password (some word) h =
        Each-append text_byte (escape encode_user_password user.username) _
          (escaped user.username h.0) (colon_text_byte, escaped word h.1)

module _ (net : NetUrls) (escapes : EscapesUsers net) where
  pub body_Each :
      (user : Option Userinfo) (rest : Bytes)
      → HasUser user
      → Each body_byte rest
      → Each body_byte (at_text net user rest)
  body_Each none rest u h = h
  body_Each (some user) rest u h = rw (escapes user) (
      Each-append body_byte (user_text user) (b'@' ∷ rest)
        (Each-weaken text_byte body_byte _ text_body (user_text-Each user u)) (refl, h))

  pub no_slash :
      (user : Option Userinfo) (d : ℕ) (rest : Bytes)
      → HasUser user
      → host_byte d ≡ true
      → starts_with b'/' (at_text net user (d ∷ rest)) ≡ false
  unfolding starts_with
  no_slash none d rest u h = unfold host_byte name_byte contains_byte in ground arith
  no_slash (some user) d rest u h = rw (escapes user) (
      no_slash_before (user_text user) (d ∷ rest)
        (Each-Without text_byte b'/' _ text_no_slash (user_text-Each user u)))

  pub parse_authority_lem :
      (user : Option Userinfo) (name port p : Bytes)
      → HasUser user
      → name ≢ []
      → Each name_byte name
      → IsPort port
      → Each parameter_byte p
      → parse_authority (at_text net user ((name ++ port) ++ parameter_text p))
        ≡ some (user, name ++ port, p)
  unfolding parse_authority
  parse_authority_lem none name port p u n h q k =
      rw
        (
          split_last-none b'@' ((name ++ port) ++ parameter_text p) (
              Each-Without parameter_byte b'@' _ no_at
                (rear_Each (name ++ port) p (host_of name port h q) k)),
          split_rear (name ++ port) p (host_of name port h q),
          parse_host_lem name port n h q,
          parse_authority,
        )
        refl
  parse_authority_lem (some user) name port p u n h q k =
      rw
        (
          escapes user,
          split_last-Without b'@' (user_text user) ((name ++ port) ++ parameter_text p) (
              Each-Without parameter_byte b'@' _ no_at
                (rear_Each (name ++ port) p (host_of name port h q) k)),
          split_rear (name ++ port) p (host_of name port h q),
          parse_host_lem name port n h q,
          (user_text-Parsed user u).0,
          (user_text-Parsed user u).1,
          parse_authority,
        )
        refl
