-- ===== src/Authentication.antt =====
-- Digest authentication (proxy_auth.go). Texts are ASCII, so that a rune is a byte.
pub mod Accepts
pub mod Subscribers
use tjsip.Base.{
  ℕ, Bool, true, false, not, ◌&&◌, ◌||◌, Option, none, some, List, [], ◌∷◌, ◌++◌, Bytes, codes,
  nat_beq, if◌then◌else◌, is_some,
}
use tjsip.Base.Classes.{◌==◌, bytes_eq}
use tjsip.Base.Assoc.{Assoc, lookup, insert}
use tjsip.Base.Text.{trim, split_2, to_lower, blanks}
use tjsip.Base.Outcome.{Outcome, ok, err, panic, ◌>>=◌}
use tjsip.Message.{Message}
use tjsip.Message.Headers

abbrev pub Parameters : Type 0
Parameters = Assoc Bytes (List Bytes)

-- ", \t\r\n"
abbrev separators : Bytes
separators = b',' ∷ b' ' ∷ b'\t' ∷ b'\r' ∷ b'\n' ∷ []

abbrev pub all_of : Option (List Bytes) → List Bytes
all_of none = []
all_of (some vs) = vs

abbrev is_nil : Bytes → Bool
is_nil [] = true
is_nil (_ ∷ _) = false

-- One parameter; `kv[1]` panics where there is no `=`.
add_parameter : Bytes × Option Bytes → Parameters → Outcome Parameters
add_parameter (key, none) result = panic
add_parameter (key, some value) result =
    let k = to_lower key in
    ok (insert k (all_of (lookup k result) ++ trim (b'"' ∷ []) value ∷ []) result)

-- The loop of ParseAuthorizationHeadlerDigest over `rear`: `part` is rear[cut:i], and the rest
-- starts at i. The next part starts with the byte at i.
parse_rear : Bytes → Bool → Bytes → Outcome Parameters → Outcome Parameters
unfolding add_parameter
parse_rear part quoted [] result = result
parse_rear part quoted (c ∷ s) result =
    let last = is_nil s in
    let ends = last || nat_beq c b',' in
    let goes_on = quoted && not (last && nat_beq c b'"') in
    let turns = not ends && nat_beq c b'"' in
    let taken = ends && not goes_on in
    parse_rear (if taken then c ∷ [] else part ++ c ∷ []) (if turns then not quoted else quoted) s
      (if taken then result >>= add_parameter (split_2 b'=' (trim separators part)) else result)

parse_parts : Bytes × Option Bytes → Outcome Parameters
unfolding parse_rear
parse_parts (front, none) = panic
parse_parts (front, some rear) =
    if to_lower front == codes "digest" then parse_rear [] false rear (ok []) else ok []

-- ParseAuthorizationHeadlerDigest; the nil map reads as the empty one.
unfoldable pub parse_digest : Bytes → Outcome Parameters
unfolding parse_parts
parse_digest s = parse_parts (split_2 b' ' (trim separators s))

pub record Credentials : Type 0 where
  pub username : Bytes
  pub realm : Bytes
  pub nonce : Bytes
  pub digest_uri : Bytes
  pub response : Bytes

-- The only value of a parameter.
abbrev pub single : Option (List Bytes) → Option Bytes
single (some (v ∷ [])) = some v
single _ = none

credentials_from :
    Option Bytes → Option Bytes → Option Bytes → Option Bytes → Option Bytes → Option Credentials
credentials_from (some u) (some r) (some n) (some d) (some p) =
    some (record { username = u; realm = r; nonce = n; digest_uri = d; response = p })
credentials_from _ _ _ _ _ = none

unfoldable pub credentials : Parameters → Option Credentials
unfolding credentials_from
credentials params =
    credentials_from (single (lookup (codes "username") params))
      (single (lookup (codes "realm") params)) (single (lookup (codes "nonce") params))
      (single (lookup (codes "digest-uri") params)) (single (lookup (codes "response") params))

abbrev pub status_bad_request : ℕ
status_bad_request = 400

abbrev pub status_unauthorized : ℕ
status_unauthorized = 401

abbrev pub status_proxy_authentication_required : ℕ
status_proxy_authentication_required = 407

abbrev colon : Bytes → Bytes → Bytes
colon a b = a ++ b':' ∷ b

-- `hash` is the hexadecimal text of the MD5 sum.
module _ (hash : Bytes → Bytes) where
  -- The response that `auth` expects.
  abbrev pub expected : Bytes → Bytes → Bytes → Bytes → Bytes
  expected method nonce digest_uri a1 =
      hash (colon (colon a1 nonce) (hash (colon method digest_uri)))

  unfoldable pub auth : Bytes → Bytes → Bytes → Bytes → Bytes → Bool × ℕ
  auth method nonce digest_uri response a1 =
      if response == expected method nonce digest_uri a1
      then (true, 0)
      else (false, status_unauthorized)

  -- `lookup_a1` is the function that looks up the hash of a user in a realm.
  module _ (lookup_a1 : Bytes → Bytes → Bytes) (header : Bytes) where
    abbrev for_header : ℕ → ℕ
    for_header status =
        if nat_beq status status_unauthorized && header == codes "Proxy-Authorization"
        then status_proxy_authentication_required
        else status

    check : Message → Option Credentials → Bool × ℕ
    unfolding auth
    check msg none = (false, status_bad_request)
    check msg (some c) =
        if msg.method == []
        then (false, status_bad_request)
        else let (accepted, status) =
            auth msg.method c.nonce c.digest_uri c.response (lookup_a1 c.username c.realm) in
          (accepted, for_header status)

    check_parameters : Message → Outcome Parameters → Outcome (Bool × ℕ)
    unfolding check credentials
    check_parameters msg panic = panic
    check_parameters msg (err e) = err e
    check_parameters msg (ok params) = ok (check msg (credentials params))

    unfoldable pub auth_message : Message → Outcome (Bool × ℕ)
    unfolding check_parameters parse_digest
    auth_message msg =
        let authorization = Headers.get msg.header header in
        if authorization == []
        then ok (false, for_header status_unauthorized)
        else check_parameters msg (parse_digest authorization)
