-- ===== src/Uri/Parse.antt =====
-- The reading of a URI (sip/uri.go): getscheme, parse, parseAuthority, parseHost, setFragment and Parse.
use tjsip.Base.{
  ℕ, Bool, true, false, not, ◌&&◌, ◌||◌, Option, none, some, [], ◌∷◌, ◌++◌, Bytes, codes, length,
  take, ltb, nat_beq, if◌then◌else◌,
}
use tjsip.Base.Classes.{◌==◌, bytes_eq}
use tjsip.Base.Text.{contains_byte, is_digit, split_2, to_lower}
use tjsip.Message.{Uri, Userinfo}
use tjsip.Uri.{NetUrl, NetUrls}
use tjsip.Uri.Escape.{
  encode_host, encode_zone, encode_user_password, encode_fragment, between, is_alphanum, unescape,
  escape,
}

infixl 5 ◌>>=◌
abbrev pub ◌>>=◌ : {A B : Type 0} → Option A → (A → Option B) → Option B
none >>= f = none
some a >>= f = f a

-- What the loop of getscheme comes to: no scheme, a colon at the very start, or a scheme and the rest.
pub data Scheme : Type 0 where
  absent missing : Scheme
  found : Bytes → Bytes → Scheme

longer : ℕ → Scheme → Scheme
longer c (found front rest) = found (c ∷ front) rest
longer c other = other

-- `first` says whether the loop stands at the first byte.
unfoldable pub scheme_of : Bool → Bytes → Scheme
unfolding longer
scheme_of first [] = absent
scheme_of first (c ∷ s) =
    let rest = scheme_of false s in
    if between b'a' b'z' c || between b'A' b'Z' c
    then longer c rest
    else if is_digit c || nat_beq c b'+' || nat_beq c b'-' || nat_beq c b'.'
    then (if first then absent else longer c rest)
    else if nat_beq c b':'
    then (if first then missing else found [] s)
    else absent

-- `none` is an error.
unfoldable pub getscheme : Bytes → Option (Bytes × Bytes)
unfolding scheme_of
getscheme rawuri = elim (scheme_of true rawuri) [
  | absent ↦ some ([], rawuri)
  | missing ↦ none
  | found scheme rest ↦ some (scheme, rest)
]

-- split, with cutc
cut : Bytes × Option Bytes → Bytes × Bytes
cut (front, none) = (front, [])
cut (front, some rear) = (front, rear)

unfoldable pub split : ℕ → Bytes → Bytes × Bytes
unfolding cut
split sep s = cut (split_2 sep s)

-- The texts before and behind the last `sep` (strings.LastIndex)
unfoldable pub split_last : ℕ → Bytes → Option (Bytes × Bytes)
split_last sep [] = none
split_last sep (c ∷ s) = elim (split_last sep s) [
  | none ↦ if nat_beq c sep then some ([], s) else none
  | some (front, rear) ↦ some (c ∷ front, rear)
]

unfoldable pub all_digits : Bytes → Bool
all_digits [] = true
all_digits (c ∷ s) = is_digit c && all_digits s

unfoldable pub valid_optional_port : Bytes → Bool
unfolding all_digits
valid_optional_port [] = true
valid_optional_port (c ∷ s) = nat_beq c b':' && all_digits s

-- The texts before the first `text`, and from it on (strings.Index)
cut_before : Bytes → Bytes → Option (Bytes × Bytes)
cut_before text [] = none
cut_before text (c ∷ s) =
    let rest = cut_before text s in
    if take (length text) (c ∷ s) == text
    then some ([], c ∷ s)
    else elim rest [ none ↦ none | some (front, rear) ↦ some (c ∷ front, rear) ]

-- An IP literal: the text up to the last `]`, and the port behind it
bracketed : Bytes → Bytes → Option Bytes
unfolding cut_before valid_optional_port
bracketed front port =
    if not (valid_optional_port port) then none else elim (cut_before (codes "%25") front) [
      | none ↦ unescape encode_host (front ++ b']' ∷ port)
      | some (host, zone) ↦ do
        host1 ← unescape encode_host host
        host2 ← unescape encode_zone zone
        host3 ← unescape encode_host (b']' ∷ port)
        some (host1 ++ host2 ++ host3)
    ]

unfoldable pub starts_with : ℕ → Bytes → Bool
starts_with c [] = false
starts_with c (d ∷ s) = nat_beq d c

unfoldable pub parse_host : Bytes → Option Bytes
unfolding bracketed starts_with valid_optional_port split_last
parse_host host =
    if starts_with b'[' host
    then elim (split_last b']' host) [ none ↦ none | some (front, port) ↦ bracketed front port ]
    else elim (split_last b':' host) [
      | none ↦ unescape encode_host host
      | some (front, port) ↦
          if valid_optional_port (b':' ∷ port) then unescape encode_host host else none
    ]

unfoldable pub valid_userinfo : Bytes → Bool
valid_userinfo [] = true
valid_userinfo (c ∷ s) =
    (is_alphanum c || contains_byte (codes "-._:~!$&'()*+,;=%@") c) && valid_userinfo s

-- The user and the password of a valid text
unfoldable pub user_of : Bytes × Option Bytes → Option Userinfo
user_of (name, none) = do
  username ← unescape encode_user_password name
  some (record { username = username; password = none })
user_of (name, some word) = do
  username ← unescape encode_user_password name
  password ← unescape encode_user_password word
  some (record { username = username; password = some password })

unfoldable pub parse_authority : Bytes → Option (Option Userinfo × Bytes × Bytes)
unfolding user_of split_last split
parse_authority authority = elim (split_last b'@' authority) [
  | none ↦ do
    host ← parse_host (split b';' authority).0
    some (none, host, (split b';' authority).1)
  | some (userinfo, rear) ↦ do
    host ← parse_host (split b';' rear).0
    user ← if valid_userinfo userinfo then user_of (split_2 b':' userinfo) else none
    some (some user, host, (split b';' rear).1)
]

unfoldable pub contains_ctl : Bytes → Bool
contains_ctl [] = false
contains_ctl (c ∷ s) = ltb c b' ' || nat_beq c 0x7f || contains_ctl s

abbrev pub new_uri : Uri
new_uri = record {
  scheme = [];
  opaque = [];
  user = none;
  host = [];
  path = [];
  raw_path = [];
  force_parameter = false;
  raw_parameter = [];
  force_query = false;
  raw_query = [];
  absolute = false;
  fragment = [];
  raw_fragment = [];
}

-- A URL with a path, as net/url reads it
from_url : NetUrl → Uri
unfolding split
from_url url = record new_uri {
  scheme = url.scheme;
  opaque = url.opaque;
  user = url.user;
  host = url.host;
  path = (split b';' url.path).0;
  raw_parameter = (split b';' url.path).1;
  raw_path = (split b';' url.raw_path).0;
  force_query = url.force_query;
  raw_query = url.raw_query;
  absolute = true;
}

-- Whether a query is forced, and the query: a text whose only `?` stands at its end forces one.
abbrev query_of : Option Bytes → Bool × Bytes
query_of none = (false, [])
query_of (some []) = (true, [])
query_of (some (c ∷ s)) = (false, c ∷ s)

module _ (net : NetUrls) where
  -- Behind the scheme
  unfoldable pub parse_below : Bytes → Bytes → Bytes × Option Bytes → Option Uri
  unfolding from_url starts_with
  parse_below rawuri scheme (rest, query) =
      if starts_with b'/' rest
      then elim (net.parse rawuri) [ none ↦ none | some url ↦ some (from_url url) ]
      else do
        (user, host, parameter) ← parse_authority rest
        some (record new_uri {
          scheme = to_lower scheme;
          user = user;
          host = host;
          raw_parameter = parameter;
          force_query = (query_of query).0;
          raw_query = (query_of query).1;
        })

  unfoldable pub parse : Bytes → Bool → Option Uri
  unfolding contains_ctl
  parse rawuri via_request =
      if contains_ctl rawuri
      then none
      else if rawuri == [] && via_request
      then none
      else if rawuri == codes "*"
      then some (record new_uri { path = codes "*" })
      else do (scheme, rest) ← getscheme rawuri; parse_below rawuri scheme (split_2 b'?' rest)

  set_fragment : Bytes → Uri → Option Uri
  set_fragment frag uri = do
    fragment ← unescape encode_fragment frag
    some (record uri {
      fragment = fragment;
      raw_fragment = if frag == escape encode_fragment fragment then [] else frag;
    })

  -- Parse
  unfoldable pub parse_uri : Bytes → Option Uri
  unfolding set_fragment split
  parse_uri rawuri = do
    uri ← parse (split b'#' rawuri).0 false
    if (split b'#' rawuri).1 == [] then some uri else set_fragment (split b'#' rawuri).1 uri

  -- ParseRequestURI
  unfoldable pub parse_request_uri : Bytes → Option Uri
  parse_request_uri rawuri = parse rawuri true
