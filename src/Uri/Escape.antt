-- ===== src/Uri/Escape.antt =====
-- The escaping of sip/uri.go: ishex, unhex, shouldEscape, unescape and escape.
pub mod Inverse
use tjsip.Base.{
  ℕ, ◌+◌, ◌-◌, ◌*◌, ◌/◌, ◌%◌, Bool, true, false, not, ◌&&◌, ◌||◌, Option, none, some, List, [], ◌∷◌,
  Bytes, codes, leb, ltb, nat_beq, if◌then◌else◌,
}
use tjsip.Base.Text.{contains_byte, is_digit}

-- The constants of type `encoding`
pub data Encoding : Type 0 where
  encode_path encode_path_segment encode_host encode_zone : Encoding
  encode_user_password encode_query_component encode_fragment : Encoding

abbrev pub between : ℕ → ℕ → ℕ → Bool
between lo hi c = leb lo c && leb c hi

abbrev pub is_alphanum : ℕ → Bool
is_alphanum c = between b'a' b'z' c || between b'A' b'Z' c || is_digit c

abbrev pub ishex : ℕ → Bool
ishex c = is_digit c || between b'a' b'f' c || between b'A' b'F' c

abbrev pub unhex : ℕ → ℕ
unhex c =
    if is_digit c
    then c - b'0'
    else if between b'a' b'f' c
    then c - b'a' + 10
    else if between b'A' b'F' c
    then c - b'A' + 10
    else 0

-- "0123456789ABCDEF"[n]
abbrev pub upperhex : ℕ → ℕ
upperhex n = if ltb n 10 then b'0' + n else b'A' + (n - 10)

-- The bytes that a host or zone keeps as they are.
abbrev host_bytes : Bytes
host_bytes = codes "!$&'()*+,;=:[]<>\""

abbrev reserved : Bytes
reserved = codes "$&+,/:;=?@"

-- Of the reserved bytes, those that a mode escapes; the host modes say nothing of `/`, `?` and `@`,
-- which are escaped with all other bytes.
abbrev escapes_reserved : Encoding → ℕ → Bool
escapes_reserved encode_path c = nat_beq c b'?'
escapes_reserved encode_path_segment c = contains_byte (codes "/;,?") c
escapes_reserved encode_user_password c = contains_byte (codes "@/?:") c
escapes_reserved encode_query_component c = true
escapes_reserved encode_fragment c = false
escapes_reserved encode_host c = true
escapes_reserved encode_zone c = true

abbrev keeps_more : Encoding → ℕ → Bool
keeps_more encode_host c = contains_byte host_bytes c
keeps_more encode_zone c = contains_byte host_bytes c
keeps_more encode_fragment c = contains_byte (codes "!()*") c
keeps_more _ c = false

-- shouldEscape. The bytes `!()*` of a fragment are none of those tested before them.
unfoldable pub should_escape : Encoding → ℕ → Bool
unfolding contains_byte
should_escape mode c =
    if is_alphanum c || keeps_more mode c || contains_byte (codes "-_.~") c
    then false
    else if contains_byte reserved c
    then escapes_reserved mode c
    else true

-- Where a loop over an escaped text stands: between two bytes, behind `%`, or behind its first digit.
pub data Place : Type 0 where
  at_byte : Place
  behind_percent : Place
  behind_digit : ℕ → Place

abbrev pub after : ℕ → Place
after c = if nat_beq c b'%' then behind_percent else at_byte

-- What `%hl` may stand for, by the mode: in a host a byte beyond ASCII or `%25`, in a zone also a byte
-- that a host may hold, or a space.
unfoldable pub pair_allowed : Encoding → ℕ → ℕ → Bool
unfolding should_escape
pair_allowed encode_host h l = leb 8 (unhex h) || (nat_beq h b'2' && nat_beq l b'5')
pair_allowed encode_zone h l =
    let v = unhex h * 16 + unhex l in
    (nat_beq h b'2' && nat_beq l b'5') || nat_beq v b' ' || not (should_escape encode_host v)
pair_allowed _ h l = true

-- A byte that stands for itself
unfoldable pub byte_allowed : Encoding → ℕ → Bool
byte_allowed encode_host c = not (ltb c 0x80 && should_escape encode_host c)
byte_allowed encode_zone c = not (ltb c 0x80 && should_escape encode_zone c)
byte_allowed _ c = true

-- The first loop of unescape: whether the text is well-formed.
unfoldable pub well_formed : Encoding → Place → Bytes → Bool
unfolding pair_allowed byte_allowed
well_formed mode at_byte [] = true
well_formed mode behind_percent [] = false
well_formed mode (behind_digit h) [] = false
well_formed mode at_byte (c ∷ s) =
    let rest = well_formed mode (after c) s in (nat_beq c b'%' || byte_allowed mode c) && rest
well_formed mode behind_percent (h ∷ s) = ishex h && well_formed mode (behind_digit h) s
well_formed mode (behind_digit h) (l ∷ s) =
    ishex l && pair_allowed mode h l && well_formed mode at_byte s

abbrev pub plus_stands_for : Encoding → ℕ
plus_stands_for encode_query_component = b' '
plus_stands_for _ = b'+'

-- Its second loop, which leaves a text without `%` as it is, and without `+` in a query.
unfoldable pub decoded : Encoding → Place → Bytes → Bytes
decoded mode place [] = []
decoded mode at_byte (c ∷ s) =
    let rest = decoded mode (after c) s in
    if nat_beq c b'%' then rest else (if nat_beq c b'+' then plus_stands_for mode else c) ∷ rest
decoded mode behind_percent (h ∷ s) = decoded mode (behind_digit h) s
decoded mode (behind_digit h) (l ∷ s) = (unhex h * 16 + unhex l) ∷ decoded mode at_byte s

-- `none` is an error.
unfoldable pub unescape : Encoding → Bytes → Option Bytes
unfolding well_formed decoded
unescape mode s = if well_formed mode at_byte s then some (decoded mode at_byte s) else none

abbrev pub is_query : Encoding → Bool
is_query encode_query_component = true
is_query _ = false

-- escape. The text is counted first, and left as it is where nothing is to be escaped.
unfoldable pub escape : Encoding → Bytes → Bytes
unfolding should_escape
escape mode [] = []
escape mode (c ∷ s) =
    let rest = escape mode s in
    if nat_beq c b' ' && is_query mode
    then b'+' ∷ rest
    else if should_escape mode c
    then b'%' ∷ upperhex (c / 16) ∷ upperhex (c % 16) ∷ rest
    else c ∷ rest
