-- ===== src/Base/Text.antt =====
-- The functions of Go's `strings` and `strconv` packages that the modules call, on bytes.
use mathlib.Core.List.{reverse}
use Prim.Native.Nat.{ℕ, zero, suc, ◌+◌, ◌-◌, ◌*◌, ◌/◌, ◌%◌}
use mathlib.Core.Bool.{Bool, true, false, ◌&&◌, ◌||◌}
use mathlib.Core.List.{[], ◌∷◌}
use mathlib.Core.Option.{Option, none, some}
use tjsip.Base.Tests.{nat_beq, ltb, leb, if◌then◌else◌}
use tjsip.Base.Lists.{Bytes}
use tjsip.Base.Int.{ℤ, pos, negsuc, max_int64}

unfoldable pub contains_byte : Bytes → ℕ → Bool
contains_byte [] c = false
contains_byte (x ∷ xs) c = nat_beq x c || contains_byte xs c

-- strings.TrimLeft
unfoldable pub trim_left : Bytes → Bytes → Bytes
trim_left cutset [] = []
trim_left cutset (c ∷ s) =
    let rest = trim_left cutset s in if contains_byte cutset c then rest else c ∷ s

-- strings.Trim
unfoldable pub trim : Bytes → Bytes → Bytes
unfolding trim_left contains_byte
trim cutset s = reverse (trim_left cutset (reverse (trim_left cutset s)))

-- " \t\r\n"
abbrev pub blanks : Bytes
blanks = b' ' ∷ b'\t' ∷ b'\r' ∷ b'\n' ∷ []

-- strings.SplitN(s, sep, 2) for a separator of one byte: the part before the first separator, and
-- the part behind it, where there is one.
unfoldable pub split_2 : ℕ → Bytes → Bytes × Option Bytes
split_2 sep [] = ([], none)
split_2 sep (c ∷ s) =
    let (front, rear) = split_2 sep s in if nat_beq c sep then ([], some s) else (c ∷ front, rear)

abbrev to_lower_byte : ℕ → ℕ
to_lower_byte c = if leb b'A' c && leb c b'Z' then c + 32 else c

abbrev pub to_upper_byte : ℕ → ℕ
to_upper_byte c = if leb b'a' c && leb c b'z' then c - 32 else c

-- strings.ToLower, of ASCII text
unfoldable pub to_lower : Bytes → Bytes
to_lower [] = []
to_lower (c ∷ s) = to_lower_byte c ∷ to_lower s

-- strings.ToUpper, of ASCII text
unfoldable pub to_upper : Bytes → Bytes
to_upper [] = []
to_upper (c ∷ s) = to_upper_byte c ∷ to_upper s

abbrev pub is_digit : ℕ → Bool
is_digit c = leb b'0' c && leb c b'9'

-- The decimal digits of n; n itself is fuel enough, since each round divides by ten.
unfoldable pub decimal_from : ℕ → ℕ → Bytes → Bytes
decimal_from zero n out = (b'0' + n % 10) ∷ out
decimal_from (suc fuel) n out =
    let more = decimal_from fuel (n / 10) ((b'0' + n % 10) ∷ out) in
    if ltb n 10 then (b'0' + n % 10) ∷ out else more

-- strconv.FormatInt(x, 10)
unfoldable pub format_int : ℤ → Bytes
unfolding decimal_from
format_int (pos n) = decimal_from n n []
format_int (negsuc n) = b'-' ∷ decimal_from (n + 1) (n + 1) []

unfoldable pub number_from : ℕ → Bytes → Option ℕ
number_from acc [] = some acc
number_from acc (c ∷ s) = if is_digit c then number_from (acc * 10 + (c - b'0')) s else none

unfoldable pub unsigned : Bytes → Option ℕ
unfolding number_from
unsigned [] = none
unsigned s = number_from 0 s

unfoldable pub positive : Option ℕ → Option ℤ
positive none = none
positive (some n) = if leb n max_int64 then some (pos n) else none

negative : Option ℕ → Option ℤ
negative none = none
negative (some zero) = some (pos 0)
negative (some (suc n)) = if leb n max_int64 then some (negsuc n) else none

-- strconv.ParseInt(s, 10, 64), and strconv.Atoi; `none` is an error.
unfoldable pub parse_int : Bytes → Option ℤ
unfolding number_from unsigned positive negative
parse_int [] = none
parse_int (c ∷ s) =
    if nat_beq c b'-'
    then negative (unsigned s)
    else if nat_beq c b'+'
    then positive (unsigned s)
    else positive (unsigned (c ∷ s))

-- The bytes of a token, as the table of sip/reader.go has them.
abbrev pub is_token_byte : ℕ → Bool
is_token_byte c =
    is_digit c
    || (leb b'a' c && leb c b'z')
    || (leb b'A' c && leb c b'Z')
    || contains_byte
        (b'!' ∷ b'#' ∷ b'$' ∷ b'%' ∷ b'&' ∷ b'\'' ∷ b'*' ∷ b'+' ∷ b'-' ∷ b'.' ∷ b'^' ∷ b'_' ∷ b'`'
          ∷ b'|' ∷ b'~' ∷ [])
        c

unfoldable pub is_token : Bytes → Bool
unfolding contains_byte
is_token [] = true
is_token (c ∷ s) = is_token_byte c && is_token s

unfoldable pub capitalise : Bool → Bytes → Bytes
capitalise upper [] = []
capitalise upper (c ∷ s) =
    (if upper then to_upper_byte c else to_lower_byte c) ∷ capitalise (nat_beq c b'-') s

-- textproto.CanonicalMIMEHeaderKey: a key that is no token stays as it is.
unfoldable pub canonical : Bytes → Bytes
unfolding capitalise is_token
canonical s = if is_token s then capitalise true s else s
