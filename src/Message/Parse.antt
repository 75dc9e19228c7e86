-- ===== src/Message/Parse.antt =====
-- The reading of the headers of sip/header.go. A nil pointer that a function returns is `none`.
pub mod Fuel
pub mod Identifiers
pub mod Lists
pub mod Vias
use tjsip.Base.{
  ℕ, zero, suc, ◌+◌, ◌-◌, Bool, true, false, not, ◌&&◌, ◌||◌, Option, none, some, List, [], ◌∷◌,
  ◌++◌, Bytes, codes, length, take, drop, nat_beq, is_some, if◌then◌else◌,
}
use tjsip.Base.Classes.{◌==◌, bytes_eq}
use tjsip.Base.Text.{trim, trim_left, blanks, split_2, to_lower}
use tjsip.Base.Outcome.{Outcome, ok, err, panic, ◌>>=◌}
use tjsip.Message.{Uri, NameAddr, To, CallId, Contact, Message}
use tjsip.Message.Via
use tjsip.Message.Via.{Via, ViaHeaders}
use tjsip.Message.Generate.{new_via_header}
use tjsip.Message.Urls.{Urls}

-- ParseCallID, of the text split at its first `@`
call_id_of : Bytes × Option Bytes → CallId
call_id_of (identifier, none) = record { identifier = trim blanks identifier; host = [] }
call_id_of (identifier, some host) = record {
  identifier = trim blanks identifier;
  host = trim blanks host;
}

unfoldable pub parse_call_id : Bytes → CallId
unfolding call_id_of
parse_call_id s = call_id_of (split_2 b'@' s)

-- The two loops of ParseVias: the bytes before the one at which the loop breaks, and the rest.
until_separator : Bytes → Bytes × Bytes
until_separator [] = ([], [])
until_separator (c ∷ s) =
    let (front, rear) = until_separator s in
    if nat_beq c b';' || nat_beq c b',' then ([], c ∷ s) else (c ∷ front, rear)

until_comma : Bool → Bytes → Bytes × Bytes
until_comma in_quotes [] = ([], [])
until_comma in_quotes (c ∷ s) =
    let quotes = if nat_beq c b'"' then not in_quotes else in_quotes in
    let (front, rear) = until_comma quotes s in
    if nat_beq c b',' && not in_quotes then ([], c ∷ s) else (c ∷ front, rear)

-- The first value of a text that is trimmed and split at its first space, and the values behind it.
-- `sSp[1]` panics where there is no space.
pub first_via : Bytes × Option Bytes → Outcome (Via × Bytes)
unfolding until_separator until_comma new_via_header
first_via (proto, none) = panic
first_via (proto, some rest) =
    let (sent_by, s) = until_separator (trim blanks rest) in
    let (params, trail) = until_comma false s in
    ok (
      new_via_header (trim blanks proto) (trim blanks sent_by) (trim (blanks ++ b';' ∷ []) params),
      trim (blanks ++ b',' ∷ []) trail,
    )

-- ParseVias. The text is fuel enough, since each value takes a space of it. A nil `v` is not
-- passed by any caller.
parse_vias_from : ℕ → Bytes → ViaHeaders → Outcome ViaHeaders
unfolding first_via
parse_vias_from fuel [] v = ok v
parse_vias_from zero (c ∷ s) v = panic
parse_vias_from (suc fuel) (c ∷ s) v = do
  (via, trail) ← first_via (split_2 b' ' (trim blanks (c ∷ s)))
  parse_vias_from fuel trail (Via.append v via).0

unfoldable pub parse_vias : Bytes → ViaHeaders → Outcome ViaHeaders
unfolding parse_vias_from
parse_vias s v = parse_vias_from (length s) s v

-- What the loop of ParseNameAddr keeps: the index of `<` where it was seen, that of `>` behind it, and
-- whether the loop stands inside quotes.
pub record Scan : Type 0 where
  pub open_at : Option ℕ
  pub close_at : Option ℕ
  pub in_quotes : Bool

-- One round of the loop, at the byte `c` of index `idx` behind the byte `pc`. Once the closing bracket is
-- found the loop is left.
advance : ℕ → ℕ → ℕ → Scan → Scan
advance c idx pc at =
    if is_some at.close_at
    then at
    else if nat_beq c b'<' && not at.in_quotes && not (is_some at.open_at)
    then record at { open_at = some idx }
    else if nat_beq c b'>' && not at.in_quotes && is_some at.open_at
    then record at { close_at = some idx }
    else if nat_beq c b'"' && not (nat_beq pc b'\\')
    then record at { in_quotes = not at.in_quotes }
    else at

scan : Bytes → ℕ → ℕ → Scan → Scan
unfolding advance
scan [] idx pc at = at
scan (c ∷ s) idx pc at = scan s (idx + 1) c (advance c idx pc at)

-- The rest of ParseNameAddr. `s[ds:de]` is the text before the bracket, where it is not empty.
display_of : Bytes → Option ℕ → Bytes
display_of s none = []
display_of s (some at) = trim (b' ' ∷ b'"' ∷ []) (take at s)

-- `s[us:ue]`
uri_text : Bytes → Option ℕ → ℕ → Bytes
uri_text s none close = trim (codes " <>") (take close s)
uri_text s (some at) close = trim (codes " <>") (take (close - (at + 1)) (drop (at + 1) s))

-- The values behind the first of a list, and its parameters and these values.
unfoldable pub rest_of : Option Bytes → Bytes
rest_of none = []
rest_of (some r) = trim (b' ' ∷ b'\t' ∷ []) r

abbrev pub value_rest : Bytes → Bytes × Bytes
value_rest s =
    let (params, rest) = split_2 b',' s in (trim (b' ' ∷ b'\t' ∷ b';' ∷ []) params, rest_of rest)

module _ (urls : Urls) where
  -- NewNameAddrUriString
  unfoldable pub new_name_addr : Bytes → Bytes → Option NameAddr
  new_name_addr display uri = elim (urls.parse (trim blanks uri)) [
    | none ↦ none
    | some u ↦ some (record { display_name = trim blanks display; uri = some u })
  ]

  -- The address of a text whose URI ends at `close`, and what trails it.
  name_addr_at : Bytes → Option ℕ → ℕ → Option NameAddr × Bytes
  unfolding new_name_addr display_of uri_text
  name_addr_at s opened close = (
    new_name_addr (display_of s opened) (uri_text s opened close),
    trim_left (codes " <>") (drop close s),
  )

  name_addr_of : Bytes → Scan → Option NameAddr × Bytes
  unfolding name_addr_at
  name_addr_of s at = elim at.close_at [
    | some close ↦ name_addr_at s at.open_at close
    | none ↦
        if at.in_quotes || is_some at.open_at then (none, []) else name_addr_at s none (length s)
  ]

  -- ParseNameAddr
  unfoldable pub parse_name_addr : Bytes → Option NameAddr × Bytes
  unfolding name_addr_of scan
  parse_name_addr s =
      name_addr_of s (scan s 0 0 (record { open_at = none; close_at = none; in_quotes = false }))

  -- ParseFrom, which ParseTo calls
  unfoldable pub parse_from : Bytes → To
  parse_from s =
      let (addr, param) = parse_name_addr s in
      record {
        addr = addr;
        raw_parameter = trim (blanks ++ b';' ∷ []) (trim (b' ' ∷ b';' ∷ []) param);
      }

  -- newContactHeader for a contact that is no star. `nameAddr.Uri.Path` is read where the address
  -- is not nil; its URI is not nil where it comes from ParseNameAddr.
  unfoldable pub new_contact_header : Option NameAddr → Bytes → Outcome Contact
  new_contact_header none param =
      ok (record { star = false; addr = none; raw_parameter = trim (blanks ++ b';' ∷ []) param })
  new_contact_header (some a) param = elim a.uri [
    | none ↦ panic
    | some uri ↦
        if uri.path == codes "*"
        then ok (record { star = true; addr = none; raw_parameter = [] })
        else ok (record {
          star = false;
          addr = some a;
          raw_parameter = trim (blanks ++ b';' ∷ []) param;
        })
  ]

  -- ParseContacts. The text is fuel enough, since a value that is not the last one is shorter.
  parse_contacts_from : ℕ → Bytes → List Contact → Outcome (List Contact)
  unfolding parse_name_addr new_contact_header rest_of
  parse_contacts_from fuel [] cons = ok cons
  parse_contacts_from zero (c ∷ s) cons = panic
  parse_contacts_from (suc fuel) (c ∷ s) cons = do
    let (addr, trail) = parse_name_addr (c ∷ s)
    let (param, rest) = value_rest trail
    contact ← new_contact_header addr param
    parse_contacts_from fuel rest (cons ++ contact ∷ [])

  unfoldable pub parse_contacts : Bytes → List Contact → Outcome (List Contact)
  unfolding parse_contacts_from
  parse_contacts s cons = parse_contacts_from (length s) s cons

  -- ParseNameAddrFormats, whose values have the fields of a To.
  parse_name_addr_formats_from : ℕ → Bytes → List To → List To
  unfolding parse_name_addr rest_of
  parse_name_addr_formats_from fuel [] cons = cons
  parse_name_addr_formats_from zero (c ∷ s) cons = cons
  parse_name_addr_formats_from (suc fuel) (c ∷ s) cons =
      let (addr, trail) = parse_name_addr (c ∷ s) in
      let (param, rest) = value_rest trail in
      parse_name_addr_formats_from fuel rest
        (cons ++ record { addr = addr; raw_parameter = trim (blanks ++ b';' ∷ []) param } ∷ [])

  unfoldable pub parse_name_addr_formats : Bytes → List To → List To
  unfolding parse_name_addr_formats_from
  parse_name_addr_formats s cons = parse_name_addr_formats_from (length s) s cons
