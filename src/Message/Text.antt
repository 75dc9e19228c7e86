-- ===== src/Message/Text.antt =====
-- The reading of lines and header fields (sip/reader.go). The buffered reader holds one packet, and its
-- state is the bytes that are not read yet; the peeks into its buffer save copies and change no result.
pub mod Lines
pub mod Compact
pub mod Fields
pub mod Values
pub mod Written
pub mod Requests
use tjsip.Base.{
  ℕ, zero, suc, ◌+◌, ◌-◌, Bool, true, false, not, ◌&&◌, ◌||◌, Option, none, some, List, [], ◌∷◌,
  ◌++◌, Bytes, codes, length, leb, nat_beq, if◌then◌else◌,
}
use tjsip.Base.Classes.{◌==◌, bytes_eq, nat_eq}
use tjsip.Base.Assoc.{Assoc, lookup, insert}
use tjsip.Base.Int.{ℤ, pos, negsuc}
use tjsip.Base.Text.{contains_byte, split_2, trim, trim_left, canonical}
use tjsip.Message.Headers.{Header}
use tjsip.Message.Read.{Reader}

-- Space and tab
abbrev pub white : Bytes
white = b' ' ∷ b'\t' ∷ []

-- A line without the carriage return at its end
unfoldable pub drop_return : Bytes → Bytes
drop_return [] = []
drop_return (c ∷ []) = if nat_beq c b'\r' then [] else c ∷ []
drop_return (c ∷ d ∷ s) = c ∷ drop_return (d ∷ s)

-- ReadLine, of bufio and of the Reader: the line, and what is left; `none` at the end. The last line may
-- lack its newline, and then keeps a carriage return.
unfoldable pub line_of : Bytes × Option Bytes → Option (Bytes × Bytes)
unfolding drop_return
line_of ([], none) = none
line_of (c ∷ s, none) = some (c ∷ s, [])
line_of (front, some rest) = some (drop_return front, rest)

unfoldable pub read_line : Bytes → Option (Bytes × Bytes)
unfolding line_of
read_line s = line_of (split_2 b'\n' s)

-- trim
abbrev pub trimmed : Bytes → Bytes
trimmed s = trim white s

abbrev pub starts_white : Bytes → Bool
starts_white [] = false
starts_white (c ∷ s) = contains_byte white c

-- The continuation lines: as long as a line begins with white space it is appended, behind a space.
unfoldable pub continued : ℕ → Bytes → Bytes → Bytes × Bytes
unfolding contains_byte
continued zero line s = (line, s)
continued (suc fuel) line s = elim (starts_white s) [
  | false ↦ (line, s)
  | true ↦ elim (read_line (trim_left white s)) [
    | none ↦ (line, [])
    | some (more, rest) ↦ continued fuel (line ++ b' ' ∷ trimmed more) rest
  ]
]

-- readContinuedLineSlice with mustHaveFieldNameColon; `none` is an error. Each line takes a byte, so
-- the text is fuel enough.
unfoldable pub read_continued_line : Bytes → Option (Bytes × Bytes)
unfolding continued contains_byte
read_continued_line s = elim (read_line s) [
  | none ↦ none
  | some ([], rest) ↦ some ([], rest)
  | some (c ∷ line, rest) ↦
      if contains_byte (c ∷ line) b':'
      then some (continued (length rest) (trimmed (c ∷ line)) rest)
      else none
]

-- strings.IndexByte
unfoldable pub index_byte : Bytes → ℕ → ℤ
index_byte [] c = negsuc 0
index_byte (d ∷ s) c =
    let rest = index_byte s c in
    if nat_beq d c then pos 0 else elim rest [ pos n ↦ pos (n + 1) | negsuc n ↦ negsuc n ]

-- translateCompactForm
abbrev pub translate_compact_form : Assoc ℕ Bytes
translate_compact_form =
    (b'a', codes "Accept-Contact")
    ∷ (b'b', codes "Referred-By")
    ∷ (b'c', codes "Content-Type")
    ∷ (b'd', codes "Request-Disposition")
    ∷ (b'e', codes "Content-Encoding")
    ∷ (b'f', codes "From")
    ∷ (b'i', codes "Call-Id")
    ∷ (b'j', codes "Reject-Contact")
    ∷ (b'k', codes "Supported")
    ∷ (b'l', codes "Content-Length")
    ∷ (b'm', codes "Contact")
    ∷ (b'o', codes "Event")
    ∷ (b'r', codes "Refer-To")
    ∷ (b's', codes "Subject")
    ∷ (b't', codes "To")
    ∷ (b'u', codes "Allow-Events")
    ∷ (b'v', codes "Via")
    ∷ (b'x', codes "Session-Expires")
    ∷ (b'y', codes "Identity")
    ∷ []

-- The entry of a number, after the shift of a capital letter; nil where there is none.
translated : ℤ → Bytes
translated (negsuc n) = []
translated (pos n) =
    elim (lookup (if leb b'A' n && leb n b'Z' then n - 32 else n) translate_compact_form) [
      | none ↦ []
      | some name ↦ name
    ]

-- The key of a field: one of a single byte is translated.
unfoldable pub field_key : Bytes → Bytes
unfolding translated index_byte
field_key name =
    let key = canonical name in
    if nat_beq (length key) 1 then canonical (translated (index_byte key 0)) else key

unfoldable pub add_value : Header → Bytes → Bytes → Header
add_value m key value =
    if key == []
    then m
    else insert key (elim (lookup key m) [ none ↦ value ∷ [] | some vs ↦ vs ++ value ∷ [] ]) m

-- One round of the loop of ReadMIMEHeader, on a line that has a colon
unfoldable pub add_field : Header → Bytes × Option Bytes → Header
unfolding add_value field_key
add_field m (name, none) = m
add_field m (name, some rest) = add_value m (field_key name) (trim_left white rest)

-- The loop of ReadMIMEHeader; `none` is an error. A line that is white but for its colon is none here:
-- it has one.
unfoldable pub read_fields : ℕ → Header → Bytes → Option (Header × Bytes)
unfolding read_continued_line add_field
read_fields zero m s = none
read_fields (suc fuel) m s = elim (read_continued_line s) [
  | none ↦ none
  | some ([], rest) ↦ some (m, rest)
  | some (c ∷ line, rest) ↦ read_fields fuel (add_field m (split_2 b':' (c ∷ line))) rest
]

-- ReadMIMEHeader: the first line may not begin with white space. Each round takes a line, so the text
-- is fuel enough, with one round for its end.
unfoldable pub read_mime_header : Bytes → Option (Header × Bytes)
unfolding read_fields contains_byte
read_mime_header s = if starts_white s then none else read_fields (suc (length s)) [] s

-- sip/reader.go as readMessage calls it; `read` is the Read of the buffered reader.
unfoldable pub text_reader : (Bytes → Option Bytes) → Reader
text_reader read = record {
  read_line = read_line;
  read_mime_header = read_mime_header;
  read = read;
}
