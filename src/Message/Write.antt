-- ===== src/Message/Write.antt =====
-- The writing of a message (sip/message.go). What is written to the writer is the result; the errors of
-- a writer are left out.
pub mod RoundTrip
pub mod Status
use tjsip.Base.{
  ℕ, suc, zero, Bool, true, false, Option, none, some, List, [], ◌∷◌, ◌++◌, Bytes, codes, length,
  ◌||◌, take, ltb, leb, nat_beq, if◌then◌else◌,
}
use tjsip.Base.Classes.{◌==◌, bytes_eq, nat_eq}
use tjsip.Base.Assoc.{lookup}
use tjsip.Base.Int.{pos}
use tjsip.Base.Text.{format_int, to_lower}
use tjsip.Base.Outcome.{Outcome, ok, panic, ◌>>=◌}
use tjsip.Message.{Message, Contact, Uri}
use tjsip.Message.Headers
use tjsip.Message.Headers.{Header}
use tjsip.Message.Counters.Text.{print_cseq, print_max_forwards}
use tjsip.Message.Print.{crlf, print_to, print_call_id, write_vias, write_contacts}
use tjsip.Message.Wire.{request_text}
use tjsip.Message.Write.Status.{status_text}
use tjsip.Message.Urls.{Urls}

-- a <= b of strings
text_leb : Bytes → Bytes → Bool
text_leb [] t = true
text_leb (c ∷ s) [] = false
text_leb (c ∷ s) (d ∷ t) =
    let rest = text_leb s t in if ltb c d then true else if nat_beq c d then rest else false

insert_key : Bytes → List Bytes → List Bytes
unfolding text_leb
insert_key k [] = k ∷ []
insert_key k (l ∷ ls) = let rest = insert_key k ls in if text_leb k l then k ∷ l ∷ ls else l ∷ rest

unfoldable pub contains : Bytes → List Bytes → Bool
contains k [] = false
contains k (l ∷ ls) = k == l || contains k ls

-- The keys of the map, each once: a value that is set hides the ones behind it under the same key.
unfoldable pub keys_of : Header → List Bytes
unfolding contains
keys_of [] = []
keys_of ((k, vs) ∷ h) = let rest = keys_of h in if contains k rest then rest else k ∷ rest

sorted : List Bytes → List Bytes
unfolding insert_key
sorted [] = []
sorted (k ∷ ks) = insert_key (to_lower k) (sorted ks)

-- The keys of a header in lower case, as sort.Strings leaves them.
unfoldable pub sorted_keys : Header → List Bytes
unfolding sorted keys_of
sorted_keys h = sorted (keys_of h)

-- The map `orig`: of two keys that are the same in lower case it holds the one that the loop sees last.
unfoldable pub original : Header → Bytes → Bytes → Bytes
original [] low found = found
original ((k, vs) ∷ h) low found = original h low (if to_lower k == low then k else found)

-- The spelling of a key at its values.
unfoldable pub spelled : Bytes → Bytes
spelled k =
    if k == codes "Cseq" then codes "CSeq" else if k == codes "Call-Id" then codes "Call-ID" else k

unfoldable pub write_values : Bytes → List Bytes → Bytes
write_values k [] = []
write_values k (v ∷ vs) = k ++ codes ": " ++ v ++ crlf ++ write_values k vs

-- The fields of a header whose keys are not among `ignores`.
unfoldable pub write_fields : Header → List Bytes → List Bytes → Bytes
unfolding original spelled write_values contains
write_fields h ignores [] = []
write_fields h ignores (low ∷ keys) =
    let rest = write_fields h ignores keys in
    if contains low ignores
    then rest
    else write_values (spelled (original h low [])) (Headers.values h low) ++ rest

-- %03d
unfoldable pub three_digits : ℕ → Bytes
unfolding format_int
three_digits n =
    if ltb n 10
    then codes "00" ++ format_int (pos n)
    else if ltb n 100
    then b'0' ∷ format_int (pos n)
    else format_int (pos n)

abbrev pub reason_of : Message → Bytes
reason_of msg =
    if msg.reason_phrase == []
    then elim (lookup msg.status_code status_text) [ none ↦ codes "Unknown" | some text ↦ text ]
    else msg.reason_phrase

-- The first line that writeResponse writes, without its end.
unfoldable pub response_text : Message → Bytes
unfolding three_digits
response_text msg =
    codes "SIP/"
    ++ format_int (pos msg.proto_major)
    ++ b'.'
      ∷ (format_int (pos msg.proto_minor)
          ++ b' ' ∷ (three_digits msg.status_code ++ b' ' ∷ reason_of msg))

-- key: text
abbrev pub line : Bytes → Bytes → Bytes
line key text = key ++ codes ": " ++ text ++ crlf

-- r.Body[:r.ContentLength], whose capacity is taken to be the length of the body.
unfoldable pub body_text : Message → Outcome Bytes
body_text msg = if nat_beq msg.content_length 0 then ok [] else elim msg.body [
  | none ↦ panic
  | some body ↦
      if leb msg.content_length (length body) then ok (take msg.content_length body) else panic
]

-- `compact` is UseCompactForm.
module _ (urls : Urls) (compact : Bool) (caught : Bytes) where
  -- What `%s` prints of a value whose String method may panic: fmt catches it, and prints `caught`.
  abbrev pub formatted : Outcome Bytes → Bytes
  formatted (ok s) = s
  formatted _ = caught

  unfoldable pub contact_text : Option (List Contact) → Outcome Bytes
  contact_text none = ok []
  contact_text (some cs) = write_contacts urls compact cs

  abbrev ignored : {A : Type 0} → Bytes → Option A → List Bytes
  ignored key none = []
  ignored key (some _) = key ∷ []

  abbrev pub written : {A : Type 0} → Option A → (A → Bytes) → Bytes
  written none f = []
  written (some a) f = f a

  unfoldable pub ignored_keys : Message → List Bytes
  ignored_keys msg =
      ignored (codes "to") msg.to
      ++ ignored (codes "from") msg.from
      ++ ignored (codes "via") msg.via
      ++ ignored (codes "max-forwards") msg.max_forwards
      ++ ignored (codes "call-id") msg.call_id
      ++ ignored (codes "cseq") msg.cseq
      ++ ignored (codes "contact") msg.contact

  -- writeHeader
  unfoldable pub write_header : Message → Outcome Bytes
  unfolding contact_text ignored_keys write_fields
  write_header msg = do
    contacts ← contact_text msg.contact
    ok (
        written msg.to (λ t. line (codes "To") (formatted (print_to urls t)))
        ++ written msg.from (λ t. line (codes "From") (formatted (print_to urls t)))
        ++ written msg.via (write_vias compact)
        ++ written msg.max_forwards (λ m. line (codes "Max-Forwards") (print_max_forwards m))
        ++ written msg.call_id (λ c. line (codes "Call-ID") (print_call_id c))
        ++ written msg.cseq (λ c. line (codes "CSeq") (print_cseq c))
        ++ contacts
        ++ write_fields msg.header (ignored_keys msg) (sorted_keys msg.header))

  -- The header, the empty line and the body behind a first line.
  unfoldable pub write_below : Bytes → Message → Outcome Bytes
  unfolding write_header body_text
  write_below first msg = do
    header ← write_header msg
    body ← body_text msg
    ok (first ++ crlf ++ header ++ crlf ++ body)

  -- writeResponse
  unfoldable pub write_response : Message → Outcome Bytes
  unfolding write_below response_text
  write_response msg = write_below (response_text msg) msg

  -- writeRequest; a nil URI panics.
  unfoldable pub write_request : Message → Outcome Bytes
  unfolding write_below
  write_request msg = elim msg.request_uri [
    | none ↦ panic
    | some uri ↦ write_below (request_text msg (urls.print uri)) msg
  ]

  -- Message.write, to a writer of bytes
  unfoldable pub write : Message → Outcome Bytes
  unfolding write_request write_response
  write msg =
      if msg.request then write_request msg else if msg.response then write_response msg else ok []
