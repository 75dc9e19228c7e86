-- ===== src/Message/Wire.antt =====
-- The first line of a message and the headers that the message itself holds (sip/message.go,
-- sip/helper.go). The lines, and the map of the header fields, are what sip/reader.go reads.
pub mod Lines
use tjsip.Base.{
  ℕ, zero, suc, ◌+◌, ◌-◌, Bool, true, false, not, ◌&&◌, ◌||◌, Option, none, some, List, [], ◌∷◌,
  ◌++◌, Bytes, codes, length, take, drop, leb, nat_beq, is_some, if◌then◌else◌,
}
use tjsip.Base.Classes.{◌==◌, bytes_eq}
use tjsip.Base.Int.{ℤ, pos, negsuc}
use tjsip.Base.Text.{split_2, parse_int, is_token, format_int}
use tjsip.Base.Outcome.{Outcome, ok, err, panic, ◌>>=◌}
use tjsip.Message.{Message, Contact, Uri}
use tjsip.Message.Headers
use tjsip.Message.Headers.{Header}
use tjsip.Message.Via.{ViaHeaders, new_via_headers}
use tjsip.Message.Counters.Text.{parse_cseq, parse_max_forwards}
use tjsip.Message.Parse.{parse_vias, parse_from, parse_call_id, parse_contacts}
use tjsip.Message.Urls.{Urls}

-- parseRequestLine: the texts before the first space, up to the second one, and behind it
uri_and_rest : Bytes → Bytes × Option Bytes → Option (Bytes × Bytes × Bytes)
uri_and_rest method (uri, none) = none
uri_and_rest method (uri, some proto) = some (method, uri, proto)

parts_of : Bytes × Option Bytes → Option (Bytes × Bytes × Bytes)
unfolding uri_and_rest
parts_of (method, none) = none
parts_of (method, some rest) = uri_and_rest method (split_2 b' ' rest)

unfoldable pub parse_request_line : Bytes → Option (Bytes × Bytes × Bytes)
unfolding parts_of
parse_request_line line = parts_of (split_2 b' ' line)

-- The first line that writeRequest writes, without its end, for a request whose URI prints as `uri`.
unfoldable pub request_text : Message → Bytes → Bytes
request_text msg uri =
    msg.method
    ++ b' '
      ∷ (uri
          ++ b' '
            ∷ (codes "SIP/"
                ++ format_int (pos msg.proto_major)
                ++ b'.' ∷ format_int (pos msg.proto_minor)))

-- n < 0 || n > 1000000
abbrev number_in_range : Option ℤ → Option ℕ
number_in_range none = none
number_in_range (some (negsuc n)) = none
number_in_range (some (pos n)) = if leb n 1_000_000 then some n else none

abbrev both : Option ℕ → Option ℕ → Option (ℕ × ℕ)
both (some major) (some minor) = some (major, minor)
both _ _ = none

-- vers[5:dot] and vers[dot+1:], for the text up to the first dot and the text behind it. The slice
-- panics where the dot is the fifth byte.
version_of : Bytes × Option Bytes → Outcome (Option (ℕ × ℕ))
version_of (front, none) = ok none
version_of (front, some rest) =
    if leb 5 (length front)
    then ok (both (number_in_range (parse_int (drop 5 front))) (number_in_range (parse_int rest)))
    else panic

-- ParseSIPVersion
unfoldable pub parse_sip_version : Bytes → Outcome (Option (ℕ × ℕ))
unfolding version_of
parse_sip_version vers =
    if vers == codes "SIP/2.0"
    then ok (some (2, 0))
    else if take 4 vers == codes "SIP/"
    then version_of (split_2 b'.' vers)
    else ok none

-- validMethod
abbrev pub valid_method : Bytes → Bool
valid_method method = not (method == []) && is_token method

-- strconv.Atoi of a status code of three bytes
unfoldable pub status_of : Bytes → Option ℕ
status_of text =
    if nat_beq (length text) 3
    then elim (parse_int text) [
      | none ↦ none
      | some n ↦ elim n [ pos code ↦ some code | negsuc _ ↦ none ]
    ]
    else none

module _ (urls : Urls) where
  -- What readMessage makes of the first line; `none` is an error.
  unfoldable pub request_line : Message → Bytes → Bytes → Bytes → ℕ × ℕ → Option Message
  unfolding is_token
  request_line msg method uri proto (major, minor) = elim (urls.parse uri) [
    | none ↦ none
    | some u ↦
        if valid_method method
        then some (record msg {
          method = method;
          request_uri = some u;
          proto = proto;
          proto_major = major;
          proto_minor = minor;
          request = true;
          response = false;
        })
        else none
  ]

  unfoldable pub status_line : Message → Bytes → Bytes → Bytes → Option (ℕ × ℕ) → Option Message
  unfolding status_of
  status_line msg proto status reason none = none
  status_line msg proto status reason (some (major, minor)) = elim (status_of status) [
    | none ↦ none
    | some code ↦ some (record msg {
      proto = proto;
      proto_major = major;
      proto_minor = minor;
      reason_phrase = reason;
      status_code = code;
      request = false;
      response = true;
    })
  ]

  unfoldable pub by_version :
      Message → Bytes → Bytes → Bytes → Option (ℕ × ℕ) → Outcome (Option Message)
  unfolding request_line status_line
  by_version msg first second third (some version) =
      ok (request_line msg first second third version)
  by_version msg first second third none = do
    version ← parse_sip_version first
    ok (status_line msg first second third version)

  unfoldable pub read_first_line : Message → Bytes → Outcome (Option Message)
  unfolding by_version
  read_first_line msg line = elim (parse_request_line line) [
    | none ↦ ok none
    | some (first, second, third) ↦ do
      version ← parse_sip_version third
      by_version msg first second third version
  ]

  vias_of : List Bytes → ViaHeaders → Outcome ViaHeaders
  vias_of [] v = ok v
  vias_of (s ∷ ss) v = do w ← parse_vias s v; vias_of ss w

  contacts_of : List Bytes → List Contact → Outcome (List Contact)
  contacts_of [] cs = ok cs
  contacts_of (s ∷ ss) cs = do ds ← parse_contacts urls s cs; contacts_of ss ds

  -- A header that is there is read by `f`; the field is left where it is not.
  abbrev when_there : {A : Type 0} → Bytes → A → (Bytes → A) → A
  when_there text left f = if text == [] then left else f text

  -- parseHeader
  unfoldable pub parse_header : Message → Outcome Message
  unfolding vias_of contacts_of
  parse_header msg = do
    let field = Headers.get msg.header
    cseq ← when_there (field (codes "cseq")) (ok msg.cseq) parse_cseq
    via ← elim (Headers.values msg.header (codes "via")) [
      | [] ↦ ok msg.via
      | v ∷ vs ↦ do vias ← vias_of (v ∷ vs) new_via_headers; ok (some vias)
    ]
    contact ← elim (Headers.values msg.header (codes "Contact")) [
      | [] ↦ ok msg.contact
      | c ∷ cs ↦ do contacts ← contacts_of (c ∷ cs) []; ok (some contacts)
    ]
    ok (record msg {
      to = when_there (field (codes "to")) msg.to (λ s. some (parse_from urls s));
      from = when_there (field (codes "from")) msg.from (λ s. some (parse_from urls s));
      call_id = when_there (field (codes "call-id")) msg.call_id (λ s. some (parse_call_id s));
      cseq = cseq;
      max_forwards = when_there (field (codes "max-forwards")) msg.max_forwards parse_max_forwards;
      via = via;
      contact = contact;
    })
