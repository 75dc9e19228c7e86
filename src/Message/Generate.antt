-- ===== src/Message/Generate.antt =====
-- The messages that sip/message.go derives from other messages.
use tjsip.Base.{
  ℕ, Bool, true, false, not, ◌&&◌, ◌||◌, Option, none, some, List, [], ◌∷◌, ◌++◌, Bytes, codes, leb,
  ltb, if◌then◌else◌,
}
use tjsip.Base.Classes.{◌==◌, bytes_eq}
use tjsip.Base.Assoc.{Assoc, lookup}
use tjsip.Base.Int.{ℤ}
use tjsip.Base.Text.{trim, blanks, format_int}
use tjsip.Base.Outcome.{
  Outcome, ok, err, panic, ◌>>=◌, missing_mandatory_header, header_parse_error, malformed_message,
}
use tjsip.Message.Headers
use tjsip.Message.Headers.{Header}
use tjsip.Message.Via
use tjsip.Message.Via.{Via, ViaHeaders, new_via_headers, top_most}
use tjsip.Message.Counters.{CSeq}
use tjsip.Message.{Message, create_message, method_invite, method_ack, method_cancel}

-- The copies of the parts are equal to the parts. The body of the copy is never nil.
unfoldable pub clone : Message → Message
clone msg = record msg { body = elim msg.body [ none ↦ some [] | some b ↦ some b ] }

abbrev pub status_trying : ℕ
status_trying = 100

abbrev mandatory_headers : List Bytes
mandatory_headers =
    codes "From"
    ∷ codes "To"
    ∷ codes "Call-ID"
    ∷ codes "CSeq"
    ∷ codes "Via"
    ∷ codes "Max-Forwards"
    ∷ []

add_all : Header → Bytes → List Bytes → Header
add_all h key [] = h
add_all h key (v ∷ vs) = add_all (Headers.add h key v) key vs

copy_headers : Header → Header → List Bytes → Header
copy_headers from to [] = to
copy_headers from to (key ∷ keys) =
    copy_headers from (add_all to key (Headers.values from key)) keys

unfoldable pub generate_response_from_request : Message → Message
unfolding create_message copy_headers add_all
generate_response_from_request msg =
    let resp = create_message msg.remote_addr in
    record resp {
      response = true;
      request = false;
      status_code = status_trying;
      to = msg.to;
      from = msg.from;
      via = msg.via;
      call_id = msg.call_id;
      cseq = msg.cseq;
      max_forwards = msg.max_forwards;
      header = copy_headers msg.header resp.header mandatory_headers;
    }

-- `cancel.Via.TopMost()` and `cancel.CSeq.Method` are read through pointers that may be nil.
cancel_via : Option ViaHeaders → Outcome ViaHeaders
cancel_via none = panic
cancel_via (some v) = elim (top_most v) [
  | none ↦ err header_parse_error
  | some via ↦ ok (Via.insert new_via_headers via).0
]

cancel_cseq : Option CSeq → Outcome CSeq
cancel_cseq none = panic
cancel_cseq (some c) = ok (record c { method = method_cancel })

cancel_from : Message → Outcome Message
unfolding cancel_via cancel_cseq
cancel_from cancel = do
  via ← cancel_via cancel.via
  cseq ← cancel_cseq cancel.cseq
  ok (record cancel {
    method = method_cancel;
    via = some via;
    cseq = some cseq;
    header = Headers.del (Headers.del cancel.header (codes "Require")) (codes "Proxy-Require");
    content_length = 0;
    body = none;
  })

-- A nil request is an error too; here the request is a value.
unfoldable pub generate_cancel_request : Message → Outcome Message
unfolding cancel_from clone
generate_cancel_request req =
    if not req.request || not (req.method == method_invite)
    then err malformed_message
    else cancel_from (clone req)

-- What the acknowledgement of a 2xx response does with the bottom Via: `params` lists its
-- parameters in the order in which the map is ranged over, and `branch` is the new branch.
rebuild_values : Bytes → List Bytes → Bytes
rebuild_values key [] = []
rebuild_values key (v ∷ vs) = key ++ codes "=" ++ v ++ rebuild_values key vs

rebuild : Assoc Bytes (List Bytes) → Bytes
unfolding rebuild_values
rebuild [] = []
rebuild ((key, vs) ∷ params) = rebuild_values key vs ++ codes ";" ++ rebuild params

set_branch : Bytes → Assoc Bytes (List Bytes) → Assoc Bytes (List Bytes)
set_branch branch [] = []
set_branch branch ((key, []) ∷ params) = (key, []) ∷ set_branch branch params
set_branch branch ((key, v ∷ vs) ∷ params) =
    (key, if key == codes "branch" then branch ∷ vs else v ∷ vs) ∷ set_branch branch params

-- NewViaHeader
unfoldable pub new_via_header : Bytes → Bytes → Bytes → Via
new_via_header proto by param = record {
  sent_protocol = trim blanks proto;
  sent_by = trim blanks by;
  raw_parameter = trim (blanks ++ b';' ∷ []) param;
}

has_branch : Option (List Bytes) → Bool
has_branch none = false
has_branch (some []) = false
has_branch (some (_ ∷ _)) = true

module _ (parse_query : Bytes → Assoc Bytes (List Bytes)) where
  renew_branch : Bytes → Via → Outcome Via
  unfolding rebuild set_branch new_via_header has_branch
  renew_branch branch v =
      let params = parse_query v.raw_parameter in
      if has_branch (lookup (codes "branch") params)
      then ok (new_via_header v.sent_protocol v.sent_by (rebuild (set_branch branch params)))
      else err malformed_message

  -- for idx, v := range req.Via.Header { …; ack.Via.Append(via) }
  append_all : ViaHeaders → List Via → ViaHeaders
  append_all vias [] = vias
  append_all vias (v ∷ vs) = append_all (Via.append vias v).0 vs

  copy_vias : Bytes → List Via → Outcome ViaHeaders
  unfolding renew_branch append_all
  copy_vias branch [] = ok new_via_headers
  copy_vias branch (v ∷ vs) = do
    via ← renew_branch branch v
    ok (append_all (Via.append new_via_headers via).0 vs)

  ack_vias : Bytes → Bool → Option ViaHeaders → Outcome ViaHeaders
  unfolding copy_vias
  ack_vias branch success none = panic
  ack_vias branch true (some vias) = copy_vias branch vias.header
  ack_vias branch false (some vias) = elim (top_most vias) [
    | none ↦ err header_parse_error
    | some via ↦ ok (Via.insert new_via_headers via).0
  ]

  abbrev copy_route : Header → Header → Header
  copy_route from to =
      let route = Headers.get from (codes "Route") in
      if route == [] then to else Headers.add to (codes "Route") route

  ack_sequence : Option CSeq → Outcome ℤ
  ack_sequence none = err missing_mandatory_header
  ack_sequence (some c) = ok c.sequence

  abbrev is_success : ℕ → Bool
  is_success status = leb 200 status && ltb status 300

  -- The Call-ID and Max-Forwards that CreateACK makes are overwritten.
  unfoldable pub generate_ack : Bytes → Message → Message → Outcome Message
  unfolding ack_vias ack_sequence create_message
  generate_ack branch req res =
      if not req.request || not res.response then err malformed_message else do
        via ← ack_vias branch (is_success res.status_code) req.via
        sequence ← ack_sequence req.cseq
        let ack = create_message req.remote_addr
        ok (record ack {
          request = true;
          method = method_ack;
          request_uri = req.request_uri;
          via = some via;
          from = req.from;
          call_id = req.call_id;
          max_forwards = req.max_forwards;
          to = res.to;
          header =
              Headers.add (copy_route req.header ack.header) (codes "CSeq")
                (format_int sequence ++ codes " ACK");
        })
