-- ===== src/Message/Read.antt =====
-- readMessage (sip/message.go). The reader below it is an interface here, which Message/Text fills.
use tjsip.Base.{false, Option, none, some, Bytes, length}
use tjsip.Base.Outcome.{Outcome, ok, ◌>>=◌}
use tjsip.Message.{Message}
use tjsip.Message.Headers.{Header}
use tjsip.Message.Urls.{Urls}
use tjsip.Message.Wire.{read_first_line, parse_header}

-- What a call reads, and the bytes that it leaves; `none` is an error. `read` is one Read of the
-- buffered reader into the 4096 bytes of a body.
pub record Reader : Type 0 where
  pub read_line : Bytes → Option (Bytes × Bytes)
  pub read_mime_header : Bytes → Option (Header × Bytes)
  pub read : Bytes → Option Bytes

unfoldable pub with_body : Message → Option Bytes → Message
with_body msg none = record msg { body = none; content_length = 0 }
with_body msg (some body) = record msg { body = some body; content_length = length body }

module _ (urls : Urls) (reader : Reader) where
  -- The header and the body, behind the first line
  unfoldable pub read_below : Bytes → Message → Outcome (Option Message)
  unfolding with_body
  read_below rest msg = elim (reader.read_mime_header rest) [
    | none ↦ ok none
    | some (header, body) ↦ do
      parsed ← parse_header urls (record msg { header = header })
      ok (some (with_body parsed (reader.read body)))
  ]

  unfoldable pub if_read :
      Option Message → (Message → Outcome (Option Message)) → Outcome (Option Message)
  if_read none f = ok none
  if_read (some msg) f = f msg

  -- `none` is an error. The flags are reset before the first line is judged, which is kept by the
  -- message only where there is no error.
  unfoldable pub read_message : Message → Bytes → Outcome (Option Message)
  unfolding read_below if_read
  read_message msg bytes = elim (reader.read_line bytes) [
    | none ↦ ok none
    | some (line, rest) ↦ do
      first ← read_first_line urls (record msg { request = false; response = false }) line
      if_read first (read_below rest)
  ]
