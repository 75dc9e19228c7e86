-- ===== src/Message/Text/Requests.antt =====
-- A request that is written, read by readMessage above the reader (sip/message.go, sip/reader.go).
use tjsip.Base.{true, false, Option, some, List, [], Bytes, codes}
use tjsip.Base.Outcome.{◌>>=◌}
use tjsip.Message.{Message, Uri}
use tjsip.Message.Urls.{Urls}
use tjsip.Message.Text.Fields.{with_fields}

module _ (urls : Urls) (read : Bytes → Option Bytes) where
  -- The message into which the fields are read
  abbrev pub with_lines : Message → Message → Uri → List (Bytes × Bytes) → Message
  with_lines old msg uri fs = record old {
    method = msg.method;
    request_uri = some uri;
    proto = codes "SIP/2.0";
    proto_major = 2;
    proto_minor = 0;
    request = true;
    response = false;
    header = with_fields [] fs;
  }
