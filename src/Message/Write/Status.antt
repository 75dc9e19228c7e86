-- ===== src/Message/Write/Status.antt =====
-- The texts of the status codes (sip/status.go).
use tjsip.Base.{ℕ, [], ◌∷◌, Bytes, codes}
use tjsip.Base.Assoc.{Assoc}

abbrev pub status_text : Assoc ℕ Bytes
status_text =
    (100, codes "Trying")
    ∷ (180, codes "Ringing")
    ∷ (181, codes "Call Is Being Forwarded")
    ∷ (182, codes "Queued")
    ∷ (183, codes "Session Progress")
    ∷ (200, codes "OK")
    ∷ (300, codes "Multiple Choices")
    ∷ (301, codes "Moved Permanently")
    ∷ (302, codes "Moved Temporarily")
    ∷ (305, codes "Use Proxy")
    ∷ (380, codes "Alternative Service")
    ∷ (400, codes "Bad Request")
    ∷ (401, codes "Unauthorized")
    ∷ (402, codes "Payment Required")
    ∷ (403, codes "Forbidden")
    ∷ (404, codes "Not Found")
    ∷ (405, codes "Method Not Allowed")
    ∷ (406, codes "Not Acceptable")
    ∷ (407, codes "Proxy Authentication Required")
    ∷ (408, codes "Request Timeout")
    ∷ (410, codes "Gone")
    ∷ (413, codes "Request Entity Too Large")
    ∷ (414, codes "Request-URI Too Large")
    ∷ (415, codes "Unsupported Media Type")
    ∷ (416, codes "Unsupported URI Scheme")
    ∷ (420, codes "Bad Extension")
    ∷ (421, codes "Extension Required")
    ∷ (423, codes "Interval Too Brief")
    ∷ (480, codes "Temporarily not available")
    ∷ (481, codes "Call Leg/Transaction Does Not Exist")
    ∷ (482, codes "Loop Detected")
    ∷ (483, codes "Too Many Hops")
    ∷ (484, codes "Address Incomplete")
    ∷ (485, codes "Ambiguous")
    ∷ (486, codes "Busy Here")
    ∷ (487, codes "Request Terminated")
    ∷ (488, codes "Not Acceptable Here")
    ∷ (491, codes "Request Pending")
    ∷ (493, codes "Undecipherable")
    ∷ (500, codes "Internal Server Error")
    ∷ (501, codes "Not Implemented")
    ∷ (502, codes "Bad Gateway")
    ∷ (503, codes "Service Unavailable")
    ∷ (504, codes "Server Time-out")
    ∷ (505, codes "SIP Version not supported")
    ∷ (513, codes "Message Too Large")
    ∷ (600, codes "Busy Everywhere")
    ∷ (603, codes "Decline")
    ∷ (604, codes "Does not exist anywhere")
    ∷ (606, codes "Not Acceptable")
    ∷ []
