-- ===== src/Lib.antt =====
-- tjsip, a SIP proxy in Go: its transaction layer, its messages and their headers, the handlers of
-- the proxy core, the registrar and the authentication.
--
-- A message that arrives is handed by the server (sip/server.go) to the transaction that its key
-- names (sip/transaction.go), or to the proxy core (proxy_core.go). The handlers of requests
-- (proxy_request_controller.go) make a server transaction for a request and client transactions for the
-- requests that they forward, which the response contexts bind to each other; the handlers of responses
-- (proxy_response_controller.go) follow these bindings back. Both keep the records of calls
-- (proxy_server.go).
--
--   Base         the parts of Go that the code uses: maps, int64, strings, and how a function ends
--   Message      sip/message.go and sip/header.go. Message/Via: the Via headers. Message/Counters:
--                CSeq and Max-Forwards, which its Text prints and reads. Message/Headers: the header of
--                net/http. Message/Generate: GenerateResponseFromRequest, GenerateCancelRequest,
--                GenerateAckFromRequestAndResponse. Message/Print and Message/Parse: the printing and
--                reading of headers. Message/Urls: what they call of sip/uri.go and net/url.
--                Message/Wire: the first line of a message, and parseHeader.
--                Message/Write: writeRequest and writeResponse, with the texts of sip/status.go.
--                Message/Read: readMessage. Message/Text: the reader of sip/reader.go below it.
--                Message/Text/Written: what is written, line by line. Message/Create: the requests
--                that sip/message.go makes, and the random texts of sip/helper.go
--   Transaction  sip/transaction.go. Transaction/Key: the keys. Transaction/Timers: timers and states.
--                Transaction/Client and Transaction/ServerTransaction: the controllers, and what
--                Handle and WriteMessage of a server transaction do
--   Server       the tables of transactions of sip/server.go, and requestHandler's use of them
--   Contexts     ResponseCtxs of proxy_core.go. Contexts/TimerC: TimerCHandlers
--   Calls        callInfo and CallStates of proxy_server.go
--   Proxy        the state of the proxy core and its handlers. Proxy/Server: what they call of the
--                server. Proxy/Errors: error responses, and the records of calls. Proxy/Forwarding and
--                Proxy/Route: how a request is made ready, and where it goes. Proxy/Requests,
--                Proxy/Dispatch, Proxy/Handle: the handlers of requests. Proxy/Responses,
--                Proxy/Redirection: those of responses. Proxy/Expiry: Timer C. Proxy/Sound: what they keep
--   Packets      packetProcessing of sip/server.go, which is where it all meets. Packets/Mux and
--                Packets/Register: the multiplexer, and what main registers. Packets/Reach: the goroutines
--                as steps. Packets/Sound and Packets/Retransmission: what packets keep
--   Uri          sip/uri.go. Uri/Escape: escaping. Uri/Parse and Uri/Print: Parse and String, which
--                Print gathers for the headers. Uri/RoundTrip: what is printed is read again
--   Routing      the prefix tree of proxy_routing.go. Routing/Load: loadTranslater
--   Registration proxy_registration.go: determOperation and registration; its Bindings and Issue: the
--                tables of the registrar and issueTransaction
--   Authentication  ParseAuthorizationHeadlerDigest, auth and authMessage of proxy_auth.go.
--                Authentication/Subscribers: the table of subscribers, importSubscriber and queryA1md5
--   Examples     tests on concrete messages
--
-- A controller is a goroutine that waits in a select. Its model is a machine: `place` says at which
-- select it waits, with the time left of its timers, an `Event` is what the select receives, and
-- `step` is all that the code does up to the next select. `returned` and `panicked` are its ends. A
-- method that holds a mutex from its start to its end is one step. What is written to the transport
-- is kept in the field `sent`. Times are milliseconds.
--
-- A handler of the core is an action: a function from the state to a value and a state, or a panic, where
-- a nil pointer is read, a closed channel is closed or written to, or a text is cut where it has no
-- separator. It is one step; handlers that run at the same time are taken one after the other. What it
-- does to goroutines and to the network is kept in the list `effects`, the last first. The fields of a
-- transaction are those that it was made with; its controller is the machine of Transaction.
--
-- The nodes of the routing table point to their parents; here a search carries the nodes above the one
-- that it has reached, and a node is identified by its path from the root. A call is shared by the table
-- and by the handlers, and is named by its reference into a store.
--
-- Objects are values and a nil pointer is `none`; text is a list of bytes. What stands outside the
-- modelled code is a parameter: the reading and printing of a URI and net/url.ParseQuery (`Urls`, and
-- `parse_query`), random bytes, the choice among bindings, the time, the errors of the transport and the
-- handlers of the egress layer (`Env`), the quality of a contact as the float parser reads it
-- (`parse_percent`), what fmt prints of a String method that panics (`caught`), the MD5 sum
-- (`hash`), the lookup of a user (`lookup_a1`), what a database refuses (`failure`, `Database`) and what
-- a CSV reader gives: lines, and `none` where it ends or gives an error, which the code takes alike. The
-- tables of the registrar and of the subscribers are lists of rows, and an SQL statement is the function
-- on lists that it says; the order of rows of one quality, which SQL leaves open, is the order of the
-- list.
--
-- The loops over headers are structural recursions. `decimal_from` has the number itself as fuel, which is
-- enough since each round divides by ten; the readers of Message/Parse that call themselves have the
-- length of the text, since each call leaves a shorter one, and so has the reader of Message/Text.
--
-- Not modelled: sockets, logging, the making of nonces, the buffer below the reader, the errors of a
-- writer, the statistics of calls and the gap control, the aliasing of the parts of a request and of its
-- response, and the capacity of a body beyond its length; the parts of sip/uri.go and sip/reader.go that
-- nothing calls.
pub mod Base
pub mod Transaction
pub mod Contexts
pub mod Calls
pub mod Proxy
pub mod Packets
pub mod Message
pub mod Server
pub mod Examples
pub mod Routing
pub mod Uri
pub mod Registration
pub mod Authentication
