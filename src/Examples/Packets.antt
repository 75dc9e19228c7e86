-- ===== src/Examples/Packets.antt =====
-- Packets at work: a request that comes twice, and a run of the proxy.
use tjsip.Base.{
  [], ◌∷◌, Bytes, codes, ◌≡◌, ◌≢◌, refl, some, none, true, false, arith, Option, ap, sym, ◌∙◌,
}
use tjsip.Base.Classes.{bytes_beq, bytes_eq, nat_eq, ==_iff}
use tjsip.Base.Assoc.{lookup}
use tjsip.Base.Outcome.{Outcome, ok}
use tjsip.Message.{Message, create_message, method_ack, method_options}
use tjsip.Message.Read.{Reader, read_message}
use tjsip.Transaction.Key.{ServerTransactionKey, generate_server_transaction_key, server_key_eq}
use tjsip.Proxy.{Proxy, new_proxy, handles_request}
use tjsip.Proxy.Sound.{IsSound}
use tjsip.Packets.{packet_processing}
use tjsip.Packets.Register.{proxy_mux}
use tjsip.Packets.Reach.{starts, later, packet, Reach-IsSound}
use tjsip.Packets.Retransmission.{second_packet_absorbed}
use tjsip.Examples.Proxies.{urls, env}

-- An OPTIONS, whatever the bytes are
abbrev reader : Reader
reader = record {
  read_line = λ s. some (codes "OPTIONS b SIP/2.0", s);
  read_mime_header = λ s. some (
    (codes "Via", codes "SIP/2.0/UDP a;branch=z1" ∷ [])
        ∷ (codes "Cseq", codes "1 OPTIONS" ∷ [])
        ∷ (codes "Call-Id", codes "c" ∷ [])
        ∷ (codes "To", codes "<sip:b>" ∷ [])
        ∷ (codes "From", codes "<sip:b>" ∷ [])
        ∷ [],
    s,
  );
  read = λ s. none;
}

message_of : Outcome (Option Message) → Message
message_of (ok (some msg)) = msg
message_of _ = create_message []

abbrev options : Message
options = message_of (read_message urls reader (create_message (codes "b")) [])

state_of : Outcome (Unit {0} × Proxy) → Proxy
state_of (ok (_, q)) = q
state_of _ = new_proxy

abbrev after : Proxy
after = state_of (packet_processing env (proxy_mux env) reader true (codes "b") [] new_proxy)

abbrev key : ServerTransactionKey
key = record { via_branch = codes "z1"; sent_by = codes "a"; method = method_options }

returns :
    packet_processing env (proxy_mux env) reader true (codes "b") [] new_proxy ≡ ok (tt, after)
unfolding packet_processing tjsip.Packets.Mux.serve_sip lookup proxy_mux read_message
    tjsip.Message.Wire.read_first_line tjsip.Message.Wire.parse_request_line tjsip.Base.Text.split_2
    tjsip.Message.Wire.parse_sip_version bytes_beq tjsip.Message.Wire.parse_header
    tjsip.Message.Headers.get tjsip.Base.Text.canonical tjsip.Message.Counters.Text.parse_cseq
    tjsip.Base.Text.trim tjsip.Base.Text.parse_int tjsip.Message.Parse.parse_vias
    tjsip.Transaction.Key.generate_server_transaction_key tjsip.Message.Via.top_most
    tjsip.Message.Via.append tjsip.Proxy.Server.lookup_server_transaction
    tjsip.Packets.Mux.proxy_core_handler tjsip.Proxy.Handle.request_handler
    tjsip.Message.Generate.generate_response_from_request tjsip.Message.Parse.parse_from
    tjsip.Message.Parse.parse_name_addr tjsip.Proxy.Server.write_to_server tjsip.Calls.get
    tjsip.Message.Parse.parse_call_id state_of
returns = refl

reads : read_message urls reader (create_message (codes "b")) [] ≡ ok (some options)
unfolding read_message generate_server_transaction_key message_of tjsip.Message.Wire.read_first_line
    tjsip.Message.Wire.parse_request_line tjsip.Base.Text.split_2
    tjsip.Message.Wire.parse_sip_version bytes_beq tjsip.Message.Wire.parse_header
    tjsip.Message.Headers.get lookup tjsip.Base.Text.canonical
    tjsip.Message.Counters.Text.parse_cseq tjsip.Base.Text.trim tjsip.Base.Text.parse_int
    tjsip.Message.Parse.parse_vias tjsip.Message.Via.top_most
reads = refl

is_request : options.request ≡ true
unfolding read_message generate_server_transaction_key message_of tjsip.Message.Wire.read_first_line
    tjsip.Message.Wire.parse_request_line tjsip.Base.Text.split_2
    tjsip.Message.Wire.parse_sip_version bytes_beq tjsip.Message.Wire.parse_header
    tjsip.Message.Headers.get lookup tjsip.Base.Text.canonical
    tjsip.Message.Counters.Text.parse_cseq tjsip.Base.Text.trim tjsip.Base.Text.parse_int
    tjsip.Message.Parse.parse_vias tjsip.Message.Via.top_most
is_request = refl

makes_key : generate_server_transaction_key urls.parse_query options ≡ ok key
unfolding read_message generate_server_transaction_key message_of tjsip.Message.Wire.read_first_line
    tjsip.Message.Wire.parse_request_line tjsip.Base.Text.split_2
    tjsip.Message.Wire.parse_sip_version bytes_beq tjsip.Message.Wire.parse_header
    tjsip.Message.Headers.get lookup tjsip.Base.Text.canonical
    tjsip.Message.Counters.Text.parse_cseq tjsip.Base.Text.trim tjsip.Base.Text.parse_int
    tjsip.Message.Parse.parse_vias tjsip.Message.Via.top_most tjsip.Message.Via.append
makes_key = refl

is_options : options.method ≡ method_options
unfolding read_message message_of tjsip.Message.Wire.read_first_line
    tjsip.Message.Wire.parse_request_line tjsip.Base.Text.split_2
    tjsip.Message.Wire.parse_sip_version bytes_beq tjsip.Message.Wire.parse_header
    tjsip.Message.Headers.get lookup tjsip.Base.Text.canonical
    tjsip.Message.Counters.Text.parse_cseq tjsip.Base.Text.trim tjsip.Base.Text.parse_int
    tjsip.Message.Parse.parse_vias
is_options = refl

differ : method_options ≢ method_ack
differ e = absurd (ground (arith, ==_iff method_options method_ack))

second_packet_absorbed_example :
    packet_processing env (proxy_mux env) reader true (codes "b") [] after
    ≡ ok (tt, record after { effects = handles_request key options ∷ after.effects })
unfolding lookup
second_packet_absorbed_example =
    second_packet_absorbed env reader reader true true (codes "b") [] [] options key new_proxy after
      reads reads is_request (λ e. differ (sym is_options ∙ e)) makes_key refl returns

Reach-IsSound_example : IsSound after
Reach-IsSound_example = Reach-IsSound (later starts (packet env reader true (codes "b") [] returns))
