-- ===== src/Examples/Proxies.antt =====
-- A proxy on which the handlers are tested: it has forwarded one INVITE.
use tjsip.Base.{ℕ, ◌≡◌, ◌≤◌, ◌≢◌, refl, true, false, none, some, [], ◌∷◌, codes, arith}
use tjsip.Base.Assoc.{lookup}
use tjsip.Base.Classes.{bytes_beq}
use tjsip.Base.Text.{split_2}
use tjsip.Proxy.Errors.{call_id_text, get_call}
use tjsip.Proxy.Server.{lookup_server_transaction}
use tjsip.Base.Int.{pos, negsuc, max_int64}
use tjsip.Base.Outcome.{ok}
use tjsip.Message.{Uri, Message, CallId, method_invite}
use tjsip.Message.Via.{top_most}
use tjsip.Message.Counters.{MaxForwards}
use tjsip.Message.Urls.{Urls}
use tjsip.Routing.{new_prefix_trie}
use tjsip.Contexts.{ResponseCtxs, get_st_from_ct}
use tjsip.Transaction.Key.{
  ClientTransactionKey, ServerTransactionKey, generate_client_transaction_key, client_key_beq,
  server_key_beq,
}
use tjsip.Calls
use tjsip.Calls.{get, CallInfo, CallStates, new_call_info}
use tjsip.Proxy.{Proxy, Env, Txn, new_proxy}
use tjsip.Proxy.Responses.{response_handler, forwarding_response, invite_response_handler}
use tjsip.Proxy.Responses.Laws.{response_handler-trying, forwarding_response_lem, forwarded}
use tjsip.Proxy.Forwarding.{generate_forwarding_request, forward}
use tjsip.Proxy.Forwarding.Hops.{hop_counted}
use tjsip.Examples.{empty_message, one_parameter, invite, status, two_vias, top_via, bottom_via}

abbrev pub plain_uri : Uri
plain_uri = record {
  scheme = codes "sip";
  opaque = [];
  user = none;
  host = codes "b";
  path = [];
  raw_path = [];
  force_parameter = false;
  raw_parameter = [];
  force_query = false;
  raw_query = [];
  absolute = false;
  fragment = [];
  raw_fragment = [];
}

-- Every text is read as the same URI, which is printed as its host.
abbrev pub urls : Urls
urls = record {
  parse = λ s. some plain_uri;
  print = λ u. u.host;
  print_user = λ u. ok [];
  parse_query = one_parameter;
}

abbrev pub env : Env
env = record {
  urls = urls;
  address = codes "p:5060";
  now = 5;
  unix_now = 5;
  print_time = λ t. [];
  random = λ n. codes "r";
  egress = λ m. (m, none);
  transport = λ m. none;
  table = new_prefix_trie;
  runes = λ s. s;
  choose = λ n. 0;
  parse_percent = λ s. none;
  db_failure = none;
}

abbrev call : CallId
call = record { identifier = codes "c"; host = [] }

abbrev hops : ℕ → MaxForwards
hops n = record { remains = pos n }

abbrev call_invite : ℕ → Message
call_invite n = record invite {
  call_id = some call;
  request_uri = some plain_uri;
  max_forwards = some (hops n);
  remote_addr = codes "b";
}

abbrev reply : ℕ → Message
reply code = record (status code) { call_id = some call }

abbrev st_key : ServerTransactionKey
st_key = record { via_branch = codes "z1"; sent_by = codes "a"; method = method_invite }

abbrev ct_key : ClientTransactionKey
ct_key = record { via_branch = codes "z2"; cseq_method = method_invite }

abbrev st : Txn ServerTransactionKey
st = record { key = st_key; request = call_invite 70; provisional_res = none; error = none }

abbrev calls : CallStates
calls = record {
  infos = (0, record new_call_info { call_id = codes "c" }) ∷ [];
  calls = (codes "c", 0) ∷ [];
  next = 1;
  removals = [];
  written = [];
}

abbrev contexts : ResponseCtxs
contexts = record {
  st_to_ct = (st_key, (ct_key, true) ∷ []) ∷ [];
  ct_to_st = (ct_key, st_key) ∷ [];
}

abbrev proxy : Proxy
proxy = record new_proxy {
  contexts = contexts;
  calls = calls;
  server_transactions = (st_key, st) ∷ [];
}

trying_returns : response_handler env (reply 100) proxy ≡ ok (none, proxy)
unfolding response_handler call_id_text get_call bytes_beq get lookup
    generate_client_transaction_key top_most split_2 get_st_from_ct client_key_beq
    lookup_server_transaction server_key_beq invite_response_handler
trying_returns = refl

response_handler-trying_example : proxy ≡ proxy
response_handler-trying_example =
    response_handler-trying env (reply 100) refl proxy proxy none trying_returns

forwarding_response_lem_example :
    forwarding_response env (reply 180) (some st) proxy
    ≡ ok (tt, forwarded env (reply 180) st (bottom_via ∷ []) proxy)
forwarding_response_lem_example =
    forwarding_response_lem env (reply 180) two_vias top_via proxy st (bottom_via ∷ []) refl refl

not_smallest : (n : ℕ) → pos n ≢ negsuc max_int64
not_smallest n e = absurd (ground arith)

abbrev opened_call : CallInfo
opened_call = record new_call_info {
  received_request_uri = urls.print plain_uri;
  from = (call_invite 1).from;
  to = (call_invite 1).to;
  setup_time = some env.now;
  caller_address = codes "b";
  call_id = codes "c";
  received_request = some (call_invite 1);
}

abbrev with_call : Proxy
with_call = record proxy {
  calls = record calls {
    infos = (1, opened_call) ∷ (1, new_call_info) ∷ calls.infos;
    calls = (codes "c", 1) ∷ calls.calls;
    next = 2;
  };
}

made_ready :
    generate_forwarding_request urls (call_invite 70)
    ≡ ok (forward (record (call_invite 70) { max_forwards = some (hops 69); body = some [] }))
unfolding generate_forwarding_request top_most bytes_beq empty_message
made_ready = refl

hop_counted_example : (2 ≤ 70) × (some (hops 69) ≡ some (hops 69))
hop_counted_example =
    hop_counted urls (call_invite 70) (hops 70) _ refl (not_smallest 70) made_ready
