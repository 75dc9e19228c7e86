-- ===== src/Proxy/Forwarding.antt =====
-- How a request is made ready to be forwarded, and where it goes (proxy_request_controller.go).
pub mod Hops
use tjsip.Base.{
  ℕ, Bool, true, false, Option, none, some, List, [], ◌∷◌, ◌++◌, Bytes, codes, drop, is_some,
  if◌then◌else◌,
}
use tjsip.Base.Classes.{◌==◌, bytes_eq}
use tjsip.Base.Assoc.{Assoc, lookup, insert, delete}
use tjsip.Base.Outcome.{Outcome, ok, panic, ◌>>=◌}
use tjsip.Message.{Uri, Userinfo, To, Message}
use tjsip.Message.Via.{Via, ViaHeaders, top_most}
use tjsip.Message.Counters.{MaxForwards, decrement}
use tjsip.Message.Generate.{clone}
use tjsip.Message.Headers
use tjsip.Message.Headers.{Header}
use tjsip.Message.Urls.{Urls}
use tjsip.Message.Print.{print_to}
use tjsip.Message.Parse.{parse_name_addr_formats}
use tjsip.Proxy.{Action}

abbrev pub status_bad_request : ℕ
status_bad_request = 400

abbrev pub status_not_found : ℕ
status_not_found = 404

abbrev pub status_method_not_allowed : ℕ
status_method_not_allowed = 405

abbrev pub status_request_timeout : ℕ
status_request_timeout = 408

abbrev pub status_unsupported_uri_scheme : ℕ
status_unsupported_uri_scheme = 416

abbrev pub status_no_call : ℕ
status_no_call = 481

abbrev pub status_too_many_hops : ℕ
status_too_many_hops = 483

abbrev pub status_request_terminated : ℕ
status_request_terminated = 487

abbrev pub status_internal_server_error : ℕ
status_internal_server_error = 500

-- A request to forward, or the status with which it is refused: the error of all these functions is
-- ErrStatusError.
pub data Forward : Type 0 where
  forward : Message → Forward
  refuse : ℕ → Forward

module _ {A : Type 0} where
  abbrev pub for_forward : Forward → (ℕ → Action A) → (Message → Action A) → Action A
  for_forward (refuse status) m f = m status
  for_forward (forward msg) m f = f msg

-- The host of the next hop, and whether it routes loosely, where there is a second route.
pub data NextHop : Type 0 where
  hop : Bytes → Bool → NextHop
  no_uri : NextHop
  nil_address : NextHop

-- for key, values := range param { … }, in the order in which the map is ranged over
print_values : Bytes → List Bytes → Bytes
print_values key [] = []
print_values key (v ∷ vs) = b';' ∷ key ++ b'=' ∷ v ++ print_values key vs

print_params : Assoc Bytes (List Bytes) → Bytes
unfolding print_values
print_params [] = []
print_params ((key, vs) ∷ params) = print_values key vs ++ print_params params

-- An assignment to the topmost Via, the last of the slice.
unfoldable pub set_top : List Via → Via → List Via
set_top [] via = []
set_top (x ∷ []) via = via ∷ []
set_top (x ∷ y ∷ vs) via = x ∷ set_top (y ∷ vs) via

-- What the scheme of a URI makes of the number that is looked up in the table.
abbrev pub username : Option Userinfo → Bytes
username none = []
username (some u) = u.username

abbrev pub request_service : Uri → Bytes
request_service uri =
    if uri.scheme == codes "sip"
    then username uri.user
    else if uri.scheme == codes "tel"
    then uri.host
    else []

module _ (urls : Urls) where
  -- param.Set("received", msg.RemoteAddr), and the text of the parameters without its first `;`
  received_param : Bytes → Via → Via
  unfolding print_params
  received_param addr via =
      let params = urls.parse_query via.raw_parameter in
      let param = insert (codes "received") (addr ∷ []) (delete (codes "received") params) in
      record via { raw_parameter = drop 1 (print_params param) }

  -- The test of the topmost Via, which is read without a test for nil.
  with_received : Bytes → ViaHeaders → Outcome ViaHeaders
  unfolding received_param set_top
  with_received addr vias = elim (top_most vias) [
    | none ↦ panic
    | some top ↦
        if top.sent_by == addr
        then ok vias
        else ok (record { header = set_top vias.header (received_param addr top) })
  ]

  forward_with : Message → MaxForwards × Bool → Outcome Forward
  unfolding with_received
  forward_with msg (left, false) = ok (refuse status_too_many_hops)
  forward_with msg (left, true) = elim msg.via [
    | none ↦ panic
    | some vias ↦ do
      marked ← with_received msg.remote_addr vias
      ok (forward (record msg { max_forwards = some left; via = some marked }))
  ]

  -- generateForwardingRequest; a nil Max-Forwards panics.
  unfoldable pub generate_forwarding_request : Message → Outcome Forward
  unfolding forward_with clone decrement
  generate_forwarding_request msg = elim msg.max_forwards [
    | none ↦ panic
    | some m ↦ forward_with (clone msg) (decrement m)
  ]

  -- What the loop over the Route headers reads.
  routes_of : List Bytes → List To → List To
  unfolding parse_name_addr_formats
  routes_of [] routes = routes
  routes_of (v ∷ vs) routes = routes_of vs (parse_name_addr_formats urls v routes)

  next_hop : Bytes → List To → NextHop
  next_hop host [] = hop host false
  next_hop host (_ ∷ []) = hop host false
  next_hop host (_ ∷ r ∷ _) = elim r.addr [
    | none ↦ nil_address
    | some addr ↦ elim addr.uri [
      | none ↦ no_uri
      | some uri ↦ hop uri.host (is_some (lookup (codes "lr") (urls.parse_query uri.raw_parameter)))
    ]
  ]

  add_routes : Header → List To → Outcome Header
  unfolding print_to
  add_routes h [] = ok h
  add_routes h (r ∷ rs) = do
    text ← print_to urls r
    add_routes (Headers.add h (codes "Route") text) rs

  -- The rest of generateForwardingRequestByRouteHeader. The branch for strict routing is left out: the
  -- variable that it tests is shadowed where it is assigned, and stays nil.
  to_hop : Message → List To → NextHop → Outcome Forward
  unfolding add_routes
  to_hop msg routes nil_address = panic
  to_hop msg routes no_uri = ok (refuse status_internal_server_error)
  to_hop msg routes (hop host lr) = do
    header ← add_routes (Headers.del msg.header (codes "Route")) (drop (if lr then 1 else 2) routes)
    ok (forward (record msg { remote_addr = host; header = header }))

  along_route : Forward → Outcome Forward
  unfolding to_hop next_hop routes_of
  along_route (refuse status) = ok (refuse status)
  along_route (forward msg) = elim msg.request_uri [
    | none ↦ panic
    | some uri ↦
        let routes = routes_of (Headers.values msg.header (codes "Route")) [] in
        to_hop msg routes (next_hop uri.host routes)
  ]

  unfoldable pub generate_forwarding_request_by_route_header : Message → Outcome Forward
  unfolding along_route generate_forwarding_request
  generate_forwarding_request_by_route_header msg = do
    forwarded ← generate_forwarding_request msg
    along_route forwarded
