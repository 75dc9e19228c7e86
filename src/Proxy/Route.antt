-- ===== src/Proxy/Route.antt =====
-- Where a request goes: the bindings of the registrar, then the table of prefixes
-- (proxy_request_controller.go).
use tjsip.Base.{
  true, false, not, ◌&&◌, ◌||◌, Option, none, some, List, [], ◌∷◌, Bytes, codes, length, get_elem?,
  if◌then◌else◌,
}
use tjsip.Base.Classes.{◌==◌, bytes_eq}
use tjsip.Base.Int.{ℤ, pos, ltb_int}
use tjsip.Base.Outcome.{Outcome, ok, err, panic}
use tjsip.Message.{Uri, Message}
use tjsip.Routing.{Found, fwd_of, search}
use tjsip.Registration.Bindings.{Binding, query_binding}
use tjsip.Proxy.{Env, Proxy}
use tjsip.Proxy.Forwarding.{
  Forward, forward, refuse, request_service, status_bad_request, status_not_found,
  status_unsupported_uri_scheme,
}

module _ (env : Env) where
  -- bind.Aor == "" || bind.Bind == "" || err != nil
  candidate : Binding → Option Uri
  candidate b = if b.aor == [] || b.bind == [] then none else env.urls.parse b.bind

  -- The loop over the bindings, which ends at the first whose quality is below that of the last
  -- candidate.
  unfoldable pub candidates : ℤ → List Binding → List Uri
  unfolding candidate
  candidates last [] = []
  candidates last (b ∷ bs) = elim (ltb_int b.q last) [
    | true ↦ []
    | false ↦ elim (candidate b) [ none ↦ candidates last bs | some uri ↦ uri ∷ candidates b.q bs ]
  ]

  -- The address and the domain of an entry of the table; an entry that is nil panics.
  of_entry : Option Found → Outcome (Option (Bytes × Bytes))
  of_entry none = ok none
  of_entry (some rt) = elim (fwd_of rt.trie) [
    | none ↦ panic
    | some fwd ↦ ok (some (fwd.addr, fwd.domain))
  ]

  -- candidates[rand.Intn(len(candidates))], which panics out of range
  chosen : Option Uri → Outcome (Option (Bytes × Bytes))
  chosen none = panic
  chosen (some uri) = ok (some (uri.host, uri.host))

  route_by : List Uri → Uri → Outcome (Option (Bytes × Bytes))
  unfolding of_entry chosen search
  route_by [] uri = of_entry (search [] [] env.table (env.runes (request_service uri)))
  route_by (c ∷ cs) uri = chosen (get_elem? (c ∷ cs) (env.choose (length (c ∷ cs))))

  -- queryBindingNow; an error gives no bindings.
  bindings_of : Proxy → Uri → List Binding
  bindings_of p uri = elim env.db_failure [
    | some _ ↦ []
    | none ↦ query_binding (env.urls.print uri) env.unix_now p.tables.register
  ]

  -- `route`; `none` is `found == false`.
  unfoldable pub route : Proxy → Uri → Outcome (Option (Bytes × Bytes))
  unfolding route_by candidates bindings_of
  route p uri = route_by (candidates (pos 0) (bindings_of p uri)) uri

  to_place : Message → Uri → Outcome (Option (Bytes × Bytes)) → Outcome Forward
  to_place msg uri panic = panic
  to_place msg uri (err e) = err e
  to_place msg uri (ok none) = ok (refuse status_not_found)
  to_place msg uri (ok (some (addr, domain))) = ok (
      forward
        (record msg { request_uri = some (record uri { host = domain }); remote_addr = addr }))

  -- inviteRouted
  unfoldable pub invite_routed : Proxy → Message → Outcome Forward
  unfolding to_place route
  invite_routed p msg = elim msg.request_uri [
    | none ↦ ok (refuse status_bad_request)
    | some uri ↦
        if not (uri.scheme == codes "sip") && not (uri.scheme == codes "tel")
        then ok (refuse status_unsupported_uri_scheme)
        else to_place msg uri (route p uri)
  ]
