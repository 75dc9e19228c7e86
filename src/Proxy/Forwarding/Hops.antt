-- ===== src/Proxy/Forwarding/Hops.antt =====
-- The count of hops in a request that is forwarded (proxy_request_controller.go).
use tjsip.Base.{◌-◌, ◌≡◌, ◌≢◌, ◌≤◌, some, arith}
use tjsip.Base.Int.{pos, negsuc, max_int64}
use tjsip.Base.Outcome.{Outcome, ok}
use tjsip.Message.{Message}
use tjsip.Message.Counters.{MaxForwards, decrement_lem, pos_part}
use tjsip.Message.Generate.{clone}
use tjsip.Message.Urls.{Urls}
use tjsip.Proxy.{Env, Proxy}
use tjsip.Proxy.Forwarding.{
  forward, refuse, generate_forwarding_request, forward_with,
  generate_forwarding_request_by_route_header,
}

module _ (urls : Urls) (msg : Message) (m : MaxForwards) where
  -- A request that generateForwardingRequest makes ready to be forwarded had at least two hops left, and
  -- has one fewer. The count is one of 64 bits but not the smallest.
  pub hop_counted :
      (fwd : Message)
      → msg.max_forwards ≡ some m
      → m.remains ≢ negsuc max_int64
      → generate_forwarding_request urls msg ≡ ok (forward fwd)
      → (2 ≤ pos_part m.remains)
        × (fwd.max_forwards ≡ some (record { remains = pos (pos_part m.remains - 1) }))
  unfolding generate_forwarding_request forward_with clone
  hop_counted fwd e s h = ground (arith, decrement_lem m s)

module _ (env : Env) (msg : Message) (p : Proxy) where
  abbrev BothRefuse : Type 0
  BothRefuse =
      (generate_forwarding_request env.urls msg ≡ ok (refuse 483))
      × (generate_forwarding_request_by_route_header env.urls msg ≡ ok (refuse 483))
