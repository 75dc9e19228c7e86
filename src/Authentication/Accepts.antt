-- ===== src/Authentication/Accepts.antt =====
-- Which requests digest authentication accepts (proxy_auth.go).
use tjsip.Base.{
  ◌↔◌, List, ◌∷◌, ◌++◌, codes, ℕ, ◌≡◌, ◌≢◌, refl, Bool, true, false, Option, none, some, [], Bytes,
  if◌then◌else◌, arith,
}
use tjsip.Base.Classes.{◌==◌, bytes_eq, bytes_beq_iff}
use tjsip.Base.Outcome.{Outcome, ok, err, panic}
use tjsip.Message.{Message}
use tjsip.Message.Headers
use tjsip.Base.Assoc.{lookup}
use tjsip.Authentication.{
  credentials_from, single, Parameters, Credentials, credentials, parse_digest, expected, auth,
  check, check_parameters, auth_message,
}

single-some : (o : Option (List Bytes)) (v : Bytes) → single o ≡ some v → o ≡ some (v ∷ [])
single-some (some (w ∷ [])) v h = ground arith
single-some none v h = absurd (ground arith)
single-some (some []) v h = absurd (ground arith)
single-some (some (_ ∷ _ ∷ _)) v h = absurd (ground arith)

credentials_from-some :
    (u r n d p : Option Bytes) (c : Credentials)
    → credentials_from u r n d p ≡ some c
    → (u ≡ some c.username)
      × (r ≡ some c.realm)
      × (n ≡ some c.nonce)
      × (d ≡ some c.digest_uri)
      × (p ≡ some c.response)
unfolding credentials_from
credentials_from-some (some u) (some r) (some n) (some d) (some p) c h = ground arith
credentials_from-some _ _ _ _ _ c h = absurd (ground arith)

module _ (hash : Bytes → Bytes) (lookup_a1 : Bytes → Bytes → Bytes) (header : Bytes)
    (msg : Message) where
  -- The response that is due from credentials.
  abbrev pub due : Credentials → Bytes → Bytes
  due c a1 = expected hash msg.method c.nonce c.digest_uri a1

  check-true :
      (o : Option Credentials) (status : ℕ)
      → check hash lookup_a1 header msg o ≡ (true, status)
      → (c : Credentials) × (o ≡ some c)
        × (c.response ≡ due c (lookup_a1 c.username c.realm))
        × (msg.method ≢ [])
        × (status ≡ 0)
  unfolding check auth
  check-true none status h = absurd (ground arith)
  check-true (some c) status h = (
    c,
    refl,
    ground (arith, bytes_beq_iff c.response (due c (lookup_a1 c.username c.realm))),
    ground (arith, bytes_beq_iff msg.method []),
    ground arith,
  )

  check_parameters-true :
      (o : Outcome Parameters) (status : ℕ)
      → check_parameters hash lookup_a1 header msg o ≡ ok (true, status)
      → (params : Parameters) × (c : Credentials) × (o ≡ ok params)
        × (credentials params ≡ some c)
        × (c.response ≡ due c (lookup_a1 c.username c.realm))
        × (msg.method ≢ [])
        × (status ≡ 0)
  unfolding check_parameters
  check_parameters-true panic status h = absurd (ground arith)
  check_parameters-true (err e) status h = absurd (ground arith)
  check_parameters-true (ok params) status h =
      let (c, e, r, m, z) = check-true (credentials params) status (ground arith) in
      (params, c, refl, e, r, m, z)

  given-true :
      (b : Bool) (o : Outcome (Bool × ℕ)) (s status : ℕ)
      → (if b then ok (false, s) else o) ≡ ok (true, status)
      → (b ≡ false) × (o ≡ ok (true, status))
  given-true true o s status h = absurd (ground arith)
  given-true false o s status h = (refl, h)

  -- A parameter that is given once, with this value
  abbrev GivenOnce : Parameters → Bytes → Bytes → Type 0
  GivenOnce params key value = lookup key params ≡ some (value ∷ [])

  -- The header and the method are there, each of the five parameters is given once, and the response is the
  -- hash of the hash that is looked up, the nonce, and the hash of the method and the URI.
  abbrev pub IsAccepted : Type 0
  IsAccepted =
      (Headers.get msg.header header ≢ [])
      × (msg.method ≢ [])
      × (params : Parameters) × (username : Bytes) × (realm : Bytes) × (nonce : Bytes)
      × (digest_uri : Bytes) × (response : Bytes) × (parse_digest (Headers.get msg.header header)
          ≡ ok params)
      × GivenOnce params (codes "username") username
      × GivenOnce params (codes "realm") realm
      × GivenOnce params (codes "nonce") nonce
      × GivenOnce params (codes "digest-uri") digest_uri
      × GivenOnce params (codes "response") response
      × (response
          ≡ hash (
              (lookup_a1 username realm ++ b':' ∷ nonce)
              ++ b':' ∷ hash (msg.method ++ b':' ∷ digest_uri)))

  credentials-once :
      (params : Parameters) (c : Credentials)
      → credentials params ≡ some c
      → GivenOnce params (codes "username") c.username
        × GivenOnce params (codes "realm") c.realm
        × GivenOnce params (codes "nonce") c.nonce
        × GivenOnce params (codes "digest-uri") c.digest_uri
        × GivenOnce params (codes "response") c.response
  unfolding credentials
  credentials-once params c h =
      from_each (lookup (codes "username") params) (lookup (codes "realm") params)
        (lookup (codes "nonce") params) (lookup (codes "digest-uri") params)
        (lookup (codes "response") params) h
    where
      from_each :
          (u r n d p : Option (List Bytes))
          → credentials_from (single u) (single r) (single n) (single d) (single p) ≡ some c
          → (u ≡ some (c.username ∷ []))
            × (r ≡ some (c.realm ∷ []))
            × (n ≡ some (c.nonce ∷ []))
            × (d ≡ some (c.digest_uri ∷ []))
            × (p ≡ some (c.response ∷ []))
      from_each u r n d p h =
          let (a, b, c', d', e) =
            credentials_from-some (single u) (single r) (single n) (single d) (single p) c h in
          (
            single-some u c.username a,
            single-some r c.realm b,
            single-some n c.nonce c',
            single-some d c.digest_uri d',
            single-some p c.response e,
          )

  due_accepted :
      (params : Parameters) (c : Credentials)
      → parse_digest (Headers.get msg.header header) ≡ ok params
      → credentials params ≡ some c
      → Headers.get msg.header header ≢ []
      → msg.method ≢ []
      → c.response ≡ due c (lookup_a1 c.username c.realm)
      → auth_message hash lookup_a1 header msg ≡ ok (true, 0)
  unfolding auth_message
  due_accepted params c p e h m r = rw (given, p) (accepted (credentials params) e)
    where
      given : (Headers.get msg.header header == []) ≡ false
      given = ground (arith, bytes_beq_iff (Headers.get msg.header header) [])

      method : (msg.method == []) ≡ false
      method = ground (arith, bytes_beq_iff msg.method [])

      same : (c.response == due c (lookup_a1 c.username c.realm)) ≡ true
      same = ground (arith, bytes_beq_iff c.response (due c (lookup_a1 c.username c.realm)))

      accepted :
          (o : Option Credentials)
          → o ≡ some c
          → ok (check hash lookup_a1 header msg o) ≡ ok (true, 0)
      accepted o q = rw q (unfold check auth in simp (method, same))

  once-credentials :
      (params : Parameters) (u r n d p : Bytes)
      → GivenOnce params (codes "username") u
      → GivenOnce params (codes "realm") r
      → GivenOnce params (codes "nonce") n
      → GivenOnce params (codes "digest-uri") d
      → GivenOnce params (codes "response") p
      → credentials params
        ≡ some (record { username = u; realm = r; nonce = n; digest_uri = d; response = p })
  unfolding credentials credentials_from
  once-credentials params u r n d p hu hr hn hd hp = rw (hu, hr, hn, hd, hp) refl

  -- A message is accepted, and then with the status 0, exactly when it has a method and the header, of which
  -- the parameters username, realm, nonce, digest-uri and response are each given once, and the response is
  -- the hash of the hash that is looked up for the user and the realm, the nonce, and the hash of the method
  -- and the URI.
  pub auth_message-true :
      (status : ℕ)
      → (auth_message hash lookup_a1 header msg ≡ ok (true, status)) ↔ ((status ≡ 0) × IsAccepted)
  unfolding auth_message
  auth_message-true status = (only, when)
    where
      only : auth_message hash lookup_a1 header msg ≡ ok (true, status) → (status ≡ 0) × IsAccepted
      only h =
          let (there, o) = given-true (Headers.get msg.header header == []) _ _ status h in
          let (params, c, p, e, r, m, z) =
            check_parameters-true (parse_digest (Headers.get msg.header header)) status o in
          let (hu, hr, hn, hd, hp) = credentials-once params c e in
          (
            z,
            (
              ground (arith, bytes_beq_iff (Headers.get msg.header header) []),
              m,
              params,
              c.username,
              c.realm,
              c.nonce,
              c.digest_uri,
              c.response,
              p,
              hu,
              hr,
              hn,
              hd,
              hp,
              r,
            ),
          )

      when : (status ≡ 0) × IsAccepted → auth_message hash lookup_a1 header msg ≡ ok (true, status)
      when (z, (h, m, params, u, r, n, d, p, parsed, hu, hr, hn, hd, hp, e)) = rw z (
          due_accepted params
            (record { username = u; realm = r; nonce = n; digest_uri = d; response = p }) parsed
            (once-credentials params u r n d p hu hr hn hd hp) h m e)

  -- A user whom the lookup does not know, for which it gives the empty text, is accepted with a
  -- response that needs no secret: the one due for the empty hash.
  pub unknown_user_accepted :
      (params : Parameters) (c : Credentials)
      → parse_digest (Headers.get msg.header header) ≡ ok params
      → credentials params ≡ some c
      → Headers.get msg.header header ≢ []
      → msg.method ≢ []
      → lookup_a1 c.username c.realm ≡ []
      → c.response ≡ due c []
      → auth_message hash lookup_a1 header msg ≡ ok (true, 0)
  unknown_user_accepted params c p e h m l r = due_accepted params c p e h m (rw l r)
