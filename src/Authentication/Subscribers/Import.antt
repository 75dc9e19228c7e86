-- ===== src/Authentication/Subscribers/Import.antt =====
-- What an import of subscribers leaves, and whom it lets in (proxy_auth.go).
use mathlib.Core.Path.{subst}
use mathlib.Core.List.{append_assoc, append-nil}
use tjsip.Base.{
  given, ℕ, Bool, true, false, Option, none, some, List, [], ◌∷◌, ◌++◌, Bytes, ◌≡◌, ◌≢◌, refl, sym,
  ◌∙◌, arith, ◌<◌, Option-cases, inl, inr,
}
use tjsip.Base.Classes.{bytes_eq}
use tjsip.Base.Outcome.{ok}
use tjsip.Message.{Message}
use tjsip.Message.Headers
use tjsip.Authentication.{Parameters, Credentials, credentials, parse_digest, auth_message}
use tjsip.Authentication.Accepts.{unknown_user_accepted, due}
use tjsip.Authentication.Subscribers.{
  AuthRecord, expired, query_user, query_a1md5, Database, subscriber, row_of, insert_lines,
  import_subscriber,
}

-- The nonce of every row has run out when the clock starts.
abbrev pub AreStale : List AuthRecord → Type 0
AreStale [] = Unit {0}
AreStale (a ∷ table) = (a.nonce_expired_at ≡ 0) × AreStale table

AreStale-append : (xs ys : List AuthRecord) → AreStale xs → AreStale ys → AreStale (xs ++ ys)
AreStale-append [] ys h k = k
AreStale-append (x ∷ xs) ys h k = (h.0, AreStale-append xs ys h.1 k)

query_a1md5-stale :
    (table : List AuthRecord) (now : ℕ) (username realm : Bytes)
    → AreStale table
    → 0 < now
    → query_a1md5 table now username realm ≡ []
unfolding query_a1md5 query_user expired
query_a1md5-stale [] now username realm h k = refl
query_a1md5-stale (a ∷ table) now username realm h k =
    ground (arith, query_a1md5-stale table now username realm h.1 k)

module _ (hash : Bytes → Bytes) where
  -- The rows of all lines, where none is refused
  abbrev pub rows_of : List (List Bytes) → Option (List AuthRecord)
  rows_of [] = some []
  rows_of (line ∷ lines) = elim (row_of hash line) [
    | none ↦ none
    | some a ↦ elim (rows_of lines) [ none ↦ none | some rows ↦ some (a ∷ rows) ]
  ]

  insert_lines-rows :
      (inserts : AuthRecord → Bool) (table : List AuthRecord) (reads : List (Option (List Bytes)))
      (t : List AuthRecord)
      → insert_lines hash inserts table reads ≡ some t
      → (rows : List AuthRecord) × (rows_of (given reads) ≡ some rows) × (t ≡ table ++ rows)
  unfolding insert_lines
  insert_lines-rows inserts table [] t h = ([], refl, ground (arith, append-nil table))
  insert_lines-rows inserts table (none ∷ reads) t h = ([], refl, ground (arith, append-nil table))
  insert_lines-rows inserts table (some line ∷ reads) t h = elim (Option-cases (row_of hash line)) [
    | inl e ↦ absurd (ground arith)
    | inr (a, e) ↦
        let more : insert_lines hash inserts (table ++ a ∷ []) reads ≡ some t = ground arith in
        let (rows, r, s) = insert_lines-rows inserts (table ++ a ∷ []) reads t more in
        (a ∷ rows, ground arith, s ∙ append_assoc table (a ∷ []) rows)
  ]

  -- What an import that returns leaves of a table
  abbrev pub Imported :
      List AuthRecord → Option (List (Option (List Bytes))) → List AuthRecord → Bool → Type 0
  Imported table file t false = t ≡ table
  Imported table file t true =
      (reads : List (Option (List Bytes))) × (rows : List AuthRecord) × (file ≡ some reads)
      × (rows_of (given reads) ≡ some rows)
      × (t ≡ table ++ rows)

  pub import_subscriber_lem :
      (db : Database) (table : List AuthRecord) (path : Bytes)
      (file : Option (List (Option (List Bytes)))) (t : List AuthRecord) (done : Bool)
      → import_subscriber hash db table path file ≡ ok (t, done)
      → Imported table file t done
  unfolding import_subscriber
  import_subscriber_lem db table path none t false h = ground arith
  import_subscriber_lem db table path none t true h = absurd (ground arith)
  import_subscriber_lem db table path (some reads) t false h = ground arith
  import_subscriber_lem db table path (some reads) t true h =
      let (rows, r, s) = insert_lines-rows db.inserts table reads t (ground arith) in
      (reads, rows, refl, r, s)

  row_of-stale :
      (line : List Bytes) (a : AuthRecord) → row_of hash line ≡ some a → a.nonce_expired_at ≡ 0
  unfolding row_of subscriber
  row_of-stale (u ∷ p ∷ r ∷ []) a h = ground arith
  row_of-stale line a h = absurd (ground arith)

  rows_of-stale :
      (lines : List (List Bytes)) (rows : List AuthRecord)
      → rows_of lines ≡ some rows
      → AreStale rows
  rows_of-stale [] [] h = tt
  rows_of-stale [] (_ ∷ _) h = absurd (ground arith)
  rows_of-stale (line ∷ lines) rows h = elim (Option-cases (row_of hash line)) [
    | inl e ↦ absurd (ground arith)
    | inr (a, e) ↦ elim (Option-cases (rows_of lines)) [
      | inl none_there ↦ absurd (ground arith)
      | inr (more, there) ↦
          let same : a ∷ more ≡ rows = ground arith in
          subst AreStale same (row_of-stale line a e, rows_of-stale lines more there)
    ]
  ]

  Imported-stale :
      (table : List AuthRecord) (file : Option (List (Option (List Bytes)))) (t : List AuthRecord)
      (done : Bool)
      → AreStale table
      → Imported table file t done
      → AreStale t
  Imported-stale table file t false h e = subst AreStale (sym e) h
  Imported-stale table file t true h (reads, rows, f, r, e) =
      subst AreStale (sym e) (AreStale-append table rows h (rows_of-stale (given reads) rows r))

  -- After an import into an empty table, whatever its end, no user has a hash at any time after the epoch, so a message is accepted with credentials of any user, known or not, whose response is the one due for the empty hash.
  pub imported_user_accepted :
      (db : Database) (path : Bytes) (file : Option (List (Option (List Bytes))))
      (t : List AuthRecord) (done : Bool) (now : ℕ) (header : Bytes) (msg : Message)
      (params : Parameters) (c : Credentials)
      → import_subscriber hash db [] path file ≡ ok (t, done)
      → 0 < now
      → parse_digest (Headers.get msg.header header) ≡ ok params
      → credentials params ≡ some c
      → Headers.get msg.header header ≢ []
      → msg.method ≢ []
      → c.response ≡ due hash (query_a1md5 t now) header msg c []
      → auth_message hash (query_a1md5 t now) header msg ≡ ok (true, 0)
  imported_user_accepted db path file t done now header msg params c h later p e given method r =
      let stale : AreStale t =
        Imported-stale [] file t done tt (import_subscriber_lem db [] path file t done h) in
      unknown_user_accepted hash (query_a1md5 t now) header msg params c p e given method
        (query_a1md5-stale t now c.username c.realm stale later) r
