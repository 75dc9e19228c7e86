-- ===== src/Authentication/Subscribers.antt =====
-- The subscribers that authentication looks up (proxy_auth.go). The table of the database is a list of
-- rows, and a statement is the function on lists that it says. Times are seconds since the epoch.
pub mod Import
use tjsip.Base.{
  ℕ, Bool, true, false, not, ◌&&◌, ◌||◌, Option, none, some, List, [], ◌∷◌, ◌++◌, Bytes, ltb,
  if◌then◌else◌,
}
use tjsip.Base.Classes.{◌==◌, bytes_eq}
use tjsip.Base.Outcome.{Outcome, ok, panic}

pub record AuthRecord : Type 0 where
  pub username : Bytes
  pub realm : Bytes
  pub nonce : Bytes
  pub a1md5 : Bytes
  pub nonce_expired_at : ℕ

unfoldable pub expired : AuthRecord → ℕ → Bool
expired a now = ltb a.nonce_expired_at now

-- queryUser: the first row of the user in the realm
unfoldable pub query_user : List AuthRecord → Bytes → Bytes → Option AuthRecord
query_user [] username realm = none
query_user (a ∷ table) username realm =
    if a.username == username && a.realm == realm then some a else query_user table username realm

unfoldable pub query_a1md5 : List AuthRecord → ℕ → Bytes → Bytes → Bytes
unfolding query_user expired
query_a1md5 table now username realm = elim (query_user table username realm) [
  | none ↦ []
  | some a ↦ if expired a now then [] else a.a1md5
]

-- What the database accepts
pub record Database : Type 0 where
  pub begins : Bool
  pub inserts : AuthRecord → Bool
  pub commits : Bool

-- `hash` is the hexadecimal text of the MD5 sum.
module _ (hash : Bytes → Bytes) where
  unfoldable calc_a1md5 : Bytes → Bytes → Bytes → Bytes
  calc_a1md5 username realm password = hash (username ++ b':' ∷ (realm ++ b':' ∷ password))

  -- The row that is inserted for a line
  unfoldable pub subscriber : Bytes → Bytes → Bytes → AuthRecord
  unfolding calc_a1md5
  subscriber username password realm = record {
    username = username;
    realm = realm;
    nonce = [];
    a1md5 = calc_a1md5 username realm password;
    nonce_expired_at = 0;
  }

  -- The row of a line; `none` is a line that is refused.
  unfoldable pub row_of : List Bytes → Option AuthRecord
  unfolding subscriber
  row_of (username ∷ password ∷ realm ∷ []) =
      if username == [] && password == [] || realm == []
      then none
      else some (subscriber username password realm)
  row_of _ = none

  -- The loop over what the CSV reader gives: `none` is its end or an error, as for a line with another
  -- number of fields than the first, which end the loop alike. The result `none` is a rollback.
  unfoldable pub insert_lines :
      (AuthRecord → Bool) → List AuthRecord → List (Option (List Bytes)) → Option (List AuthRecord)
  unfolding row_of
  insert_lines inserts table [] = some table
  insert_lines inserts table (none ∷ reads) = some table
  insert_lines inserts table (some line ∷ reads) = elim (row_of line) [
    | none ↦ none
    | some a ↦ if inserts a then insert_lines inserts (table ++ a ∷ []) reads else none
  ]

  -- importSubscriber: `file` is `none` where it cannot be opened, and otherwise what the CSV
  -- reader gives.
  unfoldable pub import_subscriber :
      Database
      → List AuthRecord
      → Bytes
      → Option (List (Option (List Bytes)))
      → Outcome (List AuthRecord × Bool)
  unfolding insert_lines
  import_subscriber db table path file = if path == [] then ok (table, false) else elim file [
    | none ↦ panic
    | some reads ↦
        if db.begins
        then elim (insert_lines db.inserts table reads) [
          | none ↦ ok (table, false)
          | some rows ↦ ok (if db.commits then (rows, true) else (table, false))
        ]
        else ok (table, false)
  ]
