-- ===== src/Examples/Logins.antt =====
-- Digest authentication at work.
use tjsip.Base.{
  ℕ, ◌↔◌, Option, none, ◌≡◌, ◌≢◌, refl, true, false, List, some, [], ◌∷◌, ◌++◌, Bytes, codes, arith,
}
use tjsip.Base.Classes.{bytes_beq}
use tjsip.Base.Assoc.{lookup, insert}
use tjsip.Base.Text.{trim, split_2, to_lower, canonical}
use tjsip.Base.Outcome.{ok}
use tjsip.Message.{Message}
use tjsip.Message.Headers
use tjsip.Authentication.{Parameters, Credentials, credentials, parse_digest, auth_message}
use tjsip.Authentication.Accepts.{IsAccepted, auth_message-true, unknown_user_accepted}
use tjsip.Authentication.Subscribers.{
  AuthRecord, Database, subscriber, query_a1md5, import_subscriber,
}
use tjsip.Authentication.Subscribers.Import.{imported_user_accepted}
use tjsip.Examples.{invite, empty_message}

-- A text stands for its own hash, and no user is known.
abbrev plain : Bytes → Bytes
plain s = s

abbrev nobody : Bytes → Bytes → Bytes
nobody user realm = []

abbrev authorization : Bytes
authorization =
    codes
      "Digest username=\"u\", realm=\"r\", nonce=\"n\", digest-uri=\"d\", response=\":n:INVITE:d\""

abbrev forged : Message
forged = record invite { header = (codes "Authorization", authorization ∷ []) ∷ [] }

abbrev forged_credentials : Credentials
forged_credentials = record {
  username = codes "u";
  realm = codes "r";
  nonce = codes "n";
  digest_uri = codes "d";
  response = codes ":n:INVITE:d";
}

abbrev forged_parameters : Parameters
forged_parameters =
    (codes "response", codes ":n:INVITE:d" ∷ [])
    ∷ (codes "digest-uri", codes "d" ∷ [])
    ∷ (codes "nonce", codes "n" ∷ [])
    ∷ (codes "realm", codes "r" ∷ [])
    ∷ (codes "username", codes "u" ∷ [])
    ∷ []

forged_header : Headers.get forged.header (codes "Authorization") ≡ authorization
unfolding Headers.get canonical lookup bytes_beq empty_message
forged_header = refl

forged_parsed :
    parse_digest (Headers.get forged.header (codes "Authorization")) ≡ ok forged_parameters
unfolding parse_digest Headers.get canonical lookup insert bytes_beq split_2 trim to_lower
    empty_message
forged_parsed = refl

forged_read : credentials forged_parameters ≡ some forged_credentials
unfolding credentials lookup bytes_beq
forged_read = refl

not_empty : Headers.get forged.header (codes "Authorization") ≢ []
unfolding Headers.get canonical lookup bytes_beq empty_message
not_empty h = absurd (ground arith)

has_method : forged.method ≢ []
unfolding empty_message
has_method h = absurd (ground arith)

forged_accepted : auth_message plain nobody (codes "Authorization") forged ≡ ok (true, 0)
unfolding empty_message
forged_accepted =
    unknown_user_accepted plain nobody (codes "Authorization") forged forged_parameters
      forged_credentials forged_parsed forged_read not_empty has_method refl refl

auth_message-true_example :
    (auth_message plain nobody (codes "Authorization") forged ≡ ok (true, 0))
    ↔ ((◌≡◌ {A = ℕ} 0 0) × IsAccepted plain nobody (codes "Authorization") forged)
auth_message-true_example = auth_message-true plain nobody (codes "Authorization") forged 0

-- The last byte of a last parameter without quotes is lost.
unquoted_last : parse_digest (codes "Digest realm=abc") ≡ ok ((codes "realm", codes "ab" ∷ []) ∷ [])
unfolding parse_digest lookup insert bytes_beq split_2 trim to_lower
unquoted_last = refl

-- A database that accepts all statements
abbrev database : Database
database = record { begins = true; inserts = λ a. true; commits = true }

abbrev subscribers : List (Option (List Bytes))
subscribers = some (codes "u" ∷ codes "secret" ∷ codes "r" ∷ []) ∷ []

abbrev imported : List AuthRecord
imported = subscriber plain (codes "u") (codes "secret") (codes "r") ∷ []

imports : import_subscriber plain database [] (codes "f") (some subscribers) ≡ ok (imported, true)
unfolding import_subscriber bytes_beq
imports = refl

-- A line without a realm takes the lines in front of it back.
no_realm :
    import_subscriber plain database []
      (codes "f")
      (some (subscribers ++ some (codes "v" ∷ codes "w" ∷ [] ∷ []) ∷ []))
    ≡ ok ([], false)
unfolding import_subscriber bytes_beq
no_realm = refl

-- An error of the reader ends the file, and the lines in front of it stay.
reader_fails :
    import_subscriber plain database [] (codes "f") (some (subscribers ++ none ∷ subscribers))
    ≡ ok (imported, true)
unfolding import_subscriber bytes_beq
reader_fails = refl

imported_user_accepted_example :
    auth_message plain (query_a1md5 imported 1) (codes "Authorization") forged ≡ ok (true, 0)
unfolding empty_message
imported_user_accepted_example =
    imported_user_accepted plain database (codes "f") (some subscribers) imported true 1
      (codes "Authorization") forged forged_parameters forged_credentials imports (omega arith)
      forged_parsed forged_read not_empty has_method refl
