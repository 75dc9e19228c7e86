-- ===== src/Registration.antt =====
-- The registrar of proxy_registration.go, up to the operations that it issues to the database.
pub mod Operations
pub mod Bindings
pub mod Issue
use tjsip.Base.{
  ℕ, ◌≡◌, refl, Bool, true, false, not, ◌&&◌, ◌||◌, Option, none, some, List, [], ◌∷◌, ◌++◌, Bytes,
  codes, leb, ltb, nat_beq, if◌then◌else◌, is_some,
}
use tjsip.Base.Classes.{◌==◌, bytes_eq}
use tjsip.Base.Assoc.{Assoc, lookup}
use tjsip.Base.Int.{ℤ, pos, negsuc}
use tjsip.Base.Text.{parse_int}
use tjsip.Message.{Uri, NameAddr, Contact, Message}
use tjsip.Message.Headers

abbrev pub status_bad_request : ℕ
status_bad_request = 400

abbrev pub status_interval_too_brief : ℕ
status_interval_too_brief = 423

-- MinimumRegisterExpiresValue
abbrev pub minimum_expires : ℕ
minimum_expires = 90

pub data OperationKind : Type 0 where
  query update del del_all : OperationKind

pub record RegistrationOperation : Type 0 where
  pub operation : OperationKind
  pub bind_addr : Option Uri
  pub expires : ℤ
  pub q : ℤ

abbrev pub new_operation : OperationKind → RegistrationOperation
new_operation kind = record { operation = kind; bind_addr = none; expires = pos 0; q = pos 0 }

-- A result, or the status with which the request is refused.
pub data Result (A : Type 0) : Type 0 where
  done : A → Result A
  refused : ℕ → Result A

abbrev pub is_zero : ℤ → Bool
is_zero (pos n) = nat_beq n 0
is_zero (negsuc n) = false

-- q > 1 || q < 0
abbrev pub out_of_range : ℤ → Bool
out_of_range (pos n) = ltb 1 n
out_of_range (negsuc n) = true

-- expires < MinimumRegisterExpiresValue
abbrev pub too_brief : ℤ → Bool
too_brief (pos n) = ltb n minimum_expires
too_brief (negsuc n) = true

abbrev pub has_uri : Option NameAddr → Bool
has_uri none = false
has_uri (some addr) = elim addr.uri [ none ↦ false | some _ ↦ true ]

-- The `Get` of url.Values
abbrev pub value_of : Bytes → Assoc Bytes (List Bytes) → Bytes
value_of key values = elim (lookup key values) [
  | none ↦ []
  | some vs ↦ elim vs [ [] ↦ [] | v ∷ _ ↦ v ]
]

-- What strconv.Atoi returns for a number, and for the empty text.
abbrev pub or_zero : Option ℤ → ℤ
or_zero none = pos 0
or_zero (some x) = x

-- The value of the Expires header.
abbrev pub expires_text : Message → Bytes
expires_text msg = Headers.get msg.header (codes "expires")

abbrev pub contacts_of : Option (List Contact) → List Contact
contacts_of none = []
contacts_of (some cs) = cs

abbrev pub bind_of : Option NameAddr → Option Uri
bind_of none = none
bind_of (some addr) = addr.uri

-- url.ParseQuery, and `int(x * 100)` of the number x that strconv.ParseFloat reads.
module _ (parse_query : Bytes → Assoc Bytes (List Bytes)) (parse_percent : Bytes → Option ℤ) where
  -- determOperation for an address, behind the test of its quality
  by_expires : Bytes → ℤ → ℤ → Bool → Option Uri → Result RegistrationOperation
  by_expires text q expires ok_e bind =
      let ok_pe = not (text == []) in
      let p_expires = or_zero (parse_int text) in
      let expected : ℤ =
        if ok_e then expires else if ok_pe then p_expires else pos minimum_expires in
      if ok_pe && not (is_some (parse_int text))
      then refused status_bad_request
      else if (ok_pe && is_zero p_expires) || (ok_e && is_zero expires && not ok_pe)
      then done (record (new_operation del) { bind_addr = bind })
      else if too_brief expected
      then refused status_interval_too_brief
      else done (record { operation = update; bind_addr = bind; expires = expected; q = q })

  unfoldable pub determ_operation :
      Option Contact → ℤ → Bool → Option Uri → Result RegistrationOperation
  unfolding by_expires
  determ_operation none expires ok_e bind = refused status_bad_request
  determ_operation (some contact) expires ok_e bind =
      if contact.star
      then if is_zero expires then done (new_operation del_all) else refused status_bad_request
      else if not (has_uri contact.addr)
      then refused status_bad_request
      else let values = parse_query contact.raw_parameter in
        let q = or_zero (parse_percent (value_of (codes "q") values)) in
        if out_of_range q
        then refused status_bad_request
        else by_expires (value_of (codes "expires") values) q expires ok_e bind

  -- The loop of `registration`, which ends at the first contact that is refused.
  collect :
      Result RegistrationOperation
      → Result (List RegistrationOperation)
      → Result (List RegistrationOperation)
  collect (refused status) rest = refused status
  collect (done op) (refused status) = refused status
  collect (done op) (done ops) = done (op ∷ ops)

  unfoldable pub determ_all : ℤ → Bool → List Contact → Result (List RegistrationOperation)
  unfolding collect
  determ_all expires ok_e [] = done []
  determ_all expires ok_e (c ∷ cs) =
      collect (determ_operation (some c) expires ok_e (bind_of c.addr)) (determ_all expires ok_e cs)

  abbrev with_query : Result (List RegistrationOperation) → Result (List RegistrationOperation)
  with_query (refused status) = refused status
  with_query (done ops) = done (ops ++ new_operation query ∷ [])

  -- `registration`, up to the call of issueTransaction
  unfoldable pub operations : Message → Result (List RegistrationOperation)
  unfolding determ_all
  operations msg =
      let text = expires_text msg in
      let ok_e = not (text == []) in
      if ok_e && not (is_some (parse_int text))
      then refused status_bad_request
      else with_query (determ_all (or_zero (parse_int text)) ok_e (contacts_of msg.contact))
