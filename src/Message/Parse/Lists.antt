-- ===== src/Message/Parse/Lists.antt =====
-- The readers of lists of addresses in sip/header.go end: the text is fuel enough for them.
use tjsip.Base.{
  ℕ, zero, suc, ◌≡◌, ◌≤◌, ◌<◌, refl, arith, Option, none, some, List, [], ◌∷◌, ◌++◌, ◌||◌, Bytes,
  codes, length, drop, is_some, Option-cases, Bool-cases, inl, inr,
}
use tjsip.Base.Text.{trim, blanks, split_2}
use tjsip.Base.Outcome.{Outcome, ok, err, panic, ◌>>=◌}
use tjsip.Message.{To, Contact}
use tjsip.Message.Urls.{Urls}
use tjsip.Message.Parse.{
  Scan, name_addr_at, name_addr_of, parse_name_addr, rest_of, value_rest, new_contact_header,
  parse_contacts, parse_contacts_from, parse_name_addr_formats, parse_name_addr_formats_from,
}
use tjsip.Message.Parse.Fuel.{length-trim, length-trim_left, length-split_2}

length-drop : (n : ℕ) (s : Bytes) → length (drop n s) ≤ length s
length-drop zero s = omega arith
length-drop (suc n) [] = omega arith
length-drop (suc n) (c ∷ s) = omega (arith, length-drop n s)

length-rest_of :
    (o : Option Bytes) (n : ℕ)
    → ((r : Bytes) → o ≡ some r → length r < suc n)
    → length (rest_of o) ≤ n
unfolding rest_of
length-rest_of none n h = omega arith
length-rest_of (some r) n h = omega (arith, h r refl, length-trim (b' ' ∷ b'\t' ∷ []) r)

length-value_rest : (s : Bytes) (n : ℕ) → length s ≤ suc n → length (value_rest s).1 ≤ n
length-value_rest s n h =
    length-rest_of (split_2 b',' s).1 n (λ r e. omega (arith, length-split_2 b',' s r e))

module _ (urls : Urls) where
  length-name_addr_at :
      (s : Bytes) (at : Option ℕ) (close : ℕ) → length (name_addr_at urls s at close).1 ≤ length s
  unfolding name_addr_at
  length-name_addr_at s at close =
      omega (arith, length-trim_left (codes " <>") (drop close s), length-drop close s)

  length-name_addr_of : (s : Bytes) (at : Scan) → length (name_addr_of urls s at).1 ≤ length s
  unfolding name_addr_of
  length-name_addr_of s at = elim (Option-cases at.close_at) [
    | inl e ↦ elim (Bool-cases (at.in_quotes || is_some at.open_at)) [
      | inl q ↦ rw (e, q, name_addr_of) (omega arith)
      | inr q ↦ rw (e, q, name_addr_of) (length-name_addr_at s none (length s))
    ]
    | inr (close, e) ↦ rw (e, name_addr_of) (length-name_addr_at s at.open_at close)
  ]

  -- The values behind the first of a text are shorter than the text.
  length-rest :
      (c : ℕ) (s : Bytes) → length (value_rest (parse_name_addr urls (c ∷ s)).1).1 ≤ length s
  unfolding parse_name_addr
  length-rest c s = length-value_rest _ (length s) (length-name_addr_of (c ∷ s) _)

  -- What ParseContacts does behind the first value, where `f` reads the others.
  abbrev contacts_by :
      (Bytes → List Contact → Outcome (List Contact))
      → Bytes
      → List Contact
      → Outcome (List Contact)
  contacts_by f s cons =
      let (addr, trail) = parse_name_addr urls s in
      let (param, rest) = value_rest trail in
      new_contact_header urls addr param >>= λ contact. f rest (cons ++ contact ∷ [])

  module _ (f g : Bytes → List Contact → Outcome (List Contact)) (cons : List Contact) where
    agree_on :
        (rest : Bytes) (o : Outcome Contact)
        → ((cs : List Contact) → f rest cs ≡ g rest cs)
        → (o >>= λ c. f rest (cons ++ c ∷ [])) ≡ (o >>= λ c. g rest (cons ++ c ∷ []))
    agree_on rest (ok c) h = h (cons ++ c ∷ [])
    agree_on rest (err e) h = refl
    agree_on rest panic h = refl

  parse_contacts_from-fuel :
      (n m : ℕ) (s : Bytes) (cons : List Contact)
      → length s ≤ n
      → length s ≤ m
      → parse_contacts_from urls n s cons ≡ parse_contacts_from urls m s cons
  unfolding parse_contacts_from
  parse_contacts_from-fuel n m [] cons hn hm = ground arith
  parse_contacts_from-fuel zero m (c ∷ s) cons hn hm = absurd (omega arith)
  parse_contacts_from-fuel (suc n) zero (c ∷ s) cons hn hm = absurd (omega arith)
  parse_contacts_from-fuel (suc n) (suc m) (c ∷ s) cons hn hm =
      agree_on (parse_contacts_from urls n) (parse_contacts_from urls m) cons _ _ (λ cs.
        parse_contacts_from-fuel n m _ cs (omega (arith, length-rest c s))
          (omega (arith, length-rest c s)))

  -- `ParseContacts` ends on every text, and does what its recursion says: of a text that is not empty it
  -- reads an address and its parameters up to a comma, adds the contact, and goes on with the rest.
  pub parse_contacts_lem :
      (c : ℕ) (s : Bytes) (cons : List Contact)
      → (parse_contacts urls [] cons ≡ ok cons)
        × (parse_contacts urls (c ∷ s) cons ≡ contacts_by (parse_contacts urls) (c ∷ s) cons)
  unfolding parse_contacts
  parse_contacts_lem c s cons = (
    unfold parse_contacts_from in refl,
    unfold parse_contacts_from in
        agree_on (parse_contacts_from urls (length s)) (parse_contacts urls) cons _ _
          (λ cs. parse_contacts_from-fuel (length s) _ _ cs (length-rest c s) (omega arith)),
  )

  -- The same for the routes
  abbrev formats_by : (Bytes → List To → List To) → Bytes → List To → List To
  formats_by f s cons =
      let (addr, trail) = parse_name_addr urls s in
      let (param, rest) = value_rest trail in
      f rest (cons ++ record { addr = addr; raw_parameter = trim (blanks ++ b';' ∷ []) param } ∷ [])

  formats_from-fuel :
      (n m : ℕ) (s : Bytes) (cons : List To)
      → length s ≤ n
      → length s ≤ m
      → parse_name_addr_formats_from urls n s cons ≡ parse_name_addr_formats_from urls m s cons
  unfolding parse_name_addr_formats_from
  formats_from-fuel n m [] cons hn hm = ground arith
  formats_from-fuel zero m (c ∷ s) cons hn hm = absurd (omega arith)
  formats_from-fuel (suc n) zero (c ∷ s) cons hn hm = absurd (omega arith)
  formats_from-fuel (suc n) (suc m) (c ∷ s) cons hn hm =
      formats_from-fuel n m (value_rest (parse_name_addr urls (c ∷ s)).1).1 _
        (omega (arith, length-rest c s)) (omega (arith, length-rest c s))

  -- `ParseNameAddrFormats` ends on every text, and does what its recursion says: of a text that is not
  -- empty it reads an address and its parameters up to a comma, and goes on with the rest.
  pub parse_name_addr_formats_lem :
      (c : ℕ) (s : Bytes) (cons : List To)
      → (parse_name_addr_formats urls [] cons ≡ cons)
        × (parse_name_addr_formats urls (c ∷ s) cons
            ≡ formats_by (parse_name_addr_formats urls) (c ∷ s) cons)
  unfolding parse_name_addr_formats
  parse_name_addr_formats_lem c s cons = (
    unfold parse_name_addr_formats_from in refl,
    unfold parse_name_addr_formats_from in
        formats_from-fuel (length s) _ _ _ (length-rest c s) (omega arith),
  )
