-- ===== src/Message/Parse/Fuel.antt =====
-- The readers of sip/header.go that call themselves end: the text is fuel enough for them.
use mathlib.Core.List.{reverse, reverse-cons}
use tjsip.Base.{
  ℕ, zero, suc, ◌≡◌, ◌≤◌, ◌<◌, refl, arith, Bool, true, false, Option, none, some, List, [], ◌∷◌,
  ◌++◌, Bytes, length, length-append,
}
use tjsip.Base.Text.{trim, trim_left, blanks, split_2}
use tjsip.Base.Outcome.{Outcome, ok, ◌>>=◌}
use tjsip.Message.Via
use tjsip.Message.Via.{Via, ViaHeaders}
use tjsip.Message.Parse.{parse_vias, parse_vias_from, first_via, until_comma, until_separator}

length-reverse : {A : Type 0} (s : List A) → length (reverse s) ≡ length s
length-reverse [] = refl
length-reverse (x ∷ s) =
    rw reverse-cons (omega (arith, length-append (reverse s) (x ∷ []), length-reverse s))

pub length-trim_left : (cut s : Bytes) → length (trim_left cut s) ≤ length s
unfolding trim_left
length-trim_left cut [] = omega arith
length-trim_left cut (c ∷ s) = ground (arith, length-trim_left cut s)

pub length-trim : (cut s : Bytes) → length (trim cut s) ≤ length s
unfolding trim
length-trim cut s = omega (
  arith,
  length-reverse (trim_left cut (reverse (trim_left cut s))),
  length-trim_left cut (reverse (trim_left cut s)),
  length-reverse (trim_left cut s),
  length-trim_left cut s,
)

pub length-split_2 :
    (sep : ℕ) (s rest : Bytes) → (split_2 sep s).1 ≡ some rest → length rest < length s
unfolding split_2
length-split_2 sep [] rest e = absurd (ground arith)
length-split_2 sep (c ∷ s) rest e = ground (arith, length-split_2 sep s rest)

length-until_separator : (s : Bytes) → length (until_separator s).1 ≤ length s
unfolding until_separator
length-until_separator [] = omega arith
length-until_separator (c ∷ s) = ground (arith, length-until_separator s)

length-until_comma : (b : Bool) (s : Bytes) → length (until_comma b s).1 ≤ length s
unfolding until_comma
length-until_comma b [] = omega arith
length-until_comma b (c ∷ s) = ground (arith, length-until_comma true s, length-until_comma false s)

-- What ParseVias does with the values behind the first one, where `f` reads them.
abbrev rest_by :
    (Bytes → ViaHeaders → Outcome ViaHeaders) → ViaHeaders → Via × Bytes → Outcome ViaHeaders
rest_by f v (via, trail) = f trail (Via.append v via).0

abbrev trail_of : Bytes → Bytes
trail_of rest =
    trim (blanks ++ b',' ∷ []) (until_comma false (until_separator (trim blanks rest)).1).1

length-trail_of : (rest : Bytes) → length (trail_of rest) ≤ length rest
length-trail_of rest =
    let s = (until_separator (trim blanks rest)).1 in
    omega (
      arith,
      length-trim (blanks ++ b',' ∷ []) (until_comma false s).1,
      length-until_comma false s,
      length-until_separator (trim blanks rest),
      length-trim blanks rest,
    )

module _ (n : ℕ) (f g : Bytes → ViaHeaders → Outcome ViaHeaders) (v : ViaHeaders) where
  after_first :
      (p : Bytes × Option Bytes)
      → ((s : Bytes) (w : ViaHeaders) → length s ≤ n → f s w ≡ g s w)
      → ((rest : Bytes) → p.1 ≡ some rest → length rest ≤ n)
      → (first_via p >>= rest_by f v) ≡ (first_via p >>= rest_by g v)
  unfolding first_via
  after_first (proto, none) agree h = refl
  after_first (proto, some rest) agree h =
      agree (trail_of rest) _ (omega (arith, length-trail_of rest, h rest refl))

  -- The values behind the first of a text are shorter than the text.
  after_value :
      (c : ℕ) (s : Bytes)
      → length s ≤ n
      → ((s : Bytes) (w : ViaHeaders) → length s ≤ n → f s w ≡ g s w)
      → (first_via (split_2 b' ' (trim blanks (c ∷ s))) >>= rest_by f v)
        ≡ (first_via (split_2 b' ' (trim blanks (c ∷ s))) >>= rest_by g v)
  after_value c s h agree = after_first (split_2 b' ' (trim blanks (c ∷ s))) agree (λ rest e.
      let shorter = length-split_2 b' ' (trim blanks (c ∷ s)) rest e in
      omega (arith, length-trim blanks (c ∷ s)))

parse_vias_from-fuel :
    (n m : ℕ) (s : Bytes) (v : ViaHeaders)
    → length s ≤ n
    → length s ≤ m
    → parse_vias_from n s v ≡ parse_vias_from m s v
unfolding parse_vias_from
parse_vias_from-fuel n m [] v hn hm = ground arith
parse_vias_from-fuel zero m (c ∷ s) v hn hm = absurd (omega arith)
parse_vias_from-fuel (suc n) zero (c ∷ s) v hn hm = absurd (omega arith)
parse_vias_from-fuel (suc n) (suc m) (c ∷ s) v hn hm =
    after_value (length s) (parse_vias_from n) (parse_vias_from m) v c s (omega arith)
      (λ r w h. parse_vias_from-fuel n m r w (omega arith) (omega arith))

-- `ParseVias` ends on every text, and does what its recursion says: of a text that is not empty it
-- takes the first value, adds it at the bottom, and goes on with what stands behind it.
pub parse_vias_lem :
    (c : ℕ) (s : Bytes) (v : ViaHeaders)
    → (parse_vias [] v ≡ ok v)
      × (parse_vias (c ∷ s) v ≡ (
          first_via (split_2 b' ' (trim blanks (c ∷ s))) >>= λ (p : Via × Bytes).
          parse_vias p.1 (Via.append v p.0).0))
unfolding parse_vias
parse_vias_lem c s v = (
  unfold parse_vias_from in refl,
  unfold parse_vias_from in
      after_value (length s) (parse_vias_from (length s)) parse_vias v c s (omega arith)
        (λ r w h. parse_vias_from-fuel (length s) (length r) r w h (omega arith)),
)
