-- ===== src/Message/Via/Stack.antt =====
-- The Via headers of sip/header.go as a stack, read from the topmost down.
use mathlib.Core.List.{reverse, reverse-append, reverse-cons, reverse-reverse}
use tjsip.Base.{
  ℕ, zero, suc, ◌-◌, ◌≡◌, refl, sym, ap, ◌∙◌, Option, none, some, List, [], ◌∷◌, ◌++◌, arith,
  length, length-append, get_elem?, get_elem?-append, get_elem?-append_lt, take, take-append,
}
use tjsip.Base.Int.{pos}
use tjsip.Message.Via.{Via, ViaHeaders, insert, append, get, get_at, top_most, pop, pop_from}

abbrev pub stack : ViaHeaders → List Via
stack v = reverse v.header

length-concat : (xs : List Via) (x : Via) → length (xs ++ x ∷ []) ≡ suc (length xs)
length-concat xs x = omega (arith, length-append xs (x ∷ []))

get_at-concat_zero : (xs : List Via) (x : Via) → get_at (xs ++ x ∷ []) 0 ≡ some x
unfolding get_at
get_at-concat_zero xs x = rw length-concat (
    let e : suc (length xs) - 1 - 0 ≡ length xs = omega arith in
    rw e (ground (arith, get_elem?-append xs x)))

get_at-concat_suc : (xs : List Via) (x : Via) (i : ℕ) → get_at (xs ++ x ∷ []) (suc i) ≡ get_at xs i
unfolding get_at
get_at-concat_suc xs x i = rw length-concat (
    let e : suc (length xs) - 1 - suc i ≡ length xs - 1 - i = omega arith in
    rw e (ground (arith, get_elem?-append_lt xs (x ∷ []) (length xs - 1 - i))))

get_at-reverse : (xs : List Via) (i : ℕ) → get_at (reverse xs) i ≡ get_elem? xs i
get_at-reverse [] i = unfold get_at in ground arith
get_at-reverse (x ∷ xs) zero = rw reverse-cons (get_at-concat_zero (reverse xs) x)
get_at-reverse (x ∷ xs) (suc i) =
    rw reverse-cons (get_at-concat_suc (reverse xs) x i ∙ get_at-reverse xs i)

get_at-stack : (header : List Via) (i : ℕ) → get_at header i ≡ get_elem? (reverse header) i
get_at-stack header i =
    rw (ap (λ (h : List Via). get_at h i) (sym (reverse-reverse header)))
      (get_at-reverse (reverse header) i)

top_most-concat : (xs : List Via) (x : Via) → top_most (record { header = xs ++ x ∷ [] }) ≡ some x
unfolding top_most get
top_most-concat xs x = get_at-concat_zero xs x

header-concat : (xs : List Via) (x : Via) → take (length (xs ++ x ∷ []) - 1) (xs ++ x ∷ []) ≡ xs
header-concat xs x =
    let e : length (xs ++ x ∷ []) - 1 ≡ length xs = omega (arith, length-concat xs x) in
    rw e (take-append xs (x ∷ []))

pop-concat :
    (xs : List Via) (x : Via)
    → pop (record { header = xs ++ x ∷ [] }) ≡ (record { header = xs }, some x)
unfolding pop pop_from
pop-concat [] x = unfold top_most get get_at in refl
pop-concat (y ∷ ys) x = cc (header-concat (y ∷ ys) x, top_most-concat (y ∷ ys) x)

-- What is left below the top, and the top.
abbrev pub uncons : List Via → List Via × Option Via
uncons [] = ([], none)
uncons (x ∷ xs) = (xs, some x)

stack-pop-reverse :
    (s : List Via)
    → (stack (pop (record { header = reverse s })).0 ≡ (uncons s).0)
      × ((pop (record { header = reverse s })).1 ≡ (uncons s).1)
stack-pop-reverse [] = unfold pop in (refl, refl)
stack-pop-reverse (x ∷ xs) = rw (reverse-cons, pop-concat) (reverse-reverse xs, refl)

-- The headers behave as a stack whose top is the topmost Via: `Insert` pushes, `Append` adds at
-- the bottom, `Get` indexes from the top, and `Pop` returns the top and leaves the rest, or
-- returns nil and changes nothing where there is none.
pub ViaHeaders-stack :
    (v : ViaHeaders) (via : Via) (i : ℕ)
    → (stack (insert v via).0 ≡ via ∷ stack v)
      × (stack (append v via).0 ≡ stack v ++ via ∷ [])
      × (get v (pos i) ≡ get_elem? (stack v) i)
      × (stack (pop v).0 ≡ (uncons (stack v)).0)
      × ((pop v).1 ≡ (uncons (stack v)).1)
unfolding insert append get
ViaHeaders-stack v via i =
    (rw reverse-append refl, reverse-cons via v.header, get_at-stack v.header i, popped.0, popped.1)
  where
    popped : (stack (pop v).0 ≡ (uncons (stack v)).0) × ((pop v).1 ≡ (uncons (stack v)).1)
    popped = rw reverse-reverse at (stack-pop-reverse (reverse v.header))
