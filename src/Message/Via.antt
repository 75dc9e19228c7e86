-- ===== src/Message/Via.antt =====
-- The Via headers of sip/header.go. The slice holds them from the bottom up: the topmost is last.
pub mod Stack
use tjsip.Base.{
  ℕ, zero, suc, ◌+◌, ◌-◌, Bool, true, false, Option, none, some, List, [], ◌∷◌, ◌++◌, Bytes, length,
  get_elem?, take, ltb, if◌then◌else◌,
}
use tjsip.Base.Int.{ℤ, pos, negsuc}

pub record Via : Type 0 where
  pub sent_protocol : Bytes
  pub sent_by : Bytes
  pub raw_parameter : Bytes

pub record ViaHeaders : Type 0 where
  pub header : List Via

abbrev pub new_via_headers : ViaHeaders
new_via_headers = record { header = [] }

-- `Insert`: v.Header = append(v.Header, via)
unfoldable pub insert : ViaHeaders → Via → ViaHeaders × Bool
insert v via =
    let after = v.header ++ via ∷ [] in
    (record { header = after }, ltb (length v.header) (length after))

-- `Append`: v.Header = append([]*Via{via}, v.Header...)
unfoldable pub append : ViaHeaders → Via → ViaHeaders × Bool
append v via =
    let after = via ∷ v.header in (record { header = after }, ltb (length v.header) (length after))

-- The test `index > lastindex`, where `lastindex` of the empty slice is -1.
get_at : List Via → ℕ → Option Via
get_at header index =
    if ltb index (length header) then get_elem? header (length header - 1 - index) else none

unfoldable pub get : ViaHeaders → ℤ → Option Via
unfolding get_at
get v (pos index) = get_at v.header index
get v (negsuc index) = none

unfoldable pub top_most : ViaHeaders → Option Via
unfolding get
top_most v = get v (pos 0)

pop_from : List Via → ViaHeaders → ViaHeaders × Option Via
pop_from [] v = (v, none)
pop_from _ v = (record { header = take (length v.header - 1) v.header }, top_most v)

unfoldable pub pop : ViaHeaders → ViaHeaders × Option Via
unfolding pop_from top_most
pop v = pop_from v.header v
