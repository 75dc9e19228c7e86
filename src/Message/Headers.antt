-- ===== src/Message/Headers.antt =====
-- The methods of net/http.Header: a map from canonical names to the values of each name in order.
use tjsip.Base.{none, some, List, [], ◌∷◌, ◌++◌, Bytes}
use tjsip.Base.Classes.{bytes_eq}
use tjsip.Base.Assoc.{Assoc, lookup, insert, delete}
use tjsip.Base.Text.{canonical}

abbrev pub Header : Type 0
Header = Assoc Bytes (List Bytes)

unfoldable pub values : Header → Bytes → List Bytes
values h key = elim (lookup (canonical key) h) [ none ↦ [] | some vs ↦ vs ]

first : List Bytes → Bytes
first [] = []
first (v ∷ _) = v

unfoldable pub get : Header → Bytes → Bytes
unfolding first values
get h key = first (values h key)

unfoldable pub add : Header → Bytes → Bytes → Header
unfolding values
add h key value = insert (canonical key) (values h key ++ value ∷ []) h

unfoldable pub set : Header → Bytes → Bytes → Header
set h key value = insert (canonical key) (value ∷ []) h

unfoldable pub del : Header → Bytes → Header
del h key = delete (canonical key) h
