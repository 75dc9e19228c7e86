-- ===== src/Examples/Routes.antt =====
-- The routing table at work.
use tjsip.Base.{
  given, ◌≡◌, refl, true, Option, none, some, List, [], ◌∷◌, ◌++◌, Bytes, codes, if◌then◌else◌,
}
use tjsip.Base.Classes.{◌==◌, bytes_eq, bytes_beq}
use tjsip.Base.Outcome.{ok}
use tjsip.Routing.{
  Fwd, PrefixTrie, node, no_more, child, new_prefix_trie, add, search, remove, search_to_top,
  get_child, put_child, update, delete_child,
}
use tjsip.Routing.Search.{find, longest, found_fwd}
use tjsip.Routing.Load.{load_translater, well_formed, entry, load_translater-search}
use tjsip.Routing.Remove.{node_at, remove-find}

abbrev tokyo : Fwd
tokyo = record { addr = codes "192.0.2.1"; domain = codes "tokyo" }

abbrev osaka : Fwd
osaka = record { addr = codes "192.0.2.2"; domain = codes "osaka" }

abbrev routes : PrefixTrie
routes = add (codes "06") (codes "06") osaka (add (codes "03") (codes "03") tokyo new_prefix_trie)

found_tokyo : found_fwd (search [] [] routes (codes "0312")) ≡ some tokyo
unfolding search search_to_top add get_child put_child
found_tokyo = refl

abbrev at_03 : PrefixTrie
at_03 = node (codes "03") (some tokyo) no_more

node_at_03 : node_at (codes "0" ++ b'3' ∷ []) routes ≡ some at_03
unfolding node_at add get_child put_child
node_at_03 = refl

remove-find_example :
    (t' : PrefixTrie) × (remove routes (codes "03") ≡ ok (t', some tokyo))
    × ((q : Bytes) → find q t' ≡ (if codes "03" == q then none else find q routes))
remove-find_example = remove-find (codes "0") b'3' routes at_03 tokyo node_at_03 refl refl

no_07 : longest (λ p. find p routes) (codes "07") ≡ none
unfolding longest find add get_child put_child
no_07 = refl

-- After the removal of a prefix, a longer text finds the entry of a shorter prefix.
abbrev nested : PrefixTrie
nested = add (codes "03") (codes "03") tokyo (add (codes "0") (codes "0") osaka new_prefix_trie)

removal :
    remove nested (codes "03")
    ≡ ok (node [] none (child b'0' (node (codes "0") (some osaka) no_more) no_more), some tokyo)
unfolding remove add get_child put_child delete_child update bytes_beq
removal = refl

-- A line for each route, a second one for the last of them, an error of the reader, as for a line with
-- another number of fields, and a line behind it that is not loaded
abbrev reads : List (Option (List Bytes))
reads =
    some (codes "03" ∷ codes "192.0.2.1" ∷ codes "tokyo" ∷ [])
    ∷ some (codes "06" ∷ codes "192.0.2.1" ∷ codes "tokyo" ∷ [])
    ∷ some (codes "06" ∷ codes "192.0.2.2" ∷ codes "osaka" ∷ [])
    ∷ none
    ∷ some (codes "07" ∷ codes "192.0.2.1" ∷ codes "tokyo" ∷ [])
    ∷ []

lines_loaded : load_translater none (some reads) ≡ ok (routes, true)
unfolding load_translater add get_child put_child
lines_loaded = refl

load_translater-search_example :
    (t : PrefixTrie) × (load_translater none (some reads) ≡ ok (t, well_formed (given reads)))
    × ((s : Bytes) → found_fwd (search [] [] t s) ≡ longest (entry (given reads)) s)
load_translater-search_example = load_translater-search reads
