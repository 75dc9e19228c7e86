-- ===== src/Routing.antt =====
-- The routing table of proxy_routing.go: a tree of prefixes. A text is the list of its runes. A node
-- is reached by pointers in the code and by its path from the root here; the path gives the parent.
pub mod Search
pub mod Remove
pub mod Load
use tjsip.Base.{
  ℕ, ◌≡◌, refl, Bool, true, false, not, Option, none, some, List, [], ◌∷◌, ◌++◌, Bytes, nat_beq,
  if◌then◌else◌,
}
use mathlib.Core.List.{reverse}
use tjsip.Base.Classes.{◌==◌, bytes_eq}
use tjsip.Base.Outcome.{Outcome, ok, panic}

pub record Fwd : Type 0 where
  pub addr : Bytes
  pub domain : Bytes

mutual
  pub data PrefixTrie : Type 0 where
    node : Bytes → Option Fwd → Children → PrefixTrie

  pub data Children : Type 0 where
    no_more : Children
    child : ℕ → PrefixTrie → Children → Children

abbrev pub prefix_of : PrefixTrie → Bytes
prefix_of (node p f cs) = p

abbrev pub fwd_of : PrefixTrie → Option Fwd
fwd_of (node p f cs) = f

abbrev pub children_of : PrefixTrie → Children
children_of (node p f cs) = cs

-- NewPrefixTrie
abbrev pub new_prefix_trie : PrefixTrie
new_prefix_trie = node [] none no_more

-- p.children[r]
unfoldable pub get_child : ℕ → Children → Option PrefixTrie
get_child r no_more = none
get_child r (child q t cs) = if nat_beq q r then some t else get_child r cs

unfoldable pub put_child : ℕ → PrefixTrie → Children → Children
put_child r t no_more = child r t no_more
put_child r t (child q u cs) =
    let rest = put_child r t cs in if nat_beq q r then child r t cs else child q u rest

unfoldable pub delete_child : ℕ → Children → Children
delete_child r no_more = no_more
delete_child r (child q u cs) =
    let rest = delete_child r cs in if nat_beq q r then rest else child q u rest

child_or_new : Option PrefixTrie → PrefixTrie
child_or_new none = new_prefix_trie
child_or_new (some t) = t

-- `add`, of which `Add` is `add prefix prefix`
unfoldable pub add : Bytes → Bytes → Fwd → PrefixTrie → PrefixTrie
unfolding get_child put_child child_or_new
add prefix [] fwd (node p f cs) = node prefix (some fwd) cs
add prefix (r ∷ s) fwd (node p f cs) =
    node p f (put_child r (add prefix s fwd (child_or_new (get_child r cs))) cs)

-- A node with the path that leads to it, the last rune first.
pub record Found : Type 0 where
  pub path : Bytes
  pub trie : PrefixTrie

-- SearchToTop, on the nodes from one up to the root
unfoldable pub search_to_top : List Found → Option Found
search_to_top [] = none
search_to_top (p ∷ above) = elim (fwd_of p.trie) [ none ↦ search_to_top above | some _ ↦ some p ]

unfoldable pub search : List Found → Bytes → PrefixTrie → Bytes → Option Found
unfolding search_to_top get_child
search above path t [] = search_to_top (record { path = path; trie = t } ∷ above)
search above path t (r ∷ s) = elim (get_child r (children_of t)) [
  | none ↦ search_to_top (record { path = path; trie = t } ∷ above)
  | some c ↦ search (record { path = path; trie = t } ∷ above) (r ∷ path) c s
]

-- An assignment to the node that a path leads to; where there is none, no pointer leads there.
unfoldable pub update : (PrefixTrie → PrefixTrie) → Bytes → PrefixTrie → PrefixTrie
update change [] t = change t
update change (r ∷ s) (node p f cs) = elim (get_child r cs) [
  | none ↦ node p f cs
  | some c ↦ node p f (put_child r (update change s c) cs)
]

abbrev pub without_fwd : PrefixTrie → PrefixTrie
without_fwd (node p f cs) = node p none cs

abbrev pub without_child : ℕ → PrefixTrie → PrefixTrie
without_child r (node p f cs) = node p f (delete_child r cs)

abbrev pub has_children : Children → Bool
has_children no_more = false
has_children (child _ _ _) = true

-- The end of `remove`: the node is cut from its parent. The root has none, and an empty text has no
-- last rune.
cut : Bytes → Bytes → Option Fwd → PrefixTrie → Outcome (PrefixTrie × Option Fwd)
cut [] _ fwd t = panic
cut _ [] fwd t = panic
cut (_ ∷ above) (r ∷ _) fwd t = ok (update (without_child r) (reverse above) t, fwd)

remove_found : PrefixTrie → Bytes → Found → Outcome (PrefixTrie × Option Fwd)
unfolding cut update
remove_found t s pp =
    if not (prefix_of pp.trie == s)
    then ok (t, none)
    else let fwd = fwd_of pp.trie in
      let cleared = update without_fwd (reverse pp.path) t in
      if has_children (children_of pp.trie)
      then ok (cleared, fwd)
      else cut pp.path (reverse s) fwd cleared

-- `remove`. Where the search finds nothing, the nil that it gives is dereferenced.
unfoldable pub remove : PrefixTrie → Bytes → Outcome (PrefixTrie × Option Fwd)
unfolding remove_found search
remove t s = elim (search [] [] t s) [ none ↦ panic | some pp ↦ remove_found t s pp ]
