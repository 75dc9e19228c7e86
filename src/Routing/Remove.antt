-- ===== src/Routing/Remove.antt =====
-- What `Remove` of the routing table does (proxy_routing.go).
use tjsip.Base.{
  ℕ, ◌≡◌, refl, ap, sym, ◌∙◌, true, false, Option, none, some, List, [], ◌∷◌, ◌++◌, Bytes, arith,
  nat_beq, if◌then◌else◌, is_some, Option-cases, Bool-cases, inl, inr,
}
use mathlib.Core.List.{
  append_assoc, append-nil, reverse, reverse-append, reverse-cons, reverse-reverse,
}
use tjsip.Base.Classes.{◌==◌, bytes_eq, bytes_beq, bytes_beq_iff}
use tjsip.Base.Outcome.{Outcome, ok, panic}
use tjsip.Routing.{
  Fwd, PrefixTrie, node, Children, no_more, child, prefix_of, fwd_of, children_of, get_child,
  delete_child, Found, search_to_top, search, update, without_fwd, without_child, has_children, cut,
  remove_found, remove,
}
use tjsip.Routing.Search.{find, get_child-put_child, longest, search-longest, search-at}

-- The node that a path leads to.
unfoldable pub node_at : Bytes → PrefixTrie → Option PrefixTrie
node_at [] t = some t
node_at (r ∷ s) t = elim (get_child r (children_of t)) [ none ↦ none | some c ↦ node_at s c ]

-- The reversed text before another one.
unfoldable pub onto : Bytes → Bytes → Bytes
onto [] path = path
onto (r ∷ s) path = onto s (r ∷ path)

onto-reverse : (s path : Bytes) → onto s path ≡ reverse s ++ path
unfolding onto
onto-reverse [] path = refl
onto-reverse (r ∷ s) path =
    onto-reverse s (r ∷ path) ∙ rw (reverse-cons r s, append_assoc (reverse s) (r ∷ []) path) refl

search-node_at :
    (s path : Bytes) (t u : PrefixTrie) (above : List Found) (f : Fwd)
    → node_at s t ≡ some u
    → fwd_of u ≡ some f
    → search above path t s ≡ some (record { path = onto s path; trie = u })
unfolding search node_at onto search_to_top
search-node_at [] path t u above f h e = ground arith
search-node_at (r ∷ s) path t u above f h e = elim (Option-cases (get_child r (children_of t))) [
  | inl n ↦ absurd (ground arith)
  | inr (c, n) ↦
      ground (arith, search-node_at s (r ∷ path) c u (record { path = path; trie = t } ∷ above) f)
]

find-node_at : (s : Bytes) (t u : PrefixTrie) → node_at s t ≡ some u → find s t ≡ fwd_of u
unfolding find node_at
find-node_at [] t u h = ground arith
find-node_at (r ∷ s) t u h = elim (Option-cases (get_child r (children_of t))) [
  | inl e ↦ absurd (ground arith)
  | inr (c, e) ↦ ground (arith, find-node_at s c u)
]

find-clear :
    (s q : Bytes) (t u : PrefixTrie)
    → node_at s t ≡ some u
    → find q (update without_fwd s t) ≡ (if s == q then none else find q t)
unfolding find update node_at bytes_beq
find-clear [] [] (node p f cs) u h = refl
find-clear [] (x ∷ q) (node p f cs) u h = refl
find-clear (r ∷ s) [] (node p f cs) u h = elim (Option-cases (get_child r cs)) [
  | inl e ↦ absurd (ground arith)
  | inr (c, e) ↦ ground arith
]
find-clear (r ∷ s) (x ∷ q) (node p f cs) u h = elim (Option-cases (get_child r cs)) [
  | inl e ↦ absurd (ground arith)
  | inr (c, e) ↦
      ground (arith, get_child-put_child r x (update without_fwd s c) cs, find-clear s q c u)
]

get_child-delete_child :
    (r q : ℕ) (cs : Children)
    → get_child q (delete_child r cs) ≡ (if nat_beq r q then none else get_child q cs)
unfolding get_child delete_child
get_child-delete_child r q no_more = ground arith
get_child-delete_child r q (child p u cs) = ground (arith, get_child-delete_child r q cs)

find-leaf :
    (r : ℕ) (q : Bytes) (u : PrefixTrie)
    → has_children (children_of u) ≡ false
    → find (r ∷ q) u ≡ none
unfolding find get_child
find-leaf r q (node p f no_more) h = refl
find-leaf r q (node p f (child x t cs)) h = absurd (ground arith)

-- Cutting off the node at the end of a path takes its entry away, and no other where it has no
-- children.
find-cut :
    (s : Bytes) (r : ℕ) (q : Bytes) (t u : PrefixTrie)
    → node_at (s ++ r ∷ []) t ≡ some u
    → has_children (children_of u) ≡ false
    → find q (update (without_child r) s t) ≡ (if (s ++ r ∷ []) == q then none else find q t)
unfolding find update node_at bytes_beq get_child
find-cut [] r [] (node p f cs) u h e = refl
find-cut [] r (x ∷ []) (node p f cs) u h e = ground (arith, get_child-delete_child r x cs)
find-cut [] r (x ∷ y ∷ q) (node p f cs) u h e = elim (Option-cases (get_child r cs)) [
  | inl n ↦ absurd (ground arith)
  | inr (c, n) ↦ ground (arith, get_child-delete_child r x cs, find-leaf y q u e)
]
find-cut (y ∷ s) r [] (node p f cs) u h e = elim (Option-cases (get_child y cs)) [
  | inl n ↦ absurd (ground arith)
  | inr (c, n) ↦ ground arith
]
find-cut (y ∷ s) r (x ∷ q) (node p f cs) u h e = elim (Option-cases (get_child y cs)) [
  | inl n ↦ absurd (ground arith)
  | inr (c, n) ↦
      ground (arith, get_child-put_child y x (update (without_child r) s c) cs, find-cut s r q c u)
]

node_at-clear :
    (s : Bytes) (t u : PrefixTrie)
    → node_at s t ≡ some u
    → node_at s (update without_fwd s t) ≡ some (without_fwd u)
unfolding node_at update
node_at-clear [] (node p f cs) u h = ground arith
node_at-clear (r ∷ s) (node p f cs) u h = elim (Option-cases (get_child r cs)) [
  | inl e ↦ absurd (ground arith)
  | inr (c, e) ↦
      ground (arith, get_child-put_child r r (update without_fwd s c) cs, node_at-clear s c u)
]

onto-nil : (s : Bytes) → onto s [] ≡ reverse s
onto-nil s = onto-reverse s [] ∙ append-nil (reverse s)

search-found :
    (s : Bytes) (t u : PrefixTrie) (fwd : Fwd)
    → node_at s t ≡ some u
    → fwd_of u ≡ some fwd
    → search [] [] t s ≡ some (record { path = reverse s; trie = u })
search-found s t u fwd h e =
    search-node_at s [] t u [] fwd h e
    ∙ ap (λ (path : Bytes). some (record { path = path; trie = u })) (onto-nil s)

-- The tree that `remove` leaves when it has found the node `u` at the text.
abbrev removed : Bytes → ℕ → PrefixTrie → PrefixTrie → PrefixTrie
removed above r u t =
    let cleared = update without_fwd (above ++ r ∷ []) t in
    if has_children (children_of u) then cleared else update (without_child r) above cleared

remove_found-removed :
    (above : Bytes) (r : ℕ) (t u : PrefixTrie) (fwd : Fwd)
    → fwd_of u ≡ some fwd
    → prefix_of u ≡ above ++ r ∷ []
    → remove_found t (above ++ r ∷ []) (record { path = reverse (above ++ r ∷ []); trie = u })
      ≡ ok (removed above r u t, some fwd)
unfolding remove_found cut
remove_found-removed above r t u fwd e l = ground (
  arith,
  bytes_beq_iff (prefix_of u) (above ++ r ∷ []),
  reverse-append above (r ∷ []),
  reverse-reverse (above ++ r ∷ []),
  reverse-reverse above,
)

find-removed :
    (above : Bytes) (r : ℕ) (q : Bytes) (t u : PrefixTrie)
    → node_at (above ++ r ∷ []) t ≡ some u
    → find q (removed above r u t) ≡ (if (above ++ r ∷ []) == q then none else find q t)
find-removed above r q t u h = elim (Bool-cases (has_children (children_of u))) [
  | inl c ↦ rw c (find-clear (above ++ r ∷ []) q t u h)
  | inr c ↦
      let cleared : PrefixTrie = update without_fwd (above ++ r ∷ []) t in
      let at : node_at (above ++ r ∷ []) cleared ≡ some (without_fwd u) =
        node_at-clear (above ++ r ∷ []) t u h in
      let leaf : has_children (children_of (without_fwd u)) ≡ false = same_children u ∙ c in
      rw c (
        ground (
          arith,
          find-cut above r q cleared (without_fwd u) at leaf,
          find-clear (above ++ r ∷ []) q t u h,
        ))
]
  where
    same_children :
        (u : PrefixTrie) → has_children (children_of (without_fwd u)) ≡ has_children (children_of u)
    same_children (node p f cs) = refl

search_to_top-is_some :
    (above : List Found) (pp : Found)
    → search_to_top above ≡ some pp
    → is_some (fwd_of pp.trie) ≡ true
unfolding search_to_top
search_to_top-is_some [] pp h = absurd (ground arith)
search_to_top-is_some (p ∷ above) pp h = elim (Option-cases (fwd_of p.trie)) [
  | inl e ↦ ground (arith, search_to_top-is_some above pp)
  | inr (f, e) ↦ ground arith
]

-- A node that a search finds has an entry.
search-is_some :
    (s path : Bytes) (t : PrefixTrie) (above : List Found) (pp : Found)
    → search above path t s ≡ some pp
    → is_some (fwd_of pp.trie) ≡ true
unfolding search
search-is_some [] path t above pp h =
    search_to_top-is_some (record { path = path; trie = t } ∷ above) pp h
search-is_some (r ∷ s) path t above pp h = elim (Option-cases (get_child r (children_of t))) [
  | inl e ↦
      search_to_top-is_some (record { path = path; trie = t } ∷ above) pp
        (sym (search-at above path t r s none e) ∙ h)
  | inr (c, e) ↦
      search-is_some s (r ∷ path) c (record { path = path; trie = t } ∷ above) pp
        (sym (search-at above path t r s (some c) e) ∙ h)
]

remove_of : PrefixTrie → Bytes → Option Found → Outcome (PrefixTrie × Option Fwd)
remove_of t s none = panic
remove_of t s (some pp) = remove_found t s pp

remove-of :
    (t : PrefixTrie) (s : Bytes) (o : Option Found)
    → search [] [] t s ≡ o
    → remove t s ≡ remove_of t s o
unfolding remove remove_of
remove-of t s o e = step (search [] [] t s) ∙ ap (remove_of t s) e
  where
    step :
        (o : Option Found)
        → (elim o [ none ↦ panic | some pp ↦ remove_found t s pp ]) ≡ remove_of t s o
    step none = refl
    step (some pp) = refl

-- `Remove` of a prefix that is in the table returns its entry and takes it out of the table; every
-- other entry stays. The text is not empty, and the node at it holds it as its prefix, as `Add`
-- leaves it.
pub remove-find :
    (above : Bytes) (r : ℕ) (t u : PrefixTrie) (fwd : Fwd)
    → node_at (above ++ r ∷ []) t ≡ some u
    → fwd_of u ≡ some fwd
    → prefix_of u ≡ above ++ r ∷ []
    → (t' : PrefixTrie) × (remove t (above ++ r ∷ []) ≡ ok (t', some fwd))
      × ((q : Bytes) → find q t' ≡ (if (above ++ r ∷ []) == q then none else find q t))
unfolding remove_of
remove-find above r t u fwd h e l = (
  removed above r u t,
  remove-of t (above ++ r ∷ []) _ (search-found (above ++ r ∷ []) t u fwd h e)
      ∙ remove_found-removed above r t u fwd e l,
  λ q. find-removed above r q t u h,
)

-- `Remove` of a text of which the table has no prefix dereferences a nil pointer.
remove_unknown :
    (t : PrefixTrie) (s : Bytes) → longest (λ p. find p t) s ≡ none → remove t s ≡ panic
unfolding remove_of
remove_unknown t s h = elim (Option-cases (search [] [] t s)) [
  | inl e ↦ remove-of t s none e
  | inr (pp, e) ↦
      let same : fwd_of pp.trie ≡ none = rw e at (search-longest t s ∙ h) in
      absurd (ground (arith, search-is_some s [] t [] pp e))
]
