-- ===== src/Routing/Search.antt =====
-- A search in the routing table (proxy_routing.go) finds the longest prefix.
use tjsip.Base.{
  ℕ, zero, suc, ◌≤◌, ◌<◌, ◌≡◌, refl, ap, sym, ◌∙◌, Option, none, some, List, [], ◌∷◌, Bytes, arith,
  nat_beq, if◌then◌else◌, Option-cases, inl, inr, length, take,
}
use mathlib.Core.Path.{fun_ext}
use tjsip.Base.Classes.{◌==◌, bytes_eq, bytes_beq}
use tjsip.Routing.{
  Fwd, PrefixTrie, node, Children, no_more, child, fwd_of, children_of, new_prefix_trie, get_child,
  put_child, add, Found, search_to_top, search, child_or_new,
}

-- What the tree says of a prefix as a whole: the table that it stands for.
unfoldable pub find : Bytes → PrefixTrie → Option Fwd
find [] t = fwd_of t
find (r ∷ s) t = elim (get_child r (children_of t)) [ none ↦ none | some c ↦ find s c ]

abbrev pub or_else : Option Fwd → Option Fwd → Option Fwd
or_else none b = b
or_else (some a) b = some a

-- The entry of a table at the longest prefix of a text that has one.
unfoldable pub longest : (Bytes → Option Fwd) → Bytes → Option Fwd
longest table [] = table []
longest table (r ∷ s) = or_else (longest (λ p. table (r ∷ p)) s) (table [])

abbrev pub found_fwd : Option Found → Option Fwd
found_fwd none = none
found_fwd (some f) = fwd_of f.trie

found_fwd-search_to_top :
    (path : Bytes) (t : PrefixTrie) (above : List Found)
    → found_fwd (search_to_top (record { path = path; trie = t } ∷ above))
      ≡ or_else (fwd_of t) (found_fwd (search_to_top above))
unfolding search_to_top
found_fwd-search_to_top path (node p none cs) above = refl
found_fwd-search_to_top path (node p (some f) cs) above = refl

or_else_assoc : (a b c : Option Fwd) → or_else (or_else a b) c ≡ or_else a (or_else b c)
or_else_assoc none b c = refl
or_else_assoc (some x) b c = refl

longest-nothing : (s : Bytes) → longest (λ p. none) s ≡ none
unfolding longest
longest-nothing [] = refl
longest-nothing (r ∷ s) = rw (longest-nothing s) refl

-- What a search does and what the table says at a node, by the child that the next rune leads to.
abbrev pub search_at :
    List Found → Bytes → PrefixTrie → ℕ → Bytes → Option PrefixTrie → Option Found
search_at above path t r s none = search_to_top (record { path = path; trie = t } ∷ above)
search_at above path t r s (some c) =
    search (record { path = path; trie = t } ∷ above) (r ∷ path) c s

abbrev find_at : Option PrefixTrie → Bytes → Option Fwd
find_at none p = none
find_at (some c) p = find p c

pub search-at :
    (above : List Found) (path : Bytes) (t : PrefixTrie) (r : ℕ) (s : Bytes) (o : Option PrefixTrie)
    → get_child r (children_of t) ≡ o
    → search above path t (r ∷ s) ≡ search_at above path t r s o
unfolding search
search-at above path t r s o e =
    step (get_child r (children_of t)) ∙ ap (search_at above path t r s) e
  where
    step :
        (u : Option PrefixTrie)
        → (elim u [
          | none ↦ search_to_top (record { path = path; trie = t } ∷ above)
          | some c ↦ search (record { path = path; trie = t } ∷ above) (r ∷ path) c s
        ])
          ≡ search_at above path t r s u
    step none = refl
    step (some c) = refl

find-at :
    (t : PrefixTrie) (r : ℕ) (o : Option PrefixTrie) (p : Bytes)
    → get_child r (children_of t) ≡ o
    → find (r ∷ p) t ≡ find_at o p
unfolding find
find-at t r o p e =
    step (get_child r (children_of t)) ∙ ap (λ (u : Option PrefixTrie). find_at u p) e
  where
    step : (u : Option PrefixTrie) → (elim u [ none ↦ none | some c ↦ find p c ]) ≡ find_at u p
    step none = refl
    step (some c) = refl

longest-cons :
    (t : PrefixTrie) (r : ℕ) (o : Option PrefixTrie) (s : Bytes)
    → get_child r (children_of t) ≡ o
    → longest (λ p. find p t) (r ∷ s) ≡ or_else (longest (find_at o) s) (fwd_of t)
unfolding longest find
longest-cons t r o s e =
    ap (λ (table : Bytes → Option Fwd). or_else (longest table s) (fwd_of t))
      (fun_ext (λ p. find-at t r o p e))

found_fwd-search :
    (s path : Bytes) (t : PrefixTrie) (above : List Found)
    → found_fwd (search above path t s)
      ≡ or_else (longest (λ p. find p t) s) (found_fwd (search_to_top above))
found_fwd-search [] path t above =
    unfold search longest find in found_fwd-search_to_top path t above
found_fwd-search (r ∷ s) path t above = elim (Option-cases (get_child r (children_of t))) [
  | inl e ↦
      rw (search-at above path t r s none e, longest-cons t r none s e, longest-nothing s)
        (found_fwd-search_to_top path t above)
  | inr (c, e) ↦
      let here : Found = record { path = path; trie = t } in
      let below : found_fwd (search (here ∷ above) (r ∷ path) c s)
          ≡ or_else (longest (λ p. find p c) s) (found_fwd (search_to_top (here ∷ above))) =
        found_fwd-search s (r ∷ path) c (here ∷ above) in
      rw
        (
          search-at above path t r s (some c) e,
          longest-cons t r (some c) s e,
          below,
          found_fwd-search_to_top path t above,
        )
        (sym
          (or_else_assoc (longest (λ p. find p c) s) (fwd_of t) (found_fwd (search_to_top above))))
]

pub get_child-put_child :
    (r q : ℕ) (t : PrefixTrie) (cs : Children)
    → get_child q (put_child r t cs) ≡ (if nat_beq r q then some t else get_child q cs)
unfolding get_child put_child
get_child-put_child r q t no_more = refl
get_child-put_child r q t (child p u cs) = ground (arith, get_child-put_child r q t cs)

pub find-new : (s : Bytes) → find s new_prefix_trie ≡ none
unfolding find get_child
find-new [] = refl
find-new (r ∷ s) = refl

-- `Add` sets the entry of its prefix and leaves every other one.
pub find-add :
    (prefix s : Bytes) (fwd : Fwd) (t : PrefixTrie) (q : Bytes)
    → find q (add prefix s fwd t) ≡ (if s == q then some fwd else find q t)
unfolding find add bytes_beq child_or_new
find-add prefix [] fwd (node p f cs) [] = refl
find-add prefix [] fwd (node p f cs) (x ∷ q) = refl
find-add prefix (r ∷ s) fwd (node p f cs) [] = refl
find-add prefix (r ∷ s) fwd (node p f cs) (x ∷ q) = elim (Option-cases (get_child r cs)) [
  | inl e ↦ ground (
    arith,
    get_child-put_child r x (add prefix s fwd (child_or_new (get_child r cs))) cs,
    find-new q,
    find-add prefix s fwd new_prefix_trie q,
  )
  | inr (c, e) ↦ ground (
    arith,
    get_child-put_child r x (add prefix s fwd (child_or_new (get_child r cs))) cs,
    find-add prefix s fwd c q,
  )
]

-- A search finds the entry of the longest prefix of the text that the table has, and none where it
-- has no prefix of it.
pub search-longest :
    (t : PrefixTrie) (s : Bytes) → found_fwd (search [] [] t s) ≡ longest (λ p. find p t) s
search-longest t s = found_fwd-search s [] t [] ∙ unfold search_to_top in or_else_none _
  where
    or_else_none : (a : Option Fwd) → or_else a none ≡ a
    or_else_none none = refl
    or_else_none (some a) = refl

-- After `Add`, a search finds what the longest prefix gives in the table with the new entry.
search-add :
    (prefix : Bytes) (fwd : Fwd) (t : PrefixTrie) (s : Bytes)
    → found_fwd (search [] [] (add prefix prefix fwd t) s)
      ≡ longest (λ q. if prefix == q then some fwd else find q t) s
search-add prefix fwd t s =
    search-longest (add prefix prefix fwd t) s
    ∙ ap (λ (table : Bytes → Option Fwd). longest table s) (fun_ext (find-add prefix prefix fwd t))

longest-none :
    (table : Bytes → Option Fwd) (s : Bytes)
    → longest table s ≡ none
    → (m : ℕ) → m ≤ length s
    → table (take m s) ≡ none
unfolding longest
longest-none table [] h zero le = h
longest-none table [] h (suc m) le = absurd (omega arith)
longest-none table (r ∷ s) h zero le = elim (Option-cases (longest (λ p. table (r ∷ p)) s)) [
  | inr (x, e) ↦ absurd (ground arith)
  | inl e ↦ ground arith
]
longest-none table (r ∷ s) h (suc m) le = elim (Option-cases (longest (λ p. table (r ∷ p)) s)) [
  | inr (x, e) ↦ absurd (ground arith)
  | inl e ↦ longest-none (λ p. table (r ∷ p)) s e m (omega arith)
]

-- What is said of the length of a prefix: it has the entry, and no longer prefix has any.
abbrev pub IsLongest : (Bytes → Option Fwd) → Bytes → Fwd → ℕ → Type 0
IsLongest table s fwd n =
    (n ≤ length s)
    × (table (take n s) ≡ some fwd)
    × ((m : ℕ) → n < m → m ≤ length s → table (take m s) ≡ none)

longest-IsLongest :
    (table : Bytes → Option Fwd) (s : Bytes) (fwd : Fwd)
    → longest table s ≡ some fwd
    → (n : ℕ) × IsLongest table s fwd n
unfolding longest
longest-IsLongest table [] fwd h = (0, (omega arith, h, λ m lt le. absurd (omega arith)))
longest-IsLongest table (r ∷ s) fwd h = elim (Option-cases (longest (λ p. table (r ∷ p)) s)) [
  | inl e ↦ (0, (omega arith, rw e at h, λ m lt le. longer e m lt le))
  | inr (x, e) ↦
      let (n, (le, here, rest)) = longest-IsLongest (λ p. table (r ∷ p)) s fwd (ground arith) in
      (suc n, (omega arith, here, λ m lt l. next n rest m lt l))
]
  where
    longer :
        longest (λ p. table (r ∷ p)) s ≡ none
        → (m : ℕ) → 0 < m
        → m ≤ suc (length s)
        → table (take m (r ∷ s)) ≡ none
    longer e zero lt le = absurd (omega arith)
    longer e (suc m) lt le = longest-none (λ p. table (r ∷ p)) s e m (omega arith)

    next :
        (n : ℕ)
        → ((m : ℕ) → n < m → m ≤ length s → table (r ∷ take m s) ≡ none)
        → (m : ℕ) → suc n < m
        → m ≤ suc (length s)
        → table (take m (r ∷ s)) ≡ none
    next n f zero lt le = absurd (omega arith)
    next n f (suc m) lt le = f m (omega arith) (omega arith)

-- Where a search finds an entry, it is that of a prefix of the text, and no longer prefix has one.
search-IsLongest :
    (t : PrefixTrie) (s : Bytes) (fwd : Fwd)
    → found_fwd (search [] [] t s) ≡ some fwd
    → (n : ℕ) × IsLongest (λ p. find p t) s fwd n
search-IsLongest t s fwd h = longest-IsLongest (λ p. find p t) s fwd (sym (search-longest t s) ∙ h)
