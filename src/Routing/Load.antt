-- ===== src/Routing/Load.antt =====
-- The loading of the routing table from a file (proxy_routing.go).
use mathlib.Core.Path.{fun_ext}
use tjsip.Base.{
  given, ◌≡◌, refl, ap, ◌∙◌, Bool, true, false, Option, none, some, List, [], ◌∷◌, Bytes, arith,
  if◌then◌else◌,
}
use tjsip.Base.Classes.{◌==◌, bytes_eq}
use tjsip.Base.Outcome.{Outcome, ok, panic}
use tjsip.Routing.{Fwd, PrefixTrie, new_prefix_trie, add, search}
use tjsip.Routing.Search.{find, find-add, find-new, or_else, longest, found_fwd, search-longest}

-- The loop over what the CSV reader gives: `none` is its end or an error, as for a line with another
-- number of fields than the first, which end the loop alike. A line that has not three fields ends it too.
unfoldable load_lines : PrefixTrie → List (Option (List Bytes)) → PrefixTrie × Bool
load_lines table [] = (table, true)
load_lines table (none ∷ reads) = (table, true)
load_lines table (some (prefix ∷ addr ∷ domain ∷ []) ∷ reads) =
    load_lines (add prefix prefix (record { addr = addr; domain = domain }) table) reads
load_lines table (some line ∷ reads) = (table, false)

-- loadTranslater: `current` is `none` where there is no table yet, `file` where it cannot be opened.
unfoldable pub load_translater :
    Option PrefixTrie → Option (List (Option (List Bytes))) → Outcome (PrefixTrie × Bool)
unfolding load_lines
load_translater current none = panic
load_translater none (some reads) = ok (load_lines new_prefix_trie reads)
load_translater (some table) (some reads) = ok (load_lines table reads)

-- What the lines in front of the first that has not three fields say of a prefix: the last one counts.
abbrev pub entry : List (List Bytes) → Bytes → Option Fwd
entry ((prefix ∷ addr ∷ domain ∷ []) ∷ lines) q =
    or_else (entry lines q)
      (if prefix == q then some (record { addr = addr; domain = domain }) else none)
entry _ q = none

-- Each line has three fields.
abbrev pub well_formed : List (List Bytes) → Bool
well_formed [] = true
well_formed ((_ ∷ _ ∷ _ ∷ []) ∷ lines) = well_formed lines
well_formed (_ ∷ _) = false

find-load_lines :
    (table : PrefixTrie) (reads : List (Option (List Bytes))) (q : Bytes)
    → find q (load_lines table reads).0 ≡ or_else (entry (given reads) q) (find q table)
unfolding load_lines
find-load_lines table [] q = refl
find-load_lines table (none ∷ reads) q = refl
find-load_lines table (some (prefix ∷ addr ∷ domain ∷ []) ∷ reads) q = ground (
  arith,
  find-load_lines (add prefix prefix (record { addr = addr; domain = domain }) table) reads q,
  find-add prefix prefix (record { addr = addr; domain = domain }) table q,
)
find-load_lines table (some line ∷ reads) q = refl

load_lines-well_formed :
    (table : PrefixTrie) (reads : List (Option (List Bytes)))
    → (load_lines table reads).1 ≡ well_formed (given reads)
unfolding load_lines
load_lines-well_formed table [] = refl
load_lines-well_formed table (none ∷ reads) = refl
load_lines-well_formed table (some (prefix ∷ addr ∷ domain ∷ []) ∷ reads) =
    load_lines-well_formed (add prefix prefix (record { addr = addr; domain = domain }) table) reads
load_lines-well_formed table (some line ∷ reads) = refl

-- Of a file that can be opened, the lines that the CSV reader gives before its end or its first error are
-- loaded into a new table, up to the first that has not three fields; the result is true exactly when
-- there is none of these, an error of the reader or not. A search then finds the last of the lines that
-- are loaded that has the longest prefix of the text.
pub load_translater-search :
    (reads : List (Option (List Bytes)))
    → (t : PrefixTrie) × (load_translater none (some reads) ≡ ok (t, well_formed (given reads)))
      × ((s : Bytes) → found_fwd (search [] [] t s) ≡ longest (entry (given reads)) s)
unfolding load_translater
load_translater-search reads = (
  (load_lines new_prefix_trie reads).0,
  ap (λ (done : Bool). ok ((load_lines new_prefix_trie reads).0, done))
      (load_lines-well_formed new_prefix_trie reads),
  λ s.
      search-longest (load_lines new_prefix_trie reads).0 s
      ∙ ap (λ (table : Bytes → Option Fwd). longest table s) (fun_ext (loaded reads)),
)
  where
    or_else_none : (a : Option Fwd) → or_else a none ≡ a
    or_else_none none = refl
    or_else_none (some a) = refl

    loaded :
        (reads : List (Option (List Bytes))) (q : Bytes)
        → find q (load_lines new_prefix_trie reads).0 ≡ entry (given reads) q
    loaded reads q =
        rw (find-load_lines new_prefix_trie reads q, find-new q)
          (or_else_none (entry (given reads) q))
