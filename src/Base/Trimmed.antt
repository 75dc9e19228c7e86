-- ===== src/Base/Trimmed.antt =====
-- Texts without blanks at their ends, and texts without a separator.
use mathlib.Core.List.{reverse, reverse-reverse}
use tjsip.Base.Tests.{nat_beq}
use Prim.Native.Nat.{ℕ}
use mathlib.Core.Path.{◌≡◌, refl}
use mathlib.Core.Bool.{Bool, true, false, not}
use mathlib.Core.List.{[], ◌∷◌, ◌++◌}
use mathlib.Core.Option.{none, some}
use native.Mathlib.Omega.{arith}
use tjsip.Base.Lists.{Bytes}
use tjsip.Base.Text.{trim, trim_left, contains_byte, blanks, split_2}

-- A text that neither begins nor ends with a blank, and so is not empty.
abbrev pub begins_clean : Bytes → Bool
begins_clean [] = false
begins_clean (c ∷ s) = not (contains_byte blanks c)

abbrev pub IsTrimmed : Bytes → Type 0
IsTrimmed s = (begins_clean s ≡ true) × (begins_clean (reverse s) ≡ true)

trim_left-clean : (s : Bytes) → begins_clean s ≡ true → trim_left blanks s ≡ s
unfolding trim_left
trim_left-clean [] h = refl
trim_left-clean (c ∷ s) h = ground arith

pub trim-IsTrimmed : (s : Bytes) → IsTrimmed s → trim blanks s ≡ s
unfolding trim
trim-IsTrimmed s (b, e) =
    rw (trim_left-clean s b, trim_left-clean (reverse s) e) (reverse-reverse s)

-- No byte of the text is `sep`.
abbrev pub Without : ℕ → Bytes → Type 0
Without sep [] = Unit {0}
Without sep (c ∷ s) = (nat_beq c sep ≡ false) × Without sep s

pub contains_byte-Without : (sep : ℕ) (s : Bytes) → contains_byte s sep ≡ false → Without sep s
unfolding contains_byte
contains_byte-Without sep [] h = tt
contains_byte-Without sep (c ∷ s) h = (ground arith, contains_byte-Without sep s (ground arith))

pub split_2-Without :
    (sep : ℕ) (s rest : Bytes) → Without sep s → split_2 sep (s ++ sep ∷ rest) ≡ (s, some rest)
unfolding split_2
split_2-Without sep [] rest h = ground arith
split_2-Without sep (c ∷ s) rest h = rw (h.0, split_2-Without sep s rest h.1) refl

pub split_2-none : (sep : ℕ) (s : Bytes) → Without sep s → split_2 sep s ≡ (s, none)
unfolding split_2
split_2-none sep [] h = refl
split_2-none sep (c ∷ s) h = rw (h.0, split_2-none sep s h.1) refl
