-- ===== src/Go/Text/SplitJoin.antt =====
-- Splitting a text that was joined.
use Prim.Native.Char.{Char, code}
use Prim.Native.String
use Prim.Native.String.{String, ◌∷◌, []}
use mathlib.Core.List.{List}
use text.Mathlib.TextLemmas.{nil-append, cons-append}
use mt5_bridge.Prelude.{ℕ, ◌≡◌, refl, ap, ◌≢◌, arith, All}
use mt5_bridge.Go.Text.{split}

-- No character of the text is the separator.
abbrev pub IsFree : ℕ → String → Type 0
IsFree sep [] = Unit
IsFree sep (c ∷ s) = (code c ≢ sep) × IsFree sep s

-- `parts` joined, with the separator before each of them but `first`.
abbrev pub join : Char → String → List String → String
join sep first List.[] = first
join sep first (List.◌∷◌ p ps) = String.◌++◌ first (sep ∷ join sep p ps)

split-free : (sep : ℕ) (s : String) → IsFree sep s → split sep s ≡ List.◌∷◌ s List.[]
unfolding split
split-free sep [] h = refl
split-free sep (c ∷ s) (h, hs) = rw (split-free sep s hs) (ground arith)

split-append :
    (sep : Char) (s t : String)
    → IsFree (code sep) s
    → split (code sep) (String.◌++◌ s (sep ∷ t)) ≡ List.◌∷◌ s (split (code sep) t)
unfolding split
split-append sep [] t h = rw nil-append (ground arith)
split-append sep (c ∷ s) t (h, hs) = rw (cons-append, split-append sep s t hs) (ground arith)

-- Splitting gives back the parts that were joined, if none of them holds the separator.
pub split-join :
    (sep : Char) (first : String) (parts : List String)
    → IsFree (code sep) first
    → All (IsFree (code sep)) parts
    → split (code sep) (join sep first parts) ≡ List.◌∷◌ first parts
split-join sep first List.[] h hs = split-free (code sep) first h
split-join sep first (List.◌∷◌ p ps) h (hp, hs) =
    rw (split-append sep first (join sep p ps) h) (ap (List.◌∷◌ first) (split-join sep p ps hp hs))
