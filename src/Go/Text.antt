-- ===== src/Go/Text.antt =====
-- Functions of Go's package `strings` that the program calls. A Go string is a native `String`, a
-- list of characters; the separators are ASCII, so bytes and characters give the same parts.
pub mod SplitJoin
pub mod Prefixes
use Prim.Native.Char.{Char, code}
use Prim.Native.String.{◌∷◌, []}
use mt5_bridge.Prelude.{
  ℕ, String, Bool, true, false, ◌&&◌, ◌||◌, Option, none, some, List, leb, nat_eq, if◌then◌else◌,
  ◌==◌,
}
use mathlib.Core.List

abbrev cons_head : Char → List String → List String
cons_head c List.[] = List.◌∷◌ (c ∷ []) List.[]
cons_head c (List.◌∷◌ p ps) = List.◌∷◌ (c ∷ p) ps

-- `strings.Split(s, sep)` for a separator of one character.
unfoldable pub split : ℕ → String → List String
split sep [] = List.◌∷◌ [] List.[]
split sep (c ∷ s) =
    let rest = split sep s in if nat_eq (code c) sep then List.◌∷◌ [] rest else cons_head c rest

-- `unicode.IsSpace`.
abbrev pub is_space : Char → Bool
is_space c =
    let n = code c in
    (leb 9 n && leb n 13)
    || nat_eq n 32
    || nat_eq n 0x85
    || nat_eq n 0xa0
    || nat_eq n 0x1680
    || (leb 0x2000 n && leb n 0x200a)
    || nat_eq n 0x2028
    || nat_eq n 0x2029
    || nat_eq n 0x202f
    || nat_eq n 0x205f
    || nat_eq n 0x3000

unfoldable pub trim_left : String → String
trim_left [] = []
trim_left (c ∷ s) = let rest = trim_left s in if is_space c then rest else c ∷ s

unfoldable pub trim_right : String → String
trim_right [] = []
trim_right (c ∷ s) = let rest = trim_right s in if rest == "" && is_space c then [] else c ∷ rest

-- `strings.TrimSpace`.
unfoldable pub trim_space : String → String
unfolding trim_left trim_right
trim_space s = trim_right (trim_left s)

-- `strings.HasPrefix(s, prefix)`.
unfoldable pub has_prefix : String → String → Bool
has_prefix s [] = true
has_prefix [] (d ∷ p) = false
has_prefix (c ∷ s) (d ∷ p) = nat_eq (code c) (code d) && has_prefix s p

-- `strings.TrimPrefix(s, prefix)`.
unfoldable pub drop_prefix : String → String → Option String
drop_prefix s [] = some s
drop_prefix [] (d ∷ p) = none
drop_prefix (c ∷ s) (d ∷ p) =
    let rest = drop_prefix s p in if nat_eq (code c) (code d) then rest else none

unfoldable pub trim_prefix : String → String → String
unfolding drop_prefix
trim_prefix s p = elim (drop_prefix s p) [ none ↦ s | some rest ↦ rest ]

-- `strings.Contains(s, sub)`.
unfoldable pub contains : String → String → Bool
unfolding has_prefix
contains [] sub = has_prefix [] sub
contains (c ∷ s) sub = has_prefix (c ∷ s) sub || contains s sub
