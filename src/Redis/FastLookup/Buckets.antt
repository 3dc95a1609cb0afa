-- ===== src/Redis/FastLookup/Buckets.antt =====
-- The range of `getBucket` of internal/redis/fast_lookup.go.
use Prim.Native.Char.{code}
use mt5_bridge.Prelude.{
  ℕ, ◌+◌, ◌-◌, ◌*◌, ◌%◌, ◌^◌, ◌<◌, ◌≡◌, refl, ◌∙◌, ltb, nat_eq, String, Bool-cases, inl, inr, arith,
}
use mt5_bridge.Go.Int.{ℤ, pos, negsuc}
use mt5_bridge.Redis.FastLookup.{hash_from, signed_rem_16, get_bucket}

-- The hash as it would be without a bound on the numbers.
abbrev pub unbounded_hash : ℕ → String → ℕ
unbounded_hash h String.[] = h
unbounded_hash h (String.◌∷◌ c s) = unbounded_hash (31 * h + code c) s

-- The remainder from 0 on that a signed remainder stands for.
abbrev pub from_zero : ℤ → ℕ
from_zero (pos r) = r
from_zero (negsuc r) = 15 - r

abbrev pub IsRemainder : ℤ → Type 0
IsRemainder (pos r) = r < 16
IsRemainder (negsuc r) = r < 15

hash_from-bound : (s : String) (h : ℕ) → h < 2 ^ 64 → hash_from h s < 2 ^ 64
unfolding hash_from
hash_from-bound String.[] h l = l
hash_from-bound (String.◌∷◌ c s) h l = hash_from-bound s ((31 * h + code c) % 2 ^ 64) (omega arith)

hash_from-residue :
    (s : String) (h k : ℕ) → h % 16 ≡ k % 16 → hash_from h s % 16 ≡ unbounded_hash k s % 16
unfolding hash_from
hash_from-residue String.[] h k e = e
hash_from-residue (String.◌∷◌ c s) h k e =
    hash_from-residue s ((31 * h + code c) % 2 ^ 64) (31 * k + code c) (omega arith)

signed_rem_16-residue :
    (h : ℕ) → h < 2 ^ 64 → IsRemainder (signed_rem_16 h) × (from_zero (signed_rem_16 h) ≡ h % 16)
unfolding signed_rem_16
signed_rem_16-residue h l = elim (Bool-cases (ltb h (2 ^ 63))) [
  | inl e ↦ rw (e) (omega arith, refl)
  | inr e ↦ elim (Bool-cases (nat_eq ((2 ^ 64 - h) % 16) 0)) [
    | inl z ↦ rw (e, z) (omega arith, ground arith)
    | inr z ↦ rw (e, z) (ground arith, ground arith)
  ]
]

-- The bucket of a key is between -15 and 15, and however often the 64 bits of the hash have wrapped
-- around, it stands for the remainder of the unbounded hash at division by 16; it is that remainder, or
-- 16 less.
pub get_bucket-IsRemainder :
    (key : String)
    → IsRemainder (get_bucket key) × (from_zero (get_bucket key) ≡ unbounded_hash 0 key % 16)
unfolding get_bucket
get_bucket-IsRemainder key =
    let (bound, residue) =
      signed_rem_16-residue (hash_from 0 key) (hash_from-bound key 0 (omega arith)) in
    (bound, residue ∙ hash_from-residue key 0 0 refl)
