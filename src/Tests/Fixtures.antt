-- ===== src/Tests/Fixtures.antt =====
-- Concrete numbers, conversions and a Redis server for the examples.
use native.Mathlib.Nat.{mul-le-mul_left, mul-le-mul_right}
use mt5_bridge.Prelude.{
  ℕ, ◌+◌, ◌*◌, ◌/◌, ◌≤◌, String, ◌≡◌, ◌≢◌, refl, ap, sym, ◌∙◌, Bool, true, false, not, ◌&&◌, Option,
  none, some, List, [], ◌∷◌, map, ltb, leb, nat_eq, if◌then◌else◌, ◌==◌, any, filter, arith, eq_iff,
}
use mt5_bridge.Go.Int.{pos}
use mt5_bridge.Go.Float.{Float64, IsOrdered, IsMonotone}
use mt5_bridge.Redis.{Redis, IsDocumented}
use mt5_bridge.Signal.{Conversions, nil, float64, int}

-- Numbers that are counted in hundredths, rounded down.
instance abbrev pub cents : Float64 ℕ
cents = record {
  hundredths = λ n. n;
  le = leb;
  lt = ltb;
  float_eq = nat_eq;
  mul = λ x y. (x * y) / 100;
  div = λ x y. (x * 100) / y;
  round = λ x. ((x + 50) / 100) * 100;
  decimal_6_2 = λ x. x;
}

le_of_leb : (a b : ℕ) → leb a b ≡ true → a ≤ b
le_of_leb a b h = ground arith

scaled : (a b : ℕ) → a ≤ b → leb (a / 100) (b / 100) ≡ true
scaled a b h = ground arith

pub cents-IsOrdered : IsOrdered ℕ
cents-IsOrdered = record {
  le_literals = λ a b _ _. refl;
  le_total = λ x y _ _. ground arith;
  le_trans = λ x y z h k. ground arith;
  lt-eq-not-le = λ x y _ _. ground arith;
}

pub cents-IsMonotone : IsMonotone ℕ
cents-IsMonotone = record {
  mul_mono_right = λ c x y _ h _ _. scaled (c * x) (c * y) (mul-le-mul_left c (le_of_leb x y h));
  mul_mono_left = λ x y c _ h _ _. scaled (x * c) (y * c) (mul-le-mul_right c (le_of_leb x y h));
  round_mono = λ x y h. ground arith;
  div_100_mono = λ x y h. ground arith;
}

-- Texts of two forms are known: "0.5" and "7", and one JSON signal.
abbrev scan : {A : Type 0} → A → A → String → Option A
scan half seven s = if s == "0.5" then some half else if s == "7" then some seven else none

abbrev pub json_line : String
json_line = "{\"account_id\":\"1001\",\"action\":\"open\"}"

abbrev pub conversions : Conversions ℕ
conversions = record {
  parse_float = λ s. elim (scan 50 700 s) [ none ↦ 0 | some x ↦ x ];
  parse_int = λ s. pos (elim (scan 0 7 s) [ none ↦ 0 | some x ↦ x ]);
  scan_float = scan 50 700;
  scan_int = λ s. if s == "7" then some (pos 7) else none;
  float_of_int = λ i. 0;
  int64_of_float = λ x. pos (x / 100);
  to_upper = λ s. if s == "open" then "OPEN" else s;
  unmarshal_signal = λ s.
      if s == json_line
      then some (record {
        account_id = "1001";
        action = "open";
        side = "BUY";
        symbol = "EURUSD";
        lot = float64 200;
        sl = nil;
        tp = nil;
        price = nil;
        magic = int (pos 7);
        pnl = nil;
        comment = "";
      })
      else none;
}

-- A server that only knows sets: the pairs of a key and a member.
abbrev pub Pairs : Type 0
Pairs = List (String × String)

abbrev pub holds : Pairs → String → String → Bool
holds s k m = any (λ (j, n). j == k && n == m) s

abbrev pub sets : Redis
sets = record {
  State = Pairs;
  set_has = holds;
  text_at = λ s k. none;
  sadd = λ k m s. (some tt, (k, m) ∷ s);
  srem = λ k m s. (some tt, filter (λ (j, n). not (j == k && n == m)) s);
  del = λ k s. (some tt, filter (λ (j, n). not (j == k)) s);
  set = λ k v s. (none, s);
  get = λ k s. (none, s);
  smembers = λ k s. (some (map (λ p. p.1) (filter (λ (j, n). j == k) s)), s);
  scard = λ k s. (none, s);
  sismember = λ k m s. (some (holds s k m), s);
  publish = λ channel text s. (some tt, s);
  keys = λ pattern s. (none, s);
  exec = λ commands s. (none, s);
  ping = λ s. (some tt, s);
}

pub sets-IsDocumented : IsDocumented sets
unfolding any filter
sets-IsDocumented = record {
  sadd_adds = λ k m s _ j n. ground arith;
  srem_removes = λ k m s _ j n. removed k m j n s;
  del_removes = λ k s _ j n. deleted k j n s;
  smembers_lists =
      λ k s members h n. ap (any (λ m. m == n)) (sym (some_injective h)) ∙ listed k n s;
}
  where
    some_injective : {A : Type 0} {x y : A} → some x ≡ some y → x ≡ y
    some_injective h = cc

    removed :
        (k m j n : String) (s : Pairs)
        → holds (filter (λ (i, l). not (i == k && l == m)) s) j n
          ≡ (if k == j && m == n then false else holds s j n)
    removed k m j n [] = ground arith
    removed k m j n ((i, l) ∷ s) = ground (
      arith,
      removed k m j n s,
      eq_iff i k,
      eq_iff i j,
      eq_iff k j,
      eq_iff l m,
      eq_iff l n,
      eq_iff m n,
    )

    deleted :
        (k j n : String) (s : Pairs)
        → holds (filter (λ (i, l). not (i == k)) s) j n ≡ (if k == j then false else holds s j n)
    deleted k j n [] = ground arith
    deleted k j n ((i, l) ∷ s) = ground (arith, deleted k j n s, eq_iff i k, eq_iff i j, eq_iff k j)

    listed :
        (k n : String) (s : Pairs)
        → any (λ m. m == n) (map (λ p. p.1) (filter (λ (j, l). j == k) s)) ≡ holds s k n
    listed k n [] = refl
    listed k n ((j, l) ∷ s) = ground (arith, listed k n s)

pub differs : (a b : String) → (a == b) ≡ false → a ≢ b
differs a b h = ground (arith, eq_iff a b)
