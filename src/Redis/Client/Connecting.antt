-- ===== src/Redis/Client/Connecting.antt =====
-- When the loops of internal/redis/client.go come to a connection.
use mt5_bridge.Prelude.{
  ℕ, zero, suc, ◌+◌, ◌≤◌, ◌<◌, ◌≡◌, ◌↔◌, sym, ap, Bool, true, false, Option, some, nat_eq, arith,
  Bool-cases, inl, inr,
}
use mt5_bridge.Go.Retry.{retry-finds}
use mt5_bridge.Redis.Client.{
  max_retries, Try, Connection, cancelled, gave_up, connected, connect_from, keep_client, connect,
  connect_with_retry,
}

-- If Redis can be reached at some try, ConnectWithRetry returns: it gives the client of the first try
-- that reaches it, at the latest the one named, and no further try changes that.
pub connect_with_retry-returns :
    (connects : ℕ → Bool) (n : ℕ)
    → connects n ≡ true
    → (m : ℕ) × ((m ≤ n)
        × ((connects m ≡ true)
            × (((j : ℕ) → j < m → connects j ≡ false)
                × ((tries : ℕ) → n < tries → connect_with_retry tries connects ≡ some m))))
unfolding connect_with_retry
connect_with_retry-returns connects n s =
    let (m, ((_, (now, before)), (low, found))) = retry-finds n 0 connects (rw (plus n) s) in
    (m, (omega arith, (now, (λ j l. before j (omega arith) l, found))))
  where
    plus : (n : ℕ) → 0 + n ≡ n
    plus n = omega arith

-- The try gives no client, and the context is not done at it.
abbrev pub Failed : Try → Type 0
Failed t = (t.done_before ≡ false) × ((t.connects ≡ false) × (t.done_waiting ≡ false))

-- The try is the first from `lo` on that does not fail, and gives a client.
abbrev pub IsReached : ℕ → (ℕ → Try) → ℕ → Type 0
IsReached lo tries i =
    (lo ≤ i)
    × (((tries i).done_before ≡ false)
        × (((tries i).connects ≡ true) × ((j : ℕ) → lo ≤ j → j < i → Failed (tries j))))

IsReached-later :
    (lo i : ℕ) (tries : ℕ → Try)
    → Failed (tries lo)
    → IsReached (suc lo) tries i
    → IsReached lo tries i
IsReached-later lo i tries f (low, (b, (c, before))) = (
  omega arith,
  (
    b,
    (
      c,
      λ j a l. elim (Bool-cases (nat_eq lo j)) [
        | inl e ↦ ground arith
        | inr e ↦ before j (ground arith) l
      ],
    ),
  ),
)

IsReached-now :
    (left lo i : ℕ) (tries : ℕ → Try)
    → (tries lo).done_before ≡ false
    → (tries lo).connects ≡ true
    → lo ≡ i
    → (i < lo + suc left) × IsReached lo tries i
IsReached-now left lo i tries b c e =
    rw (sym e) (omega arith, (omega arith, (b, (c, λ j a l. ground arith))))

connect_from-IsReached :
    (left lo i : ℕ) (tries : ℕ → Try)
    → connect_from left lo tries ≡ connected i
    → (i < lo + left) × IsReached lo tries i
unfolding connect_from
connect_from-IsReached zero lo i tries e = ground arith
connect_from-IsReached (suc left) lo i tries e = elim (Bool-cases (tries lo).done_before) [
  | inl b ↦ ground arith
  | inr b ↦ elim (Bool-cases (tries lo).connects) [
    | inl c ↦ IsReached-now left lo i tries b c (ground arith)
    | inr c ↦ elim (Bool-cases (nat_eq left 0)) [
      | inl z ↦
          let (l, (low, _)) = connect_from-IsReached left (suc lo) i tries (ground arith) in
          ground arith
      | inr z ↦ elim (Bool-cases (tries lo).done_waiting) [
        | inl w ↦ ground arith
        | inr w ↦
            let (l, r) = connect_from-IsReached left (suc lo) i tries (ground arith) in
            (omega arith, IsReached-later lo i tries (b, (c, w)) r)
      ]
    ]
  ]
]

IsReached-connect_from :
    (left lo i : ℕ) (tries : ℕ → Try)
    → i < lo + left
    → IsReached lo tries i
    → connect_from left lo tries ≡ connected i
unfolding connect_from
IsReached-connect_from zero lo i tries l (low, r) = ground arith
IsReached-connect_from (suc left) lo i tries l (low, (b, (c, before))) =
    elim (Bool-cases (nat_eq lo i)) [
      | inl e ↦ ground arith
      | inr e ↦
          let (b', (c', w')) = before lo (omega arith) (ground arith) in
          let later =
            IsReached-connect_from left (suc lo) i tries (omega arith)
              (ground arith, (b, (c, λ j a. before j (omega arith)))) in
          ground arith
    ]

-- Connect gives a client exactly if one of its first ten tries does so with the context not done at it,
-- and all tries before it have failed with the context not done at or after them; that client, and no
-- other, becomes the global one.
pub connect-connected_iff :
    (tries : ℕ → Try) (before : Option ℕ) (i : ℕ)
    → (connect tries before ≡ (connected i, some i)) ↔ ((i < max_retries) × IsReached 0 tries i)
unfolding connect keep_client
connect-connected_iff tries before i = (
  λ e. connect_from-IsReached max_retries 0 i tries (came_of (connect_from max_retries 0 tries) e),
  λ p. ap (λ c. keep_client c before) (IsReached-connect_from max_retries 0 i tries p.0 p.1),
)
  where
    came_of : (c : Connection) → keep_client c before ≡ (connected i, some i) → c ≡ connected i
    came_of cancelled e = ap (λ x. x.0) e
    came_of gave_up e = ap (λ x. x.0) e
    came_of (connected j) e = ap (λ x. x.0) e
