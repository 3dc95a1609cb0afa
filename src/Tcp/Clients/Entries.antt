-- ===== src/Tcp/Clients/Entries.antt =====
-- The table of clients as a map, and when it is in order with the goroutines of the connections.
use mt5_bridge.Prelude.{
  ℕ, zero, suc, ◌≡◌, refl, ◌∙◌, ◌≢◌, String, Bool, true, false, Option, none, some, List, [], ◌∷◌,
  inl, inr, if◌then◌else◌, arith, nat_eq, get_elem?, count, Bool-cases, is_some,
}
use mt5_bridge.Tcp.Clients.{
  Place, serving, noting, handling, gone, Conn, Client, Clients, client_at, put, remove, Server,
  close_listed,
}

pub client_at-put :
    (conn wanted : ℕ) (client : Client) (clients : Clients)
    → client_at wanted (put conn client clients)
      ≡ (if nat_eq conn wanted then some client else client_at wanted clients)
unfolding put client_at
client_at-put conn wanted client [] = refl
client_at-put conn wanted client ((key, old) ∷ clients) =
    ground (arith, client_at-put conn wanted client clients)

pub put-other :
    (i k : ℕ) (client : Client) (clients : Clients)
    → k ≢ i
    → client_at k (put i client clients) ≡ client_at k clients
put-other i k client clients ne = client_at-put i k client clients ∙ ground (arith, ne)

pub client_at-remove :
    (conn wanted : ℕ) (clients : Clients)
    → client_at wanted (remove conn clients)
      ≡ (if nat_eq conn wanted then none else client_at wanted clients)
unfolding remove client_at
client_at-remove conn wanted [] = ground arith
client_at-remove conn wanted ((key, old) ∷ clients) =
    ground (arith, client_at-remove conn wanted clients)

abbrev pub is_serving : Place → Bool
is_serving serving = true
is_serving (noting line) = true
is_serving (handling line) = true
is_serving _ = false

abbrev pub is_running : Place → Bool
is_running gone = false
is_running _ = true

abbrev pub addr_of : Option Client → Option String
addr_of none = none
addr_of (some client) = some client.addr

-- The address that the table has for a connection, from the place of its goroutine.
abbrev pub entry_of : Option Conn → Option String
entry_of none = none
entry_of (some c) = if is_serving c.place then some c.addr else none

-- A connection whose goroutine has returned is closed.
abbrev pub IsShut : Option Conn → Type 0
IsShut none = Unit
IsShut (some c) = is_running c.place ≡ false → c.closed ≡ true

abbrev pub IsListed : ℕ → Clients → List Conn → Type 0
IsListed i clients conns =
    (addr_of (client_at i clients) ≡ entry_of (get_elem? conns i)) × IsShut (get_elem? conns i)

abbrev pub runs : Conn → Bool
runs c = is_running c.place

module _ {F : Type 0} where
  abbrev pub IsTidy : Server F → Type 0
  IsTidy s = ((i : ℕ) → IsListed i s.clients s.conns) × (s.running ≡ count runs s.conns)

pub close_listed-entry :
    (k i : ℕ) (clients : Clients) (conns : List Conn)
    → (entry_of (get_elem? (close_listed k clients conns) i) ≡ entry_of (get_elem? conns i))
      × (IsShut (get_elem? conns i) → IsShut (get_elem? (close_listed k clients conns) i))
unfolding close_listed
close_listed-entry k i clients [] = (refl, λ h. h)
close_listed-entry k zero clients (c ∷ cs) = elim (Bool-cases (is_some (client_at k clients))) [
  | inl e ↦ rw (e) (refl, λ h l. refl)
  | inr e ↦ rw (e) (refl, λ h. h)
]
close_listed-entry k (suc i) clients (c ∷ cs) = close_listed-entry (suc k) i clients cs

pub close_listed-count :
    (k : ℕ) (clients : Clients) (conns : List Conn)
    → count runs (close_listed k clients conns) ≡ count runs conns
unfolding close_listed count
close_listed-count k clients [] = refl
close_listed-count k clients (c ∷ cs) = ground (arith, close_listed-count (suc k) clients cs)
