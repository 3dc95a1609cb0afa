-- ===== src/Relay/Sending.antt =====
-- What `sendToServer` has done when it returns.
use mt5_bridge.Prelude.{
  ℕ, zero, suc, one_if, ◌≤◌, ◌≡◌, refl, Bool, true, false, ◌&&◌, not, List, [], ◌∷◌, arith,
}
use mt5_bridge.Relay.{
  Round, Event, wrote, dialled, dial_failed, send_rounds, send_to_server, max_attempts,
}

-- How often an event is among the events.
abbrev pub writes : List Event → ℕ
writes [] = 0
writes (wrote ∷ es) = suc (writes es)
writes (_ ∷ es) = writes es

abbrev pub dials : List Event → ℕ
dials [] = 0
dials (dialled ∷ es) = suc (dials es)
dials (dial_failed ∷ es) = suc (dials es)
dials (_ ∷ es) = dials es

-- A round fails if the old connection, where there is one, does not take the line, and no new one does.
abbrev pub round_fails : Bool → Round → Bool
round_fails conn r = not (conn && r.old_write) && not (r.dial && r.new_write)

abbrev pub rounds_fail : ℕ → ℕ → (ℕ → Round) → Bool → Bool
rounds_fail zero i net conn = true
rounds_fail (suc left) i net conn = round_fails conn (net i) && rounds_fail left (suc i) net false

send_rounds_lem :
    (left i : ℕ) (net : ℕ → Round) (conn : Bool)
    → let sent = send_rounds left i net conn in
      (sent.delivered ≡ not (rounds_fail left i net conn))
      × (writes sent.events ≡ one_if sent.delivered)
      × (dials sent.events ≤ left)
unfolding send_rounds
send_rounds_lem zero i net conn = ground arith
send_rounds_lem (suc left) i net conn = ground (arith, send_rounds_lem left (suc i) net false)

-- With no connection at the start, there is one at the end exactly if the line was delivered.
send_rounds-connected :
    (left i : ℕ) (net : ℕ → Round)
    → (send_rounds left i net false).connected ≡ (send_rounds left i net false).delivered
unfolding send_rounds
send_rounds-connected zero i net = refl
send_rounds-connected (suc left) i net = ground (arith, send_rounds-connected left (suc i) net)

-- A call of `sendToServer` that no other call disturbs succeeds exactly if one of the three rounds has
-- a write that succeeds: of the old connection in the first round, where there is one, or of a
-- connection that is dialled in a round.
-- It has written the line once if it succeeds and not at all if it fails, has dialled three times at
-- most, and leaves a connection exactly if it succeeds.
pub send_to_server_lem :
    (net : ℕ → Round) (conn : Bool)
    → let sent = send_to_server net conn in
      (sent.delivered ≡ not (rounds_fail max_attempts 0 net conn))
      × (writes sent.events ≡ one_if sent.delivered)
      × (dials sent.events ≤ max_attempts)
      × (sent.connected ≡ sent.delivered)
unfolding send_to_server
send_to_server_lem net conn =
    let (result, once, few) = send_rounds_lem max_attempts 0 net conn in
    (result, once, few, connected)
  where
    connected :
        (send_rounds max_attempts 0 net conn).connected
        ≡ (send_rounds max_attempts 0 net conn).delivered
    connected = unfold send_rounds in ground (arith, send_rounds-connected 2 1 net)
