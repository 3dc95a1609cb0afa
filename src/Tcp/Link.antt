-- ===== src/Tcp/Link.antt =====
-- What becomes of the link to the relay when a write fails.
use mt5_bridge.Prelude.{◌≡◌, refl, Bool, true, false, List, [], ◌∷◌, arith}
use mt5_bridge.Tcp.{RelayLink, waiting, keeper_step, send_to_relay}

-- An attempt of the keeper, or a line to send, with what the network does.
pub data LinkEvent : Type 0 where
  keeps sends : Bool → LinkEvent

-- Whether some line was written, and the link at the end.
unfoldable pub run : List LinkEvent → RelayLink → Bool × RelayLink
unfolding keeper_step send_to_relay
run [] link = (false, link)
run (keeps dialled ∷ es) link = run es (keeper_step dialled link)
run (sends written ∷ es) link =
    let (now, link') = send_to_relay written link in
    let (later, end) = run es link' in (elim now [ true ↦ true | false ↦ later ], end)

abbrev pub lost_link : RelayLink
lost_link = record { connected = false; keeper = waiting }

lost_forever : (es : List LinkEvent) → run es lost_link ≡ (false, lost_link)
unfolding run
lost_forever [] = refl
lost_forever (keeps dialled ∷ es) = lost_forever es
lost_forever (sends written ∷ es) = rw (lost_forever es)

-- Once a write of a connected link has failed, no line is written to the relay again, whatever is
-- sent later and whether or not the relay could be dialled.
pub run-lost :
    (link : RelayLink) (es : List LinkEvent)
    → link.connected ≡ true
    → link.keeper ≡ waiting
    → run (sends false ∷ es) link ≡ (false, lost_link)
unfolding run
run-lost link es c k = ground (arith, lost_forever es)
