-- ===== src/Sender/Files.antt =====
-- What a file makes the sender send.
use mt5_bridge.Prelude.{String, ◌≡◌, refl, ap, ◌∙◌, false, some, List, [], ◌∷◌, map, All, ◌++◌}
use mt5_bridge.Go.Text.{trim_space}
use mt5_bridge.Go.Text.SplitJoin.{IsFree, join, split-join}
use mt5_bridge.Sender.{SignalPayload, Texts, Report}
use mt5_bridge.Sender.Command.{
  is_left_out, LineOrder, skips, invalid, sends, Sent, Exit, usage, fatal, finished, batch_line,
  file_lines, send_lines, send_file, send_batch,
}

abbrev pub sent_in : {F : Type 0} → Exit F → List (SignalPayload F)
sent_in usage = []
sent_in (fatal sent) = map (λ x. x.0) sent
sent_in (finished sent) = map (λ x. x.0) sent

module _ {F : Type 0} where
  abbrev pub order_of : LineOrder F → List (SignalPayload F)
  order_of skips = []
  order_of invalid = []
  order_of (sends p) = p ∷ []

  -- The payloads of the lines that ask for one.
  abbrev pub orders : (String → LineOrder F) → List String → List (SignalPayload F)
  orders read [] = []
  orders read (line ∷ lines) = order_of (read line) ++ orders read lines

  module _ {W : Type 0} (send : SignalPayload F → W → Report F × W) where
    send_lines-orders :
        (read : String → LineOrder F) (lines : List String) (s : W)
        → map (λ x. x.0) (send_lines send read lines s).0 ≡ orders read lines
    unfolding send_lines
    send_lines-orders read [] s = refl
    send_lines-orders read (line ∷ lines) s =
        elim (read line)
          as (λ o.
            map (λ x. x.0)
              (elim o as (λ _. Sent F × W) [
                | skips ↦ send_lines send read lines s
                | invalid ↦ send_lines send read lines s
                | sends p ↦
                    let (report, s') = send p s in
                    let (sent, s'') = send_lines send read lines s' in ((p, report) ∷ sent, s'')
              ]).0
            ≡ order_of o ++ orders read lines) [
              | skips ↦ send_lines-orders read lines s
              | invalid ↦ send_lines-orders read lines s
              | sends p ↦ ap (λ x. p ∷ x) (send_lines-orders read lines (send p s).1)
            ]

    -- The payloads that a batch file, its lines joined by line feeds, makes the sender send are those of
    -- its lines that are JSON, blank lines and comments apart, in the order of the file and each once,
    -- whatever the network answers, if the file has no white space at its ends.
    pub send_batch-orders :
        (texts : Texts F) (first : String) (rest : List String) (s : W)
        → trim_space (join "\n" first rest) ≡ join "\n" first rest
        → IsFree b'\n' first
        → All (IsFree b'\n') rest
        → sent_in (send_batch send texts (some (join "\n" first rest)) s).0
          ≡ orders (batch_line texts) (first ∷ rest)
    unfolding send_batch send_file file_lines
    send_batch-orders texts first rest s trimmed h hs =
        rw (trimmed, split-join "\n" first rest h hs)
          (send_lines-orders (batch_line texts) (first ∷ rest) s)

module _ {F : Type 0} (texts : Texts F) where
  -- The text is a payload's JSON on one line, which a batch file may hold.
  pub record IsLineOf (p : SignalPayload F) (line : String) : Type 0 where
    pub reads : texts.unmarshal line ≡ some p
    pub trimmed : trim_space line ≡ line
    pub kept : is_left_out line ≡ false
    pub one_line : IsFree b'\n' line

  abbrev pub AreLinesOf : List (SignalPayload F) → List String → Type 0
  AreLinesOf [] [] = Unit
  AreLinesOf [] (line ∷ lines) = ⊥
  AreLinesOf (p ∷ ps) [] = ⊥
  AreLinesOf (p ∷ ps) (line ∷ lines) = IsLineOf p line × AreLinesOf ps lines

  batch_line-order :
      (p : SignalPayload F) (line : String) → IsLineOf p line → batch_line texts line ≡ sends p
  unfolding batch_line
  batch_line-order p line h = rw (h.trimmed, h.kept, h.reads) refl

  orders-lines :
      (ps : List (SignalPayload F)) (lines : List String)
      → AreLinesOf ps lines
      → (orders (batch_line texts) lines ≡ ps) × All (IsFree b'\n') lines
  orders-lines [] [] h = (refl, tt)
  orders-lines [] (line ∷ lines) h = elim h [ ]
  orders-lines (p ∷ ps) [] h = elim h [ ]
  orders-lines (p ∷ ps) (line ∷ lines) (h, hs) =
      let (same, free) = orders-lines ps lines hs in
      (rw (batch_line-order p line h, same) refl, (h.one_line, free))

  -- Payloads that are written to a batch file, one JSON text on a line, are the payloads that the
  -- sender sends from it, in order, whatever the network answers.
  pub send_batch-lines :
      {W : Type 0} (send : SignalPayload F → W → Report F × W) (p : SignalPayload F)
      (ps : List (SignalPayload F)) (line : String) (lines : List String) (s : W)
      → AreLinesOf (p ∷ ps) (line ∷ lines)
      → trim_space (join "\n" line lines) ≡ join "\n" line lines
      → sent_in (send_batch send texts (some (join "\n" line lines)) s).0 ≡ p ∷ ps
  send_batch-lines send p ps line lines s h trimmed =
      let (same, (free, frees)) = orders-lines (p ∷ ps) (line ∷ lines) h in
      send_batch-orders send texts line lines s trimmed free frees ∙ same
