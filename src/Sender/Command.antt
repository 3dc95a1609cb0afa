-- ===== src/Sender/Command.antt =====
-- The modes of cmd/sender/main.go: a single send, a batch, a file of symbols, and the loop.
use mt5_bridge.Prelude.{
  ℕ, zero, suc, String, Bool, true, false, not, ◌&&◌, ◌||◌, Option, none, some, List, [], ◌∷◌,
  if◌then◌else◌, ◌==◌,
}
use mt5_bridge.Go.Int.{ℤ, pos, negsuc}
use mt5_bridge.Go.Text.{split, trim_space, has_prefix}
use mt5_bridge.Go.Float.{Float64}
use mt5_bridge.Sender.{
  SignalPayload, Flags, Texts, Network, Report, is_error, detect_transport, send_signal,
}

-- What a line of a file asks for: nothing, a warning, or a send.
pub data LineOrder (F : Type 0) : Type 0 where
  skips invalid : LineOrder F
  sends : SignalPayload F → LineOrder F

abbrev pub is_left_out : String → Bool
is_left_out line = line == "" || has_prefix line "#"

module _ {F : Type 0} (texts : Texts F) where
  unfoldable pub batch_line : String → LineOrder F
  batch_line raw =
      let line = trim_space raw in
      if is_left_out line
      then skips
      else elim (texts.unmarshal line) [ none ↦ invalid | some p ↦ sends p ]

  unfoldable pub symbol_line : ⦃fl : Float64 F⦄ → Flags F → String → LineOrder F
  symbol_line ⦃fl⦄ flags raw =
      let sym = trim_space (texts.to_upper raw) in
      if is_left_out sym
      then skips
      else sends (record {
        action = flags.action;
        side = "";
        symbol = sym;
        lot = fl.hundredths 0;
        price = fl.hundredths 0;
        sl = fl.hundredths 0;
        tp = fl.hundredths 0;
        magic = flags.magic;
        pnl = flags.pnl;
        comment = flags.comment;
      })

  unfoldable pub payload_of : Flags F → SignalPayload F
  payload_of flags = record {
    action = texts.to_upper flags.action;
    side = texts.to_upper flags.side;
    symbol = texts.to_upper flags.symbol;
    lot = flags.lot;
    price = flags.price;
    sl = flags.sl;
    tp = flags.tp;
    magic = flags.magic;
    pnl = flags.pnl;
    comment = flags.comment;
  }

-- `strings.Split(strings.TrimSpace(string(data)), "\n")`.
unfoldable pub file_lines : String → List String
file_lines content = split b'\n' (trim_space content)

-- What was sent, with what came of it.
abbrev pub Sent : Type 0 → Type 0
Sent F = List (SignalPayload F × Report F)

-- How the program ends: with the usage, or with `log.Fatalf` after what was sent, or normally.
pub data Exit (F : Type 0) : Type 0 where
  usage : Exit F
  fatal finished : Sent F → Exit F

module _ {F : Type 0} {W : Type 0} (send : SignalPayload F → W → Report F × W) where
  -- The loop over the lines of a file. An error of a send is only printed.
  unfoldable pub send_lines : (String → LineOrder F) → List String → W → Sent F × W
  send_lines read [] s = ([], s)
  send_lines read (line ∷ lines) s = elim (read line) [
    | skips ↦ send_lines read lines s
    | invalid ↦ send_lines read lines s
    | sends p ↦
        let (report, s') = send p s in
        let (sent, s'') = send_lines read lines s' in ((p, report) ∷ sent, s'')
  ]

  -- `none` is a file that cannot be read.
  unfoldable pub send_file : (String → LineOrder F) → Option String → W → Exit F × W
  unfolding send_lines file_lines
  send_file read none s = (fatal [], s)
  send_file read (some content) s =
      let (sent, s') = send_lines read (file_lines content) s in (finished sent, s')

  unfoldable pub send_batch : Texts F → Option String → W → Exit F × W
  unfolding send_file batch_line
  send_batch texts file s = send_file (batch_line texts) file s

  unfoldable pub send_symbol_file :
      ⦃fl : Float64 F⦄ → Texts F → Flags F → Option String → W → Exit F × W
  unfolding send_file symbol_line
  send_symbol_file texts flags file s = send_file (symbol_line texts flags) file s

  -- The loop of `-loop` for so many ticks, until a send fails.
  unfoldable pub send_ticks : ℕ → SignalPayload F → W → Exit F × W
  send_ticks zero p s = (finished [], s)
  send_ticks (suc ticks) p s =
      let (report, s') = send p s in
      let (later, s'') = send_ticks ticks p s' in
      if is_error report then (fatal ((p, report) ∷ []), s') else (
        elim later [
          | usage ↦ usage
          | fatal sent ↦ fatal ((p, report) ∷ sent)
          | finished sent ↦ finished ((p, report) ∷ sent)
        ],
        s'',
      )

  unfoldable pub send_once : SignalPayload F → W → Exit F × W
  unfolding is_error
  send_once p s =
      let (report, s') = send p s in
      (if is_error report then fatal ((p, report) ∷ []) else finished ((p, report) ∷ []), s')

-- The checks of `main`, on the flags as they are typed.
unfoldable pub is_usable : {F : Type 0} → Flags F → Bool
is_usable flags =
    not (flags.action == "")
    && not ((flags.action == "OPEN" || flags.action == "EDIT") && flags.symbol == "")

abbrev is_positive : ℤ → Bool
is_positive (pos zero) = false
is_positive (pos (suc n)) = true
is_positive (negsuc n) = false

-- `file` is what reading the named file gives, `ticks` how many ticks of the clock are watched.
unfoldable pub main :
    (net : Network) {F : Type 0} ⦃fl : Float64 F⦄
    → Texts F
    → Flags F
    → (String → Option String)
    → ℕ
    → net.State
    → Exit F × net.State
unfolding is_usable payload_of detect_transport send_signal send_batch send_symbol_file send_ticks
    send_once
main net texts flags file ticks s =
    let send = send_signal net texts flags (detect_transport flags flags.host) flags.host in
    let p = payload_of texts flags in
    if not (is_usable flags)
    then (usage, s)
    else if not (flags.batch == "")
    then send_batch send texts (file flags.batch) s
    else if not (flags.symbol_file == "")
    then send_symbol_file send texts flags (file flags.symbol_file) s
    else if is_positive flags.loop
    then send_ticks send ticks p s
    else send_once send p s
