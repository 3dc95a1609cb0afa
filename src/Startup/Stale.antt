-- ===== src/Startup/Stale.antt =====
-- Whose signals a running TCP bridge distributes.
use mt5_bridge.Prelude.{
  ℕ, String, ◌≡◌, refl, sym, ap, ◌∙◌, Bool, true, false, Option, none, some, List, [], any, lookup,
  if◌then◌else◌, Bool-cases, inl, inr, some_injective, absurd-none,
}
use mt5_bridge.Go.Float.{Float64}
use mt5_bridge.Signal.{Signal, Conversions}
use mt5_bridge.Signal.Queue.{Queue}
use mt5_bridge.Models.{Master}
use mt5_bridge.Db.{Db, Reply}
use mt5_bridge.Db.Masters.Rows.{HasUniqueKeys, live_id}
use mt5_bridge.Redis.{Redis}
use mt5_bridge.Cache.{MasterCache, get, complete}
use mt5_bridge.Cache.Coherence.{load_from_db-Coherent}
use mt5_bridge.Distribution.{Outcome, distribute_to_followers}
use mt5_bridge.Tcp.{Bridge, is_master_signal, run_distribution, handle_lines}
use mt5_bridge.Tcp.Lines.{crashes, handle_lines_lem}
use mt5_bridge.Startup.{Attempt, is_up, init_master_follower}

abbrev pub no_masters : MasterCache
no_masters = record { cache = [] }

-- The master of an account for a bridge that has started.
abbrev pub known_master : Attempt → List Master → String → Option String
known_master attempt_ masters account_id =
    if is_up attempt_ then live_id account_id masters else none

started-get :
    (attempt_ : Attempt) (masters : List Master) (account_id : String)
    → HasUniqueKeys masters
    → get account_id (init_master_follower attempt_ complete masters no_masters).0
      ≡ known_master attempt_ masters account_id
unfolding init_master_follower is_up get lookup
started-get attempt_ masters account_id unique = elim (Bool-cases attempt_.opens) [
  | inr e ↦ rw (e) refl
  | inl e ↦ elim (Bool-cases attempt_.pings) [
    | inr e' ↦ rw (e, e') refl
    | inl e' ↦ rw (e, e') (load_from_db-Coherent masters no_masters unique account_id)
  ]
]

module _ {F : Type 0} ⦃fl : Float64 F⦄ (cv : Conversions F) where
  keeps_cache :
      (now : ℕ) (b b' : Bridge F) (lines : List String)
      → handle_lines cv now b lines ≡ some b'
      → b'.master_cache ≡ b.master_cache
  keeps_cache now b b' lines e =
      kept (any (crashes cv now) lines) _ (sym (handle_lines_lem cv now lines b) ∙ e)
    where
      kept :
          (crash : Bool) (q : Queue (Signal F))
          → (if crash then none else some (record b { queue = q })) ≡ some b'
          → b'.master_cache ≡ b.master_cache
      kept true q e = absurd-none e
      kept false q e = sym (ap (λ x. x.master_cache) (some_injective e))

  -- If the masters have unique keys and the load at the start of a TCP bridge reads all rows, whose
  -- signals it distributes is settled then: whatever lines it has handled since without a panic and
  -- whatever the database and Redis hold by now, it goes by the live rows that the table of masters
  -- had at the start, and distributes nothing if it did not reach the database then. So a master
  -- that is registered later is not recognised, and one that is deleted later still is.
  pub run_distribution-started :
      (R : Redis) (attempt_ : Attempt) (masters : List Master) (now : ℕ) (b b' : Bridge F)
      (lines : List String) (reply : Reply) (db : Db F) (redis : R.State) (sig : Signal F)
      → HasUniqueKeys masters
      → b.master_cache ≡ some (init_master_follower attempt_ complete masters no_masters).0
      → handle_lines cv now b lines ≡ some b'
      → let ready = (init_master_follower attempt_ complete masters no_masters).1 in
        run_distribution R b'.master_cache ready reply db redis sig
        ≡ elim (known_master attempt_ masters sig.account_id) [
          | none ↦ none
          | some master_id ↦ some (distribute_to_followers R ready reply db redis master_id sig)
        ]
  unfolding run_distribution is_master_signal
  run_distribution-started R attempt_ masters now b b' lines reply db redis sig unique begun e =
      let ready = (init_master_follower attempt_ complete masters no_masters).1 in
      let distributed : Option String → Option (Outcome F) = λ o. elim o [
        | none ↦ none
        | some master_id ↦ some (distribute_to_followers R ready reply db redis master_id sig)
      ] in
      ap distributed (
        ap (λ c. is_master_signal c sig.account_id) (keeps_cache now b b' lines e ∙ begun)
        ∙ started-get attempt_ masters sig.account_id unique)
