-- ===== src/Cache/Order.antt =====
-- The cache as the Go map that it is: association lists with the same lookups are one map.
use mathlib.Core.Quot
use mathlib.Core.Quot.{Quot, Quot-set}
use mt5_bridge.Prelude.{
  String, ◌≡◌, refl, sym, ◌∙◌, ap, ◌≢◌, Option, none, some, List, [], ◌∷◌, Assoc, lookup, insert,
  delete, lookup-insert, lookup-delete, if◌then◌else◌, ◌==◌, arith, eq_iff,
}
use text.Mathlib.TextEquality.{IsScalar-prop}
use mt5_bridge.Cache.{MasterCache, get, set, delete_account}

abbrev SameLookups : Assoc String → Assoc String → Type 0
SameLookups m m' = (key : String) → lookup key m ≡ lookup key m'

abbrev pub GoMap : Type 0
GoMap = Quot SameLookups

abbrev pub contents : MasterCache → GoMap
contents mc = Quot.mk mc.cache

-- The calls that the handlers of the API make.
pub data Call : Type 0 where
  sets : String → String → Call
  deletes : String → Call

abbrev pub account_of : Call → String
account_of (sets account_id master_id) = account_id
account_of (deletes account_id) = account_id

unfoldable pub run : List Call → MasterCache → MasterCache
run [] mc = mc
run (sets account_id master_id ∷ calls) mc = run calls (set account_id master_id mc)
run (deletes account_id ∷ calls) mc = run calls (delete_account account_id mc)

-- What a call leaves for the account.
abbrev left_by : Call → Option String
left_by (sets account_id master_id) = some master_id
left_by (deletes account_id) = none

-- What the last call for the account leaves, of calls that begin with the given entry.
abbrev pub last_left : String → List Call → Option String → Option String
last_left key [] entry = entry
last_left key (c ∷ calls) entry =
    last_left key calls (if account_of c == key then left_by c else entry)

abbrev on_entries : Call → Assoc String → Assoc String
on_entries (sets account_id master_id) m = insert account_id master_id m
on_entries (deletes account_id) m = delete account_id m

lookup-on_entries :
    (c : Call) (key : String) (m : Assoc String)
    → lookup key (on_entries c m) ≡ (if account_of c == key then left_by c else lookup key m)
lookup-on_entries (sets account_id master_id) key m = lookup-insert account_id key master_id m
lookup-on_entries (deletes account_id) key m = lookup-delete account_id key m

on_entries-SameLookups :
    (c : Call) (m m' : Assoc String)
    → SameLookups m m'
    → SameLookups (on_entries c m) (on_entries c m')
on_entries-SameLookups c m m' same key =
    rw (lookup-on_entries c key m, lookup-on_entries c key m', same key) refl

get-run :
    (calls : List Call) (mc : MasterCache) (account_id : String)
    → get account_id (run calls mc) ≡ last_left account_id calls (get account_id mc)
unfolding run get set delete_account
get-run [] mc account_id = refl
get-run (sets key master_id ∷ calls) mc account_id =
    get-run calls (set key master_id mc) account_id
    ∙ ap (last_left account_id calls) (lookup-insert key account_id master_id mc.cache)
get-run (deletes key ∷ calls) mc account_id =
    get-run calls (delete_account key mc) account_id
    ∙ ap (last_left account_id calls) (lookup-delete key account_id mc.cache)

-- A call on the map itself.
on_map : Call → GoMap → GoMap
on_map c =
    Quot.lift Quot-set (λ m. Quot.mk (on_entries c m))
      (λ m m' same. Quot.sound (on_entries-SameLookups c m m' same))

on_map_all : List Call → GoMap → GoMap
on_map_all [] m = m
on_map_all (c ∷ calls) m = on_map_all calls (on_map c m)

contents-run :
    (calls : List Call) (mc : MasterCache)
    → contents (run calls mc) ≡ on_map_all calls (contents mc)
unfolding run on_map_all on_map set delete_account
contents-run [] mc = refl
contents-run (sets account_id master_id ∷ calls) mc =
    contents-run calls (set account_id master_id mc)
contents-run (deletes account_id ∷ calls) mc = contents-run calls (delete_account account_id mc)

-- Calls for different accounts can be exchanged.
on_map-on_map :
    (c d : Call)
    → account_of c ≢ account_of d
    → (m : GoMap) → on_map d (on_map c m) ≡ on_map c (on_map d m)
unfolding on_map
on_map-on_map c d ne = Quot.ind (λ m. Quot-set _ _) (λ m. Quot.sound (λ key. exchanged m key))
  where
    exchanged :
        (m : Assoc String) (key : String)
        → lookup key (on_entries d (on_entries c m)) ≡ lookup key (on_entries c (on_entries d m))
    exchanged m key = ground (
      arith,
      lookup-on_entries d key (on_entries c m),
      lookup-on_entries c key m,
      lookup-on_entries c key (on_entries d m),
      lookup-on_entries d key m,
      eq_iff (account_of c) key,
      eq_iff (account_of d) key,
      ne,
    )

-- The one sequence is the other with neighbouring calls for different accounts exchanged, any number
-- of times.
pub data Exchanged : List Call → List Call → Type 0 where
  unchanged : {cs : List Call} → Exchanged cs cs
  at_front :
      {c d : Call} {cs : List Call}
      → account_of c ≢ account_of d
      → Exchanged (c ∷ d ∷ cs) (d ∷ c ∷ cs)
  after_first : {c : Call} {cs ds : List Call} → Exchanged cs ds → Exchanged (c ∷ cs) (c ∷ ds)
  followed_by : {cs ds es : List Call} → Exchanged cs ds → Exchanged ds es → Exchanged cs es

on_map_all-Exchanged :
    {cs ds : List Call} → Exchanged cs ds → (m : GoMap) → on_map_all cs m ≡ on_map_all ds m
unfolding on_map_all
on_map_all-Exchanged unchanged m = refl
on_map_all-Exchanged (at_front {c} {d} {cs} ne) m = ap (on_map_all cs) (on_map-on_map c d ne m)
on_map_all-Exchanged (after_first {c} h) m = on_map_all-Exchanged h (on_map c m)
on_map_all-Exchanged (followed_by h k) m = on_map_all-Exchanged h m ∙ on_map_all-Exchanged k m

-- A lookup reads the map.
looked_up : String → GoMap → Option String
looked_up key = Quot.lift (hlevel (IsScalar-prop)) (λ m. lookup key m) (λ m m' same. same key)

get-contents :
    (account_id : String) (mc : MasterCache)
    → looked_up account_id (contents mc) ≡ get account_id mc
unfolding looked_up get
get-contents account_id mc = refl

-- Whatever order the handlers that run at the same time come in, as long as the calls for each account
-- keep theirs, the cache is the same Go map at the end, and gives for every account what its last call
-- in the first order left: the master that was set, none after a deletion, and what it gave before
-- if there was no call for the account.
pub run-Exchanged :
    (cs ds : List Call) (mc : MasterCache)
    → Exchanged cs ds
    → (contents (run cs mc) ≡ contents (run ds mc))
      × ((account_id : String)
          → get account_id (run ds mc) ≡ last_left account_id cs (get account_id mc))
run-Exchanged cs ds mc h = (
  same,
  λ account_id.
      sym (get-contents account_id (run ds mc))
      ∙ ap (looked_up account_id) (sym same)
      ∙ get-contents account_id (run cs mc)
      ∙ get-run cs mc account_id,
)
  where
    same : contents (run cs mc) ≡ contents (run ds mc)
    same = contents-run cs mc ∙ on_map_all-Exchanged h (contents mc) ∙ sym (contents-run ds mc)
