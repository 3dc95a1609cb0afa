-- ===== src/Api/Followers/Lookups.antt =====
-- Which ID the handlers of followers take from a path that the documentation gives.
use mt5_bridge.Prelude.{String, ◌≡◌, ◌≢◌, none, some, List, arith, find, All}
use mt5_bridge.Go.Float.{Float64}
use mt5_bridge.Go.Text.SplitJoin.{IsFree, join, split-join}
use mt5_bridge.Db.{refused}
use mt5_bridge.Db.Followers
use mt5_bridge.Db.Followers.{is_live_id}
use mt5_bridge.Redis.{Redis}
use mt5_bridge.Api.{Server, Request, Env, ◌>>=◌, finish}
use mt5_bridge.Api.Paths.{path_part, follower_id_of}
use mt5_bridge.Api.Followers.{start_following, stop_following, delete_follower, follower_not_found}

-- `/api/followers/<id>`, and more parts after it.
abbrev pub follower_path : String → List String → String
follower_path id more = join "/" "" (List.◌∷◌ "api" (List.◌∷◌ "followers" (List.◌∷◌ id more)))

pub follower_id_of_lem :
    (id : String) (more : List String)
    → IsFree b'/' id
    → All (IsFree b'/') more
    → follower_id_of (follower_path id more) ≡ some "followers"
unfolding follower_id_of path_part
follower_id_of_lem id more free rest =
    rw
      (split-join "/" "" (List.◌∷◌ "api" (List.◌∷◌ "followers" (List.◌∷◌ id more))) tt
        (ground arith, (ground arith, (free, rest))))
      (ground arith)

abbrev pub with_method : String → Request → String → Request
with_method method req path = record req { method = method; path = path }

module _ {F : Type 0} (R : Redis) ⦃fl : Float64 F⦄ where
  -- On the path `/api/followers/<id>`, with any further parts, the starting (POST), stopping (POST)
  -- and deleting (DELETE) of a follower all answer 404 and leave the server as it was, whichever
  -- follower the ID belongs to, as long as no live follower has the ID "followers", no part has a
  -- slash in it, and the database does not refuse the lookup.
  pub follower_handlers_other_id :
      (env : Env F) (req : Request) (s : Server F R) (id : String) (more : List String)
      → IsFree b'/' id
      → All (IsFree b'/') more
      → env.reply 0 ≢ refused
      → find (is_live_id "followers") s.db.followers ≡ none
      → (start_following R env (with_method "POST" req (follower_path id more)) s
          ≡ (follower_not_found R, s))
        × ((stop_following R env (with_method "POST" req (follower_path id more)) s
              ≡ (follower_not_found R, s))
            × (delete_follower R env (with_method "DELETE" req (follower_path id more)) s
                ≡ (follower_not_found R, s)))
  unfolding start_following stop_following delete_follower finish ◌>>=◌ Followers.get_by_id
  follower_handlers_other_id env req s id more free rest r none_live = (
    ground (arith, follower_id_of_lem id more free rest),
    (
      ground (arith, follower_id_of_lem id more free rest),
      ground (arith, follower_id_of_lem id more free rest),
    ),
  )
