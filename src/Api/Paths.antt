-- ===== src/Api/Paths.antt =====
-- The IDs in a path, as the handlers of internal/api/handlers.go take them, and
-- `containsSubstring` of routes.go.
use mt5_bridge.Prelude.{ℕ, String, Option, none, get_elem?, length, ltb, if◌then◌else◌}
use mt5_bridge.Go.Text.{split}

-- `parts := strings.Split(path, "/"); if len(parts) < 4 { … }; parts[i]`.
unfoldable pub path_part : ℕ → String → Option String
path_part i path =
    let parts = split b'/' path in if ltb (length parts) 4 then none else get_elem? parts i

unfoldable pub master_id_of : String → Option String
unfolding path_part
master_id_of path = path_part 3 path

-- The handlers of followers take the part before the ID.
unfoldable pub follower_id_of : String → Option String
unfolding path_part
follower_id_of path = path_part 2 path
