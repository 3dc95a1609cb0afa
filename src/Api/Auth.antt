-- ===== src/Api/Auth.antt =====
-- The tokens of internal/api/handlers.go: `generateJWT` and `parseAuthHeader`. The package jwt is an
-- interface.
pub mod Session
use mt5_bridge.Prelude.{
  ℕ, ◌+◌, ◌*◌, String, ◌≡◌, Bool, true, false, ◌&&◌, Option, none, some, List, [], ◌∷◌, ltb,
  if◌then◌else◌, ◌==◌,
}
use mt5_bridge.Models.{UserInfo}
use mt5_bridge.Go.Text.{split}
use mt5_bridge.Go.Text.SplitJoin.{IsFree}

abbrev pub jwt_secret : String
jwt_secret = "your-secret-key-change-in-production"

-- In seconds.
abbrev pub token_expiry : ℕ
token_expiry = 24 * 60 * 60

pub record Claims : Type 0 where
  pub user_id : String
  pub username : String
  pub role : String
  pub exp : ℕ
  pub iat : ℕ

-- A claim of a token that was parsed, if it is a text or a number.
pub data Claim : Type 0 where
  text : String → Claim
  number : ℕ → Claim

pub data SigningMethod : Type 0 where
  hmac other_method : SigningMethod

-- `claims`: the claims by their names, if they are a `jwt.MapClaims`.
pub record Token : Type 0 where
  pub valid : Bool
  pub claims : Option (String → Option Claim)

-- `SignedString` for HS256, and `jwt.Parse` with the function that gives a method's key, at a time.
pub record Jwt : Type 0 where
  pub signed_string : String → Claims → Option String
  pub parse : (SigningMethod → Option String) → ℕ → String → Option Token

-- The claims as a `jwt.MapClaims` gives them back.
abbrev pub claim_of : Claims → String → Option Claim
claim_of c name =
    if name == "user_id"
    then some (text c.user_id)
    else if name == "username"
    then some (text c.username)
    else if name == "role"
    then some (text c.role)
    else if name == "exp"
    then some (number c.exp)
    else if name == "iat"
    then some (number c.iat)
    else none

-- What the documentation says: a token that was signed with the key is parsed to its claims before
-- its `exp` and is an error from then on; a token is written without spaces.
pub record IsDocumented (jwt : Jwt) : Type 0 where
  pub parse-signed_string :
      (key : String) (c : Claims) (token : String) (key_func : SigningMethod → Option String)
      (now : ℕ)
      → jwt.signed_string key c ≡ some token
      → key_func hmac ≡ some key
      → jwt.parse key_func now token ≡ (
          if ltb now c.exp
          then some (record { valid = true; claims = some (claim_of c) })
          else none)
  pub signed_string-IsFree :
      (key : String) (c : Claims) (token : String)
      → jwt.signed_string key c ≡ some token
      → IsFree 32 token

unfoldable pub generate_jwt : Jwt → ℕ → UserInfo → Option String
generate_jwt jwt now user = jwt.signed_string jwt_secret (record {
  user_id = user.user_id;
  username = user.username;
  role = user.role;
  exp = now + token_expiry;
  iat = now;
})

-- The user ID, or the text of the error.
pub data Auth : Type 0 where
  user refused : String → Auth

unfoldable pub secret_key : SigningMethod → Option String
secret_key hmac = some jwt_secret
secret_key other_method = none

unfoldable pub user_claim : Option Claim → Auth
user_claim (some (text user_id)) = user user_id
user_claim (some (number n)) = refused "invalid user_id claim"
user_claim none = refused "invalid user_id claim"

unfoldable pub user_in : Option (String → Option Claim) → Auth
unfolding user_claim
user_in none = refused "invalid claims"
user_in (some claims) = user_claim (claims "user_id")

unfoldable pub user_of_token : Option Token → Auth
unfolding user_in
user_of_token none = refused "invalid token"
user_of_token (some token) =
    let found = user_in token.claims in if token.valid then found else refused "invalid token"

unfoldable pub parse_parts : Jwt → ℕ → List String → Auth
unfolding user_of_token secret_key
parse_parts jwt now (scheme ∷ token ∷ []) =
    if scheme == "Bearer"
    then user_of_token (jwt.parse secret_key now token)
    else refused "invalid authorization header format"
parse_parts jwt now _ = refused "invalid authorization header format"

-- The header's value is empty where there is none; a space is 32.
unfoldable pub parse_auth_header : Jwt → ℕ → String → Auth
unfolding parse_parts
parse_auth_header jwt now header =
    if header == ""
    then refused "missing authorization header"
    else parse_parts jwt now (split 32 header)
