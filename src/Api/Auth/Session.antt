-- ===== src/Api/Auth/Session.antt =====
-- How long the token of a login is accepted, and for whom.
use mt5_bridge.Prelude.{
  ℕ, ◌+◌, String, ◌≡◌, refl, ◌∙◌, ap, true, Option, none, some, [], ◌∷◌, ltb, arith, if◌then◌else◌,
  ◌==◌, if-cases, eq_iff, sym,
}
use mt5_bridge.Models.{UserInfo}
use mt5_bridge.Redis.{Redis}
use mt5_bridge.Go.Text.{split}
use mt5_bridge.Go.Text.SplitJoin.{IsFree, join, split-join}
use mt5_bridge.Api.{Server, Request, Env, Response, login_body, internal_error, write_error}
use mt5_bridge.Api.Accounts.{login, signed_in}
use mt5_bridge.Api.Responses.{payload, logged_in}
use mt5_bridge.Models.Responses.{LoginResponse}
use mt5_bridge.Api.Accounts.Credentials.{login-signed_in}
use mt5_bridge.Api.Auth.{
  Jwt, IsDocumented, token_expiry, generate_jwt, user, refused, user_of_token, secret_key,
  parse_parts, parse_auth_header, jwt_secret, user_in, user_claim,
}

-- The header that a client sends with its token.
abbrev pub bearer : String → String
bearer token = join " " "Bearer" (token ∷ [])

split-bearer : (token : String) → IsFree 32 token → split 32 (bearer token) ≡ "Bearer" ∷ token ∷ []
split-bearer token free =
    split-join " " "Bearer" (token ∷ [])
      (omega arith, (omega arith, (omega arith, (omega arith, (omega arith, (omega arith, tt))))))
      (free, tt)

-- The server's clock and its signing of tokens.
abbrev pub signing : {F : Type 0} → Jwt → Env F → Env F
signing jwt env = record env { sign_token = generate_jwt jwt env.now }

-- The answer of a login, as its token is sent back: `Authorization: Bearer <token>`.
abbrev pub header_of : LoginResponse → String
header_of l = join " " l.token_type (l.access_token ∷ [])

abbrev answer_of : String → UserInfo → LoginResponse
answer_of token u = record {
  access_token = token;
  token_type = "Bearer";
  expires_in = token_expiry;
  user = u;
}

-- Where the answer carries a token, it was signed for the user that it names.
token_of :
    {F : Type 0} (timestamp : String) (decimal : ℕ → String) (o : Option String) (u : UserInfo)
    (l : LoginResponse)
    → payload timestamp decimal
        (elim o as (λ _. Response F) [
          | none ↦ internal_error "Failed to generate token"
          | some t ↦ record { status = 200; body = login_body t u }
        ]).body
      ≡ some (logged_in l)
    → (o ≡ some l.access_token) × (answer_of l.access_token u ≡ l)
unfolding write_error payload
token_of timestamp decimal none u l h = ground arith
token_of timestamp decimal (some t) u l h =
    (ap (λ a. some a.access_token) same, ap (λ a. answer_of a.access_token u) (sym same) ∙ same)
  where
    same : answer_of t u ≡ l
    same = ground arith

has_scheme : (token : String) → IsFree 32 token → (bearer token == "") ≡ true → ⊥
unfolding split
has_scheme token free e =
    let two = sym (split-bearer token free) ∙ ap (split 32) ((eq_iff (bearer token) "").0 e) in
    ground (arith, two)

accepted :
    (jwt : Jwt) (now later : ℕ) (u : UserInfo) (token : String)
    → IsDocumented jwt
    → generate_jwt jwt now u ≡ some token
    → parse_auth_header jwt later (bearer token)
      ≡ (if ltb later (now + token_expiry) then user u.user_id else refused "invalid token")
unfolding generate_jwt parse_auth_header parse_parts secret_key user_of_token user_in user_claim
accepted jwt now later u token documented signed =
    let free = documented.signed_string-IsFree jwt_secret _ token signed in
    if-cases
      (λ a.
        a ≡ (if ltb later (now + token_expiry) then user u.user_id else refused "invalid token"))
      (bearer token == "") (λ e. absurd (has_scheme token free e))
      (λ e.
        rw
          (
            split-bearer token free,
            documented.parse-signed_string jwt_secret _ token secret_key later signed refl,
          )
          ground arith)

-- Where the package jwt does as documented, the token in the answer of a login with status 200 is
-- accepted as a bearer token for as many seconds as the answer says, and gives the ID of the user in
-- the answer; from then on it is an invalid token.
pub login-parse_auth_header :
    {F : Type 0} (R : Redis) (jwt : Jwt) (env : Env F) (req : Request) (s : Server F R)
    (timestamp : String) (decimal : ℕ → String) (l : LoginResponse) (later : ℕ)
    → IsDocumented jwt
    → (login R (signing jwt env) req s).0.status ≡ 200
    → payload timestamp decimal (login R (signing jwt env) req s).0.body ≡ some (logged_in l)
    → parse_auth_header jwt later (header_of l) ≡ (
        if ltb later (env.now + l.expires_in) then user l.user.user_id else refused "invalid token")
unfolding signed_in
login-parse_auth_header R jwt env req s timestamp decimal l later documented fine answer =
    let (r, u, decoded, known, same) = login-signed_in R (signing jwt env) req s fine in
    let (signed, names) =
      token_of timestamp decimal (generate_jwt jwt env.now u) u l
        (ap (λ a. payload timestamp decimal a.body) (sym same) ∙ answer) in
    rw (sym names) (accepted jwt env.now later u l.access_token documented signed)
