-- ===== src/Tests/Sessions.antt =====
-- Examples for the tokens of the API, with a package jwt that signs one login.
use mt5_bridge.Prelude.{
  ◌+◌, String, ◌≡◌, refl, sym, Bool, true, ◌&&◌, none, some, arith, ltb, nat_eq, if◌then◌else◌,
  ◌==◌, eq_iff,
}
use mt5_bridge.Api.{finish, ◌>>=◌}
use mt5_bridge.Api.Accounts.{check_login_request, user_of, signed_in, login}
use mt5_bridge.Api.Auth.{
  Jwt, Claims, IsDocumented, claim_of, generate_jwt, parse_auth_header, token_expiry, user, refused,
}
use mt5_bridge.Api.Auth.Session.{header_of, login-parse_auth_header}
use mt5_bridge.Models.Responses.{LoginResponse}
use mt5_bridge.Api.Responses.{payload}
use mt5_bridge.Tests.Fixtures.{sets}
use mt5_bridge.Tests.Api.{env, request, server}

abbrev claims : Claims
claims = record { user_id = "user_admin"; username = "admin"; role = "admin"; exp = 86405; iat = 5 }

abbrev is_it : Claims → Bool
is_it c =
    c.user_id == "user_admin"
    && c.username == "admin"
    && c.role == "admin"
    && nat_eq c.exp 86405
    && nat_eq c.iat 5

abbrev one_token : Jwt
one_token = record {
  signed_string = λ key c. if is_it c then some "a.b.c" else none;
  parse = λ key_func now token.
      if token == "a.b.c"
      then (if ltb now 86405
          then some (record { valid = true; claims = some (claim_of claims) })
          else none)
      else none;
}

is_it-claims : (c : Claims) → is_it c ≡ true → claims ≡ c
is_it-claims c h =
    ground (arith, eq_iff c.user_id "user_admin", eq_iff c.username "admin", eq_iff c.role "admin")

signed_is :
    (c : Claims) (token : String)
    → (if is_it c then some "a.b.c" else none) ≡ some token
    → (claims ≡ c) × ("a.b.c" ≡ token)
signed_is c token signed = (is_it-claims c (ground (arith, signed)), ground (arith, signed))

one_token-IsDocumented : IsDocumented one_token
one_token-IsDocumented = record {
  parse-signed_string = λ key c token key_func now signed has_key.
      let (same, text) = signed_is c token signed in rw (sym same, sym text) refl;
  signed_string-IsFree = λ key c token signed.
      rw (sym (signed_is c token signed).1)
        (omega arith, (omega arith, (omega arith, (omega arith, (omega arith, tt)))));
}

abbrev answer : LoginResponse
answer = record {
  access_token = "a.b.c";
  token_type = "Bearer";
  expires_in = token_expiry;
  user = record { user_id = "user_admin"; username = "admin"; role = "admin" };
}

login-parse_auth_header_example : parse_auth_header one_token 86404 (header_of answer) ≡ (
    if ltb 86404 (env.now + answer.expires_in)
    then user answer.user.user_id
    else refused "invalid token")
unfolding login finish ◌>>=◌ check_login_request user_of signed_in generate_jwt payload
login-parse_auth_header_example =
    login-parse_auth_header sets one_token env (request "POST" "/api/auth/login") server
      "2026-01-01T00:00:00Z" (λ n. "") answer 86404 one_token-IsDocumented refl refl
