-- ===== src/Sessions/Tests.antt =====
-- The properties of the sessions at concrete tables.
use easy_clip_be.Common.{ℕ, ◌≡◌, refl, Option, none, some, List, [], ◌∷◌, arith, false}
use easy_clip_be.Subscriptions.Sample.{in_memory, in_memory-IsDocumented}
use easy_clip_be.Sessions.Defs.{
  web, AuthContext, AuthSessionMetadata, IssuedTokens, RefreshToken, SessionDb, AuthEnv, given,
  unauthorized, rotate_refresh_token, refresh_access_token, consume,
}
use easy_clip_be.Sessions.Revoking.{
  SessionWrite, issues, rotates, touches, write_sessions, revoked_refuses,
}
use easy_clip_be.Sessions.Once.{rotate_once, consume_once}

-- Tokens are the names of their sessions with a letter before them.
abbrev env_sample : AuthEnv
env_sample = record {
  refresh_token = in_memory _;
  nonce = in_memory _;
  clock = λ n. n;
  random_uuid = λ n. "new";
  sha256 = λ t. t;
  sign_access = λ n c. "access";
  sign_refresh = λ n c. "refresh";
  expiry = λ n t. some 100;
}

abbrev context_sample : AuthContext
context_sample = record {
  user_id = "u1";
  account_id = "a1";
  platform = web;
  session_id = some "s1";
}

abbrev browser : AuthSessionMetadata
browser = record { user_agent = some "browser"; ip_address = none }

abbrev token_row : Option ℕ → RefreshToken
token_row revoked_at = record {
  id = "s1";
  token_hash = "old";
  platform = web;
  user_id = "u1";
  auth_account_id = "a1";
  expires_at = 50;
  revoked_at = revoked_at;
  last_used_at = 0;
  user_agent = none;
  ip_address = none;
  created_at = 0;
  updated_at = 0;
}

abbrev sessions_of : Option ℕ → SessionDb
sessions_of revoked_at = record {
  tokens = token_row revoked_at ∷ [];
  nonces = (record { id = "n1"; expires_at = 90 }) ∷ [];
  tick = 0;
}

abbrev later_writes : List SessionWrite
later_writes =
    issues context_sample browser
    ∷ rotates context_sample "s1" "old" browser
    ∷ touches "s1" browser
    ∷ []

revoked_refuses_example :
    ((refresh_access_token ⦃env = env_sample⦄ context_sample "old" browser
        (write_sessions ⦃env = env_sample⦄ later_writes (sessions_of (some 3)))).0
      ≡ unauthorized)
    × ((refresh_access_token ⦃env = env_sample⦄ context_sample "old" browser
          (write_sessions ⦃env = env_sample⦄ later_writes (sessions_of (some 3)))).1
        ≡ write_sessions ⦃env = env_sample⦄ later_writes (sessions_of (some 3)))
revoked_refuses_example =
    revoked_refuses ⦃env = env_sample⦄ (in_memory-IsDocumented _) "s1" later_writes context_sample
      "old" browser (sessions_of (some 3)) refl (omega arith, refl)

abbrev issued_sample : IssuedTokens
issued_sample = record { access_token = "access"; refresh_token = "refresh" }

abbrev rotated_db : SessionDb
rotated_db = record (sessions_of none) {
  tokens =
      (record (token_row none) {
        token_hash = "refresh";
        expires_at = 100;
        last_used_at = 3;
        updated_at = 4;
        user_agent = some "browser";
      })
      ∷ [];
  tick = 5;
}

first_rotation :
    rotate_refresh_token ⦃env = env_sample⦄ context_sample "s1" "old" browser (sessions_of none)
    ≡ (given (some issued_sample), rotated_db)
unfolding rotate_refresh_token
first_rotation = refl

rotate_once_example :
    ((rotate_refresh_token ⦃env = env_sample⦄ context_sample "s1" "old" browser rotated_db).1.tokens
      ≡ rotated_db.tokens)
    × ((j : IssuedTokens)
        → ¬ (
            (rotate_refresh_token ⦃env = env_sample⦄ context_sample "s1" "old" browser rotated_db).0
            ≡ given (some j)))
rotate_once_example =
    rotate_once ⦃env = env_sample⦄ (in_memory-IsDocumented _) context_sample context_sample "s1"
      "old" browser browser issued_sample (sessions_of none) rotated_db first_rotation refl

consume_once_example :
    (consume ⦃env = env_sample⦄ "n1" 20 (consume ⦃env = env_sample⦄ "n1" 10 (sessions_of none)).1).0
    ≡ given false
consume_once_example =
    consume_once ⦃env = env_sample⦄ (in_memory-IsDocumented _) "n1" 10 20 (sessions_of none)
      (omega arith)
