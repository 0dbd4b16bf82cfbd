-- ===== src/Sessions/Defs.antt =====
-- src/auth: infrastructure/jwt-auth-session.port.ts, infrastructure/prisma-oauth-state.store.ts,
-- application/helpers/refresh-token.helper.ts, and the use cases that refresh and log out. Each
-- statement of the database is a step of its own, and what it wrote stays when a later one fails.
use easy_clip_be.Common.{
  ℕ, ◌+◌, String, Bool, true, false, not, ◌&&◌, Option, none, some, List, ◌===◌, ◌==◌, ltb, leb,
  is_missing, if◌then◌else◌,
}
use easy_clip_be.Prisma.{Delegate}
use easy_clip_be.Content.Types.{is_null}

pub data AuthPlatform : Type 0 where
  web app : AuthPlatform

abbrev pub same_platform : AuthPlatform → AuthPlatform → Bool
same_platform web web = true
same_platform app app = true
same_platform web app = false
same_platform app web = false

pub record AuthContext : Type 0 where
  pub user_id : String
  pub account_id : String
  pub platform : AuthPlatform
  pub session_id : Option String

pub record AuthSessionMetadata : Type 0 where
  pub user_agent : Option String
  pub ip_address : Option String

pub record IssuedTokens : Type 0 where
  pub access_token : String
  pub refresh_token : String

pub record RefreshTokenSession : Type 0 where
  pub session_id : String
  pub token_hash : String
  pub revoked_at : Option ℕ
  pub expires_at : ℕ

pub record RefreshAccessTokenOutput : Type 0 where
  pub access_token : String
  pub refresh_token : Option String

pub record RefreshToken : Type 0 where
  pub id : String
  pub token_hash : String
  pub platform : AuthPlatform
  pub user_id : String
  pub auth_account_id : String
  pub expires_at : ℕ
  pub revoked_at : Option ℕ
  pub last_used_at : ℕ
  pub user_agent : Option String
  pub ip_address : Option String
  pub created_at : ℕ
  pub updated_at : ℕ

pub record OAuthStateNonce : Type 0 where
  pub id : String
  pub expires_at : ℕ

-- The tables, and the number of readings of the clock, of random identifiers and of signatures.
pub record SessionDb : Type 0 where
  pub tokens : List RefreshToken
  pub nonces : List OAuthStateNonce
  pub tick : ℕ

-- An answer, `AuthError` with UNAUTHORIZED, or the error of a statement or of a verification.
pub data Answer (A : Type 0) : Type 0 where
  given : A → Answer A
  unauthorized failed : Answer A

abbrev pub Auth : Type 0 → Type 0
Auth A = SessionDb → Answer A × SessionDb

abbrev pub answer : {A : Type 0} → A → Auth A
answer a db = (given a, db)

abbrev pub refuse : {A : Type 0} → Auth A
refuse db = (unauthorized, db)

infixl 5 ◌>>=◌ ◌>>◌
abbrev pub ◌>>=◌ : {A B : Type 0} → Auth A → (A → Auth B) → Auth B
◌>>=◌ m f db = elim (m db).0 [
  | given a ↦ f a (m db).1
  | unauthorized ↦ (unauthorized, (m db).1)
  | failed ↦ (failed, (m db).1)
]

abbrev pub ◌>>◌ : {A B : Type 0} → Auth A → Auth B → Auth B
m >> k = m >>= λ _. k

-- The clients of the two tables, the clock, `randomUUID`, SHA-256, and the service that signs
-- tokens and reads from a refresh token when it expires, or fails.
pub record AuthEnv : Type 0 where
  pub refresh_token : Delegate RefreshToken
  pub nonce : Delegate OAuthStateNonce
  pub clock : ℕ → ℕ
  pub random_uuid : ℕ → String
  pub sha256 : String → String
  pub sign_access : ℕ → AuthContext → String
  pub sign_refresh : ℕ → AuthContext → String
  pub expiry : ℕ → String → Option ℕ

abbrev pub has_id : String → RefreshToken → Bool
has_id id r = r.id === id

abbrev pub active_with_id : String → RefreshToken → Bool
active_with_id id r = r.id === id && is_null r.revoked_at

abbrev pub active_of_account : String → AuthPlatform → RefreshToken → Bool
active_of_account account_id platform r =
    r.auth_account_id === account_id && same_platform r.platform platform && is_null r.revoked_at

abbrev pub has_hash : String → String → RefreshToken → Bool
has_hash id token_hash r = r.id === id && r.token_hash === token_hash && is_null r.revoked_at

-- `toSessionMetadataUpdate`: what is missing or empty stays as it is.
abbrev pub given_or : Option String → Option String → Option String
given_or new old = if is_missing new then old else new

abbrev pub with_metadata : AuthSessionMetadata → RefreshToken → RefreshToken
with_metadata metadata r = record r {
  user_agent = given_or metadata.user_agent r.user_agent;
  ip_address = given_or metadata.ip_address r.ip_address;
}

abbrev pub touched : ℕ → ℕ → AuthSessionMetadata → RefreshToken → RefreshToken
touched used t metadata r =
    with_metadata metadata (record r { last_used_at = used; updated_at = t })

abbrev pub rotated : String → ℕ → ℕ → ℕ → AuthSessionMetadata → RefreshToken → RefreshToken
rotated token_hash expires_at used t metadata r =
    touched used t metadata (record r { token_hash = token_hash; expires_at = expires_at })

abbrev pub revoked : ℕ → ℕ → RefreshToken → RefreshToken
revoked revoked_at t r = record r { revoked_at = some revoked_at; updated_at = t }

abbrev pub session_of : RefreshToken → RefreshTokenSession
session_of r = record {
  session_id = r.id;
  token_hash = r.token_hash;
  revoked_at = r.revoked_at;
  expires_at = r.expires_at;
}

abbrev pub in_session : String → AuthContext → AuthContext
in_session id context = record context { session_id = some id }

abbrev pub same_id : RefreshToken → RefreshToken → Bool
same_id a b = b.id === a.id

abbrev pub same_nonce : OAuthStateNonce → OAuthStateNonce → Bool
same_nonce a b = b.id === a.id

abbrev pub rotation_threshold_ms : ℕ
rotation_threshold_ms = 86400000

module _ ⦃env : AuthEnv⦄ where
  abbrev pub reading : Auth ℕ
  reading db = (given db.tick, record db { tick = db.tick + 1 })

  abbrev pub now : Auth ℕ
  now = do n ← reading; answer (env.clock n)

  abbrev pub find_token : String → Auth (Option RefreshToken)
  find_token id db = (given (env.refresh_token.find_first (has_id id) db.tokens), db)

  abbrev pub update_tokens : (RefreshToken → Bool) → (RefreshToken → RefreshToken) → Auth ℕ
  update_tokens w f db =
      let r = env.refresh_token.update_many w f db.tokens in (given r.1, record db { tokens = r.0 })

  abbrev pub create_token : RefreshToken → Auth (Unit {0})
  create_token r db = elim (env.refresh_token.create same_id r db.tokens) [
    | none ↦ (failed, db)
    | some t ↦ (given tt, record db { tokens = t })
  ]

  abbrev pub create_nonce : OAuthStateNonce → Auth (Unit {0})
  create_nonce r db = elim (env.nonce.create same_nonce r db.nonces) [
    | none ↦ (failed, db)
    | some t ↦ (given tt, record db { nonces = t })
  ]

  abbrev pub delete_nonces : (OAuthStateNonce → Bool) → Auth ℕ
  delete_nonces w db =
      let r = env.nonce.delete_many w db.nonces in (given r.1, record db { nonces = r.0 })

  abbrev pub sign_access_token : AuthContext → Auth String
  sign_access_token context = do n ← reading; answer (env.sign_access n context)

  abbrev pub sign_refresh_token : AuthContext → Auth String
  sign_refresh_token context = do n ← reading; answer (env.sign_refresh n context)

  -- A token that does not verify fails the request.
  abbrev pub resolve_refresh_token_expires_at : String → Auth ℕ
  resolve_refresh_token_expires_at token = do
    n ← reading
    elim (env.expiry n token) [ none ↦ λ db. (failed, db) | some t ↦ answer t ]

  abbrev pub new_token :
      String → AuthContext → String → ℕ → ℕ → ℕ → AuthSessionMetadata → RefreshToken
  new_token id context token expires_at used t metadata = with_metadata metadata (record {
    id = id;
    token_hash = env.sha256 token;
    platform = context.platform;
    user_id = context.user_id;
    auth_account_id = context.account_id;
    expires_at = expires_at;
    revoked_at = none;
    last_used_at = used;
    user_agent = none;
    ip_address = none;
    created_at = t;
    updated_at = t;
  })

  -- The row of the session is written, and the answer has its tokens.
  abbrev pub add_token :
      String → AuthContext → IssuedTokens → AuthSessionMetadata → ℕ → Auth IssuedTokens
  add_token id context i metadata expires_at = do
    used ← now
    t ← now
    create_token (new_token id context i.refresh_token expires_at used t metadata)
    answer i

  unfoldable pub issue_tokens : AuthContext → AuthSessionMetadata → Auth IssuedTokens
  issue_tokens context metadata = do
    n ← reading
    let id = env.random_uuid n
    access ← sign_access_token (in_session id context)
    refresh ← sign_refresh_token (in_session id context)
    expires_at ← resolve_refresh_token_expires_at refresh
    add_token id context (record { access_token = access; refresh_token = refresh }) metadata
        expires_at

  unfoldable pub find_refresh_token_session : String → Auth (Option RefreshTokenSession)
  find_refresh_token_session session_id = do
    found ← find_token session_id
    answer (elim found [ none ↦ none | some r ↦ some (session_of r) ])

  -- The row is written only while it has the hash that was read and is not revoked.
  unfoldable pub rotate_refresh_token :
      AuthContext → String → String → AuthSessionMetadata → Auth (Option IssuedTokens)
  rotate_refresh_token context session_id expected_token_hash metadata = do
    access ← sign_access_token (in_session session_id context)
    refresh ← sign_refresh_token (in_session session_id context)
    expires_at ← resolve_refresh_token_expires_at refresh
    used ← now
    t ← now
    n ←
        update_tokens (has_hash session_id expected_token_hash)
          (rotated (env.sha256 refresh) expires_at used t metadata)
    answer
        (if n == 0 then none else some (record { access_token = access; refresh_token = refresh }))

  unfoldable pub touch_refresh_token_session : String → AuthSessionMetadata → Auth (Unit {0})
  touch_refresh_token_session session_id metadata = do
    used ← now
    t ← now
    update_tokens (active_with_id session_id) (touched used t metadata)
    answer tt

  unfoldable pub revoke_refresh_token_session : String → Auth (Unit {0})
  revoke_refresh_token_session session_id = do
    at ← now
    t ← now
    update_tokens (active_with_id session_id) (revoked at t)
    answer tt

  unfoldable pub revoke_refresh_tokens : String → AuthPlatform → Auth (Unit {0})
  revoke_refresh_tokens account_id platform = do
    at ← now
    t ← now
    update_tokens (active_of_account account_id platform) (revoked at t)
    answer tt

  unfoldable pub log_out : String → AuthPlatform → Option String → Auth (Unit {0})
  unfolding revoke_refresh_token_session revoke_refresh_tokens
  log_out account_id platform none = revoke_refresh_tokens account_id platform
  log_out account_id platform (some id) =
      if is_missing (some id)
      then revoke_refresh_tokens account_id platform
      else revoke_refresh_token_session id

  unfoldable pub assert_refresh_token_session :
      Option RefreshTokenSession → Auth RefreshTokenSession
  assert_refresh_token_session none = refuse
  assert_refresh_token_session (some s) =
      if not (is_null s.revoked_at)
      then refuse
      else do t ← now; if ltb s.expires_at t then refuse else answer s

  unfoldable pub assert_refresh_token_matches : String → String → Auth (Unit {0})
  assert_refresh_token_matches refresh_token token_hash =
      if env.sha256 refresh_token === token_hash then answer tt else refuse

  -- A session that ends within a day gets a new refresh token.
  abbrev pub should_rotate_refresh_token : ℕ → Auth Bool
  should_rotate_refresh_token expires_at = do
    t ← now
    answer (leb expires_at (t + rotation_threshold_ms))

  abbrev pub refresh_in_session :
      AuthContext → String → String → AuthSessionMetadata → Auth RefreshAccessTokenOutput
  refresh_in_session context id token metadata = do
    found ← find_refresh_token_session id
    session ← assert_refresh_token_session found
    assert_refresh_token_matches token session.token_hash
    rotate ← should_rotate_refresh_token session.expires_at
    elim rotate [
      | true ↦ do
        tokens ← rotate_refresh_token context id session.token_hash metadata
        elim tokens [
          | none ↦ refuse
          | some i ↦
              answer
                (record { access_token = i.access_token; refresh_token = some i.refresh_token })
        ]
      | false ↦ do
        access ← sign_access_token context
        touch_refresh_token_session id metadata
        answer (record { access_token = access; refresh_token = none })
    ]

  unfoldable pub refresh_access_token :
      AuthContext → String → AuthSessionMetadata → Auth RefreshAccessTokenOutput
  unfolding find_refresh_token_session assert_refresh_token_session assert_refresh_token_matches
      rotate_refresh_token touch_refresh_token_session
  refresh_access_token context token metadata = elim context.session_id [
    | none ↦ refuse
    | some id ↦
        if is_missing (some id) then refuse else refresh_in_session context id token metadata
  ]

  -- States of a login: those that have expired are cleaned up when another is issued.
  unfoldable pub issue : String → ℕ → Auth (Unit {0})
  issue id expires_at = do
    t ← now
    delete_nonces (λ n. leb n.expires_at t)
    create_nonce (record { id = id; expires_at = expires_at })

  unfoldable pub consume : String → ℕ → Auth Bool
  consume id t = do n ← delete_nonces (λ r. r.id === id && ltb t r.expires_at); answer (n == 1)
