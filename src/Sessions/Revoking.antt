-- ===== src/Sessions/Revoking.antt =====
-- A session that is revoked stays so.
use easy_clip_be.Common.{
  ℕ, ◌+◌, ◌<◌, String, ◌≡◌, refl, ap, sym, ◌∙◌, Bool, true, false, some, List, [], ◌∷◌, arith,
  count, count-Occurs, eq_iff, ◌===◌, Occurs, update_where, count-update_where-eq,
  count-update_where-le,
}
use easy_clip_be.Prisma.{IsDocumented}
use easy_clip_be.Sessions.Defs.{
  Answer, given, failed, answer, add_token, new_token, IssuedTokens, Auth, ◌>>=◌, create_token,
  resolve_refresh_token_expires_at, in_session, AuthPlatform, AuthContext, AuthSessionMetadata,
  RefreshToken, SessionDb, AuthEnv, unauthorized, same_id, has_hash, rotated, has_id,
  active_with_id, issue_tokens, rotate_refresh_token, touch_refresh_token_session,
  revoke_refresh_token_session, revoke_refresh_tokens, refresh_access_token,
  find_refresh_token_session, assert_refresh_token_session,
}

-- The writes of the port, with the arguments of any request.
pub data SessionWrite : Type 0 where
  issues : AuthContext → AuthSessionMetadata → SessionWrite
  rotates : AuthContext → String → String → AuthSessionMetadata → SessionWrite
  touches : String → AuthSessionMetadata → SessionWrite
  revokes : String → SessionWrite
  revokes_all : String → AuthPlatform → SessionWrite

-- A row has the identifier, and every row that has it is revoked.
abbrev pub IsRevokedIn : String → List RefreshToken → Type 0
IsRevokedIn id t = (0 < count (has_id id) t) × (count (active_with_id id) t ≡ 0)

abbrev pub IsRevoked : String → SessionDb → Type 0
IsRevoked id db = IsRevokedIn id db.tokens

no_active :
    (id : String) (r : RefreshToken) (t : List RefreshToken)
    → count (active_with_id id) t ≡ 0
    → Occurs r t
    → active_with_id id r ≡ false
no_active id r t h o = ground (arith, h, count-Occurs (active_with_id id) r t o)

created-IsRevokedIn :
    (id : String) (r : RefreshToken) (t : List RefreshToken)
    → IsRevokedIn id t
    → count (has_id r.id) t ≡ 0
    → IsRevokedIn id (r ∷ t)
created-IsRevokedIn id r t h e =
    grind (
      arith,
      h,
      e,
      λ (s : (r.id === id) ≡ true). ap (λ i. count (has_id i) t) ((eq_iff r.id id).0 s),
    )

updated-IsRevokedIn :
    (id : String) (w : RefreshToken → Bool) (f : RefreshToken → RefreshToken)
    (t : List RefreshToken)
    → ((x : RefreshToken) → has_id id (f x) ≡ has_id id x)
    → ((x : RefreshToken)
        → w x ≡ true
        → active_with_id id (f x) ≡ true
        → active_with_id id x ≡ true)
    → IsRevokedIn id t
    → IsRevokedIn id (update_where w f t)
updated-IsRevokedIn id w f t s a h = omega (
  arith,
  h.0,
  h.1,
  count-update_where-eq (has_id id) w f t s,
  count-update_where-le (active_with_id id) w f t a,
)

module _ ⦃env : AuthEnv⦄ where
  abbrev pub write_session : SessionWrite → SessionDb → SessionDb
  write_session (issues context metadata) db = (issue_tokens context metadata db).1
  write_session (rotates context session_id h metadata) db =
      (rotate_refresh_token context session_id h metadata db).1
  write_session (touches session_id metadata) db =
      (touch_refresh_token_session session_id metadata db).1
  write_session (revokes session_id) db = (revoke_refresh_token_session session_id db).1
  write_session (revokes_all account_id platform) db =
      (revoke_refresh_tokens account_id platform db).1

  abbrev pub write_sessions : List SessionWrite → SessionDb → SessionDb
  write_sessions [] db = db
  write_sessions (w ∷ ws) db = write_sessions ws (write_session w db)

module _ ⦃env : AuthEnv⦄ (docs : IsDocumented env.refresh_token) (id : String) where
  create-IsRevokedIn :
      (r : RefreshToken) (t u : List RefreshToken)
      → IsRevokedIn id t
      → env.refresh_token.create same_id r t ≡ some u
      → IsRevokedIn id u
  create-IsRevokedIn r t u h e =
      ground (arith, h, sym (docs.creates same_id r t) ∙ e, created-IsRevokedIn id r t h)

  create_token-IsRevoked :
      (r : RefreshToken) (db : SessionDb) → IsRevoked id db → IsRevoked id (create_token r db).1
  create_token-IsRevoked r db h = grind (arith, h, create-IsRevokedIn r db.tokens)

  bind-IsRevoked :
      {A B : Type 0} (m : Auth A) (f : A → Auth B) (db : SessionDb)
      → IsRevoked id (m db).1
      → ((a : A) (d : SessionDb) → IsRevoked id d → IsRevoked id (f a d).1)
      → IsRevoked id ((m >>= f) db).1
  bind-IsRevoked {A} {B} m f db h k = go (m db).0
    where
      go :
          (o : Answer A)
          → IsRevoked id
              (elim o as (λ _. Answer B × SessionDb) [
                | given a ↦ f a (m db).1
                | unauthorized ↦ (unauthorized, (m db).1)
                | failed ↦ (failed, (m db).1)
              ]).1
      go (given a) = k a (m db).1 h
      go unauthorized = h
      go failed = h

  resolve-IsRevoked :
      (token : String) (db : SessionDb)
      → IsRevoked id db
      → IsRevoked id (resolve_refresh_token_expires_at token db).1
  resolve-IsRevoked token db h = ground (arith, h)

  add_token-IsRevoked :
      (new : String) (context : AuthContext) (i : IssuedTokens) (metadata : AuthSessionMetadata)
      (e : ℕ) (db : SessionDb)
      → IsRevoked id db
      → IsRevoked id (add_token new context i metadata e db).1
  add_token-IsRevoked new context i metadata e db h =
      bind-IsRevoked (create_token row) (λ _. answer i) later (create_token-IsRevoked row later h)
        λ _ u j. j
    where
      later : SessionDb
      later = record db { tick = db.tick + 1 + 1 }

      row : RefreshToken
      row =
          new_token new context i.refresh_token e (env.clock db.tick) (env.clock (db.tick + 1))
            metadata

  issue_tokens-IsRevoked :
      (context : AuthContext) (metadata : AuthSessionMetadata) (db : SessionDb)
      → IsRevoked id db
      → IsRevoked id (issue_tokens context metadata db).1
  unfolding issue_tokens
  issue_tokens-IsRevoked context metadata db h =
      bind-IsRevoked (resolve_refresh_token_expires_at issued.refresh_token)
        (add_token new context issued metadata) later
        (resolve-IsRevoked issued.refresh_token later h)
        (add_token-IsRevoked new context issued metadata)
    where
      new : String
      new = env.random_uuid db.tick

      later : SessionDb
      later = record db { tick = db.tick + 1 + 1 + 1 }

      issued : IssuedTokens
      issued = record {
        access_token = env.sign_access (db.tick + 1) (in_session new context);
        refresh_token = env.sign_refresh (db.tick + 1 + 1) (in_session new context);
      }

  updates-IsRevokedIn :
      (w : RefreshToken → Bool) (f : RefreshToken → RefreshToken) (t : List RefreshToken)
      → ((x : RefreshToken) → has_id id (f x) ≡ has_id id x)
      → ((x : RefreshToken)
          → w x ≡ true
          → active_with_id id (f x) ≡ true
          → active_with_id id x ≡ true)
      → IsRevokedIn id t
      → IsRevokedIn id (env.refresh_token.update_many w f t).0
  updates-IsRevokedIn w f t s a h = rw (docs.updates w f t) (updated-IsRevokedIn id w f t s a h)

  rotates-IsRevokedIn :
      (s k hash : String) (e u n : ℕ) (metadata : AuthSessionMetadata) (t : List RefreshToken)
      → IsRevokedIn id t
      → IsRevokedIn id
          (env.refresh_token.update_many (has_hash s k) (rotated hash e u n metadata) t).0
  rotates-IsRevokedIn s k hash e u n metadata t h =
      updates-IsRevokedIn _ _ t (λ x. refl) (λ x _ a. a) h

  write_session-IsRevoked :
      (w : SessionWrite) (db : SessionDb) → IsRevoked id db → IsRevoked id (write_session w db)
  unfolding rotate_refresh_token touch_refresh_token_session revoke_refresh_token_session
      revoke_refresh_tokens
  write_session-IsRevoked (issues context metadata) db h =
      issue_tokens-IsRevoked context metadata db h
  write_session-IsRevoked (rotates context s k metadata) db h =
      grind (arith, h, rotates-IsRevokedIn)
  write_session-IsRevoked (touches s metadata) db h =
      updates-IsRevokedIn _ _ db.tokens (λ x. refl) (λ x _ e. e) h
  write_session-IsRevoked (revokes s) db h =
      updates-IsRevokedIn _ _ db.tokens (λ x. refl) (λ x _ e. ground (arith, e)) h
  write_session-IsRevoked (revokes_all a p) db h =
      updates-IsRevokedIn _ _ db.tokens (λ x. refl) (λ x _ e. ground (arith, e)) h

  refused :
      (context : AuthContext) (token : String) (metadata : AuthSessionMetadata) (db : SessionDb)
      → context.session_id ≡ some id
      → IsRevoked id db
      → ((refresh_access_token context token metadata db).0 ≡ unauthorized)
        × ((refresh_access_token context token metadata db).1 ≡ db)
  unfolding refresh_access_token find_refresh_token_session assert_refresh_token_session
  refused context token metadata db c h =
      grind (arith, c, h, docs.finds (has_id id) db.tokens, no_active id)

  -- Where a session is on record and revoked, and whatever requests write after that, a refresh in
  -- it is refused as unauthorized and changes nothing.
  pub revoked_refuses :
      (ws : List SessionWrite) (context : AuthContext) (token : String)
      (metadata : AuthSessionMetadata) (db : SessionDb)
      → context.session_id ≡ some id
      → IsRevoked id db
      → ((refresh_access_token context token metadata (write_sessions ws db)).0 ≡ unauthorized)
        × ((refresh_access_token context token metadata (write_sessions ws db)).1
            ≡ write_sessions ws db)
  revoked_refuses [] context token metadata db c h = refused context token metadata db c h
  revoked_refuses (w ∷ ws) context token metadata db c h =
      revoked_refuses ws context token metadata (write_session w db) c
        (write_session-IsRevoked w db h)
