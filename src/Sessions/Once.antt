-- ===== src/Sessions/Once.antt =====
-- What can be used once: the hash of a refresh token, and the state of a login.
use easy_clip_be.Common.{
  ℕ, ◌≤◌, String, ◌≡◌, Bool, false, not, some, List, ◌∷◌, [], refl, arith, count, filter, ltb, ◌&&◌,
  ◌===◌, update_where-none, count-update_where_self,
}
use easy_clip_be.Prisma.{IsDocumented}
use easy_clip_be.Sessions.Defs.{
  AuthContext, AuthSessionMetadata, IssuedTokens, SessionDb, AuthEnv, given, has_hash,
  OAuthStateNonce, RefreshToken, rotated, rotate_refresh_token, consume,
}

module _ ⦃env : AuthEnv⦄ where
  -- A rotation that found its row leaves none that has the hash.
  rotated-none :
      (docs : IsDocumented env.refresh_token) (id hash new : String) (e u n : ℕ)
      (metadata : AuthSessionMetadata) (t : List RefreshToken)
      → (new === hash) ≡ false
      → count
          (has_hash id hash)
          (env.refresh_token.update_many (has_hash id hash) (rotated new e u n metadata) t).0
        ≡ 0
  rotated-none docs id hash new e u n metadata t h =
      rw (docs.updates (has_hash id hash) (rotated new e u n metadata) t) (
        count-update_where_self (has_hash id hash) (rotated new e u n metadata) t
          λ x. ground (arith, h))

  idle :
      (docs : IsDocumented env.refresh_token) (id hash new : String) (e u n : ℕ)
      (metadata : AuthSessionMetadata) (t : List RefreshToken)
      → count (has_hash id hash) t ≡ 0
      → env.refresh_token.update_many (has_hash id hash) (rotated new e u n metadata) t ≡ (t, 0)
  idle docs id hash new e u n metadata t h =
      rw (docs.updates (has_hash id hash) (rotated new e u n metadata) t)
        (cc (update_where-none (has_hash id hash) (rotated new e u n metadata) t h, h))

  -- Where no row has the hash, a rotation is given no token or fails, and changes no row.
  rotate_idle :
      (docs : IsDocumented env.refresh_token) (context : AuthContext) (id hash : String)
      (m : AuthSessionMetadata) (d : SessionDb)
      → count (has_hash id hash) d.tokens ≡ 0
      → ((rotate_refresh_token context id hash m d).1.tokens ≡ d.tokens)
        × ((i : IssuedTokens) → ¬ ((rotate_refresh_token context id hash m d).0 ≡ given (some i)))
  unfolding rotate_refresh_token
  rotate_idle docs context id hash m d h = grind (arith, idle docs id hash)

  rotate-none :
      (docs : IsDocumented env.refresh_token) (context : AuthContext) (id hash : String)
      (m : AuthSessionMetadata) (i : IssuedTokens) (db d : SessionDb)
      → rotate_refresh_token context id hash m db ≡ (given (some i), d)
      → (env.sha256 i.refresh_token === hash) ≡ false
      → count (has_hash id hash) d.tokens ≡ 0
  unfolding rotate_refresh_token
  rotate-none docs context id hash m i db d e h = grind (arith, e, h, rotated-none docs id hash)

  -- Of the requests that read the same hash of a session, one is given a new refresh token: after
  -- a rotation that went through with a token of another hash, the next one from the first hash is
  -- given none, and changes no row.
  pub rotate_once :
      (docs : IsDocumented env.refresh_token) (context later : AuthContext) (id hash : String)
      (metadata m : AuthSessionMetadata) (i : IssuedTokens) (db d : SessionDb)
      → rotate_refresh_token context id hash metadata db ≡ (given (some i), d)
      → (env.sha256 i.refresh_token === hash) ≡ false
      → ((rotate_refresh_token later id hash m d).1.tokens ≡ d.tokens)
        × ((j : IssuedTokens) → ¬ ((rotate_refresh_token later id hash m d).0 ≡ given (some j)))
  rotate_once docs context later id hash metadata m i db d e h =
      rotate_idle docs later id hash m d (rotate-none docs context id hash metadata i db d e h)

abbrev open_nonce : String → ℕ → OAuthStateNonce → Bool
open_nonce id t n = n.id === id && ltb t n.expires_at

consumed-none :
    (id : String) (t u : ℕ) (ns : List OAuthStateNonce)
    → t ≤ u
    → count (open_nonce id u) (filter (λ n. not (open_nonce id t n)) ns) ≡ 0
consumed-none id t u [] h = refl
consumed-none id t u (n ∷ ns) h = ground (arith, h, consumed-none id t u ns h)

module _ ⦃env : AuthEnv⦄ where
  -- A login state is used once: whatever a first use answers, a second one that is no earlier is
  -- refused.
  pub consume_once :
      (docs : IsDocumented env.nonce) (id : String) (t u : ℕ) (db : SessionDb)
      → t ≤ u
      → (consume id u (consume id t db).1).0 ≡ given false
  unfolding consume
  consume_once docs id t u db h = rw (docs.deletes (open_nonce id t) db.nonces) (
      rw (docs.deletes (open_nonce id u) (filter (λ n. not (open_nonce id t n)) db.nonces))
        (rw (consumed-none id t u db.nonces h) refl))
