-- ===== src/Content/Quota/Writes.antt =====
-- The live clips of a folder under the operations of clips/infrastructure/prisma-clips.repository.ts.
use easy_clip_be.Common.{
  ℕ, ◌+◌, ◌≤◌, String, ◌≡◌, ap, Bool, true, Option, none, some, List, arith, count, eq_iff, ◌===◌,
  count-update_where-le,
}
use easy_clip_be.Subscriptions.App.{not_found}
use easy_clip_be.Content.Types.{Clip, FolderAccess}
use easy_clip_be.Content.Store.{
  ContentDb, ContentPrisma, Host, IsDocumentedContent, Outcome, Tx, Ensures, then_, thrown, both,
  throw, application,
}
use easy_clip_be.Content.Access.Defs.{
  Arithmetic, clip_has_id, assert_clip_increase, assert_folder_access, lock_clip_quota,
  resolve_folder_access, lock_workspace_access, with_live_clip, with_locked_clip, with_clip_access,
}
use easy_clip_be.Content.Access.Frame.{
  SameItems, lock_clip_quota-Frames, resolve_folder_access-Frames, resolve_folder_access-IsBounded,
  lock_workspace_access-Frames,
}
use easy_clip_be.Content.Clips.Writes.{
  CreateClipParams, live_clip_in, add_clip, add_clip_within, create_clip, UpdateClipParams, content,
  title_only, updated_clip, trashed_clip, update_clip, soft_delete_clip,
}

-- The live clips of a folder.
abbrev pub live_clips : String → ContentDb → ℕ
live_clips j db = count (live_clip_in j) db.clips

-- A transaction that succeeds leaves at most 300 of them.
abbrev pub IsWithin : {A : Type 0} → String → Outcome (A × ContentDb) → Type 0
IsWithin j = Ensures (λ _ d. live_clips j d ≤ 300)

module _ ⦃prisma : ContentPrisma⦄ ⦃host : Host⦄ ⦃arithmetic : Arithmetic⦄
    (docs : IsDocumentedContent prisma) (j : String) where
  -- The limit counts the clips of the folder that the new one joins.
  same_folder :
      (id : String) (db : ContentDb) → (id === j) ≡ true → live_clips id db ≡ live_clips j db
  same_folder id db e = ap (λ i. live_clips i db) ((eq_iff id j).0 e)

  add_clip-IsWithin :
      (a : FolderAccess) (id : String) (params : CreateClipParams) (db : ContentDb)
      → a.limit ≤ 300
      → live_clips j db ≤ 300
      → IsWithin j (add_clip a id params db)
  unfolding Ensures add_clip assert_clip_increase assert_folder_access
  add_clip-IsWithin a id params db b h =
      grind
        (arith, docs.clip.counts (live_clip_in id) db.clips, docs.clip.creates, same_folder id db)

  pub within_as : (d db : ContentDb) → SameItems d db → live_clips j db ≤ 300 → live_clips j d ≤ 300
  within_as d db fr h = omega (arith, h, ap (count (live_clip_in j)) fr.1)

  add_clip_within-IsWithin :
      (ws id : String) (params : CreateClipParams) (db : ContentDb)
      → live_clips j db ≤ 300
      → IsWithin j (add_clip_within ws id params db)
  unfolding add_clip_within
  add_clip_within-IsWithin ws id params db h =
      then_ _ _ (resolve_folder_access ws db) _
        (both _ _ (resolve_folder_access ws db) (resolve_folder_access-Frames ws db)
          (resolve_folder_access-IsBounded ws db))
        λ a e p. add_clip-IsWithin a id params e p.1 (within_as e db p.0 h)

  pub create_clip-IsWithin :
      (user_id : String) (params : CreateClipParams) (db : ContentDb)
      → live_clips j db ≤ 300
      → IsWithin j (create_clip user_id params db)
  unfolding Ensures create_clip
  create_clip-IsWithin user_id params db h =
      then_ _ _ (lock_clip_quota user_id db) _ (lock_clip_quota-Frames user_id db)
        λ ws d fr. grind (arith, add ws d (within_as d db fr h))
    where
      add :
          (ws : String) (d : ContentDb)
          → live_clips j d ≤ 300
          → (id : String) (p : CreateClipParams) → IsWithin j (add_clip_within ws id p d)
      add ws d k id p = add_clip_within-IsWithin ws id p d k

  -- A write that makes no clip of the folder live.
  pub updated :
      (w : Clip → Bool) (f : Clip → Clip) (t : List Clip)
      → ((x : Clip) → live_clip_in j (f x) ≡ true → live_clip_in j x ≡ true)
      → count (live_clip_in j) t ≤ 300
      → count (live_clip_in j) (prisma.clip.update_many w f t).0 ≤ 300
  updated w f t k h =
      rw (docs.clip.updates w f t)
        (omega (arith, h, count-update_where-le (live_clip_in j) w f t (λ x _. k x)))

  -- A callback that keeps the bound, on a clip that the user may open.
  with_live_clip-IsWithin :
      {A : Type 0} (clip_id : String) (k : FolderAccess → Clip → Tx A) (db : ContentDb)
      → ((a : FolderAccess) (c : Clip) (d : ContentDb)
          → live_clips j d ≤ 300
          → IsWithin j (k a c d))
      → live_clips j db ≤ 300
      → IsWithin j (with_live_clip clip_id k db)
  unfolding Ensures with_live_clip assert_folder_access
  with_live_clip-IsWithin clip_id k db keeps h = grind (arith, resolve_folder_access-Frames)

  with_locked_clip-IsWithin :
      {A : Type 0} (ws clip_id : String) (k : FolderAccess → Clip → Tx A) (db : ContentDb)
      → ((a : FolderAccess) (c : Clip) (d : ContentDb)
          → live_clips j d ≤ 300
          → IsWithin j (k a c d))
      → live_clips j db ≤ 300
      → IsWithin j (with_locked_clip ws clip_id k db)
  unfolding with_locked_clip
  with_locked_clip-IsWithin ws clip_id k db keeps h =
      then_ _ _ (lock_workspace_access ws db) _ (lock_workspace_access-Frames ws db)
        λ _ d fr. with_live_clip-IsWithin clip_id k d keeps (within_as d db fr h)

  pub with_clip_access-IsWithin :
      {A : Type 0} (clip_id : String) (user_id : Option String) (k : FolderAccess → Clip → Tx A)
      (db : ContentDb)
      → ((a : FolderAccess) (c : Clip) (d : ContentDb)
          → live_clips j d ≤ 300
          → IsWithin j (k a c d))
      → live_clips j db ≤ 300
      → IsWithin j (with_clip_access clip_id user_id k db)
  unfolding with_clip_access
  with_clip_access-IsWithin {A} clip_id user_id k db keeps h =
      go (prisma.clip.find_first _ db.clips)
    where
      go :
          (o : Option Clip)
          → IsWithin j (
              (elim o as (λ _. Tx A) [
                | none ↦ throw (application not_found)
                | some c ↦ with_locked_clip c.workspace_id clip_id k
              ])
                db)
      go none = thrown _ _
      go (some c) = with_locked_clip-IsWithin c.workspace_id clip_id k db keeps h

  update_keeps :
      (p : UpdateClipParams) (t : ℕ) (x : Clip)
      → live_clip_in j (updated_clip p t x) ≡ true
      → live_clip_in j x ≡ true
  update_keeps (content _ _ _ _ _) t x e = e
  update_keeps (title_only _) t x e = e

  trash_keeps :
      (t u : ℕ) (x : Clip) → live_clip_in j (trashed_clip t u x) ≡ true → live_clip_in j x ≡ true
  trash_keeps t u x e = ground arith

  pub update_clip-IsWithin :
      (user_id clip_id : String) (params : UpdateClipParams) (db : ContentDb)
      → live_clips j db ≤ 300
      → IsWithin j (update_clip user_id clip_id params db)
  unfolding Ensures update_clip
  update_clip-IsWithin user_id clip_id params db h =
      with_clip_access-IsWithin clip_id _ _ db
        (λ a c d q. ground (
          arith,
          updated (clip_has_id clip_id) (updated_clip params (host.clock d.tick)) d.clips
              (update_keeps params (host.clock d.tick)) q,
        ))
        h

  -- Moving clips to the trash, at whatever time.
  pub trashed :
      (w : Clip → Bool) (d : ContentDb)
      → live_clips j d ≤ 300
      → count
          (live_clip_in j)
          (prisma.clip.update_many w
            (trashed_clip (host.clock d.tick) (host.clock (d.tick + 1)))
            d.clips).0
        ≤ 300
  trashed w d q = updated w _ d.clips (trash_keeps (host.clock d.tick) (host.clock (d.tick + 1))) q

  pub soft_delete_clip-IsWithin :
      (user_id clip_id : String) (db : ContentDb)
      → live_clips j db ≤ 300
      → IsWithin j (soft_delete_clip user_id clip_id db)
  unfolding Ensures soft_delete_clip
  soft_delete_clip-IsWithin user_id clip_id db h =
      with_clip_access-IsWithin clip_id _ _ db
        (λ a c d q. ground (arith, trashed (clip_has_id clip_id) d q)) h
