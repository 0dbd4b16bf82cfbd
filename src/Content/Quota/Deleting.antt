-- ===== src/Content/Quota/Deleting.antt =====
-- The live clips of a folder as clips go to the trash, or for good.
use easy_clip_be.Common.{
  ℕ, ◌≤◌, String, ◌≡◌, refl, ap, Bool, true, false, not, Option, List, [], ◌∷◌, arith, count,
  filter,
}
use easy_clip_be.Content.Types.{Folder, Clip, FolderAccess}
use easy_clip_be.Content.Store.{
  ContentDb, ContentPrisma, Host, IsDocumentedContent, Ensures, then_, thrown, returned, if_, Tx,
  ok, err, in_folders,
}
use easy_clip_be.Content.Access.Defs.{
  Arithmetic, assert_folder_access, lock_clip_quota, resolve_folder_access, unique,
}
use easy_clip_be.Content.Access.Frame.{lock_clip_quota-Frames, resolve_folder_access-Frames}
use easy_clip_be.Content.Clips.Writes.{
  live_clip_in, owned_among, live_clip_owned, assert_all_access, trash_clips, trash_owned,
  trash_requested, soft_delete_clips, trash_live, trash_folder, soft_delete_all_clips_in_folder,
}
use easy_clip_be.Content.Quota.Writes.{live_clips, IsWithin, within_as, trashed}
use easy_clip_be.Content.Trash.Writes.{
  delete_owned_items, hard_delete_items, delete_all_trash, hard_delete_all_trash_items_for_user,
  purge_folders, purge_clips, hard_delete_expired_folders_with_clips, hard_delete_expired_clips,
}

count-filter-le : {A : Type 0} (q w : A → Bool) (t : List A) → count q (filter w t) ≤ count q t
count-filter-le q w [] = omega arith
count-filter-le q w (x ∷ xs) = ground (arith, count-filter-le q w xs)

module _ ⦃prisma : ContentPrisma⦄ ⦃host : Host⦄ ⦃arithmetic : Arithmetic⦄
    (docs : IsDocumentedContent prisma) (j : String) where
  assert_folder_access-same :
      (a : FolderAccess) (id : String) (db : ContentDb)
      → Ensures (λ _ d. d ≡ db) (assert_folder_access a id db)
  unfolding Ensures assert_folder_access
  assert_folder_access-same a id db = ground arith

  assert_all_access-same :
      (a : FolderAccess) (cs : List Clip) (db : ContentDb)
      → Ensures (λ _ d. d ≡ db) (assert_all_access a cs db)
  unfolding Ensures assert_folder_access
  assert_all_access-same a [] db = refl
  assert_all_access-same a (c ∷ cs) db = ground (arith, assert_all_access-same a cs db)

  trash_clips-IsWithin :
      (ws : String) (ids : List String) (cs : List Clip) (db : ContentDb)
      → live_clips j db ≤ 300
      → IsWithin j (trash_clips ws ids cs db)
  unfolding trash_clips
  trash_clips-IsWithin ws ids cs db h =
      then_ _ _ (resolve_folder_access ws db) _ (resolve_folder_access-Frames ws db) λ a d fr.
        then_ _ _ (assert_all_access a cs d) _ (assert_all_access-same a cs d) λ _ e s.
          returned _ _ _ (
            trashed docs j (owned_among ids ws) e
              (omega (arith, within_as docs j d db fr h, ap (live_clips j) s)))

  trash_live-IsWithin :
      (ws id : String) (db : ContentDb) → live_clips j db ≤ 300 → IsWithin j (trash_live ws id db)
  unfolding Ensures trash_live
  trash_live-IsWithin ws id db h = ground (arith, trashed docs j (live_clip_owned ws id) db h)

  trash_folder-IsWithin :
      (ws id : String) (db : ContentDb) → live_clips j db ≤ 300 → IsWithin j (trash_folder ws id db)
  unfolding trash_folder
  trash_folder-IsWithin ws id db h =
      then_ _ _ (resolve_folder_access ws db) _ (resolve_folder_access-Frames ws db) λ a d fr.
        then_ _ _ (assert_folder_access a id d) _ (assert_folder_access-same a id d) λ _ e s.
          trash_live-IsWithin ws id e
            (omega (arith, within_as docs j d db fr h, ap (live_clips j) s))

  after_lock :
      {A : Type 0} (user_id : String) (k : String → Tx A) (db : ContentDb)
      → ((ws : String) (d : ContentDb) → live_clips j d ≤ 300 → IsWithin j (k ws d))
      → live_clips j db ≤ 300
      → Ensures
          (λ _ d. live_clips j d ≤ 300)
          (elim (lock_clip_quota user_id db) [ ok r ↦ k r.0 r.1 | err e ↦ err e ])
  after_lock user_id k db keeps h =
      then_ _ _ (lock_clip_quota user_id db) _ (lock_clip_quota-Frames user_id db)
        λ ws d fr. keeps ws d (within_as docs j d db fr h)

  deleted :
      (w : Clip → Bool) (t : List Clip)
      → count (live_clip_in j) t ≤ 300
      → count (live_clip_in j) (prisma.clip.delete_many w t).0 ≤ 300
  deleted w t h =
      rw (docs.clip.deletes w t)
        (omega (arith, h, count-filter-le (live_clip_in j) (λ c. not (w c)) t))

  -- The clips of the folders that are gone go with them.
  cascaded :
      (gone : List Folder) (t : List Clip)
      → count (live_clip_in j) t ≤ 300
      → count (live_clip_in j) (filter (λ c. not (in_folders gone c)) t) ≤ 300
  cascaded gone t h =
      omega (arith, h, count-filter-le (live_clip_in j) (λ c. not (in_folders gone c)) t)

  delete_owned_items-IsWithin :
      (ws : String) (folders clips : List String) (active : Bool) (db : ContentDb)
      → live_clips j db ≤ 300
      → IsWithin j (delete_owned_items ws folders clips active db)
  unfolding Ensures delete_owned_items
  delete_owned_items-IsWithin ws folders clips active db h = cascaded _ _ (deleted _ db.clips h)

  pub hard_delete_items-IsWithin :
      (user_id : String) (clips folders : List String) (db : ContentDb)
      → live_clips j db ≤ 300
      → IsWithin j (hard_delete_items user_id clips folders db)
  unfolding hard_delete_items
  hard_delete_items-IsWithin user_id clips folders db h =
      after_lock user_id _ db (λ ws d k. delete_owned_items-IsWithin ws folders clips false d k) h

  delete_all_trash-IsWithin :
      (user_id : String) (db : ContentDb)
      → live_clips j db ≤ 300
      → IsWithin j (delete_all_trash user_id db)
  unfolding delete_all_trash
  delete_all_trash-IsWithin user_id db h =
      after_lock user_id _ db (λ ws d k. delete_owned_items-IsWithin ws _ _ true d k) h

  pub hard_delete_all-IsWithin :
      (user_id : String) (db : ContentDb)
      → live_clips j db ≤ 300
      → IsWithin j (hard_delete_all_trash_items_for_user user_id db)
  unfolding Ensures hard_delete_all_trash_items_for_user
  hard_delete_all-IsWithin user_id db h = ground (arith, delete_all_trash-IsWithin user_id db h)

  purge_folders-IsWithin :
      (t : Option ℕ) (ids : List String) (db : ContentDb)
      → live_clips j db ≤ 300
      → IsWithin j (purge_folders t ids db)
  unfolding Ensures purge_folders
  purge_folders-IsWithin t ids db h = cascaded _ db.clips h

  purge_clips-IsWithin :
      (t : Option ℕ) (ids : List String) (db : ContentDb)
      → live_clips j db ≤ 300
      → IsWithin j (purge_clips t ids db)
  unfolding Ensures purge_clips
  purge_clips-IsWithin t ids db h = deleted _ db.clips h

  pub hard_delete_expired_folders-IsWithin :
      (t : Option ℕ) (limit : ℕ) (db : ContentDb)
      → live_clips j db ≤ 300
      → IsWithin j (hard_delete_expired_folders_with_clips t limit db)
  unfolding hard_delete_expired_folders_with_clips
  hard_delete_expired_folders-IsWithin t limit db h = search (if_, returned, purge_folders-IsWithin)

  pub hard_delete_expired_clips-IsWithin :
      (t : Option ℕ) (limit : ℕ) (db : ContentDb)
      → live_clips j db ≤ 300
      → IsWithin j (hard_delete_expired_clips t limit db)
  unfolding hard_delete_expired_clips
  hard_delete_expired_clips-IsWithin t limit db h = search (if_, returned, purge_clips-IsWithin)

  trash_owned-IsWithin :
      (ws : String) (ids : List String) (db : ContentDb)
      → live_clips j db ≤ 300
      → IsWithin j (trash_owned ws ids db)
  unfolding trash_owned
  trash_owned-IsWithin ws ids db h = search (if_, thrown, trash_clips-IsWithin)

  trash_requested-IsWithin :
      (user_id : String) (ids : List String) (db : ContentDb)
      → live_clips j db ≤ 300
      → IsWithin j (trash_requested user_id ids db)
  unfolding trash_requested
  trash_requested-IsWithin user_id ids db h =
      after_lock user_id _ db (λ ws d k. trash_owned-IsWithin ws (unique ids) d k) h

  pub soft_delete_clips-IsWithin :
      (user_id : String) (ids : List String) (db : ContentDb)
      → live_clips j db ≤ 300
      → IsWithin j (soft_delete_clips user_id ids db)
  unfolding soft_delete_clips
  soft_delete_clips-IsWithin user_id ids db h = search (if_, returned, trash_requested-IsWithin)

  pub soft_delete_all-IsWithin :
      (user_id id : String) (db : ContentDb)
      → live_clips j db ≤ 300
      → IsWithin j (soft_delete_all_clips_in_folder user_id id db)
  unfolding Ensures soft_delete_all_clips_in_folder
  soft_delete_all-IsWithin user_id id db h =
      then_ _ _ (lock_clip_quota user_id db) _ (lock_clip_quota-Frames user_id db)
        λ ws d fr. grind (arith, trash_folder-IsWithin, within_as docs j d db fr h)
