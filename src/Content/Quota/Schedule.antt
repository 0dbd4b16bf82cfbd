-- ===== src/Content/Quota/Schedule.antt =====
-- The transactions that touch the clips, as one type, and what a schedule of them leaves.
use easy_clip_be.Common.{ℕ, ◌≤◌, String, Option, List, [], ◌∷◌}
use easy_clip_be.Content.Store.{
  ContentDb, ContentPrisma, Host, IsDocumentedContent, Outcome, ok, err, Ensures, commit,
}
use easy_clip_be.Content.Access.Defs.{Arithmetic}
use easy_clip_be.Content.Clips.Writes.{
  CreateClipParams, UpdateClipParams, create_clip, update_clip, soft_delete_clip, soft_delete_clips,
  soft_delete_all_clips_in_folder,
}
use easy_clip_be.Content.Trash.Writes.{
  Locale, restore_items, hard_delete_items, hard_delete_all_trash_items_for_user,
  hard_delete_expired_folders_with_clips, hard_delete_expired_clips,
}
use easy_clip_be.Content.Quota.Writes.{
  live_clips, IsWithin, create_clip-IsWithin, update_clip-IsWithin, soft_delete_clip-IsWithin,
}
use easy_clip_be.Content.Quota.Restoring.{restore_items-IsWithin}
use easy_clip_be.Content.Quota.Deleting.{
  soft_delete_clips-IsWithin, soft_delete_all-IsWithin, hard_delete_items-IsWithin,
  hard_delete_all-IsWithin, hard_delete_expired_folders-IsWithin,
  hard_delete_expired_clips-IsWithin,
}

-- A transaction of the repository of clips, with its arguments.
pub data ClipWrite : Type 0 where
  creates_clip : (user_id : String) (params : CreateClipParams) → ClipWrite
  updates_clip : (user_id clip_id : String) (params : UpdateClipParams) → ClipWrite
  trashes_clip : (user_id clip_id : String) → ClipWrite
  trashes_clips : (user_id : String) (clip_ids : List String) → ClipWrite
  trashes_folder_clips : (user_id folder_id : String) → ClipWrite

-- A transaction of the repository of the trash, with its arguments.
pub data TrashWrite : Type 0 where
  restores : (user_id : String) (clip_ids folder_ids : List String) → TrashWrite
  deletes : (user_id : String) (clip_ids folder_ids : List String) → TrashWrite
  empties_trash : (user_id : String) → TrashWrite
  purges_folders purges_clips : (expires_before : Option ℕ) (limit : ℕ) → TrashWrite

pub data ContentWrite : Type 0 where
  on_clips : ClipWrite → ContentWrite
  on_trash : TrashWrite → ContentWrite

module _ ⦃prisma : ContentPrisma⦄ ⦃host : Host⦄ ⦃arithmetic : Arithmetic⦄ ⦃locale : Locale⦄ where
  abbrev pub write_clips : ClipWrite → ContentDb → ContentDb
  write_clips (creates_clip user_id params) = commit (create_clip user_id params)
  write_clips (updates_clip user_id clip_id params) = commit (update_clip user_id clip_id params)
  write_clips (trashes_clip user_id clip_id) = commit (soft_delete_clip user_id clip_id)
  write_clips (trashes_clips user_id ids) = commit (soft_delete_clips user_id ids)
  write_clips (trashes_folder_clips user_id id) =
      commit (soft_delete_all_clips_in_folder user_id id)

  abbrev pub write_trash : TrashWrite → ContentDb → ContentDb
  write_trash (restores user_id clips folders) = commit (restore_items user_id clips folders)
  write_trash (deletes user_id clips folders) = commit (hard_delete_items user_id clips folders)
  write_trash (empties_trash user_id) = commit (hard_delete_all_trash_items_for_user user_id)
  write_trash (purges_folders t n) = commit (hard_delete_expired_folders_with_clips t n)
  write_trash (purges_clips t n) = commit (hard_delete_expired_clips t n)

  abbrev pub write_content : ContentWrite → ContentDb → ContentDb
  write_content (on_clips w) = write_clips w
  write_content (on_trash w) = write_trash w

  -- One transaction after the other, each committed or rolled back.
  abbrev pub run_writes : List ContentWrite → ContentDb → ContentDb
  run_writes [] db = db
  run_writes (w ∷ ws) db = run_writes ws (write_content w db)

committed :
    {A : Type 0} (j : String) (m : ContentDb → Outcome (A × ContentDb)) (db : ContentDb)
    → live_clips j db ≤ 300
    → IsWithin j (m db)
    → live_clips j (commit m db) ≤ 300
unfolding Ensures
committed {A} j m db h k = go (m db) k
  where
    go :
        (o : Outcome (A × ContentDb))
        → IsWithin j o
        → live_clips j (elim o [ ok r ↦ r.1 | err _ ↦ db ]) ≤ 300
    go (ok r) k = k
    go (err e) k = h

module _ ⦃prisma : ContentPrisma⦄ ⦃host : Host⦄ ⦃arithmetic : Arithmetic⦄ ⦃locale : Locale⦄
    (docs : IsDocumentedContent prisma) (j : String) where
  write_clips-keeps :
      (w : ClipWrite) (db : ContentDb)
      → live_clips j db ≤ 300
      → live_clips j (write_clips w db) ≤ 300
  write_clips-keeps (creates_clip u p) db h =
      committed j (create_clip u p) db h (create_clip-IsWithin docs j u p db h)
  write_clips-keeps (updates_clip u id p) db h =
      committed j (update_clip u id p) db h (update_clip-IsWithin docs j u id p db h)
  write_clips-keeps (trashes_clip u id) db h =
      committed j (soft_delete_clip u id) db h (soft_delete_clip-IsWithin docs j u id db h)
  write_clips-keeps (trashes_clips u ids) db h =
      committed j (soft_delete_clips u ids) db h (soft_delete_clips-IsWithin docs j u ids db h)
  write_clips-keeps (trashes_folder_clips u id) db h =
      committed j (soft_delete_all_clips_in_folder u id) db h
        (soft_delete_all-IsWithin docs j u id db h)

  write_trash-keeps :
      (w : TrashWrite) (db : ContentDb)
      → live_clips j db ≤ 300
      → live_clips j (write_trash w db) ≤ 300
  write_trash-keeps (restores u cs fs) db h =
      committed j (restore_items u cs fs) db h (restore_items-IsWithin docs j u cs fs db h)
  write_trash-keeps (deletes u cs fs) db h =
      committed j (hard_delete_items u cs fs) db h (hard_delete_items-IsWithin docs j u cs fs db h)
  write_trash-keeps (empties_trash u) db h =
      committed j (hard_delete_all_trash_items_for_user u) db h
        (hard_delete_all-IsWithin docs j u db h)
  write_trash-keeps (purges_folders t n) db h =
      committed j (hard_delete_expired_folders_with_clips t n) db h
        (hard_delete_expired_folders-IsWithin docs j t n db h)
  write_trash-keeps (purges_clips t n) db h =
      committed j (hard_delete_expired_clips t n) db h
        (hard_delete_expired_clips-IsWithin docs j t n db h)

  write_content-keeps :
      (w : ContentWrite) (db : ContentDb)
      → live_clips j db ≤ 300
      → live_clips j (write_content w db) ≤ 300
  write_content-keeps (on_clips w) = write_clips-keeps w
  write_content-keeps (on_trash w) = write_trash-keeps w

  -- In every order in which the transactions that write clips are committed, no folder comes to
  -- hold more than 300 live clips, if it held no more before.
  pub run_writes_bounded :
      (ws : List ContentWrite) (db : ContentDb)
      → live_clips j db ≤ 300
      → live_clips j (run_writes ws db) ≤ 300
  run_writes_bounded [] db h = h
  run_writes_bounded (w ∷ ws) db h =
      run_writes_bounded ws (write_content w db) (write_content-keeps w db h)
