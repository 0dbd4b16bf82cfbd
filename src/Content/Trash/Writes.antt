-- ===== src/Content/Trash/Writes.antt =====
-- The operations of trash/infrastructure/prisma-trash.repository.ts that write: restoring, and
-- deleting for good. Its locks read nothing; each query after one sees the tables as they stand.
use easy_clip_be.Common.{
  ℕ, ◌+◌, String, Bool, true, false, ◌||◌, ◌&&◌, not, Option, none, some, List, [], ◌∷◌, ◌++◌,
  ◌===◌, ◌==◌, ltb, elem, length, count, sort, is_missing, if◌then◌else◌,
}
use easy_clip_be.Subscriptions.App.{not_found, conflict}
use easy_clip_be.Subscriptions.Repository.Rows.{at_most}
use easy_clip_be.Subscriptions.Repository.Lifecycle.{owned_by}
use easy_clip_be.Content.Types.{Folder, Clip, FolderAccess, is_null}
use easy_clip_be.Content.Store.{
  ContentDb, ContentPrisma, Host, Tx, pure, throw, ◌>>=◌, ◌>>◌, now, tables, application, workspace,
  folder, clip, find_first, find_many, find_all, count_rows, update_many, delete_clips,
  delete_folders,
}
use easy_clip_be.Content.Access.Defs.{
  Arithmetic, in_live_folder, unique, assert_clip_increase, assert_folder_access, lock_clip_quota,
  resolve_folder_access, prepare_folder_restore,
}
use easy_clip_be.Content.Clips.Writes.{owned_among, live_clip_in}

pub record HardDeleteTrashItemsResult : Type 0 where
  pub deleted_count : ℕ
  pub image_urls : List String

pub record HardDeleteSelectedTrashItemsResult : Type 0 where
  pub clips_deleted : ℕ
  pub folders_deleted : ℕ
  pub total_deleted : ℕ
  pub image_urls : List String

-- `compactImageUrls`
abbrev pub compact_image_urls : List (Option String) → List String
compact_image_urls [] = []
compact_image_urls (none ∷ urls) = compact_image_urls urls
compact_image_urls (some u ∷ urls) =
    if is_missing (some u) then compact_image_urls urls else u ∷ compact_image_urls urls

abbrev pub urls_of : List Clip → List (Option String)
urls_of [] = []
urls_of (c ∷ cs) = c.image_url ∷ urls_of cs

abbrev pub clip_ids : List Clip → List String
clip_ids [] = []
clip_ids (c ∷ cs) = c.id ∷ clip_ids cs

abbrev pub folder_ids_of : List Clip → List String
folder_ids_of [] = []
folder_ids_of (c ∷ cs) = c.folder_id ∷ folder_ids_of cs

abbrev pub folder_ids : List Folder → List String
folder_ids [] = []
folder_ids (f ∷ fs) = f.id ∷ folder_ids fs

abbrev pub among : List String → String → Bool
among ids id = elem ◌===◌ id ids

abbrev pub restored_folder : ℕ → Folder → Folder
restored_folder t f = record f { deleted_at = none; updated_at = t }

abbrev pub restored_clip : ℕ → Clip → Clip
restored_clip t c = record c { deleted_at = none; updated_at = t }

abbrev pub deleted_among : List String → Folder → Bool
deleted_among ids f = among ids f.id && not (is_null f.deleted_at)

-- One folder of `increases`, with the number of its clips that come back.
pub record Increase : Type 0 where
  pub folder_id : String
  pub increase : ℕ

-- `increases.set(id, (increases.get(id) ?? 0) + 1)`, which keeps the order of insertion.
abbrev pub add_one : String → List Increase → List Increase
add_one id [] = record { folder_id = id; increase = 1 } ∷ []
add_one id (e ∷ es) =
    if e.folder_id === id then record e { increase = e.increase + 1 } ∷ es else e ∷ add_one id es

-- `foldersById.get(id)`: of rows with one id, the last.
abbrev pub folder_by_id : String → List Folder → Option Folder
folder_by_id id [] = none
folder_by_id id (f ∷ fs) = elim (folder_by_id id fs) [
  | some g ↦ some g
  | none ↦ if f.id === id then some f else none
]

pub record Projected : Type 0 where
  pub folder_id : String
  pub current_count : ℕ
  pub increase : ℕ

-- The fullest folder first, then by `localeCompare`.
abbrev pub fuller : (String → String → Bool) → Projected → Projected → Bool
fuller locale a b =
    ltb (b.current_count + b.increase) (a.current_count + a.increase)
    || (a.current_count + a.increase == b.current_count + b.increase
        && locale a.folder_id b.folder_id)

-- `localeCompare`, as the strict order that it decides.
pub record Locale : Type 0 where
  pub precedes : String → String → Bool

module _ ⦃prisma : ContentPrisma⦄ ⦃host : Host⦄ ⦃arithmetic : Arithmetic⦄ where
  -- How many clips each folder gets back: its folder has to be there, and to be live or restored.
  abbrev pub count_increases :
      List Folder → List String → List Clip → List Increase → Tx (List Increase)
  count_increases folders restoring [] increases = pure increases
  count_increases folders restoring (c ∷ cs) increases = elim (folder_by_id c.folder_id folders) [
    | none ↦ throw (application not_found)
    | some f ↦
        if not (is_null f.deleted_at) && not (among restoring f.id)
        then throw (application conflict)
        else count_increases folders restoring cs (add_one f.id increases)
  ]

  abbrev pub assert_each_access : FolderAccess → List Increase → Tx (Unit {0})
  assert_each_access access [] = pure tt
  assert_each_access access (e ∷ es) = do
    assert_folder_access access e.folder_id
    assert_each_access access es

  abbrev pub project : List Increase → Tx (List Projected)
  project [] = pure []
  project (e ∷ es) = do
    current ← count_rows clip (live_clip_in e.folder_id)
    rest ← project es
    pure (record { folder_id = e.folder_id; current_count = current; increase = e.increase } ∷ rest)

  abbrev pub assert_each_increase : FolderAccess → List Projected → Tx (Unit {0})
  assert_each_increase access [] = pure tt
  assert_each_increase access (p ∷ ps) = do
    assert_clip_increase access.entitlements p.folder_id p.current_count p.increase
    assert_each_increase access ps

  abbrev pub restore_folders : List String → String → Tx (Unit {0})
  restore_folders ids workspace_id = if length ids == 0 then pure tt else do
    t ← now
    update_many folder (λ f. among ids f.id && f.workspace_id === workspace_id) (restored_folder t)
    pure tt

  abbrev pub restore_clips : List String → String → Tx (Unit {0})
  restore_clips ids workspace_id =
      if length ids == 0
      then pure tt
      else do t ← now; update_many clip (owned_among ids workspace_id) (restored_clip t); pure tt

  -- The checks of a restore, once its rows are read.
  unfoldable pub check_restore :
      ⦃locale : Locale⦄ → String → List Folder → List String → List Clip → Tx (Unit {0})
  check_restore ⦃locale⦄ workspace_id folders restoring clips = do
    increases ← count_increases folders restoring clips []
    resolved ← resolve_folder_access workspace_id
    access ← prepare_folder_restore resolved restoring
    assert_each_access access increases
    projected ← project increases
    assert_each_increase access (sort (fuller locale.precedes) projected)

  -- The restore itself, with its checks.
  unfoldable pub restore_rows :
      ⦃locale : Locale⦄
      → String
      → List String
      → List String
      → List Folder
      → List Clip
      → Tx (Unit {0})
  unfolding check_restore
  restore_rows workspace_id restoring wanted folders clips = do
    check_restore workspace_id folders restoring clips
    restore_folders restoring workspace_id
    restore_clips wanted workspace_id

  -- Every row of the request has to be found in the trash.
  unfoldable pub restore_found :
      ⦃locale : Locale⦄
      → String
      → List String
      → List String
      → List Folder
      → List Clip
      → Tx (Unit {0})
  unfolding restore_rows
  restore_found workspace_id restoring wanted folders clips =
      if not (length clips == length wanted)
        || not (count (deleted_among restoring) folders == length restoring)
      then throw (application not_found)
      else restore_rows workspace_id restoring wanted folders clips

  abbrev pub trashed_among : List String → String → Clip → Bool
  trashed_among ids workspace_id c = owned_among ids workspace_id c && not (is_null c.deleted_at)

  unfoldable pub restore_items :
      ⦃locale : Locale⦄ → String → List String → List String → Tx (Unit {0})
  unfolding lock_clip_quota restore_found
  restore_items user_id requested_clips requested_folders = do
    workspace_id ← lock_clip_quota user_id
    let restoring = unique requested_folders
    let wanted = unique requested_clips
    candidates ← find_all clip (owned_among wanted workspace_id)
    let parents = unique (restoring ++ folder_ids_of candidates)
    folders ← find_all folder (λ f. among parents f.id && f.workspace_id === workspace_id)
    clips ← find_all clip (trashed_among wanted workspace_id)
    restore_found workspace_id restoring wanted folders clips

  -- The clips that a deletion takes: those of its folders, and those asked for that are deleted.
  abbrev pub taken : List Folder → Bool → List String → List String → String → Clip → Bool
  taken live require_active folders requested workspace_id c =
      c.workspace_id === workspace_id
      && (among folders c.folder_id
          || (among requested c.id
              && not (is_null c.deleted_at)
              && (not require_active
                  || not (
                      count (λ (f : Folder). f.id === c.folder_id && is_null f.deleted_at) live
                      == 0))))

  abbrev pub taken_again :
      List Folder → Bool → List String → List String → String → List Clip → Clip → Bool
  taken_again live require_active folders requested workspace_id candidates c =
      taken live require_active folders requested workspace_id c && among (clip_ids candidates) c.id

  abbrev pub trashed_folder_among : List String → String → Folder → Bool
  trashed_folder_among ids workspace_id f =
      among ids f.id && f.workspace_id === workspace_id && not (is_null f.deleted_at)

  unfoldable pub delete_owned_items :
      String → List String → List String → Bool → Tx HardDeleteSelectedTrashItemsResult
  delete_owned_items workspace_id requested_folders requested_clips require_active = do
    folders ← find_all folder (trashed_folder_among requested_folders workspace_id)
    let ids = folder_ids folders
    before ← tables
    candidates ←
        find_all clip (taken before.folders require_active ids requested_clips workspace_id)
    clips ←
        find_all clip
          (taken_again before.folders require_active ids requested_clips workspace_id candidates)
    clips_deleted ← delete_clips (λ c. among (clip_ids clips) c.id)
    folders_deleted ← delete_folders (λ f. among ids f.id)
    pure (record {
      clips_deleted = clips_deleted;
      folders_deleted = folders_deleted;
      total_deleted = clips_deleted + folders_deleted;
      image_urls = compact_image_urls (urls_of clips);
    })

  unfoldable pub hard_delete_items :
      String → List String → List String → Tx HardDeleteSelectedTrashItemsResult
  unfolding lock_clip_quota delete_owned_items
  hard_delete_items user_id requested_clips requested_folders = do
    workspace_id ← lock_clip_quota user_id
    delete_owned_items workspace_id requested_folders requested_clips false

  -- All the deleted folders, and the deleted clips of the others.
  unfoldable pub delete_all_trash : String → Tx HardDeleteSelectedTrashItemsResult
  unfolding lock_clip_quota delete_owned_items
  delete_all_trash user_id = do
    workspace_id ← lock_clip_quota user_id
    folders ← find_all folder (λ f. f.workspace_id === workspace_id && not (is_null f.deleted_at))
    db ← tables
    clips ←
        find_all clip (λ c.
          c.workspace_id === workspace_id && not (is_null c.deleted_at) && in_live_folder db c)
    delete_owned_items workspace_id (folder_ids folders) (clip_ids clips) true

  unfoldable pub hard_delete_all_trash_items_for_user :
      String → Tx HardDeleteSelectedTrashItemsResult
  unfolding delete_all_trash
  hard_delete_all_trash_items_for_user user_id = do
    found ← find_first workspace (owned_by user_id)
    elim found [
      | none ↦
          pure
            (record { clips_deleted = 0; folders_deleted = 0; total_deleted = 0; image_urls = [] })
      | some _ ↦ delete_all_trash user_id
    ]

  -- `orderBy: [{ deletedAt: 'asc' }, { id: 'asc' }]`, where `deletedAt` is there.
  abbrev pub deleted_earlier :
      (String → String → Bool) → Option ℕ → String → Option ℕ → String → Bool
  deleted_earlier collate (some s) a (some t) b = ltb s t || (s == t && collate a b)
  deleted_earlier collate _ a _ b = false

  -- `deletedAt: { lte: expiresBefore }`, where none is a time before 1970.
  abbrev pub expired : Option ℕ → Option ℕ → Bool
  expired none deleted_at = false
  expired (some t) deleted_at = at_most deleted_at t

  abbrev pub expired_folder : Option ℕ → List String → Folder → Bool
  expired_folder expires_before candidates f =
      among candidates f.id && expired expires_before f.deleted_at

  -- The cascade of the schema deletes the clips of the folders.
  unfoldable pub purge_folders : Option ℕ → List String → Tx HardDeleteTrashItemsResult
  purge_folders expires_before candidates = do
    folders ← find_all folder (expired_folder expires_before candidates)
    let ids = folder_ids folders
    image_clips ← find_all clip (λ c. among ids c.folder_id && not (is_null c.image_url))
    n ← delete_folders (λ f. among ids f.id)
    pure (record { deleted_count = n; image_urls = compact_image_urls (urls_of image_clips) })

  abbrev pub expired_clip : ContentDb → Option ℕ → List String → Clip → Bool
  expired_clip db expires_before candidates c =
      among candidates c.id && expired expires_before c.deleted_at && in_live_folder db c

  unfoldable pub purge_clips : Option ℕ → List String → Tx HardDeleteTrashItemsResult
  purge_clips expires_before candidates = do
    db ← tables
    clips ← find_all clip (expired_clip db expires_before candidates)
    n ← delete_clips (λ c. among (clip_ids clips) c.id)
    pure (record { deleted_count = n; image_urls = compact_image_urls (urls_of clips) })

  unfoldable pub hard_delete_expired_folders_with_clips :
      Option ℕ → ℕ → Tx HardDeleteTrashItemsResult
  unfolding purge_folders
  hard_delete_expired_folders_with_clips expires_before limit = do
    candidates ←
        find_many folder (λ f. expired expires_before f.deleted_at)
          (λ a b. deleted_earlier prisma.collate a.deleted_at a.id b.deleted_at b.id) limit
    if length candidates == 0
        then pure (record { deleted_count = 0; image_urls = [] })
        else purge_folders expires_before (folder_ids candidates)

  unfoldable pub hard_delete_expired_clips : Option ℕ → ℕ → Tx HardDeleteTrashItemsResult
  unfolding purge_clips
  hard_delete_expired_clips expires_before limit = do
    db ← tables
    candidates ←
        find_many clip (λ c. expired expires_before c.deleted_at && in_live_folder db c)
          (λ a b. deleted_earlier prisma.collate a.deleted_at a.id b.deleted_at b.id) limit
    if length candidates == 0
        then pure (record { deleted_count = 0; image_urls = [] })
        else purge_clips expires_before (clip_ids candidates)
