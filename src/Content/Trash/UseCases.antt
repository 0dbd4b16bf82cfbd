-- ===== src/Content/Trash/UseCases.antt =====
-- trash/application/usecases: listing, restoring, deleting for good, and the purge that the
-- scheduler runs.
use easy_clip_be.Common.{
  ℕ, ◌+◌, ◌-◌, ◌*◌, String, Bool, true, false, ◌&&◌, not, Option, none, some, List, [], ◌∷◌, map,
  ◌===◌, ◌==◌, ltb, elem, length, filter, is_missing, if◌then◌else◌,
}
use easy_clip_be.Subscriptions.App.{bad_request, not_found, conflict}
use easy_clip_be.Content.Types.{Clip, is_null}
use easy_clip_be.Content.Store.{ContentPrisma, Host, any}
use easy_clip_be.Content.App.{
  App, return_, refuse, ◌>>=◌, ◌>>◌, Outside, run, delete_images_best_effort,
}
use easy_clip_be.Content.Access.Defs.{Arithmetic, text_or_empty}
use easy_clip_be.Content.Trash.Listing.{
  TrashItem, TrashItemType, clip_item, folder_item, is_clip_item, CodeOrder, find_deleted_items,
  find_deleted_clips_by_ids, find_deleted_folders_by_ids,
}
use easy_clip_be.Content.Trash.Pages.{
  GivenNumber, missing, whole, TrashCursorPage, normalize_limit, to_cursor_page, cursor_of_item,
}
use easy_clip_be.Content.Trash.Writes.{
  Locale, HardDeleteTrashItemsResult, HardDeleteSelectedTrashItemsResult, among, restore_items,
  hard_delete_items, hard_delete_all_trash_items_for_user, hard_delete_expired_folders_with_clips,
  hard_delete_expired_clips,
}

-- One item of a request.
pub record RestoreTrashItem : Type 0 where
  pub item_type : TrashItemType
  pub id : String

pub record DeleteTrashItemsOutput : Type 0 where
  pub clips_deleted : ℕ
  pub folders_deleted : ℕ
  pub total_deleted : ℕ

pub record PurgeExpiredTrashItemsInput : Type 0 where
  pub now : ℕ
  pub retention_days : GivenNumber
  pub limit : GivenNumber

-- No `expires_before` is one before 1970.
pub record PurgeExpiredTrashItemsOutput : Type 0 where
  pub expires_before : Option ℕ
  pub retention_days : ℕ
  pub folders_deleted : ℕ
  pub clips_deleted : ℕ
  pub total_deleted : ℕ

-- `ConfigService.get`, and `Number` on its text.
pub record Configuration : Type 0 where
  pub get : String → Option String
  pub number : String → GivenNumber

abbrev pub is_folder_item : RestoreTrashItem → Bool
is_folder_item i = not (is_clip_item i.item_type)

abbrev pub same_item : RestoreTrashItem → RestoreTrashItem → Bool
same_item a b = elim a.item_type [
  | clip_item ↦ is_clip_item b.item_type && a.id === b.id
  | folder_item ↦ is_folder_item b && a.id === b.id
]

-- `deduplicateItems`: a key that comes again keeps its place.
abbrev pub deduplicate_into : List RestoreTrashItem → List RestoreTrashItem → List RestoreTrashItem
deduplicate_into seen [] = []
deduplicate_into seen (i ∷ is') = elim (elem same_item i seen) [
  | true ↦ deduplicate_into seen is'
  | false ↦ i ∷ deduplicate_into (i ∷ seen) is'
]

abbrev pub deduplicate_items : List RestoreTrashItem → List RestoreTrashItem
deduplicate_items items = deduplicate_into [] items

abbrev pub ids_of : List RestoreTrashItem → List String
ids_of items = map (λ (i : RestoreTrashItem). i.id) items

abbrev pub clip_ids_of : List RestoreTrashItem → List String
clip_ids_of items = ids_of (filter (λ (i : RestoreTrashItem). is_clip_item i.item_type) items)

abbrev pub folder_ids_of_items : List RestoreTrashItem → List String
folder_ids_of_items items = ids_of (filter is_folder_item items)

-- A clip whose folder is in the trash, and not part of the request.
abbrev pub is_blocked : List String → Clip × Option ℕ → Bool
is_blocked folders c = not (is_null c.1) && not (among folders c.0.folder_id)

abbrev pub kept_clip_ids : (Clip → Bool) → List (Clip × Option ℕ) → List String
kept_clip_ids w [] = []
kept_clip_ids w (c ∷ cs) = let rest = kept_clip_ids w cs in if w c.0 then c.0.id ∷ rest else rest

abbrev pub counts_of : HardDeleteSelectedTrashItemsResult → DeleteTrashItemsOutput
counts_of r = record {
  clips_deleted = r.clips_deleted;
  folders_deleted = r.folders_deleted;
  total_deleted = r.total_deleted;
}

-- `resolvePositiveInteger`: zero is accepted from the caller, and not from the configuration.
unfoldable pub resolve_positive_integer : GivenNumber → GivenNumber → ℕ → ℕ
resolve_positive_integer (whole n) _ _ = n
resolve_positive_integer _ (whole n) default = if ltb 0 n then n else default
resolve_positive_integer _ _ default = default

abbrev pub day_in_ms : ℕ
day_in_ms = 86400000

-- `new Date(now.getTime() - retentionDays * DAY_IN_MS)`
abbrev pub expiry : ℕ → ℕ → Option ℕ
expiry now days = if ltb now (days * day_in_ms) then none else some (now - days * day_in_ms)

module _ ⦃prisma : ContentPrisma⦄ ⦃host : Host⦄ ⦃arithmetic : Arithmetic⦄ ⦃outside : Outside⦄ where
  unfoldable pub list_trash_items :
      ⦃order : CodeOrder⦄ → String → Option String → GivenNumber → App (TrashCursorPage TrashItem)
  unfolding find_deleted_items
  list_trash_items user_id cursor limit = do
    items ← run (
        find_deleted_items
          (record { user_id = user_id; cursor = cursor; limit = normalize_limit limit + 1 }))
    return_ (to_cursor_page items (normalize_limit limit) cursor_of_item)

  -- What restoring and deleting check of the items of a request, and the clips that they find.
  abbrev pub check_items :
      {A : Type 0} → String → List String → List String → (List (Clip × Option ℕ) → App A) → App A
  check_items user_id clip_ids folder_ids go = do
    clips ← run (find_deleted_clips_by_ids user_id clip_ids)
    folders ← run (find_deleted_folders_by_ids user_id folder_ids)
    if not (length clips == length clip_ids) then refuse not_found else do
      if not (length folders == length folder_ids)
          then refuse not_found
          else do if any (is_blocked folder_ids) clips then refuse conflict else go clips

  unfoldable pub restore_trash_items : ⦃locale : Locale⦄ → String → List RestoreTrashItem → App ℕ
  unfolding restore_items
  restore_trash_items user_id requested =
      let items = deduplicate_items requested in
      if length items == 0
      then refuse bad_request
      else check_items user_id (clip_ids_of items) (folder_ids_of_items items) λ clips. do
        run (restore_items user_id (kept_clip_ids (λ _. true) clips) (folder_ids_of_items items))
        return_ (length items)

  unfoldable pub delete_trash_items : String → List RestoreTrashItem → App DeleteTrashItemsOutput
  unfolding hard_delete_items
  delete_trash_items user_id requested =
      let items = deduplicate_items requested in
      if length items == 0
      then refuse bad_request
      else check_items user_id (clip_ids_of items) (folder_ids_of_items items) λ clips. do
        result ← run (
            hard_delete_items user_id
              (kept_clip_ids (λ c. not (among (folder_ids_of_items items) c.folder_id)) clips)
              (folder_ids_of_items items))
        delete_images_best_effort result.image_urls
        return_ (counts_of result)

  unfoldable pub delete_all_trash_items : String → App DeleteTrashItemsOutput
  unfolding hard_delete_all_trash_items_for_user
  delete_all_trash_items user_id = do
    result ← run (hard_delete_all_trash_items_for_user user_id)
    delete_images_best_effort result.image_urls
    return_ (counts_of result)

  abbrev pub configured : ⦃configuration : Configuration⦄ → String → GivenNumber
  configured ⦃configuration⦄ key =
      let value = configuration.get key in
      if is_missing value then missing else configuration.number (text_or_empty value)

  abbrev pub purge_clips : Option ℕ → ℕ → App HardDeleteTrashItemsResult
  purge_clips expires_before remaining =
      if ltb 0 remaining
      then run (hard_delete_expired_clips expires_before remaining)
      else return_ (record { deleted_count = 0; image_urls = [] })

  -- The folders first, then as many clips as the limit leaves.
  unfoldable pub purge_expired_trash_items :
      ⦃configuration : Configuration⦄
      → PurgeExpiredTrashItemsInput
      → App PurgeExpiredTrashItemsOutput
  unfolding hard_delete_expired_folders_with_clips hard_delete_expired_clips
      resolve_positive_integer
  purge_expired_trash_items input =
      let days =
        resolve_positive_integer input.retention_days (configured "TRASH_RETENTION_DAYS") 30 in
      let limit = resolve_positive_integer input.limit (configured "TRASH_PURGE_LIMIT") 100 in
      let expires_before = expiry input.now days in
      do
        folders ← run (hard_delete_expired_folders_with_clips expires_before limit)
        delete_images_best_effort folders.image_urls
        clips ← purge_clips expires_before (limit - folders.deleted_count)
        delete_images_best_effort clips.image_urls
        return_ (record {
          expires_before = expires_before;
          retention_days = days;
          folders_deleted = folders.deleted_count;
          clips_deleted = clips.deleted_count;
          total_deleted = folders.deleted_count + clips.deleted_count;
        })
