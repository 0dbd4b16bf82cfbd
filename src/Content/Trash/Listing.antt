-- ===== src/Content/Trash/Listing.antt =====
-- The operations of trash/infrastructure/prisma-trash.repository.ts that read, and
-- trash/application/helpers/trash-pagination.helper.ts.
use Prim.Native.Char.{code}
use easy_clip_be.Common.{
  ℕ, String, Bool, true, false, ◌||◌, ◌&&◌, not, Option, none, some, List, [], ◌∷◌, ◌++◌, map,
  ◌===◌, ◌==◌, ltb, elem, length, take, sort, is_missing, is_empty, if◌then◌else◌,
}
use easy_clip_be.Subscriptions.Types.{is_free}
use easy_clip_be.Subscriptions.Repository.Lifecycle.{owned_by}
use easy_clip_be.Content.Types.{Folder, Clip, ClipType, text, color, image, FolderAccess, is_null}
use easy_clip_be.Content.Store.{
  ContentDb, ContentPrisma, Host, Tx, pure, ◌>>=◌, tables, workspace, folder, clip, find_first,
  find_many, find_all,
}
use easy_clip_be.Content.Access.Defs.{
  Arithmetic, is_text, text_or_empty, in_live_folder, owned_workspace, lock_workspace_access,
}

pub data TrashItemType : Type 0 where
  clip_item folder_item : TrashItemType

-- `TrashItem` with its order: when it went, of which type it is, and its identifier. A clip's
-- contents are those of its type.
pub record TrashItem : Type 0 where
  pub item_type : TrashItemType
  pub id : String
  pub title : String
  pub clip_type : Option ClipType
  pub folder_id : Option String
  pub text_content : Option String
  pub image_url : Option String
  pub color_hex : Option String
  pub deleted_at : Option ℕ

pub record TrashItemCursor : Type 0 where
  pub item_type : TrashItemType
  pub id : String
  pub deleted_at : Option ℕ

pub record FindTrashItemsParams : Type 0 where
  pub user_id : String
  pub cursor : Option String
  pub limit : ℕ

abbrev pub is_text_type : ClipType → Bool
is_text_type text = true
is_text_type _ = false

abbrev pub is_image_type : ClipType → Bool
is_image_type image = true
is_image_type _ = false

abbrev pub is_color_type : ClipType → Bool
is_color_type color = true
is_color_type _ = false

abbrev pub when : {A : Type 0} → Bool → Option A → Option A
when true o = o
when false o = none

abbrev pub of_clip : Clip → TrashItem
of_clip c = record {
  item_type = clip_item;
  id = c.id;
  title = c.title;
  clip_type = some c.type;
  folder_id = some c.folder_id;
  text_content = when (is_text_type c.type) c.text_content;
  image_url = when (is_image_type c.type) c.image_url;
  color_hex = when (is_color_type c.type) c.color_hex;
  deleted_at = c.deleted_at;
}

abbrev pub of_folder : Folder → TrashItem
of_folder f = record {
  item_type = folder_item;
  id = f.id;
  title = f.name;
  clip_type = none;
  folder_id = none;
  text_content = none;
  image_url = none;
  color_hex = none;
  deleted_at = f.deleted_at;
}

-- `TRASH_ITEM_TYPE_ORDER`
abbrev pub trash_item_type_order : TrashItemType → ℕ
trash_item_type_order clip_item = 0
trash_item_type_order folder_item = 1

-- `deletedAt?.getTime() ?? 0`
abbrev pub deletion_time : Option ℕ → ℕ
deletion_time none = 0
deletion_time (some t) = t

-- Whether `compareTrashItems` is negative; `<` on strings is a parameter.
unfoldable pub compare_trash_items : (String → String → Bool) → TrashItem → TrashItem → Bool
compare_trash_items less a b =
    if not (deletion_time b.deleted_at == deletion_time a.deleted_at)
    then ltb (deletion_time b.deleted_at) (deletion_time a.deleted_at)
    else if not (trash_item_type_order a.item_type == trash_item_type_order b.item_type)
    then ltb (trash_item_type_order a.item_type) (trash_item_type_order b.item_type)
    else if a.id === b.id
    then false
    else not (less a.id b.id)

-- `deletedAt: { lt }` and `deletedAt: cursor.deletedAt`
abbrev pub earlier : Option ℕ → ℕ → Bool
earlier none t = false
earlier (some s) t = ltb s t

abbrev pub at_time : Option ℕ → ℕ → Bool
at_time none t = false
at_time (some s) t = s == t

abbrev pub is_clip_item : TrashItemType → Bool
is_clip_item clip_item = true
is_clip_item folder_item = false

-- `buildClipTrashCursorWhere` and `buildFolderTrashCursorWhere`, each as the test that its
-- alternatives make; an empty list of alternatives passes nothing.
unfoldable pub build_clip_trash_cursor_where :
    (String → String → Bool) → TrashItemCursor → Clip → Bool
build_clip_trash_cursor_where collate cursor c = elim cursor.deleted_at [
  | none ↦ false
  | some t ↦
      earlier c.deleted_at t
      || (ltb (trash_item_type_order cursor.item_type) (trash_item_type_order clip_item)
          && at_time c.deleted_at t)
      || (is_clip_item cursor.item_type && at_time c.deleted_at t && collate c.id cursor.id)
]

unfoldable pub build_folder_trash_cursor_where :
    (String → String → Bool) → TrashItemCursor → Folder → Bool
build_folder_trash_cursor_where collate cursor f = elim cursor.deleted_at [
  | none ↦ false
  | some t ↦
      earlier f.deleted_at t
      || (ltb (trash_item_type_order cursor.item_type) (trash_item_type_order folder_item)
          && at_time f.deleted_at t)
      || (not (is_clip_item cursor.item_type) && at_time f.deleted_at t && collate f.id cursor.id)
]

-- `cursor.split(':')`: the text up to a colon, and what is between it and the next one.
abbrev pub up_to_colon : String → String
up_to_colon String.[] = String.[]
up_to_colon (String.◌∷◌ c s) =
    let rest = up_to_colon s in if code c == 58 then String.[] else String.◌∷◌ c rest

abbrev pub past_colon : String → String
past_colon String.[] = String.[]
past_colon (String.◌∷◌ c s) = let rest = past_colon s in if code c == 58 then s else rest

unfoldable pub parse_trash_item_cursor : String → Option (TrashItemType × String)
parse_trash_item_cursor cursor =
    let id = up_to_colon (past_colon cursor) in
    if is_empty id
    then none
    else if up_to_colon cursor === "CLIP"
    then some (clip_item, id)
    else if up_to_colon cursor === "FOLDER"
    then some (folder_item, id)
    else none

-- `clipAccessWhere`
abbrev pub clip_access_where : FolderAccess → Clip → Bool
clip_access_where access c =
    not (is_free access.effective_plan)
    || (not (is_missing access.accessible_folder_id)
        && is_text access.accessible_folder_id c.folder_id)

abbrev pub later_deleted : (String → String → Bool) → Option ℕ → String → Option ℕ → String → Bool
later_deleted collate s a t b =
    ltb (deletion_time t) (deletion_time s) || (deletion_time s == deletion_time t && collate b a)

abbrev pub clip_cursor_of : Option Clip → Option TrashItemCursor
clip_cursor_of none = none
clip_cursor_of (some c) =
    some (record { item_type = clip_item; id = c.id; deleted_at = c.deleted_at })

abbrev pub folder_cursor_of : Option Folder → Option TrashItemCursor
folder_cursor_of none = none
folder_cursor_of (some f) =
    some (record { item_type = folder_item; id = f.id; deleted_at = f.deleted_at })

abbrev pub past_clip : (String → String → Bool) → Option TrashItemCursor → Clip → Bool
past_clip collate none c = true
past_clip collate (some cursor) c = build_clip_trash_cursor_where collate cursor c

abbrev pub past_folder : (String → String → Bool) → Option TrashItemCursor → Folder → Bool
past_folder collate none f = true
past_folder collate (some cursor) f = build_folder_trash_cursor_where collate cursor f

-- `folder: { select: { deletedAt: true } }`
abbrev pub parent_deleted_at : String → List Folder → Option ℕ
parent_deleted_at id [] = none
parent_deleted_at id (f ∷ fs) = if f.id === id then f.deleted_at else parent_deleted_at id fs

-- JavaScript's `<` on strings.
pub record CodeOrder : Type 0 where
  pub less : String → String → Bool

module _ ⦃prisma : ContentPrisma⦄ ⦃host : Host⦄ ⦃arithmetic : Arithmetic⦄ where
  abbrev pub trashed_clip_in : ContentDb → FolderAccess → Clip → Bool
  trashed_clip_in db access c =
      c.workspace_id === access.workspace_id
      && not (is_null c.deleted_at)
      && in_live_folder db c
      && clip_access_where access c

  abbrev pub trashed_folder_in : FolderAccess → Folder → Bool
  trashed_folder_in access f = f.workspace_id === access.workspace_id && not (is_null f.deleted_at)

  unfoldable pub find_trash_item_cursor :
      FindTrashItemsParams → FolderAccess → Tx (Option TrashItemCursor)
  unfolding parse_trash_item_cursor
  find_trash_item_cursor params access =
      if is_missing params.cursor
      then pure none
      else elim (parse_trash_item_cursor (text_or_empty params.cursor)) [
        | none ↦ pure none
        | some parsed ↦ elim parsed.0 [
          | clip_item ↦ do
            db ← tables
            c ← find_first clip (λ c. c.id === parsed.1 && trashed_clip_in db access c)
            pure (clip_cursor_of c)
          | folder_item ↦ do
            f ← find_first folder (λ f. f.id === parsed.1 && trashed_folder_in access f)
            pure (folder_cursor_of f)
        ]
      ]

  unfoldable pub find_deleted_items :
      ⦃order : CodeOrder⦄ → FindTrashItemsParams → Tx (List TrashItem)
  unfolding lock_workspace_access find_trash_item_cursor
  find_deleted_items ⦃order⦄ params = do
    found ← find_first workspace (owned_by params.user_id)
    elim found [
      | none ↦ pure []
      | some w ↦ do
        access ← lock_workspace_access w.id
        cursor ← find_trash_item_cursor params access
        if not (is_missing params.cursor) && is_null cursor then pure [] else do
          db ← tables
          clips ←
              find_many clip (λ c. trashed_clip_in db access c && past_clip prisma.collate cursor c)
                (λ a b. later_deleted prisma.collate a.deleted_at a.id b.deleted_at b.id)
                params.limit
          folders ←
              find_many folder
                (λ f. trashed_folder_in access f && past_folder prisma.collate cursor f)
                (λ a b. later_deleted prisma.collate a.deleted_at a.id b.deleted_at b.id)
                params.limit
          pure (
              take params.limit (
                sort (compare_trash_items order.less) (map of_clip clips ++ map of_folder folders)))
    ]

  -- Each with the `deletedAt` of its folder.
  unfoldable pub find_deleted_clips_by_ids : String → List String → Tx (List (Clip × Option ℕ))
  find_deleted_clips_by_ids user_id ids = if length ids == 0 then pure [] else do
    db ← tables
    clips ← find_all clip (λ c.
        elem ◌===◌ c.id ids
        && not (is_null c.deleted_at)
        && owned_workspace db user_id c.workspace_id)
    pure (map (λ c. (c, parent_deleted_at c.folder_id db.folders)) clips)

  unfoldable pub find_deleted_folders_by_ids : String → List String → Tx (List Folder)
  find_deleted_folders_by_ids user_id ids = if length ids == 0 then pure [] else do
    db ← tables
    find_all folder (λ f.
        elem ◌===◌ f.id ids
        && not (is_null f.deleted_at)
        && owned_workspace db user_id f.workspace_id)

  unfoldable pub find_deleted_clip_by_id : String → String → Tx (Option (Clip × Option ℕ))
  find_deleted_clip_by_id user_id id = do
    db ← tables
    found ← find_first clip (λ c.
        c.id === id && not (is_null c.deleted_at) && owned_workspace db user_id c.workspace_id)
    elim found [
      | none ↦ pure none
      | some c ↦ pure (some (c, parent_deleted_at c.folder_id db.folders))
    ]

  unfoldable pub find_deleted_folder_by_id : String → String → Tx (Option Folder)
  find_deleted_folder_by_id user_id id = do
    db ← tables
    find_first folder (λ f.
        f.id === id && not (is_null f.deleted_at) && owned_workspace db user_id f.workspace_id)
