-- ===== src/Content/Folders/Repository.antt =====
-- folders/infrastructure/prisma-folders.repository.ts.
use easy_clip_be.Common.{
  ℕ, String, Bool, true, false, ◌||◌, ◌&&◌, not, Option, none, some, List, map, ◌===◌, ltb,
  is_missing, if◌then◌else◌,
}
use easy_clip_be.Subscriptions.Types.{is_free}
use easy_clip_be.Subscriptions.Repository.Rows.{free_subscription}
use easy_clip_be.Subscriptions.Repository.Lifecycle.{in_workspace, owned_by, personal_workspace}
use easy_clip_be.Content.Types.{Double, Folder, Tag, TagBackgroundColor, FolderAccess, is_null}
use easy_clip_be.Content.Store.{
  ContentPrisma, Host, Tx, pure, throw, ◌>>=◌, ◌>>◌, now, fresh, tables, folder_access,
  plan_limit_exceeded, feature_not_available, workspace, subscription, folder, tag, find_first,
  find_many, find_least, find_or_throw, count_rows, update, update_unique, create, upsert,
  delete_tag,
}
use easy_clip_be.Content.Access.Defs.{
  Arithmetic, folder_has_id, live_in, owned_workspace, is_text, set_choice, workspace_has_id,
  assert_pro_feature, before_folder, lock_workspace_access, with_folder_access,
}

-- A folder, with the `isLocked` that some answers carry.
pub record FolderOutput : Type 0 where
  pub folder : Folder
  pub open folder use *
  pub is_locked : Option Bool

pub record FolderOrderParams : Type 0 where
  pub workspace_id : String
  pub reference_order : Double
  pub exclude_id : String

pub record CreateFolderParams : Type 0 where
  pub workspace_id : String
  pub name : String
  pub order : Double

pub record CreateFolderTagParams : Type 0 where
  pub folder_id : String
  pub name : String
  pub background_color : TagBackgroundColor

-- Columns that are left out stay as they are.
pub record UpdateFolderTagParams : Type 0 where
  pub name : Option String
  pub background_color : Option TagBackgroundColor

abbrev pub is_locked : FolderAccess → String → Bool
is_locked access folder_id =
    is_free access.effective_plan && not (is_text access.accessible_folder_id folder_id)

abbrev pub with_lock : FolderAccess → Folder → FolderOutput
with_lock access f = record { folder = f; is_locked = some (is_locked access f.id) }

abbrev pub plain : Folder → FolderOutput
plain f = record { folder = f; is_locked = none }

abbrev pub order_of : Option Folder → Option Double
order_of none = none
order_of (some f) = some f.order

abbrev pub or_kept : {A : Type 0} → Option A → A → A
or_kept (some a) _ = a
or_kept none a = a

abbrev pub renamed_folder : ℕ → String → Folder → Folder
renamed_folder t name f = record f { name = name; updated_at = t }

abbrev pub moved_folder : ℕ → Double → Folder → Folder
moved_folder t order f = record f { order = order; updated_at = t }

abbrev pub trashed_folder : ℕ → ℕ → Folder → Folder
trashed_folder deleted_at t f = record f { deleted_at = some deleted_at; updated_at = t }

abbrev pub updated_tag : UpdateFolderTagParams → Tag → Tag
updated_tag params g = record g {
  name = or_kept params.name g.name;
  background_color = or_kept params.background_color g.background_color;
}

abbrev pub tag_has_id : String → Tag → Bool
tag_has_id id g = g.id === id

abbrev pub tag_before : (String → String → Bool) → Tag → Tag → Bool
tag_before collate a b = collate a.name b.name || (a.name === b.name && collate a.id b.id)

module _ ⦃prisma : ContentPrisma⦄ ⦃host : Host⦄ where
  unfoldable pub find_personal_workspace_id : String → Tx (Option String)
  find_personal_workspace_id user_id = do
    found ← find_first workspace (owned_by user_id)
    elim found [ none ↦ pure none | some w ↦ pure (some w.id) ]

  unfoldable pub get_or_create_personal_workspace_id : String → Tx String
  unfolding find_personal_workspace_id
  get_or_create_personal_workspace_id user_id = do
    existing ← find_personal_workspace_id user_id
    elim (is_missing existing) [
      | false ↦ elim existing [ some id ↦ pure id | none ↦ pure "" ]
      | true ↦ do
        d ← fresh
        w ← upsert workspace (owned_by user_id) (λ w. w) (personal_workspace d user_id)
        e ← fresh
        upsert subscription (in_workspace w.id) (λ s. s) (free_subscription e w.id)
        pure w.id
    ]

  unfoldable pub find_folder_by_id : String → Tx (Option Folder)
  find_folder_by_id folder_id = find_first folder (folder_has_id folder_id)

  unfoldable pub find_folder_by_id_in_workspace : String → String → Tx (Option Folder)
  find_folder_by_id_in_workspace folder_id workspace_id =
      find_first folder (λ f. f.id === folder_id && live_in workspace_id f)

module _ ⦃prisma : ContentPrisma⦄ ⦃host : Host⦄ ⦃arithmetic : Arithmetic⦄ where
  -- `take` is not given; every row counts.
  unfoldable pub find_folders_by_workspace_id : String → Tx (List FolderOutput)
  find_folders_by_workspace_id workspace_id = do
    access ← lock_workspace_access workspace_id
    n ← count_rows folder (live_in workspace_id)
    folders ← find_many folder (live_in workspace_id) (before_folder arithmetic.lt prisma.collate) n
    pure (map (with_lock access) folders)

  unfoldable pub find_personal_folder_by_id : String → String → Bool → Tx (Option FolderOutput)
  unfolding with_folder_access
  find_personal_folder_by_id user_id folder_id allow_locked = do
    db ← tables
    found ← find_first folder (λ f.
        f.id === folder_id && is_null f.deleted_at && owned_workspace db user_id f.workspace_id)
    elim found [
      | none ↦ pure none
      | some _ ↦ with_folder_access folder_id allow_locked λ access. do
        f ← find_or_throw folder (folder_has_id folder_id)
        pure (some (with_lock access f))
    ]

  unfoldable pub assert_tag_management_available : String → Tx (Unit {0})
  unfolding with_folder_access
  assert_tag_management_available folder_id =
      with_folder_access folder_id false λ access. assert_pro_feature access.effective_plan

  unfoldable pub find_tags_by_folder_id : String → Tx (List Tag)
  unfolding with_folder_access
  find_tags_by_folder_id folder_id = with_folder_access folder_id false λ access. do
    assert_pro_feature access.effective_plan
    n ← count_rows tag (λ g. g.folder_id === folder_id)
    find_many tag (λ g. g.folder_id === folder_id) (tag_before prisma.collate) n

  unfoldable pub find_tag_by_id_in_folder : String → String → Tx (Option Tag)
  unfolding with_folder_access
  find_tag_by_id_in_folder folder_id tag_id =
      with_folder_access folder_id false
        λ _. find_first tag (λ g. g.id === tag_id && g.folder_id === folder_id)

  unfoldable pub find_tag_by_name_in_folder : String → String → Tx (Option Tag)
  unfolding with_folder_access
  find_tag_by_name_in_folder folder_id name =
      with_folder_access folder_id false
        λ _. find_first tag (λ g. g.folder_id === folder_id && g.name === name)

  unfoldable pub find_last_folder_order : String → Tx (Option Double)
  find_last_folder_order workspace_id = do
    last ← find_least folder (live_in workspace_id) (λ a b. arithmetic.lt b.order a.order)
    pure (order_of last)

  -- Without a paid plan one folder, which becomes the chosen one.
  unfoldable pub create_folder : CreateFolderParams → Tx FolderOutput
  create_folder params = do
    access ← lock_workspace_access params.workspace_id
    count ← count_rows folder (live_in params.workspace_id)
    if is_free access.effective_plan
          && (ltb 0 count || not (is_missing access.accessible_folder_id))
        then throw (folder_access plan_limit_exceeded)
        else do
          d ← fresh
          f ← create folder (record {
            id = d.id;
            name = params.name;
            order = params.order;
            workspace_id = params.workspace_id;
            created_at = d.now;
            updated_at = d.now;
            deleted_at = none;
          })
          let answer : FolderOutput = record { folder = f; is_locked = some false }
          if not (is_free access.effective_plan) then pure answer else do
            update workspace (workspace_has_id params.workspace_id) (set_choice f.id)
            pure answer

  unfoldable pub create_folder_tag : CreateFolderTagParams → Tx Tag
  unfolding with_folder_access
  create_folder_tag params = with_folder_access params.folder_id false λ access. do
    assert_pro_feature access.effective_plan
    d ← fresh
    create tag (record {
      id = d.id;
      name = params.name;
      background_color = params.background_color;
      folder_id = params.folder_id;
    })

  unfoldable pub update_folder_name : String → String → Tx Folder
  unfolding with_folder_access
  update_folder_name folder_id name =
      with_folder_access folder_id false
        λ _. do t ← now; update folder (folder_has_id folder_id) (renamed_folder t name)

  unfoldable pub update_folder_tag : String → UpdateFolderTagParams → Tx Tag
  unfolding with_folder_access
  update_folder_tag tag_id params = do
    g ← find_or_throw tag (tag_has_id tag_id)
    with_folder_access g.folder_id false λ access. do
      assert_pro_feature access.effective_plan
      update_unique tag (tag_has_id tag_id) (updated_tag params)

  unfoldable pub update_folder_order : String → Double → Tx Folder
  unfolding with_folder_access
  update_folder_order folder_id order = with_folder_access folder_id false λ access.
      if is_free access.effective_plan
      then throw (folder_access feature_not_available)
      else do t ← now; update folder (folder_has_id folder_id) (moved_folder t order)

  unfoldable pub delete_folder_tag : String → Tx (Unit {0})
  unfolding with_folder_access
  delete_folder_tag tag_id = do
    g ← find_or_throw tag (tag_has_id tag_id)
    with_folder_access g.folder_id false
        λ access. do assert_pro_feature access.effective_plan; delete_tag (tag_has_id tag_id)

  unfoldable pub soft_delete_folder : String → Tx Folder
  unfolding with_folder_access
  soft_delete_folder folder_id = with_folder_access folder_id true λ _. do
    deleted_at ← now
    t ← now
    update folder (folder_has_id folder_id) (trashed_folder deleted_at t)

  unfoldable pub find_previous_folder_order : FolderOrderParams → Tx (Option Double)
  find_previous_folder_order params = do
    previous ←
        find_least folder
          (λ f.
            live_in params.workspace_id f
            && arithmetic.lt f.order params.reference_order
            && not (f.id === params.exclude_id))
          (λ a b. arithmetic.lt b.order a.order)
    pure (order_of previous)

  unfoldable pub find_next_folder_order : FolderOrderParams → Tx (Option Double)
  find_next_folder_order params = do
    next ←
        find_least folder
          (λ f.
            live_in params.workspace_id f
            && arithmetic.lt params.reference_order f.order
            && not (f.id === params.exclude_id))
          (λ a b. arithmetic.lt a.order b.order)
    pure (order_of next)
