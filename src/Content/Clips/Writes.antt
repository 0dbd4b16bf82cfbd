-- ===== src/Content/Clips/Writes.antt =====
-- The operations of clips/infrastructure/prisma-clips.repository.ts that write. Prisma sets
-- `updatedAt` at each update.
use easy_clip_be.Common.{
  ℕ, String, Bool, ◌&&◌, not, Option, none, some, List, [], ◌∷◌, ◌===◌, ◌==◌, elem, length,
  if◌then◌else◌,
}
use easy_clip_be.Subscriptions.App.{not_found}
use easy_clip_be.Subscriptions.Repository.Rows.{Defaults}
use easy_clip_be.Content.Types.{
  Clip, ClipType, Tag, gray, ClipLike, ClipView, FolderAccess, is_null,
}
use easy_clip_be.Content.Store.{
  ContentPrisma, Host, Tx, pure, throw, ◌>>=◌, ◌>>◌, now, fresh, tables, application, folder, clip,
  tag, clip_tag, clip_like, clip_view, find_first, find_all, count_rows, update, update_many,
  create, upsert, create_or_skip, delete_many,
}
use easy_clip_be.Content.Access.Defs.{
  Arithmetic, clip_has_id, in_live_folder, live_in, unique, assert_clip_increase,
  assert_folder_access, assert_pro_feature, lock_clip_quota, resolve_folder_access,
  with_clip_access,
}

pub record CreateClipParams : Type 0 where
  pub type : ClipType
  pub title : String
  pub folder_id : String
  pub workspace_id : String
  pub text_content : Option String
  pub color_hex : Option String
  pub image_url : Option String

-- A new content, or a new title alone.
pub data UpdateClipParams : Type 0 where
  content :
      (type : ClipType) (title : String) (text_content color_hex image_url : Option String)
      → UpdateClipParams
  title_only : String → UpdateClipParams

pub record UpdatedClip : Type 0 where
  pub clip : Clip
  pub previous_image_url : Option String

abbrev pub new_clip : Defaults → CreateClipParams → Clip
new_clip d p = record {
  id = d.id;
  type = p.type;
  title = p.title;
  text_content = p.text_content;
  color_hex = p.color_hex;
  image_url = p.image_url;
  workspace_id = p.workspace_id;
  folder_id = p.folder_id;
  created_at = d.now;
  updated_at = d.now;
  deleted_at = none;
}

abbrev pub updated_clip : UpdateClipParams → ℕ → Clip → Clip
updated_clip (content type title text_content color_hex image_url) t c = record c {
  type = type;
  title = title;
  text_content = text_content;
  color_hex = color_hex;
  image_url = image_url;
  updated_at = t;
}
updated_clip (title_only title) t c = record c { title = title; updated_at = t }

abbrev pub trashed_clip : ℕ → ℕ → Clip → Clip
trashed_clip deleted_at t c = record c { deleted_at = some deleted_at; updated_at = t }

-- `where: { folderId, deletedAt: null }`
abbrev pub live_clip_in : String → Clip → Bool
live_clip_in folder_id c = c.folder_id === folder_id && is_null c.deleted_at

-- `id: { in: ids }, workspaceId`
abbrev pub owned_among : List String → String → Clip → Bool
owned_among ids workspace_id c = elem ◌===◌ c.id ids && c.workspace_id === workspace_id

abbrev pub liked_by : String → String → ClipLike → Bool
liked_by user_id clip_id l = l.user_id === user_id && l.clip_id === clip_id

abbrev pub viewed_by : String → String → ClipView → Bool
viewed_by user_id clip_id v = v.user_id === user_id && v.clip_id === clip_id

module _ ⦃prisma : ContentPrisma⦄ ⦃host : Host⦄ ⦃arithmetic : Arithmetic⦄ where
  -- A new clip in a folder, under the limit that the access carries.
  unfoldable pub add_clip : FolderAccess → String → CreateClipParams → Tx Clip
  unfolding assert_folder_access assert_clip_increase
  add_clip access folder_id params = do
    assert_folder_access access folder_id
    current ← count_rows clip (live_clip_in folder_id)
    assert_clip_increase access.entitlements folder_id current 1
    d ← fresh
    create clip (new_clip d (record params { folder_id = folder_id }))

  unfoldable pub add_clip_within : String → String → CreateClipParams → Tx Clip
  unfolding resolve_folder_access add_clip
  add_clip_within workspace_id folder_id params = do
    access ← resolve_folder_access workspace_id
    add_clip access folder_id params

  unfoldable pub create_clip : String → CreateClipParams → Tx Clip
  unfolding lock_clip_quota add_clip_within
  create_clip user_id params = do
    workspace_id ← lock_clip_quota user_id
    found ← find_first folder (λ f. f.id === params.folder_id && live_in workspace_id f)
    elim found [
      | none ↦ throw (application not_found)
      | some f ↦
          if not (params.workspace_id === workspace_id)
          then throw (application not_found)
          else add_clip_within workspace_id f.id (record params { workspace_id = workspace_id })
    ]

  unfoldable pub update_clip : String → String → UpdateClipParams → Tx UpdatedClip
  update_clip user_id clip_id params = with_clip_access clip_id (some user_id) λ access previous. do
    t ← now
    c ← update clip (clip_has_id clip_id) (updated_clip params t)
    pure (record { clip = c; previous_image_url = previous.image_url })

  -- The tags of the names, made where the folder has none of the name.
  abbrev pub upsert_tags : String → List String → Tx (List Tag)
  upsert_tags folder_id [] = pure []
  upsert_tags folder_id (name ∷ names) = do
    d ← fresh
    one ←
        upsert tag (λ g. g.folder_id === folder_id && g.name === name) (λ g. g)
          (record { id = d.id; name = name; background_color = gray; folder_id = folder_id })
    rest ← upsert_tags folder_id names
    pure (one ∷ rest)

  -- `createMany`: a pair that stands there already fails the transaction.
  abbrev pub attach_tags : String → List Tag → Tx (Unit {0})
  attach_tags clip_id [] = pure tt
  attach_tags clip_id (g ∷ gs) = do
    create clip_tag (record { clip_id = clip_id; tag_id = g.id })
    attach_tags clip_id gs

  unfoldable pub replace_clip_tags : String → String → List String → Tx (List Tag)
  replace_clip_tags clip_id user_id tag_names = with_clip_access clip_id (some user_id) λ access c.
      do
        assert_pro_feature access.effective_plan
        tags ← upsert_tags c.folder_id tag_names
        delete_many clip_tag (λ r. r.clip_id === c.id)
        attach_tags c.id tags
        pure tags

  unfoldable pub create_clip_view : String → String → Tx (Unit {0})
  create_clip_view user_id clip_id = with_clip_access clip_id (some user_id) λ access c. do
    d ← fresh
    t ← now
    upsert clip_view (viewed_by user_id clip_id) (λ v. record v { viewed_at = t })
        (record { id = d.id; user_id = user_id; clip_id = clip_id; viewed_at = t })
    pure tt

  unfoldable pub create_clip_like : String → String → Tx (Unit {0})
  create_clip_like user_id clip_id = with_clip_access clip_id (some user_id) λ access c. do
    d ← fresh
    create_or_skip clip_like
        (record { id = d.id; user_id = user_id; clip_id = clip_id; created_at = d.now })

  unfoldable pub delete_clip_like : String → String → Tx (Unit {0})
  delete_clip_like user_id clip_id =
      with_clip_access clip_id (some user_id)
        λ access c. do delete_many clip_like (liked_by user_id clip_id); pure tt

  unfoldable pub soft_delete_clip : String → String → Tx Clip
  soft_delete_clip user_id clip_id = with_clip_access clip_id (some user_id) λ access c. do
    deleted_at ← now
    t ← now
    update clip (clip_has_id clip_id) (trashed_clip deleted_at t)

  abbrev pub assert_all_access : FolderAccess → List Clip → Tx (Unit {0})
  assert_all_access access [] = pure tt
  assert_all_access access (c ∷ cs) = do
    assert_folder_access access c.folder_id
    assert_all_access access cs

  unfoldable pub trash_clips : String → List String → List Clip → Tx ℕ
  unfolding resolve_folder_access
  trash_clips workspace_id ids clips = do
    access ← resolve_folder_access workspace_id
    assert_all_access access clips
    deleted_at ← now
    t ← now
    update_many clip (owned_among ids workspace_id) (trashed_clip deleted_at t)

  -- Every clip of the request has to be there, and live.
  unfoldable pub trash_owned : String → List String → Tx ℕ
  unfolding trash_clips
  trash_owned workspace_id ids = do
    candidates ← find_all clip (owned_among ids workspace_id)
    if not (length candidates == length ids) then throw (application not_found) else do
      db ← tables
      clips ←
          find_all clip
            (λ c. owned_among ids workspace_id c && is_null c.deleted_at && in_live_folder db c)
      if not (length clips == length ids)
          then throw (application not_found)
          else trash_clips workspace_id ids clips

  unfoldable pub trash_requested : String → List String → Tx ℕ
  unfolding lock_clip_quota trash_owned
  trash_requested user_id clip_ids = do
    workspace_id ← lock_clip_quota user_id
    trash_owned workspace_id (unique clip_ids)

  unfoldable pub soft_delete_clips : String → List String → Tx ℕ
  unfolding trash_requested
  soft_delete_clips user_id clip_ids =
      if length clip_ids == 0 then pure 0 else trash_requested user_id clip_ids

  abbrev pub live_clip_owned : String → String → Clip → Bool
  live_clip_owned workspace_id folder_id c =
      live_clip_in folder_id c && c.workspace_id === workspace_id

  unfoldable pub trash_live : String → String → Tx ℕ
  trash_live workspace_id folder_id = do
    candidates ← find_all clip (live_clip_in folder_id)
    if length candidates == 0 then pure 0 else do
      deleted_at ← now
      t ← now
      update_many clip (live_clip_owned workspace_id folder_id) (trashed_clip deleted_at t)

  unfoldable pub trash_folder : String → String → Tx ℕ
  unfolding resolve_folder_access assert_folder_access trash_live
  trash_folder workspace_id folder_id = do
    access ← resolve_folder_access workspace_id
    assert_folder_access access folder_id
    trash_live workspace_id folder_id

  unfoldable pub soft_delete_all_clips_in_folder : String → String → Tx ℕ
  unfolding lock_clip_quota trash_folder
  soft_delete_all_clips_in_folder user_id folder_id = do
    workspace_id ← lock_clip_quota user_id
    candidate ← find_first folder (λ f. f.id === folder_id && f.workspace_id === workspace_id)
    elim candidate [
      | none ↦ throw (application not_found)
      | some _ ↦ do
        found ← find_first folder (λ f. f.id === folder_id && live_in workspace_id f)
        elim found [
          | none ↦ throw (application not_found)
          | some _ ↦ trash_folder workspace_id folder_id
        ]
    ]
