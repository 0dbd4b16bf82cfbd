-- ===== src/Content/Clips/Reads.antt =====
-- The operations of clips/infrastructure/prisma-clips.repository.ts that read: each under the lock
-- of the user's subscription, with what the plan of that moment allows.
use easy_clip_be.Common.{
  ℕ, ◌+◌, String, Bool, true, false, ◌||◌, ◌&&◌, not, Option, none, some, List, [], ◌∷◌, map, ◌===◌,
  ◌==◌, ltb, codes, trim, elem, length, is_missing, if◌then◌else◌,
}
use easy_clip_be.Subscriptions.Types.{free, is_free}
use easy_clip_be.Subscriptions.App.{not_found}
use easy_clip_be.Subscriptions.Repository.Lifecycle.{owned_by}
use easy_clip_be.Content.Types.{
  Folder, Clip, ClipType, text, color, image, Tag, ClipTag, ClipLike, ClipView, FolderAccess,
  is_null,
}
use easy_clip_be.Content.Store.{
  ContentDb, ContentPrisma, Host, Tx, pure, throw, ◌>>=◌, ◌>>◌, tables, any, application, workspace,
  folder, clip, clip_like, clip_view, find_first, find_many, find_after, find_all,
}
use easy_clip_be.Content.Access.Defs.{
  Arithmetic, is_text, text_or_empty, in_live_folder, live_in, owned_workspace, lock_clip_quota,
  lock_workspace_access, assert_folder_access, assert_pro_feature,
}

pub data ClipSearchTarget : Type 0 where
  title_target tag_target : ClipSearchTarget

-- `Omit<FindClipsParams, 'cursor' | 'limit'>`
pub record ClipQuery : Type 0 where
  pub user_id : String
  pub folder_id : Option String
  pub workspace_id : Option String
  pub type : Option ClipType
  pub q : Option String
  pub search_target : Option ClipSearchTarget
  pub liked_only : Bool

pub record FindClipsParams : Type 0 where
  pub query : ClipQuery
  pub open query use *
  pub cursor : Option String
  pub limit : ℕ

pub record ClipListItem : Type 0 where
  pub clip : Clip
  pub open clip use *
  pub tags : List Tag
  pub like_by_me : Bool

pub record RecentClipItem : Type 0 where
  pub view_id : String
  pub item : ClipListItem

abbrev pub same_type : ClipType → ClipType → Bool
same_type text text = true
same_type color color = true
same_type image image = true
same_type _ _ = false

-- A filter that is left out passes everything; so does an empty text.
abbrev pub unless_missing : Option String → (String → Bool) → Bool
unless_missing o w = is_missing o || w (text_or_empty o)

abbrev pub type_passes : Option ClipType → ClipType → Bool
type_passes none t = true
type_passes (some u) t = same_type u t

-- `params.q?.trim()`
abbrev pub search_text : Option String → List ℕ
search_text q = trim (codes (text_or_empty q))

abbrev pub is_blank : Option String → Bool
is_blank q = length (search_text q) == 0

-- `folderId: { in: accessibleFolderId ? [accessibleFolderId] : [] }` without a paid plan.
abbrev pub reaches : FolderAccess → String → Bool
reaches access folder_id =
    not (is_free access.effective_plan)
    || (not (is_missing access.accessible_folder_id)
        && is_text access.accessible_folder_id folder_id)

abbrev pub with_target : ClipSearchTarget → ClipQuery → ClipQuery
with_target target query = record query { search_target = some target }

abbrev pub query_of_user : String → ClipQuery
query_of_user user_id = record {
  user_id = user_id;
  folder_id = none;
  workspace_id = none;
  type = none;
  q = none;
  search_target = none;
  liked_only = false;
}

-- A tag of the clip of which the test holds.
abbrev pub has_tag : ContentDb → Clip → (Tag → Bool) → Bool
has_tag db c w =
    any (λ (r : ClipTag). r.clip_id === c.id && any (λ (g : Tag). g.id === r.tag_id && w g) db.tags)
      db.clip_tags

module _ ⦃prisma : ContentPrisma⦄ where
  abbrev pub search_passes : Option String → Option ClipSearchTarget → ContentDb → Clip → Bool
  search_passes q none db c = true
  search_passes q (some title_target) db c = is_blank q || prisma.contains c.title (search_text q)
  search_passes q (some tag_target) db c =
      is_blank q || has_tag db c (λ g. prisma.contains g.name (search_text q))

  -- The filter of `buildWhere`, once the plan allows the search.
  unfoldable pub passes : ClipQuery → FolderAccess → ContentDb → Clip → Bool
  passes query access db c =
      is_null c.deleted_at
      && c.workspace_id === access.workspace_id
      && owned_workspace db query.user_id c.workspace_id
      && in_live_folder db c
      && unless_missing query.folder_id (λ id. c.folder_id === id)
      && unless_missing query.workspace_id (λ id. c.workspace_id === id)
      && reaches access c.folder_id
      && type_passes query.type c.type
      && search_passes query.q query.search_target db c
      && (not query.liked_only
          || any (λ (l : ClipLike). l.clip_id === c.id && l.user_id === query.user_id) db.likes)

  unfoldable pub build_where : ClipQuery → FolderAccess → Tx (Clip → Bool)
  unfolding passes assert_pro_feature
  build_where query access = do
    if is_blank query.q then pure tt else assert_pro_feature access.effective_plan
    db ← tables
    pure (passes query access db)

  -- The views of the user of a clip that passes.
  abbrev pub view_passes : ContentDb → String → (Clip → Bool) → ClipView → Bool
  view_passes db user_id w v =
      v.user_id === user_id && any (λ (c : Clip). c.id === v.clip_id && w c) db.clips

  abbrev pub target_of : {R : Type 0} → Option R → ClipSearchTarget
  target_of (some _) = title_target
  target_of none = tag_target

  abbrev pub clip_newer : Clip → Clip → Bool
  clip_newer a b =
      ltb b.updated_at a.updated_at || (a.updated_at == b.updated_at && prisma.collate b.id a.id)

  abbrev pub view_newer : ClipView → ClipView → Bool
  view_newer a b =
      ltb b.viewed_at a.viewed_at || (a.viewed_at == b.viewed_at && prisma.collate b.id a.id)

  abbrev pub view_of_newer_clip : ClipView → ClipView → Bool
  view_of_newer_clip a b =
      ltb b.viewed_at a.viewed_at
      || (a.viewed_at == b.viewed_at && prisma.collate b.clip_id a.clip_id)

  abbrev pub tags_of : List ClipTag → List Tag → List Tag
  tags_of [] tags = []
  tags_of (r ∷ rs) tags =
      let rest = tags_of rs tags in
      elim (prisma.tag.find_first (λ g. g.id === r.tag_id) tags) [ none ↦ rest | some g ↦ g ∷ rest ]

  -- `clipIncludes`, and the item made of it.
  abbrev pub list_item : ContentDb → String → Clip → ClipListItem
  list_item db user_id c = record {
    clip = c;
    tags = tags_of (prisma.clip_tag.find_all (λ r. r.clip_id === c.id) db.clip_tags) db.tags;
    like_by_me = any (λ (l : ClipLike). l.clip_id === c.id && l.user_id === user_id) db.likes;
  }

  abbrev pub recent_items : ContentDb → String → List ClipView → List RecentClipItem
  recent_items db user_id [] = []
  recent_items db user_id (v ∷ vs) =
      let rest = recent_items db user_id vs in
      elim (prisma.clip.find_first (λ c. c.id === v.clip_id) db.clips) [
        | none ↦ rest
        | some c ↦ record { view_id = v.id; item = list_item db user_id c } ∷ rest
      ]

module _ ⦃prisma : ContentPrisma⦄ ⦃host : Host⦄ ⦃arithmetic : Arithmetic⦄ where
  unfoldable pub with_read_access : {A : Type 0} → String → A → (FolderAccess → Tx A) → Tx A
  unfolding lock_workspace_access
  with_read_access user_id missing read = do
    found ← find_first workspace (owned_by user_id)
    elim found [
      | none ↦ pure missing
      | some w ↦ do access ← lock_workspace_access w.id; read access
    ]

  unfoldable pub assert_search_available : String → Tx (Unit {0})
  unfolding with_read_access assert_pro_feature
  assert_search_available user_id = do
    available ←
        with_read_access user_id false
          λ access. do assert_pro_feature access.effective_plan; pure true
    if available then pure tt else assert_pro_feature free

  unfoldable pub find_personal_folder_by_id : String → String → Tx (Option Folder)
  unfolding with_read_access assert_folder_access
  find_personal_folder_by_id user_id folder_id = with_read_access user_id none λ access. do
    found ← find_first folder (λ f. f.id === folder_id && live_in access.workspace_id f)
    elim found [ none ↦ pure none | some f ↦ do assert_folder_access access f.id; pure (some f) ]

  unfoldable pub find_clip_by_id_for_user : String → String → Tx (Option Clip)
  unfolding with_read_access assert_folder_access
  find_clip_by_id_for_user user_id clip_id = with_read_access user_id none λ access. do
    db ← tables
    found ← find_first clip (λ c.
        c.id === clip_id
        && c.workspace_id === access.workspace_id
        && is_null c.deleted_at
        && in_live_folder db c)
    elim found [
      | none ↦ pure none
      | some c ↦ do assert_folder_access access c.folder_id; pure (some c)
    ]

  abbrev pub assert_folder_filter : FolderAccess → Option String → Tx (Unit {0})
  assert_folder_filter access folder_id = if is_missing folder_id then pure tt else do
    found ←
        find_first folder (λ f. f.id === text_or_empty folder_id && live_in access.workspace_id f)
    elim found [ none ↦ throw (application not_found) | some f ↦ assert_folder_access access f.id ]

  -- The titles are searched, or the tags where no title matches.
  unfoldable pub resolve_search_target :
      FolderAccess → ClipQuery → Bool → Tx (Option ClipSearchTarget)
  unfolding build_where
  resolve_search_target access query recent = if is_blank query.q then pure none else do
    w ← build_where (with_target title_target query) access
    db ← tables
    elim recent [
      | true ↦ do
        view ← find_first clip_view (view_passes db query.user_id w)
        pure (some (target_of view))
      | false ↦ do found ← find_first clip w; pure (some (target_of found))
    ]

  abbrev pub assert_cursor : {R : Type 0} → Option String → Tx (Option R) → Tx (Unit {0})
  assert_cursor cursor found =
      if is_missing cursor
      then pure tt
      else do r ← found; elim r [ none ↦ throw (application not_found) | some _ ↦ pure tt ]

  unfoldable pub find_clips : FindClipsParams → Tx (List ClipListItem)
  unfolding with_read_access resolve_search_target build_where
  find_clips params = with_read_access params.user_id [] λ access. do
    assert_folder_filter access params.folder_id
    target ← resolve_search_target access params.query false
    w ← build_where (record (params.query) { search_target = target }) access
    assert_cursor params.cursor (find_first clip (λ c. w c && c.id === text_or_empty params.cursor))
    clips ←
        if is_missing params.cursor
        then find_many clip w clip_newer (params.limit + 1)
        else find_after clip w clip_newer (λ c. c.id === text_or_empty params.cursor)
            (params.limit + 1)
    db ← tables
    pure (map (list_item db params.user_id) clips)

  unfoldable pub find_recent_clips : FindClipsParams → Tx (List RecentClipItem)
  unfolding with_read_access resolve_search_target build_where
  find_recent_clips params = with_read_access params.user_id [] λ access. do
    target ← resolve_search_target access params.query true
    w ← build_where (record (params.query) { search_target = target }) access
    db ← tables
    assert_cursor params.cursor (
        find_first clip_view
          (λ v. view_passes db params.user_id w v && v.id === text_or_empty params.cursor))
    views ←
        if is_missing params.cursor
        then find_many clip_view (view_passes db params.user_id w) view_newer (params.limit + 1)
        else find_after clip_view (view_passes db params.user_id w) view_newer
            (λ v. v.id === text_or_empty params.cursor) (params.limit + 1)
    pure (recent_items db params.user_id views)

  unfoldable pub find_recent_viewed_clip_ids : String → ℕ → Tx (List String)
  unfolding with_read_access build_where
  find_recent_viewed_clip_ids user_id limit = with_read_access user_id [] λ access. do
    w ← build_where (query_of_user user_id) access
    db ← tables
    views ← find_many clip_view (view_passes db user_id w) view_of_newer_clip limit
    pure (map (λ (v : ClipView). v.clip_id) views)

  unfoldable pub find_clips_by_ids_for_user : String → List String → Tx (List ClipListItem)
  unfolding with_read_access build_where
  find_clips_by_ids_for_user user_id ids =
      if length ids == 0
      then pure []
      else with_read_access user_id [] λ access. do
        w ← build_where (query_of_user user_id) access
        clips ← find_all clip (λ c. w c && elem ◌===◌ c.id ids)
        db ← tables
        pure (map (list_item db user_id) clips)

  -- Whether a clip that passes is there, under a further test.
  abbrev pub exists_clip : ClipQuery → (Clip → Bool) → Tx Bool
  exists_clip query also = with_read_access query.user_id false λ access. do
    w ← build_where query access
    found ← find_first clip (λ c. w c && also c)
    pure (not (is_null found))

  abbrev pub exists_view : ClipQuery → (ClipView → Bool) → Tx Bool
  exists_view query also = with_read_access query.user_id false λ access. do
    w ← build_where query access
    db ← tables
    found ← find_first clip_view (λ v. view_passes db query.user_id w v && also v)
    pure (not (is_null found))

  unfoldable pub has_title_matches : ClipQuery → Tx Bool
  unfolding with_read_access build_where
  has_title_matches query = exists_clip (with_target title_target query) (λ _. true)

  unfoldable pub has_recent_title_matches : ClipQuery → Tx Bool
  unfolding with_read_access build_where
  has_recent_title_matches query = exists_view (with_target title_target query) (λ _. true)

  unfoldable pub is_clip_matching_query : ClipQuery → String → Tx Bool
  unfolding with_read_access build_where
  is_clip_matching_query query clip_id = exists_clip query (λ c. c.id === clip_id)

  unfoldable pub is_recent_cursor_matching_query : ClipQuery → String → Tx Bool
  unfolding with_read_access build_where
  is_recent_cursor_matching_query query view_id = exists_view query (λ v. v.id === view_id)

  unfoldable pub is_clip_liked_by_user : String → String → Tx Bool
  unfolding with_read_access build_where
  is_clip_liked_by_user user_id clip_id = with_read_access user_id false λ access. do
    w ← build_where (query_of_user user_id) access
    db ← tables
    found ← find_first clip_like (λ l.
        l.user_id === user_id
        && l.clip_id === clip_id
        && any (λ (c : Clip). c.id === l.clip_id && w c) db.clips)
    pure (not (is_null found))

  unfoldable pub is_created_image_referenced : String → String → Tx Bool
  is_created_image_referenced user_id image_url = do
    workspace_id ← lock_clip_quota user_id
    found ← find_first clip (λ c. c.workspace_id === workspace_id && is_text c.image_url image_url)
    pure (not (is_null found))

  unfoldable pub is_clip_image_referenced : String → String → Tx Bool
  is_clip_image_referenced clip_id image_url = do
    found ← find_first clip (λ c. c.id === clip_id)
    elim found [ none ↦ pure false | some c ↦ pure (is_text c.image_url image_url) ]
