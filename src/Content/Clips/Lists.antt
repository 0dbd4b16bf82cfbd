-- ===== src/Content/Clips/Lists.antt =====
-- clips/application/usecases/list-*.ts: the lists of clips, a page at a time.
use easy_clip_be.Common.{
  ℕ, ◌-◌, String, Bool, true, false, ◌||◌, ◌&&◌, not, Option, none, some, List, [], ◌∷◌, map, ◌===◌,
  ◌==◌, codes, ltb, length, take, is_missing, is_empty, if◌then◌else◌,
}
use easy_clip_be.Subscriptions.App.{not_found}
use easy_clip_be.Content.Types.{ClipType, is_null}
use easy_clip_be.Content.Store.{
  ContentPrisma, Host, Fault, folder_access, project_locked, feature_not_available, application,
}
use easy_clip_be.Subscriptions.App.{forbidden}
use easy_clip_be.Content.App.{App, fail, return_, refuse, rescue, ◌>>=◌, ◌>>◌, Outside, run}
use easy_clip_be.Content.Access.Defs.{Arithmetic, text_or_empty}
use easy_clip_be.Content.Folders.Names.{trimmed}
use easy_clip_be.Content.Clips.UseCases.{or_missing}
use easy_clip_be.Content.Trash.Pages.{last_of, cursor_at}
use easy_clip_be.Content.Clips.Reads.{
  ClipSearchTarget, title_target, tag_target, ClipQuery, FindClipsParams, ClipListItem,
  RecentClipItem, unless_missing, type_passes, assert_search_available, find_personal_folder_by_id,
  find_clip_by_id_for_user, find_clips, find_recent_clips, find_recent_viewed_clip_ids,
  find_clips_by_ids_for_user, has_title_matches, has_recent_title_matches, is_clip_matching_query,
  is_recent_cursor_matching_query, is_clip_liked_by_user,
}

pub record ClipCursorPage (T : Type 0) : Type 0 where
  pub items : List T
  pub has_more : Bool
  pub next_cursor : Option String

-- `ClipTypeFilter`
pub data ClipTypeFilter : Type 0 where
  all : ClipTypeFilter
  only : ClipType → ClipTypeFilter

abbrev pub list_clips_limit : ℕ
list_clips_limit = 20

abbrev pub recent_viewed_clips_limit : ℕ
recent_viewed_clips_limit = 50

-- `trimmed.toLowerCase() === 'null'`
abbrev pub is_letter : ℕ → ℕ → Bool
is_letter lower c = c == lower || c == lower - 32

abbrev pub spells_null : List ℕ → Bool
spells_null (n ∷ u ∷ l ∷ m ∷ []) =
    is_letter 110 n && is_letter 117 u && is_letter 108 l && is_letter 108 m
spells_null _ = false

unfoldable pub normalize_cursor : Option String → Option String
normalize_cursor raw =
    let text = trimmed (text_or_empty raw) in
    if is_empty text || spells_null (codes text) then none else some text

abbrev pub normalize_type : Option ClipTypeFilter → Option ClipType
normalize_type none = none
normalize_type (some all) = none
normalize_type (some (only t)) = some t

-- `input.q?.trim()`
abbrev pub query_text : Option String → Option String
query_text none = none
query_text (some q) = some (trimmed q)

unfoldable pub build_page : {T : Type 0} → (T → String) → List T → ℕ → ClipCursorPage T
build_page id_of items limit =
    if ltb limit (length items)
    then record {
      items = take limit items;
      has_more = true;
      next_cursor = cursor_at id_of (last_of (take limit items));
    }
    else record { items = items; has_more = false; next_cursor = none }

abbrev pub clip_query :
    String
    → Option String
    → Option String
    → Option ClipType
    → Option String
    → Option ClipSearchTarget
    → Bool
    → ClipQuery
clip_query user_id folder_id workspace_id type q target liked_only = record {
  user_id = user_id;
  folder_id = folder_id;
  workspace_id = workspace_id;
  type = type;
  q = q;
  search_target = target;
  liked_only = liked_only;
}

abbrev pub target_if : Bool → ClipSearchTarget
target_if true = title_target
target_if false = tag_target

-- `error.code === 'FORBIDDEN'`
abbrev pub is_forbidden : Fault → Bool
is_forbidden (folder_access project_locked) = true
is_forbidden (folder_access feature_not_available) = true
is_forbidden (application forbidden) = true
is_forbidden _ = false

-- The clips of the views, in the order of the views; of rows with one id, the last.
abbrev pub in_order : List String → List ClipListItem → List ClipListItem
in_order [] items = []
in_order (id ∷ ids) items =
    let rest = in_order ids items in elim (last_with id items) [ none ↦ rest | some c ↦ c ∷ rest ]
  where
    last_with : String → List ClipListItem → Option ClipListItem
    last_with id [] = none
    last_with id (c ∷ cs) = elim (last_with id cs) [
      | some d ↦ some d
      | none ↦ if c.id === id then some c else none
    ]

module _ ⦃prisma : ContentPrisma⦄ ⦃host : Host⦄ ⦃arithmetic : Arithmetic⦄ ⦃outside : Outside⦄ where
  abbrev pub resolve_target : ClipQuery → (ClipQuery → App Bool) → App (Option ClipSearchTarget)
  resolve_target query matches = if is_missing query.q then return_ none else do
    run (assert_search_available query.user_id)
    found ← matches query
    return_ (some (target_if found))

  unfoldable pub resolve_clip_search_target : ClipQuery → App (Option ClipSearchTarget)
  unfolding has_title_matches
  resolve_clip_search_target query = resolve_target query (λ q. run (has_title_matches q))

  unfoldable pub resolve_recent_clip_search_target : ClipQuery → App (Option ClipSearchTarget)
  unfolding has_recent_title_matches
  resolve_recent_clip_search_target query =
      resolve_target query (λ q. run (has_recent_title_matches q))

  abbrev pub require : Bool → App (Unit {0})
  require true = return_ tt
  require false = refuse not_found

  abbrev pub require_liked : ClipQuery → String → App (Unit {0})
  require_liked query cursor =
      if not query.liked_only
      then return_ tt
      else do liked ← run (is_clip_liked_by_user query.user_id cursor); require liked

  abbrev pub require_match : ClipQuery → String → App (Unit {0})
  require_match query cursor =
      if is_missing query.q || is_null query.search_target
      then return_ tt
      else do matches ← run (is_clip_matching_query query cursor); require matches

  unfoldable pub validate_clip_cursor : ClipQuery → Option String → App (Unit {0})
  unfolding find_clip_by_id_for_user
  validate_clip_cursor query cursor = if is_missing cursor then return_ tt else do
    found ←
        rescue (run (find_clip_by_id_for_user query.user_id (text_or_empty cursor)))
          λ e. if is_forbidden e then refuse not_found else fail e
    c ← or_missing found
    require (unless_missing query.folder_id (λ id. c.folder_id === id))
    require (type_passes query.type c.type)
    require_liked query (text_or_empty cursor)
    require_match query (text_or_empty cursor)

  abbrev pub page_of : FindClipsParams → App (ClipCursorPage ClipListItem)
  page_of params = do
    items ← run (find_clips params)
    return_ (build_page (λ (c : ClipListItem). c.id) items params.limit)

  unfoldable pub list_folder_clips :
      String
      → String
      → Option String
      → Option ClipTypeFilter
      → Option String
      → App (ClipCursorPage ClipListItem)
  unfolding normalize_cursor build_page find_personal_folder_by_id resolve_clip_search_target
      validate_clip_cursor
  list_folder_clips user_id folder_id cursor type q = do
    found ← run (find_personal_folder_by_id user_id folder_id)
    f ← or_missing found
    let query =
        clip_query user_id (some f.id) (some f.workspace_id) (normalize_type type) (query_text q)
          none false
    target ← resolve_clip_search_target query
    let targeted : ClipQuery = record query { search_target = target }
    validate_clip_cursor targeted (normalize_cursor cursor)
    page_of
        (record { query = targeted; cursor = normalize_cursor cursor; limit = list_clips_limit })

  unfoldable pub list_favorite_clips :
      String
      → Option String
      → Option ClipTypeFilter
      → Option String
      → App (ClipCursorPage ClipListItem)
  unfolding normalize_cursor build_page resolve_clip_search_target validate_clip_cursor
  list_favorite_clips user_id cursor type q = do
    let query = clip_query user_id none none (normalize_type type) (query_text q) none true
    target ← resolve_clip_search_target query
    let targeted : ClipQuery = record query { search_target = target }
    validate_clip_cursor targeted (normalize_cursor cursor)
    page_of
        (record { query = targeted; cursor = normalize_cursor cursor; limit = list_clips_limit })

  abbrev pub assert_cursor_matches : ClipQuery → Option String → App (Unit {0})
  assert_cursor_matches query cursor = if is_missing cursor then return_ tt else do
    matches ← run (
        is_recent_cursor_matching_query
          (record query { search_target = some (target_or query.search_target) })
          (text_or_empty cursor))
    require matches
    where
      target_or : Option ClipSearchTarget → ClipSearchTarget
      target_or none = title_target
      target_or (some t) = t

  unfoldable pub list_recent_clips :
      String
      → Option String
      → Option ClipTypeFilter
      → Option String
      → App (ClipCursorPage ClipListItem)
  unfolding normalize_cursor build_page find_recent_clips resolve_recent_clip_search_target
  list_recent_clips user_id cursor type q = do
    let query = clip_query user_id none none (normalize_type type) (query_text q) none false
    target ← resolve_recent_clip_search_target query
    let targeted : ClipQuery = record query { search_target = target }
    assert_cursor_matches targeted (normalize_cursor cursor)
    items ← run (
        find_recent_clips
          (record { query = targeted; cursor = normalize_cursor cursor; limit = list_clips_limit }))
    let page : ClipCursorPage RecentClipItem =
        build_page (λ (i : RecentClipItem). i.view_id) items list_clips_limit
    return_ (record {
      items = map (λ (i : RecentClipItem). i.item) page.items;
      has_more = page.has_more;
      next_cursor = page.next_cursor;
    })

  unfoldable pub list_recent_viewed_clips : String → App (List ClipListItem)
  unfolding find_recent_viewed_clip_ids find_clips_by_ids_for_user
  list_recent_viewed_clips user_id = do
    ids ← run (find_recent_viewed_clip_ids user_id recent_viewed_clips_limit)
    if length ids == 0
        then return_ []
        else do clips ← run (find_clips_by_ids_for_user user_id ids); return_ (in_order ids clips)
