-- ===== src/Content/Access/Defs.antt =====
-- shared/application/clip-limit.ts, shared/application/folder-access.ts and the transactions of
-- shared/infrastructure/prisma-folder-access.ts and prisma-clip-limit.ts: what a plan allows, and
-- which folder a user without one may open. A `SELECT ... FOR UPDATE` reads nothing.
use easy_clip_be.Common.{
  ℕ, ◌+◌, String, Bool, true, false, ◌||◌, ◌&&◌, not, Option, none, some, List, [], ◌∷◌, ◌===◌,
  ◌==◌, ltb, leb, elem, length, is_missing, if◌then◌else◌,
}
use easy_clip_be.Subscriptions.Types.{
  Subscription, SubscriptionPlan, free, pro, Workspace, is_pro, is_active, is_canceled, is_free,
}
use easy_clip_be.Subscriptions.App.{not_found}
use easy_clip_be.Subscriptions.Repository.Rows.{free_subscription, same_time}
use easy_clip_be.Subscriptions.Repository.Initial.{ends_after}
use easy_clip_be.Subscriptions.Repository.Lifecycle.{in_workspace, owned_by}
use easy_clip_be.Content.Types.{Double, Folder, Clip, ClipEntitlements, FolderAccess, is_null}
use easy_clip_be.Content.Store.{
  ContentDb, ContentPrisma, Host, Tx, pure, throw, ◌>>=◌, ◌>>◌, now, fresh, tables, any,
  application, folder_access, clip_limit, project_locked, plan_limit_exceeded,
  feature_not_available, workspace, subscription, folder, clip, find_first, find_many,
  find_or_throw, count_rows, update, create_or_skip,
}

abbrev pub resolve_clip_entitlements : Subscription → ℕ → ClipEntitlements
resolve_clip_entitlements s t =
    let paid =
      is_pro s.plan
      && (is_active s.status || is_canceled s.status)
      && ends_after s.current_period_end t in
    record { effective_plan = if paid then pro else free; limit = if paid then 300 else 50 }

unfoldable pub assert_clip_increase : ClipEntitlements → String → ℕ → ℕ → Tx (Unit {0})
assert_clip_increase e folder_id current_count requested_increase =
    if ltb 0 requested_increase && ltb e.limit (current_count + requested_increase)
    then throw (
        clip_limit (record {
          folder_id = folder_id;
          limit = e.limit;
          current_count = current_count;
          requested_increase = requested_increase;
          upgrade_can_resolve =
              is_free e.effective_plan && leb (current_count + requested_increase) 300;
        }))
    else pure tt

-- `optional === text`
abbrev pub is_text : Option String → String → Bool
is_text none k = false
is_text (some t) k = t === k

unfoldable pub assert_folder_access : FolderAccess → String → Tx (Unit {0})
assert_folder_access access folder_id =
    if is_free access.effective_plan && not (is_text access.accessible_folder_id folder_id)
    then throw (folder_access project_locked)
    else pure tt

unfoldable pub assert_pro_feature : SubscriptionPlan → Tx (Unit {0})
assert_pro_feature plan =
    if not (is_pro plan) then throw (folder_access feature_not_available) else pure tt

abbrev pub workspace_has_id : String → Workspace → Bool
workspace_has_id id w = w.id === id

abbrev pub folder_has_id : String → Folder → Bool
folder_has_id id f = f.id === id

abbrev pub clip_has_id : String → Clip → Bool
clip_has_id id c = c.id === id

abbrev pub live_in : String → Folder → Bool
live_in workspace_id f = f.workspace_id === workspace_id && is_null f.deleted_at

-- `folder: { deletedAt: null }`
abbrev pub in_live_folder : ContentDb → Clip → Bool
in_live_folder db c = any (λ (f : Folder). f.id === c.folder_id && is_null f.deleted_at) db.folders

-- `workspace: { ownerUserId }`
abbrev pub owned_workspace : ContentDb → String → String → Bool
owned_workspace db user_id workspace_id =
    any (λ (w : Workspace). w.id === workspace_id && w.owner_user_id === user_id) db.workspaces

abbrev pub access_of : ClipEntitlements → String → Option String → FolderAccess
access_of quota workspace_id id = record {
  entitlements = quota;
  workspace_id = workspace_id;
  accessible_folder_id = id;
}

-- The columns of the free choice: none under a paid plan, else kept for a period.
abbrev pub forget_choice : Workspace → Workspace
forget_choice w = record w { free_access_initialized = false; free_accessible_folder_id = none }

abbrev pub choose_folder : Option ℕ → Option String → Workspace → Workspace
choose_folder period_end id w = record w {
  free_access_initialized = true;
  free_access_period_end = period_end;
  free_accessible_folder_id = id;
}

abbrev pub set_choice : String → Workspace → Workspace
set_choice id w = record w { free_accessible_folder_id = some id }

abbrev pub first_id : List Folder → Option String
first_id [] = none
first_id (f ∷ _) = some f.id

abbrev pub selected_id : Option Folder → Option String
selected_id none = none
selected_id (some f) = some f.id

abbrev pub text_or_empty : Option String → String
text_or_empty none = ""
text_or_empty (some t) = t

-- `[...new Set(ids)]`, which keeps the first of each.
abbrev pub unique_into : List String → List String → List String
unique_into seen [] = []
unique_into seen (x ∷ xs) = elim (elem ◌===◌ x seen) [
  | true ↦ unique_into seen xs
  | false ↦ x ∷ unique_into (x ∷ seen) xs
]

abbrev pub unique : List String → List String
unique ids = unique_into [] ids

-- Doubles: the operations that the code applies to the orders of folders.
pub record Arithmetic : Type 0 where
  pub lt : Double → Double → Bool
  pub same : Double → Double → Bool
  -- A number is falsy where it is zero.
  pub is_zero : Double → Bool
  pub plus_one : Double → Double
  pub minus_one : Double → Double
  -- `(a + b) / 2`
  pub mean : Double → Double → Double

-- `orderBy: [{ order: 'asc' }, { id: 'asc' }]`
abbrev pub before_folder :
    (Double → Double → Bool) → (String → String → Bool) → Folder → Folder → Bool
before_folder lt collate a b = lt a.order b.order || (not (lt b.order a.order) && collate a.id b.id)

module _ ⦃prisma : ContentPrisma⦄ ⦃host : Host⦄ where
  -- A workspace without a subscription gets a free one.
  unfoldable pub ensure_subscription : String → Tx String
  ensure_subscription workspace_id = do
    d ← fresh
    current ← find_first subscription (in_workspace workspace_id)
    elim current [
      | some _ ↦ pure workspace_id
      | none ↦ do create_or_skip subscription (free_subscription d workspace_id); pure workspace_id
    ]

  -- The identifier of the user's workspace, whose subscription is there and locked from now on.
  unfoldable pub lock_clip_quota : String → Tx String
  unfolding ensure_subscription
  lock_clip_quota user_id = do
    found ← find_first workspace (owned_by user_id)
    elim found [ none ↦ throw (application not_found) | some w ↦ ensure_subscription w.id ]

  unfoldable pub read_clip_quota : String → Tx ClipEntitlements
  read_clip_quota workspace_id = do
    s ← find_or_throw subscription (in_workspace workspace_id)
    t ← now
    pure (resolve_clip_entitlements s t)

module _ ⦃prisma : ContentPrisma⦄ ⦃host : Host⦄ ⦃arithmetic : Arithmetic⦄ where
  -- Under a paid plan every folder is open, and the choice is forgotten.
  abbrev pub open_all : Workspace → Tx (Unit {0})
  open_all w =
      if not w.free_access_initialized
      then pure tt
      else do update workspace (workspace_has_id w.id) forget_choice; pure tt

  -- The folder that was chosen, if its row is still there.
  abbrev pub chosen_folder : Workspace → Tx (Option String)
  chosen_folder w = if is_missing w.free_accessible_folder_id then pure none else do
    selected ←
        find_first folder
          (λ f. f.id === text_or_empty w.free_accessible_folder_id && f.workspace_id === w.id)
    pure (selected_id selected)

  -- The first folder is chosen for the period.
  abbrev pub choose_first : Workspace → Option ℕ → Tx (Option String)
  choose_first w period_end = do
    live ← find_many folder (live_in w.id) (before_folder arithmetic.lt prisma.collate) 1
    update workspace (workspace_has_id w.id) (choose_folder period_end (first_id live))
    pure (first_id live)

  unfoldable pub resolve_folder_access : String → Tx FolderAccess
  unfolding read_clip_quota
  resolve_folder_access workspace_id = do
    quota ← read_clip_quota workspace_id
    w ← find_or_throw workspace (workspace_has_id workspace_id)
    s ← find_or_throw subscription (in_workspace workspace_id)
    elim (is_pro quota.effective_plan) [
      | true ↦ do open_all w; pure (access_of quota workspace_id none)
      | false ↦ do
        id ←
            (if w.free_access_initialized && same_time w.free_access_period_end s.current_period_end
              then chosen_folder w
              else choose_first w s.current_period_end)
        pure (access_of quota workspace_id id)
    ]

  unfoldable pub lock_workspace_access : String → Tx FolderAccess
  unfolding lock_clip_quota resolve_folder_access
  lock_workspace_access workspace_id = do
    found ← find_first workspace (workspace_has_id workspace_id)
    elim found [
      | none ↦ throw (application not_found)
      | some w ↦ do lock_clip_quota w.owner_user_id; resolve_folder_access workspace_id
    ]

  unfoldable pub with_folder_access : {A : Type 0} → String → Bool → (FolderAccess → Tx A) → Tx A
  unfolding lock_workspace_access
  with_folder_access folder_id allow_locked callback = do
    candidate ← find_first folder (folder_has_id folder_id)
    elim candidate [
      | none ↦ throw (application not_found)
      | some c ↦ do
        lock_workspace_access c.workspace_id
        found ← find_first folder (λ f. f.id === folder_id && is_null f.deleted_at)
        elim found [
          | none ↦ throw (application not_found)
          | some f ↦ do
            access ← resolve_folder_access f.workspace_id
            if allow_locked
                then callback access
                else do assert_folder_access access folder_id; callback access
        ]
    ]

  -- The clip, read again under the lock: it has to be live, in a live folder within reach.
  unfoldable pub with_live_clip : {A : Type 0} → String → (FolderAccess → Clip → Tx A) → Tx A
  unfolding resolve_folder_access assert_folder_access
  with_live_clip clip_id callback = do
    after ← tables
    found ←
        find_first clip (λ c. c.id === clip_id && is_null c.deleted_at && in_live_folder after c)
    elim found [
      | none ↦ throw (application not_found)
      | some c ↦ do
        access ← resolve_folder_access c.workspace_id
        assert_folder_access access c.folder_id
        callback access c
    ]

  unfoldable pub with_locked_clip :
      {A : Type 0} → String → String → (FolderAccess → Clip → Tx A) → Tx A
  unfolding lock_workspace_access with_live_clip
  with_locked_clip workspace_id clip_id callback = do
    lock_workspace_access workspace_id
    with_live_clip clip_id callback

  -- `userId` is left out where any user may be meant.
  unfoldable pub with_clip_access :
      {A : Type 0} → String → Option String → (FolderAccess → Clip → Tx A) → Tx A
  unfolding with_locked_clip
  with_clip_access clip_id user_id callback = do
    before ← tables
    candidate ← find_first clip (λ c.
        c.id === clip_id
        && (is_missing user_id || owned_workspace before (text_or_empty user_id) c.workspace_id))
    elim candidate [
      | none ↦ throw (application not_found)
      | some k ↦ with_locked_clip k.workspace_id clip_id callback
    ]

  -- Without a paid plan: the chosen folder comes back, or the first one where none is left.
  abbrev pub restore_one : FolderAccess → String → Tx FolderAccess
  restore_one access id = do
    w ← find_or_throw workspace (workspace_has_id access.workspace_id)
    let granted = record access { accessible_folder_id = some id }
    elim (is_missing w.free_accessible_folder_id) [
      | false ↦ do
        assert_folder_access (record access { accessible_folder_id = w.free_accessible_folder_id })
            id
        pure granted
      | true ↦ do
        live ← count_rows folder (live_in access.workspace_id)
        if not (live == 0) then throw (folder_access plan_limit_exceeded) else do
          update workspace (workspace_has_id access.workspace_id) (set_choice id)
          pure granted
    ]

  unfoldable pub prepare_folder_restore : FolderAccess → List String → Tx FolderAccess
  unfolding assert_folder_access
  prepare_folder_restore access folder_ids = elim (unique folder_ids) [
    | [] ↦ pure access
    | id ∷ rest ↦
        if is_pro access.effective_plan
        then pure access
        else if not (length rest == 0)
        then throw (folder_access plan_limit_exceeded)
        else restore_one access id
  ]
