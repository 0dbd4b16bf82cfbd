-- ===== src/Content/Access/Frame.antt =====
-- Deciding what a user may open touches workspaces and subscriptions, and no folder or clip.
use easy_clip_be.Common.{◌≤◌, String, ◌≡◌, ap, ◌∙◌, List, arith}
use easy_clip_be.Content.Types.{FolderAccess}
use easy_clip_be.Content.Store.{ContentDb, ContentPrisma, Host, Outcome, Ensures}
use easy_clip_be.Content.Access.Defs.{
  Arithmetic, lock_clip_quota, ensure_subscription, read_clip_quota, resolve_folder_access,
  lock_workspace_access, prepare_folder_restore, assert_folder_access,
}

abbrev pub SameItems : ContentDb → ContentDb → Type 0
SameItems a b =
    (a.folders ≡ b.folders)
    × (a.clips ≡ b.clips)
    × (a.likes ≡ b.likes)
    × (a.clip_tags ≡ b.clip_tags)

pub equal-SameItems : {a b : ContentDb} → a ≡ b → SameItems a b
equal-SameItems e =
    (ap (λ d. d.folders) e, ap (λ d. d.clips) e, ap (λ d. d.likes) e, ap (λ d. d.clip_tags) e)

pub SameItems-trans : (a b c : ContentDb) → SameItems a b → SameItems b c → SameItems a c
SameItems-trans a b c p q = (p.0 ∙ q.0, p.1 ∙ q.1, p.2 ∙ q.2, p.3 ∙ q.3)

-- A transaction that succeeds leaves the items as they are.
abbrev pub Frames : {A : Type 0} → ContentDb → Outcome (A × ContentDb) → Type 0
Frames db = Ensures (λ _ d. SameItems d db)

module _ ⦃prisma : ContentPrisma⦄ ⦃host : Host⦄ where
  pub lock_clip_quota-Frames :
      (user_id : String) (db : ContentDb) → Frames db (lock_clip_quota user_id db)
  unfolding Ensures lock_clip_quota ensure_subscription
  lock_clip_quota-Frames user_id db = ground arith

module _ ⦃prisma : ContentPrisma⦄ ⦃host : Host⦄ ⦃arithmetic : Arithmetic⦄ where
  pub resolve_folder_access-Frames :
      (workspace_id : String) (db : ContentDb) → Frames db (resolve_folder_access workspace_id db)
  unfolding Ensures resolve_folder_access read_clip_quota
  resolve_folder_access-Frames workspace_id db = ground arith

  -- No plan allows more than 300 clips.
  abbrev pub IsBounded : Outcome (FolderAccess × ContentDb) → Type 0
  IsBounded = Ensures (λ a _. a.limit ≤ 300)

  pub resolve_folder_access-IsBounded :
      (workspace_id : String) (db : ContentDb) → IsBounded (resolve_folder_access workspace_id db)
  unfolding Ensures resolve_folder_access read_clip_quota
  resolve_folder_access-IsBounded workspace_id db = ground arith

  pub lock_workspace_access-Frames :
      (workspace_id : String) (db : ContentDb) → Frames db (lock_workspace_access workspace_id db)
  unfolding Ensures lock_workspace_access
  lock_workspace_access-Frames workspace_id db =
      grind (arith, lock_clip_quota-Frames, resolve_folder_access-Frames)

  pub prepare_folder_restore-Frames :
      (a : FolderAccess) (ids : List String) (db : ContentDb)
      → Frames db (prepare_folder_restore a ids db)
  unfolding Ensures prepare_folder_restore assert_folder_access
  prepare_folder_restore-Frames a ids db = ground arith

  abbrev pub SameEntitlements : FolderAccess → Outcome (FolderAccess × ContentDb) → Type 0
  SameEntitlements a = Ensures (λ b _. b.entitlements ≡ a.entitlements)

  pub prepare_folder_restore-SameEntitlements :
      (a : FolderAccess) (ids : List String) (db : ContentDb)
      → SameEntitlements a (prepare_folder_restore a ids db)
  unfolding Ensures prepare_folder_restore assert_folder_access
  prepare_folder_restore-SameEntitlements a ids db = ground arith
