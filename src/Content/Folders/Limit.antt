-- ===== src/Content/Folders/Limit.antt =====
-- folders/infrastructure/prisma-folders.repository.ts: how many folders a free plan may hold.
use easy_clip_be.Common.{◌≡◌, arith, count, eq_iff, refl}
use easy_clip_be.Content.Types.{FolderAccess}
use easy_clip_be.Subscriptions.Types.{free}
use easy_clip_be.Content.Store.{ContentDb, ContentPrisma, Host, IsDocumentedContent, ok, Ensures}
use easy_clip_be.Content.Access.Defs.{Arithmetic, live_in, lock_workspace_access}
use easy_clip_be.Content.Folders.Repository.{CreateFolderParams, FolderOutput, create_folder}

module _ ⦃prisma : ContentPrisma⦄ ⦃host : Host⦄ ⦃arithmetic : Arithmetic⦄ where
  -- Under a free plan a folder is created only as the one live folder of its workspace.
  pub create_folder-lone :
      (docs : IsDocumentedContent prisma) (params : CreateFolderParams) (a : FolderAccess)
      (db locked : ContentDb)
      → lock_workspace_access params.workspace_id db ≡ ok (a, locked)
      → a.effective_plan ≡ free
      → Ensures
          (λ (f : FolderOutput) (d : ContentDb). count (live_in params.workspace_id) d.folders ≡ 1)
          (create_folder params db)
  unfolding Ensures create_folder
  create_folder-lone docs params a db locked h e = grind (
    arith,
    docs.folder.counts (live_in params.workspace_id) locked.folders,
    docs.folder.creates,
    (eq_iff params.workspace_id params.workspace_id).1 refl,
  )
