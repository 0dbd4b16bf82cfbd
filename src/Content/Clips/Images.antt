-- ===== src/Content/Clips/Images.antt =====
-- The images that a failed request cleans up.
use easy_clip_be.Common.{
  String, ◌≡◌, refl, ap, sym, ◌∙◌, subst, Bool, true, false, not, ◌&&◌, ◌===◌, ◌⊎◌, inl, inr,
  Option, none, some, List, ◌∷◌, arith, count, Occurs,
}
use easy_clip_be.Prisma.{Finds}
use easy_clip_be.Subscriptions.App.{not_found}
use easy_clip_be.Subscriptions.Types.{Workspace}
use easy_clip_be.Subscriptions.Repository.Lifecycle.{owned_by}
use easy_clip_be.Content.Types.{Clip, Folder, is_null}
use easy_clip_be.Content.Store.{
  ContentDb, ContentPrisma, Host, IsDocumentedContent, Ensures, then_, returned, thrown, weaken, Tx,
  Outcome, ok, throw, application, Fault,
}
use easy_clip_be.Content.App.{
  App, World, Result, done, raised, Outside, UploadedFile, run, rescue, fail, ◌>>=◌, ◌>>◌,
}
use easy_clip_be.Content.Access.Defs.{
  Arithmetic, ensure_subscription, text_or_empty, is_text, lock_clip_quota,
}
use easy_clip_be.Content.Clips.Colors.{Numbers, ColorString}
use easy_clip_be.Content.Clips.Data.{Decoder, ClipData, resolve_clip_data}
use easy_clip_be.Content.Clips.Reads.{is_created_image_referenced, find_personal_folder_by_id}
use easy_clip_be.Content.Clips.Writes.{create_clip}
use easy_clip_be.Content.Clips.UseCases.{create, save, clean_up, clip_data, params_of, or_missing}

module _ ⦃prisma : ContentPrisma⦄ ⦃host : Host⦄ ⦃arithmetic : Arithmetic⦄ ⦃outside : Outside⦄
    ⦃numbers : Numbers⦄ ⦃colors : ColorString⦄ ⦃decoder : Decoder⦄ where
  run-deleted : {A : Type 0} (m : Tx A) (w : World) → (run m w).1.deleted ≡ w.deleted
  run-deleted m w = ground arith

  clean_up-answer :
      (file : Option UploadedFile) (url : Option String) (m : Tx Bool) (w : World)
      → ((clean_up file url (run m) w).1.deleted ≡ w.deleted)
        ⊎ (((clean_up file url (run m) w).1.deleted ≡ text_or_empty url ∷ w.deleted)
            × (m w.db ≡ ok (false, (clean_up file url (run m) w).1.db)))
  clean_up-answer file url m w = ground arith

  clip_data-deleted :
      (user_id : String) (text : Option String) (file : Option UploadedFile) (w : World)
      → (clip_data user_id text file w).1.deleted ≡ w.deleted
  unfolding resolve_clip_data
  clip_data-deleted user_id text none w = ground arith
  clip_data-deleted user_id text (some f) w = ground arith

  -- No image was asked to go, or one that no clip of the user's workspace refers to.
  abbrev pub IsClean : String → List String → World → Type 0
  IsClean user_id before v =
      (v.deleted ≡ before)
      ⊎ ((url : String) × (k : Workspace) × (v.deleted ≡ url ∷ before)
          × Occurs k v.db.workspaces
          × (owned_by user_id k ≡ true)
          × (count (λ (c : Clip). (c.workspace_id === k.id) && is_text c.image_url url) v.db.clips
              ≡ 0))

  none_found :
      (w : Clip → Bool) (t : List Clip) (o : Option Clip)
      → Finds w t o
      → not (is_null o) ≡ false
      → count w t ≡ 0
  none_found w t none h e = h
  none_found w t (some c) h e = cc

  ensure_subscription-workspaces :
      (id : String) (db : ContentDb)
      → Ensures (λ i d. (i ≡ id) × (d.workspaces ≡ db.workspaces)) (ensure_subscription id db)
  unfolding Ensures ensure_subscription
  ensure_subscription-workspaces id db = ground arith

  abbrev IsOwner : String → String → ContentDb → Type 0
  IsOwner user_id id d =
      (k : Workspace) × (k.id ≡ id) × Occurs k d.workspaces × (owned_by user_id k ≡ true)

  lock_clip_quota-IsOwner :
      (docs : IsDocumentedContent prisma) (user_id : String) (db : ContentDb)
      → Ensures (IsOwner user_id) (lock_clip_quota user_id db)
  unfolding lock_clip_quota
  lock_clip_quota-IsOwner docs user_id db =
      go (prisma.workspace.find_first (owned_by user_id) db.workspaces)
        (docs.workspace.finds (owned_by user_id) db.workspaces)
    where
      go :
          (o : Option Workspace)
          → Finds (owned_by user_id) db.workspaces o
          → Ensures (IsOwner user_id) (
              (elim o as (λ _. Tx String) [
                | none ↦ throw (application not_found)
                | some w ↦ ensure_subscription w.id
              ])
                db)
      go none h = thrown _ _
      go (some w) h =
          weaken _ _ _ (ensure_subscription-workspaces w.id db)
            λ i d q. (w, sym q.0, subst (Occurs w) (sym q.1) h.1, h.0)

  -- The answer that no clip refers to the image is right, for the user's workspace.
  is_created_image_referenced_right :
      (docs : IsDocumentedContent prisma) (user_id url : String) (db : ContentDb)
      → Ensures
          (λ b d.
            b ≡ false
            → (k : Workspace) × Occurs k d.workspaces
              × (owned_by user_id k ≡ true)
              × (count (λ (c : Clip). (c.workspace_id === k.id) && is_text c.image_url url) d.clips
                  ≡ 0))
          (is_created_image_referenced user_id url db)
  unfolding is_created_image_referenced
  is_created_image_referenced_right docs user_id url db =
      then_ _ _ (lock_clip_quota user_id db) _ (lock_clip_quota-IsOwner docs user_id db) λ ws d q.
        returned _ _ d λ e. (
          q.0,
          q.2,
          q.3,
          none_found (λ c. (c.workspace_id === q.0.id) && is_text c.image_url url) d.clips
              (prisma.clip.find_first (λ c. (c.workspace_id === q.0.id) && is_text c.image_url url)
                d.clips)
              (docs.clip.finds _ d.clips)
              (ap
                  (λ i. not (
                    is_null (
                      prisma.clip.find_first
                        (λ c. (c.workspace_id === i) && is_text c.image_url url) d.clips)))
                  q.1
                ∙ e),
        )

  answered :
      {A : Type 0} (P : A → ContentDb → Type 0) (m : Outcome (A × ContentDb)) (a : A)
      (d : ContentDb)
      → Ensures P m
      → m ≡ ok (a, d)
      → P a d
  unfolding Ensures
  answered P m a d h e = subst (Ensures P) e h

  clean_up-IsClean :
      (docs : IsDocumentedContent prisma) (user_id : String) (file : Option UploadedFile)
      (url : Option String) (w : World)
      → IsClean user_id w.deleted
          (clean_up file url (run (is_created_image_referenced user_id (text_or_empty url))) w).1
  clean_up-IsClean docs user_id file url w =
      elim (clean_up-answer file url (is_created_image_referenced user_id (text_or_empty url)) w) [
        | inl e ↦ inl e
        | inr e ↦
            let q =
              answered _ _ false _
                (is_created_image_referenced_right docs user_id (text_or_empty url) w.db) e.1
                refl in
            inr (text_or_empty url, q.0, e.0, q.1, q.2, q.3)
      ]

  step :
      {A B : Type 0} (Q : World → Type 0) (m : App A) (f : A → App B) (w : World)
      → Q (m w).1
      → ((a : A) → Q (f a (m w).1).1)
      → Q ((m >>= f) w).1
  step {A} {B} Q m f w h k = go (m w) h k
    where
      go :
          (r : Result A × World)
          → Q r.1
          → ((a : A) → Q (f a r.1).1)
          → Q
              (elim r.0 as (λ _. Result B × World) [
                | done a ↦ f a r.1
                | raised e ↦ (raised e, r.1)
              ]).1
      go (done a, w') h k = k a
      go (raised e, w') h k = h

  rescued :
      {A : Type 0} (Q : World → Type 0) (m : App A) (h : Fault → App A) (w : World)
      → Q (m w).1
      → ((e : Fault) → Q (h e (m w).1).1)
      → Q (rescue m h w).1
  rescued {A} Q m h w a k = go (m w) a k
    where
      go :
          (r : Result A × World)
          → Q r.1
          → ((e : Fault) → Q (h e r.1).1)
          → Q
              (elim r.0 as (λ _. Result A × World) [
                | done a ↦ (done a, r.1)
                | raised e ↦ h e r.1
              ]).1
      go (done a, w') q k = q
      go (raised e, w') q k = k e

  or_missing-deleted :
      {A : Type 0} (o : Option A) (w : World) → (or_missing o w).1.deleted ≡ w.deleted
  or_missing-deleted none w = refl
  or_missing-deleted (some a) w = refl

  -- A clip that cannot be created, in a world where no image was asked to go so far.
  create_clip-IsClean :
      (docs : IsDocumentedContent prisma) (user_id : String) (file : Option UploadedFile)
      (d : ClipData) (f : Folder) (before : List String) (w : World)
      → w.deleted ≡ before
      → IsClean user_id before (save user_id file d f w).1
  unfolding save
  create_clip-IsClean docs user_id file d f before w e =
      rescued (IsClean user_id before) (run (create_clip user_id (params_of d f)))
        (λ x. clean_up file d.image_url answer >> fail x) w (inl kept)
        λ x.
          step (IsClean user_id before) (clean_up file d.image_url answer) (λ _. fail {A = Clip} x)
            v clean (λ _. clean)
    where
      answer : App Bool
      answer = run (is_created_image_referenced user_id (text_or_empty d.image_url))

      v : World
      v = (run (create_clip user_id (params_of d f)) w).1

      kept : v.deleted ≡ before
      kept = run-deleted (create_clip user_id (params_of d f)) w ∙ e

      clean : IsClean user_id before (clean_up file d.image_url answer v).1
      clean =
          subst (λ b. IsClean user_id b (clean_up file d.image_url answer v).1) kept
            (clean_up-IsClean docs user_id file d.image_url v)

  -- Creating a clip, with or without a file, and whatever fails on the way, asks for the deletion
  -- of no image, or of one that no clip of the user's workspace refers to in the end.
  pub create-IsClean :
      (docs : IsDocumentedContent prisma) (user_id folder_id : String) (text : Option String)
      (file : Option UploadedFile) (w : World)
      → IsClean user_id w.deleted (create user_id folder_id text file w).1
  unfolding create
  create-IsClean docs user_id folder_id text file w =
      step (IsClean user_id w.deleted) (run (find_personal_folder_by_id user_id folder_id))
        (λ found. or_missing found >>= rest) w (inl e1)
        λ found. step (IsClean user_id w.deleted) (or_missing found) rest w1 (inl (e2 found)) λ f.
          step (IsClean user_id w.deleted) (clip_data user_id text file)
            (λ d. save user_id file d f) (w2 found) (inl (e3 found))
            λ d. create_clip-IsClean docs user_id file d f w.deleted (w3 found) (e3 found)
    where
      rest : Folder → App Clip
      rest f = clip_data user_id text file >>= λ d. save user_id file d f

      w1 : World
      w1 = (run (find_personal_folder_by_id user_id folder_id) w).1

      w2 : Option Folder → World
      w2 found = (or_missing found w1).1

      w3 : Option Folder → World
      w3 found = (clip_data user_id text file (w2 found)).1

      e1 : w1.deleted ≡ w.deleted
      e1 = run-deleted (find_personal_folder_by_id user_id folder_id) w

      e2 : (found : Option Folder) → (w2 found).deleted ≡ w.deleted
      e2 found = or_missing-deleted found w1 ∙ e1

      e3 : (found : Option Folder) → (w3 found).deleted ≡ w.deleted
      e3 found = clip_data-deleted user_id text file (w2 found) ∙ e2 found
