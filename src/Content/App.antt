-- ===== src/Content/App.antt =====
-- The use cases: transactions one after the other, and the storage of images between them. An
-- error of one transaction undoes that transaction alone.
use easy_clip_be.Common.{ℕ, ◌+◌, String, Bool, Option, none, some, List, [], ◌∷◌, if◌then◌else◌}
use easy_clip_be.Subscriptions.App.{ErrorCode}
use easy_clip_be.Content.Store.{
  ContentDb, Fault, application, storage_failed, disconnected, ok, err, Tx, commit,
}

-- The tables, the number of steps taken, and the images whose deletion was asked, latest first.
pub record World : Type 0 where
  pub db : ContentDb
  pub step : ℕ
  pub deleted : List String

pub data Result (A : Type 0) : Type 0 where
  done : A → Result A
  raised : Fault → Result A

abbrev pub App : Type 0 → Type 0
App A = World → Result A × World

abbrev pub return_ : {A : Type 0} → A → App A
return_ a w = (done a, w)

abbrev pub fail : {A : Type 0} → Fault → App A
fail e w = (raised e, w)

abbrev pub refuse : {A : Type 0} → ErrorCode → App A
refuse c w = (raised (application c), w)

infixl 5 ◌>>=◌ ◌>>◌
abbrev pub ◌>>=◌ : {A B : Type 0} → App A → (A → App B) → App B
◌>>=◌ m f w = let (r, w') = m w in elim r [ done a ↦ f a w' | raised e ↦ (raised e, w') ]

abbrev pub ◌>>◌ : {A B : Type 0} → App A → App B → App B
m >> k = m >>= λ _. k

-- `try { m } catch (error) { h }`
abbrev pub rescue : {A : Type 0} → App A → (Fault → App A) → App A
rescue m h w = let (r, w') = m w in elim r [ done a ↦ (done a, w') | raised e ↦ h e w' ]

-- What becomes of a transaction: its answer arrives, it never commits, or it commits and the
-- answer is lost.
pub data Delivery : Type 0 where
  delivered never_run answer_lost : Delivery

-- An uploaded file: its MIME type, its name, and its bytes under a handle.
pub record UploadedFile : Type 0 where
  pub mime_type : String
  pub original_name : String
  pub content : ℕ

-- The connection to the database and `ClipImageStoragePort`, at each step.
pub record Outside : Type 0 where
  pub delivery : ℕ → Delivery
  pub upload_image : ℕ → String → UploadedFile → Option String
  pub deletion_fails : ℕ → String → Bool

module _ ⦃outside : Outside⦄ where
  abbrev pub run : {A : Type 0} → Tx A → App A
  run {A} m w =
      let next : World = record w { step = w.step + 1 } in
      elim (outside.delivery w.step) [
        | delivered ↦ elim (m w.db) [
          | ok r ↦ (done r.0, record next { db = r.1 })
          | err e ↦ (raised e, next)
        ]
        | never_run ↦ (raised disconnected, next)
        | answer_lost ↦ (raised disconnected, record next { db = commit m w.db })
      ]

  abbrev pub upload_image : String → UploadedFile → App String
  upload_image user_id file w =
      let next : World = record w { step = w.step + 1 } in
      elim (outside.upload_image w.step user_id file) [
        | some url ↦ (done url, next)
        | none ↦ (raised storage_failed, next)
      ]

  abbrev pub delete_image : String → App (Unit {0})
  delete_image url w =
      let next : World = record w { step = w.step + 1; deleted = url ∷ w.deleted } in
      if outside.deletion_fails w.step url then (raised storage_failed, next) else (done tt, next)

  -- `deleteImagesBestEffort`: a failure is logged, and the others go on.
  abbrev pub delete_images_best_effort : List String → App (Unit {0})
  delete_images_best_effort [] = return_ tt
  delete_images_best_effort (url ∷ urls) = do
    rescue (delete_image url) (λ _. return_ tt)
    delete_images_best_effort urls
