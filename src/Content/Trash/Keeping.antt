-- ===== src/Content/Trash/Keeping.antt =====
-- What deleting for good leaves alone.
use easy_clip_be.Common.{
  ℕ, ◌≤◌, ◌<◌, String, ◌≡◌, refl, ap, subst, sym, ◌∙◌, Bool, true, false, not, ◌&&◌, ◌===◌, Option,
  none, some, List, [], ◌∷◌, inl, inr, arith, count, filter, Occurs, count-filter, count-lt, eq_iff,
  and_parts, if◌then◌else◌,
}
use easy_clip_be.Content.Types.{Folder, Clip}
use easy_clip_be.Content.Store.{
  ContentDb, ContentPrisma, Host, IsDocumentedContent, Ensures, then_, returned, if_, in_folders,
}
use easy_clip_be.Content.Access.Defs.{Arithmetic, clip_has_id, folder_has_id, lock_clip_quota}
use easy_clip_be.Content.Access.Frame.{lock_clip_quota-Frames}
use easy_clip_be.Content.Trash.Writes.{
  among, clip_ids, folder_ids, taken, expired, expired_clip, purge_clips, hard_delete_expired_clips,
  delete_owned_items, hard_delete_items, taken_again, trashed_folder_among,
}

module _ {A : Type 0} where
  pub filter-Occurs :
      (w : A → Bool) (a : A) (t : List A) → w a ≡ true → Occurs a t → Occurs a (filter w t)
  filter-Occurs w a [] h o = o
  filter-Occurs w a (x ∷ xs) h (inl e) = go (w x) (ap w (sym e) ∙ h)
    where
      go : (b : Bool) → b ≡ true → Occurs a (if b then x ∷ filter w xs else filter w xs)
      go true _ = inl e
      go false q = cc
  filter-Occurs w a (x ∷ xs) h (inr o) = go (w x) (filter-Occurs w a xs h o)
    where
      go :
          (b : Bool)
          → Occurs a (filter w xs)
          → Occurs a (if b then x ∷ filter w xs else filter w xs)
      go true q = inr q
      go false q = q

among-count :
    (cs : List Clip) (id : String) → count (clip_has_id id) cs ≡ 0 → among (clip_ids cs) id ≡ false
among-count [] id h = refl
among-count (c ∷ cs) id h = ground (arith, eq_iff id c.id, eq_iff c.id id, among-count cs id)

among-count_folders :
    (fs : List Folder) (id : String)
    → count (folder_has_id id) fs ≡ 0
    → among (folder_ids fs) id ≡ false
among-count_folders [] id h = refl
among-count_folders (f ∷ fs) id h =
    ground (arith, eq_iff id f.id, eq_iff f.id id, among-count_folders fs id)

-- A clip that is not deleted, or was deleted after a time.
abbrev pub IsLater : Option ℕ → Option ℕ → Type 0
IsLater _ none = Unit
IsLater none (some s) = Unit
IsLater (some t) (some s) = t < s

module _ ⦃prisma : ContentPrisma⦄ ⦃host : Host⦄ ⦃arithmetic : Arithmetic⦄
    (docs : IsDocumentedContent prisma) where
  later-expired : (t d : Option ℕ) → IsLater t d → expired t d ≡ false
  later-expired none none h = refl
  later-expired none (some s) h = refl
  later-expired (some t) none h = refl
  later-expired (some t) (some s) h = ground (arith, h)

  -- Of rows with distinct identifiers, a search that one fails does not find its identifier.
  not_found_clip :
      (w : Clip → Bool) (c : Clip) (t : List Clip)
      → Occurs c t
      → count (clip_has_id c.id) t ≤ 1
      → w c ≡ false
      → among (clip_ids (prisma.clip.find_all w t)) c.id ≡ false
  not_found_clip w c t o u h = among-count (prisma.clip.find_all w t) c.id (
      omega (
        arith,
        docs.clip.finds_all w (clip_has_id c.id) t,
        count-filter (clip_has_id c.id) w t,
        count-lt (λ x. clip_has_id c.id x && w x) (clip_has_id c.id) c t
            (λ x e. (and_parts (clip_has_id c.id x) (w x) e).0) o ((eq_iff c.id c.id).1 refl)
            (ground (arith, h)),
        u,
      ))

  not_found_folder :
      (w : Folder → Bool) (f : Folder) (t : List Folder)
      → Occurs f t
      → count (folder_has_id f.id) t ≤ 1
      → w f ≡ false
      → among (folder_ids (prisma.folder.find_all w t)) f.id ≡ false
  not_found_folder w f t o u h = among-count_folders (prisma.folder.find_all w t) f.id (
      omega (
        arith,
        docs.folder.finds_all w (folder_has_id f.id) t,
        count-filter (folder_has_id f.id) w t,
        count-lt (λ x. folder_has_id f.id x && w x) (folder_has_id f.id) f t
            (λ x e. (and_parts (folder_has_id f.id x) (w x) e).0) o ((eq_iff f.id f.id).1 refl)
            (ground (arith, h)),
        u,
      ))

  deleted-Occurs :
      (w : Clip → Bool) (c : Clip) (t : List Clip)
      → Occurs c t
      → w c ≡ false
      → Occurs c (prisma.clip.delete_many w t).0
  deleted-Occurs w c t o h = rw (docs.clip.deletes w t) (filter-Occurs _ c t (ap not h) o)

  -- The clip is one of the rows, and the only one with its identifier.
  abbrev pub IsRowOf : Clip → List Clip → Type 0
  IsRowOf c t = Occurs c t × (count (clip_has_id c.id) t ≤ 1)

  abbrev pub IsRow : Clip → ContentDb → Type 0
  IsRow c db = IsRowOf c db.clips

  purge_clips_spares :
      (t : Option ℕ) (ids : List String) (c : Clip) (db : ContentDb)
      → IsRow c db
      → expired t c.deleted_at ≡ false
      → Ensures (λ _ d. Occurs c d.clips) (purge_clips t ids db)
  unfolding Ensures purge_clips
  purge_clips_spares t ids c db r h =
      deleted-Occurs _ c db.clips r.0
        (not_found_clip (expired_clip db t ids) c db.clips r.0 r.1 (ground (arith, h)))

  -- The purge of clips keeps every clip whose identifier is unique and that is not deleted, or was
  -- deleted after the given time. A time before 1970 is none, and everything is later.
  pub purge_spares :
      (t : Option ℕ) (limit : ℕ) (c : Clip) (db : ContentDb)
      → IsRow c db
      → IsLater t c.deleted_at
      → Ensures (λ _ d. Occurs c d.clips) (hard_delete_expired_clips t limit db)
  unfolding hard_delete_expired_clips
  purge_spares t limit c db r h =
      search (if_, returned, purge_clips_spares, r.0, later-expired t c.deleted_at h)

  -- The row of the clip's folder, the only one with its identifier, is live.
  abbrev pub IsHomeOf : Folder → Clip → List Folder → Type 0
  IsHomeOf f c t =
      Occurs f t × (count (folder_has_id f.id) t ≤ 1) × (f.id ≡ c.folder_id) × (f.deleted_at ≡ none)

  abbrev pub IsHome : Folder → Clip → ContentDb → Type 0
  IsHome f c db = IsHomeOf f c db.folders

  -- A folder whose identifier is not asked for takes none of its clips along.
  spared :
      (ids : List String) (c : Clip) (fs : List Folder)
      → among ids c.folder_id ≡ false
      → not (in_folders (filter (λ f. among ids f.id) fs) c) ≡ true
  spared ids c fs h = ground (
    arith,
    count-filter (λ (f : Folder). f.id === c.folder_id) (λ (f : Folder). among ids f.id) fs,
    none_asked fs,
  )
    where
      asked : (f : Folder) → (f.id === c.folder_id) ≡ true → among ids f.id ≡ false
      asked f e = ap (among ids) ((eq_iff f.id c.folder_id).0 e) ∙ h

      none_asked :
          (fs : List Folder)
          → count (λ (f : Folder). (f.id === c.folder_id) && among ids f.id) fs ≡ 0
      none_asked [] = refl
      none_asked (f ∷ fs) = ground (arith, asked f, none_asked fs)

  delete_owned_items_spares :
      (ws : String) (folders clips : List String) (c : Clip) (f : Folder) (db : ContentDb)
      → IsRow c db
      → c.deleted_at ≡ none
      → IsHome f c db
      → Ensures (λ _ d. Occurs c d.clips) (delete_owned_items ws folders clips false db)
  unfolding Ensures delete_owned_items
  delete_owned_items_spares ws folders clips c f db r live home =
      filter-Occurs _ c _ (spared ids c db.folders home_kept)
        (deleted-Occurs _ c db.clips r.0 (not_found_clip _ c db.clips r.0 r.1 not_taken))
    where
      ids : List String
      ids = folder_ids (prisma.folder.find_all (trashed_folder_among folders ws) db.folders)

      home_kept : among ids c.folder_id ≡ false
      home_kept =
          ap (among ids) (sym home.2)
          ∙ not_found_folder (trashed_folder_among folders ws) f db.folders home.0 home.1
              (ground (arith, home.3))

      not_taken :
          taken_again db.folders false ids clips ws
            (prisma.clip.find_all (taken db.folders false ids clips ws) db.clips)
            c
          ≡ false
      not_taken = ground (arith, live, home_kept)

  -- Deleting items of the trash for good keeps every live clip whose folder is live, where the
  -- identifiers of that clip and of its folder are unique.
  pub hard_delete_spares :
      (user_id : String) (clips folders : List String) (c : Clip) (f : Folder) (db : ContentDb)
      → IsRow c db
      → c.deleted_at ≡ none
      → IsHome f c db
      → Ensures (λ _ d. Occurs c d.clips) (hard_delete_items user_id clips folders db)
  unfolding hard_delete_items
  hard_delete_spares user_id clips folders c f db r live home =
      then_ _ _ (lock_clip_quota user_id db) _ (lock_clip_quota-Frames user_id db) λ ws d fr.
        delete_owned_items_spares ws folders clips c f d (subst (IsRowOf c) (sym fr.1) r) live
          (subst (IsHomeOf f c) (sym fr.0) home)
