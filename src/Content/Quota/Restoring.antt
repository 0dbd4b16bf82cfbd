-- ===== src/Content/Quota/Restoring.antt =====
-- The live clips of a folder under `restoreItems` of trash/infrastructure/prisma-trash.repository.ts.
use easy_clip_be.Common.{
  ℕ, ◌+◌, ◌≤◌, String, ◌≡◌, refl, sym, ap, ◌∙◌, Bool, true, false, not, ◌&&◌, ◌===◌, Option, none,
  some, List, [], ◌∷◌, ◌⊎◌, inl, inr, arith, count, filter, All, Occurs, All-Occurs, sort,
  sort-Occurs, count-filter, update_where, eq_iff, if◌then◌else◌,
}
use easy_clip_be.Subscriptions.App.{not_found, conflict}
use easy_clip_be.Content.Types.{Folder, Clip, FolderAccess, is_null}
use easy_clip_be.Content.Store.{
  ContentDb, ContentPrisma, Host, IsDocumentedContent, Ensures, then_, weaken, both, Tx, throw,
  application,
}
use easy_clip_be.Content.Access.Defs.{
  Arithmetic, assert_clip_increase, assert_folder_access, lock_clip_quota, resolve_folder_access,
  prepare_folder_restore, unique,
}
use easy_clip_be.Content.Access.Frame.{
  SameItems, equal-SameItems, SameItems-trans, lock_clip_quota-Frames, resolve_folder_access-Frames,
  resolve_folder_access-IsBounded, prepare_folder_restore-Frames,
  prepare_folder_restore-SameEntitlements,
}
use easy_clip_be.Content.Clips.Writes.{live_clip_in, owned_among}
use easy_clip_be.Content.Quota.Writes.{live_clips, IsWithin}
use easy_clip_be.Content.Trash.Writes.{
  Increase, among, fuller, add_one, Projected, Locale, folder_by_id, count_increases,
  assert_each_access, project, assert_each_increase, check_restore, restore_rows, restore_found,
  restore_items, restored_clip, trashed_among, restore_folders, restore_clips,
}

-- What a folder gets back.
abbrev pub increase_of : String → List Increase → ℕ
increase_of j [] = 0
increase_of j (e ∷ es) = if e.folder_id === j then e.increase else increase_of j es

abbrev pub in_folder : String → Clip → Bool
in_folder j c = c.folder_id === j

increase_of-add_one :
    (j id : String) (es : List Increase)
    → increase_of j (add_one id es) ≡ increase_of j es + (if id === j then 1 else 0)
increase_of-add_one j id [] = ground arith
increase_of-add_one j id (e ∷ es) =
    ground
      (arith, increase_of-add_one j id es, eq_iff e.folder_id id, eq_iff e.folder_id j, eq_iff id j)

folder_by_id-id :
    (id : String) (fs : List Folder) (f : Folder) → folder_by_id id fs ≡ some f → f.id ≡ id
folder_by_id-id id [] f e = cc
folder_by_id-id id (g ∷ gs) f e = go (folder_by_id id gs) (folder_by_id-id id gs) e
  where
    go :
        (o : Option Folder)
        → ((f' : Folder) → o ≡ some f' → f'.id ≡ id)
        → elim o [ some h ↦ some h | none ↦ if g.id === id then some g else none ] ≡ some f
        → f.id ≡ id
    go none ih e = ground (arith, eq_iff g.id id)
    go (some h) ih e = ih f e

module _ ⦃prisma : ContentPrisma⦄ ⦃host : Host⦄ ⦃arithmetic : Arithmetic⦄
    (docs : IsDocumentedContent prisma) (j : String) where
  abbrev BringsBack : ContentDb → ℕ → List Increase → ContentDb → Type 0
  BringsBack db k es db' = (db' ≡ db) × (increase_of j es ≡ k)

  count_increases-counts :
      (folders : List Folder) (restoring : List String) (cs : List Clip) (es : List Increase)
      (db : ContentDb)
      → Ensures
          (BringsBack db (increase_of j es + count (in_folder j) cs))
          (count_increases folders restoring cs es db)
  unfolding Ensures
  count_increases-counts folders restoring [] es db = (refl, omega arith)
  count_increases-counts folders restoring (c ∷ cs) es db =
      go (λ id. count_increases-counts folders restoring cs (add_one id es) db)
        (folder_by_id c.folder_id folders) (folder_by_id-id c.folder_id folders)
    where
      Rest : Type 0
      Rest =
          (id : String)
          → Ensures (BringsBack db (increase_of j (add_one id es) + count (in_folder j) cs))
              (count_increases folders restoring cs (add_one id es) db)

      restored :
          Rest
          → (f : Folder) → f.id ≡ c.folder_id
          → (b : Bool)
          → Ensures (BringsBack db (increase_of j es + count (in_folder j) (c ∷ cs))) (
              (if b
                  then throw (application conflict)
                  else count_increases folders restoring cs (add_one f.id es))
                db)
      restored rest f e true = tt
      restored rest f e false =
          weaken _ (BringsBack db (increase_of j es + count (in_folder j) (c ∷ cs))) _ (rest f.id)
            λ es' db' q.
              (q.0, ground (arith, q.1, increase_of-add_one j f.id es, ap (λ i. i === j) e))

      go :
          Rest
          → (o : Option Folder) → ((f : Folder) → o ≡ some f → f.id ≡ c.folder_id)
          → Ensures (BringsBack db (increase_of j es + count (in_folder j) (c ∷ cs))) (
              (elim o as (λ _. Tx (List Increase)) [
                | none ↦ throw (application not_found)
                | some f ↦
                    if not (is_null f.deleted_at) && not (among restoring f.id)
                    then throw (application conflict)
                    else count_increases folders restoring cs (add_one f.id es)
              ])
                db)
      go rest none ids = tt
      go rest (some f) ids = restored rest f (ids f refl) _

  -- The entry of the folder, with the clips that it holds.
  abbrev IsEntry : ContentDb → ℕ → Projected → Type 0
  IsEntry db k p = (p.current_count ≡ live_clips j db) × (p.increase ≡ k)

  project-IsEntry :
      (es : List Increase) (db : ContentDb)
      → Ensures
          (λ ps db'.
            (db' ≡ db)
            × ((increase_of j es ≡ 0)
                ⊎ ((p : Projected) × Occurs p ps × IsEntry db (increase_of j es) p)))
          (project es db)
  unfolding Ensures
  project-IsEntry [] db = (refl, inl refl)
  project-IsEntry (e ∷ es) db =
      then_ _ _ (project es db) _ (project-IsEntry es db)
        λ ps d q. (q.0, entry ps q.1 (e.folder_id === j) refl)
    where
      first : Projected
      first = record {
        folder_id = e.folder_id;
        current_count = prisma.clip.count_rows (live_clip_in e.folder_id) db.clips;
        increase = e.increase;
      }

      entry :
          (ps : List Projected)
          → (increase_of j es ≡ 0)
            ⊎ ((p : Projected) × Occurs p ps × IsEntry db (increase_of j es) p)
          → (b : Bool) → (e.folder_id === j) ≡ b
          → ((if b then e.increase else increase_of j es) ≡ 0)
            ⊎ ((p : Projected) × Occurs p (first ∷ ps)
                × IsEntry db (if b then e.increase else increase_of j es) p)
      entry ps q true h = inr (
        first,
        inl refl,
        (
          docs.clip.counts (live_clip_in e.folder_id) db.clips
              ∙ ap (λ i. live_clips i db) ((eq_iff e.folder_id j).0 h),
          refl,
        ),
      )
      entry ps (inl z) false h = inl z
      entry ps (inr q) false h = inr (q.0, inr q.1, q.2)

  abbrev IsAllowed : ℕ → Projected → Type 0
  IsAllowed limit p = (p.increase ≡ 0) ⊎ (p.current_count + p.increase ≤ limit)

  assert_each_increase-All :
      (a : FolderAccess) (ps : List Projected) (db : ContentDb)
      → Ensures (λ _ db'. (db' ≡ db) × All (IsAllowed a.limit) ps) (assert_each_increase a ps db)
  unfolding Ensures assert_clip_increase
  assert_each_increase-All a [] db = (refl, tt)
  assert_each_increase-All a (p ∷ ps) db =
      then_ (λ _ d. (d ≡ db) × IsAllowed a.limit p) _
        (assert_clip_increase a.entitlements p.folder_id p.current_count p.increase db) _
        (ground arith)
        λ _ d q.
          weaken _ _ (assert_each_increase a ps d) (assert_each_increase-All a ps d)
            λ _ d' r. (r.0 ∙ q.0, (q.1, r.1))

  assert_each_access-same :
      (a : FolderAccess) (es : List Increase) (db : ContentDb)
      → Ensures (λ _ db'. db' ≡ db) (assert_each_access a es db)
  unfolding Ensures assert_folder_access
  assert_each_access-same a [] db = refl
  assert_each_access-same a (e ∷ es) db = ground (arith, assert_each_access-same a es db)

  -- The clips that come back fit, whatever the order in which the folders are checked.
  check_restore-fits :
      ⦃locale : Locale⦄ (ws : String) (folders : List Folder) (restoring : List String)
      (cs : List Clip) (db : ContentDb)
      → Ensures
          (λ _ d.
            SameItems d db
            × ((count (in_folder j) cs ≡ 0) ⊎ (live_clips j db + count (in_folder j) cs ≤ 300)))
          (check_restore ws folders restoring cs db)
  unfolding check_restore
  check_restore-fits ⦃locale⦄ ws folders restoring cs db =
      then_ _ _ (count_increases folders restoring cs [] db) _
        (count_increases-counts folders restoring cs [] db)
        λ es d1 q1.
          then_ _ _ (resolve_folder_access ws d1) _
            (both _ _ _ (resolve_folder_access-Frames ws d1)
              (resolve_folder_access-IsBounded ws d1))
            λ a d2 q2.
              then_ _ _ (prepare_folder_restore a restoring d2) _
                (both _ _ _ (prepare_folder_restore-Frames a restoring d2)
                  (prepare_folder_restore-SameEntitlements a restoring d2))
                λ b d3 q3.
                  then_ _ _ (assert_each_access b es d3) _ (assert_each_access-same b es d3)
                    λ _ d4 q4. then_ _ _ (project es d4) _ (project-IsEntry es d4) λ ps d5 q5.
                      weaken _ _ _ (assert_each_increase-All b (sort _ ps) d5) λ _ d6 q6.
                        let e : d6 ≡ d3 = q6.0 ∙ q5.0 ∙ q4 in
                        let back : SameItems d3 db =
                          SameItems-trans d3 d2 db q3.0
                            (SameItems-trans d2 d1 db q2.0 (equal-SameItems q1.0)) in
                        (
                          SameItems-trans d6 d3 db (equal-SameItems e) back,
                          fits a b es ps d4 (omega (arith, q1.1))
                              (SameItems-trans d4 d3 db (equal-SameItems q4) back)
                              (ap (λ x. x.limit) q3.1) q2.1 q5.1 q6.1,
                        )
    where
      fits :
          (a b : FolderAccess) (es : List Increase) (ps : List Projected) (d : ContentDb)
          → increase_of j es ≡ count (in_folder j) cs
          → SameItems d db
          → b.limit ≡ a.limit
          → a.limit ≤ 300
          → (increase_of j es ≡ 0)
            ⊎ ((p : Projected) × Occurs p ps × IsEntry d (increase_of j es) p)
          → All (IsAllowed b.limit) (sort (fuller locale.precedes) ps)
          → (count (in_folder j) cs ≡ 0) ⊎ (live_clips j db + count (in_folder j) cs ≤ 300)
      fits a b es ps d i s l m (inl z) all = inl (sym i ∙ z)
      fits a b es ps d i s l m (inr q) all =
          elim (All-Occurs (IsAllowed b.limit) q.0 (sort (fuller locale.precedes) ps)
            (sort-Occurs (fuller locale.precedes) q.0 ps q.1) all) [
              | inl z ↦ inl (omega (arith, i, z, q.2.1))
              | inr k ↦ inr (omega (arith, i, k, l, m, q.2, ap (count (live_clip_in j)) s.1))
            ]

  restored_count :
      (w : Clip → Bool) (t : ℕ) (cs : List Clip)
      → count (live_clip_in j) (update_where w (restored_clip t) cs)
        ≤ count (live_clip_in j) cs
          + count (λ c. in_folder j c && (w c && not (is_null c.deleted_at))) cs
  restored_count w t [] = omega arith
  restored_count w t (c ∷ cs) = ground (arith, restored_count w t cs)

  restore_folders-clips :
      (ids : List String) (ws : String) (d : ContentDb)
      → Ensures (λ _ e. e.clips ≡ d.clips) (restore_folders ids ws d)
  unfolding Ensures
  restore_folders-clips ids ws d = ground arith

  restore_clips-IsWithin :
      (ids : List String) (ws : String) (e : ContentDb)
      → live_clips j e ≤ 300
      → count
          (live_clip_in j)
          (update_where (owned_among ids ws) (restored_clip (host.clock e.tick)) e.clips)
        ≤ 300
      → IsWithin j (restore_clips ids ws e)
  unfolding Ensures
  restore_clips-IsWithin ids ws e h k =
      ground
        (arith, docs.clip.updates (owned_among ids ws) (restored_clip (host.clock e.tick)) e.clips)

  restore_rows-IsWithin :
      ⦃locale : Locale⦄ (ws : String) (restoring wanted : List String) (folders : List Folder)
      (cs : List Clip) (db : ContentDb)
      → count (in_folder j) cs ≡ count (in_folder j) (filter (trashed_among wanted ws) db.clips)
      → live_clips j db ≤ 300
      → IsWithin j (restore_rows ws restoring wanted folders cs db)
  unfolding restore_rows
  restore_rows-IsWithin ws restoring wanted folders cs db n h =
      then_ _ _ (check_restore ws folders restoring cs db) _
        (check_restore-fits ws folders restoring cs db)
        λ _ d q.
          then_ (λ _ e. e.clips ≡ d.clips) _ (restore_folders restoring ws d) _
            (restore_folders-clips restoring ws d)
            λ _ e s.
              restore_clips-IsWithin wanted ws e
                (omega (arith, h, ap (count (live_clip_in j)) (s ∙ q.0.1)))
                (omega (arith, n, q.1, h, restored_all e (s ∙ q.0.1)))
    where
      restored_all :
          (e : ContentDb)
          → e.clips ≡ db.clips
          → count
              (live_clip_in j)
              (update_where (owned_among wanted ws) (restored_clip (host.clock e.tick)) e.clips)
            ≤ live_clips j db + count (in_folder j) (filter (trashed_among wanted ws) db.clips)
      restored_all e s = omega (
        arith,
        restored_count (owned_among wanted ws) (host.clock e.tick) e.clips,
        count-filter (in_folder j) (trashed_among wanted ws) db.clips,
        ap (count (live_clip_in j)) s,
        ap (count (λ c. in_folder j c && trashed_among wanted ws c)) s,
      )

  restore_found-IsWithin :
      ⦃locale : Locale⦄ (ws : String) (restoring wanted : List String) (folders : List Folder)
      (cs : List Clip) (db : ContentDb)
      → count (in_folder j) cs ≡ count (in_folder j) (filter (trashed_among wanted ws) db.clips)
      → live_clips j db ≤ 300
      → IsWithin j (restore_found ws restoring wanted folders cs db)
  unfolding Ensures restore_found
  restore_found-IsWithin ws restoring wanted folders cs db n h =
      grind (arith, restore_rows-IsWithin)

  pub restore_items-IsWithin :
      ⦃locale : Locale⦄ (user_id : String) (clips folders : List String) (db : ContentDb)
      → live_clips j db ≤ 300
      → IsWithin j (restore_items user_id clips folders db)
  unfolding restore_items
  restore_items-IsWithin user_id clips folders db h =
      then_ _ _ (lock_clip_quota user_id db) _ (lock_clip_quota-Frames user_id db) λ ws d fr.
        restore_found-IsWithin ws _ _ _ _ d
          (docs.clip.finds_all (trashed_among (unique clips) ws) (in_folder j) d.clips)
          (omega (arith, h, ap (count (live_clip_in j)) fr.1))
