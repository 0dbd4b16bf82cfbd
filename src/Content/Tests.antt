-- ===== src/Content/Tests.antt =====
-- The properties of the content at concrete tables, and runs of the operations.
use easy_clip_be.Common.{
  ◌≤◌, ◌≡◌, refl, true, count, none, some, List, [], ◌∷◌, ◌++◌, ◌+◌, ◌↔◌, arith, inl, inr, Occurs,
  take, drop_through,
}
use easy_clip_be.Subscriptions.Types.{Subscription, free, pro}
use easy_clip_be.Content.Types.{Clip, FolderAccess, text}
use easy_clip_be.Content.Store.{ContentDb, Ensures, ok, err, clip_limit, ClipLimitDetails}
use easy_clip_be.Content.Sample.{
  memory, memory-IsDocumentedContent, host_sample, arithmetic_sample, locale_sample, losing_sample,
  numbers_sample, colors_sample, decoder_sample, image_file, text_less, text_before, clip_row,
  folder_row, sample_db, sample_world, tables_of, workspace_row, subscription_row,
}
use easy_clip_be.Content.Clips.UseCases.{create, save}
use easy_clip_be.Content.Clips.Reads.{
  find_personal_folder_by_id, with_read_access, is_created_image_referenced,
}
use easy_clip_be.Content.Clips.Data.{normalize_uploaded_file_name}
use easy_clip_be.Content.Clips.Images.{IsClean, create-IsClean}
use easy_clip_be.Content.Clips.Lists.{build_page}
use easy_clip_be.Content.Clips.Pages.{has_cursor, page-then_rest}
use easy_clip_be.Content.Folders.Repository.{CreateFolderParams, FolderOutput, create_folder}
use easy_clip_be.Content.Folders.Limit.{create_folder-lone}
use easy_clip_be.Content.Trash.Keeping.{hard_delete_spares, purge_spares}
use easy_clip_be.Content.Trash.Listing.{
  TrashItemCursor, clip_item, folder_item, build_clip_trash_cursor_where,
  build_folder_trash_cursor_where, compare_trash_items, of_clip, of_folder, parse_trash_item_cursor,
}
use easy_clip_be.Content.Trash.Pages.{cursor_text}
use easy_clip_be.Content.Trash.Cursors.{item_at, filters-follow, parse-cursor_text}
use easy_clip_be.Content.Access.Upgrade.{upgrade_iff_accepted}
use easy_clip_be.Content.Quota.Writes.{live_clips}
use easy_clip_be.Content.Quota.Schedule.{
  ContentWrite, on_clips, on_trash, creates_clip, restores, trashes_clip, purges_clips, run_writes,
  run_writes_bounded,
}
use easy_clip_be.Content.Clips.Writes.{CreateClipParams, create_clip, add_clip_within, add_clip}
use easy_clip_be.Content.Trash.Writes.{
  hard_delete_items, hard_delete_expired_clips, restore_items, restore_found, restore_rows,
  check_restore,
}
use easy_clip_be.Content.Access.Defs.{
  resolve_clip_entitlements, choose_folder, live_in, lock_workspace_access, lock_clip_quota,
  ensure_subscription, resolve_folder_access, read_clip_quota, prepare_folder_restore,
  assert_folder_access, assert_clip_increase,
}

abbrev new_text : CreateClipParams
new_text = record {
  type = text;
  title = "new";
  folder_id = "f1";
  workspace_id = "w1";
  text_content = some "new";
  color_hex = none;
  image_url = none;
}

abbrev schedule : List ContentWrite
schedule =
    on_clips (creates_clip "u1" new_text)
    ∷ on_trash (restores "u1" ("c2" ∷ []) [])
    ∷ on_clips (trashes_clip "u1" "c1")
    ∷ on_trash (purges_clips (some 50) 10)
    ∷ []

abbrev live_clip : Clip
live_clip = clip_row "c1" none

abbrev trashed_sample : Clip
trashed_sample = clip_row "c2" (some 40)

abbrev cursor_sample : TrashItemCursor
cursor_sample = record { item_type = clip_item; id = "c3"; deleted_at = some 40 }

next_is_a : (build_page (λ s. s) (take (1 + 1) ("a" ∷ "b" ∷ "c" ∷ [])) 1).next_cursor ≡ some "a"
unfolding build_page
next_is_a = refl

abbrev refused_clip : ClipLimitDetails
refused_clip = record {
  folder_id = "f1";
  limit = 50;
  current_count = 50;
  requested_increase = 1;
  upgrade_can_resolve = true;
}

refusal :
    assert_clip_increase (resolve_clip_entitlements subscription_row 100) "f1" 50 1 sample_db
    ≡ err (clip_limit refused_clip)
unfolding assert_clip_increase
refusal = refl

abbrev paid_row : Subscription
paid_row = record subscription_row { plan = pro; current_period_end = some 500 }

run_writes_bounded_example :
    live_clips "f1" (
      run_writes ⦃prisma = memory⦄ ⦃host = host_sample⦄ ⦃arithmetic = arithmetic_sample⦄
        ⦃locale = locale_sample⦄ schedule sample_db)
    ≤ 300
run_writes_bounded_example =
    run_writes_bounded ⦃prisma = memory⦄ ⦃host = host_sample⦄ ⦃arithmetic = arithmetic_sample⦄
      ⦃locale = locale_sample⦄ memory-IsDocumentedContent "f1" schedule sample_db (omega arith)

after_create :
    live_clips "f1" (
      run_writes ⦃prisma = memory⦄ ⦃host = host_sample⦄ ⦃arithmetic = arithmetic_sample⦄
        ⦃locale = locale_sample⦄
        (on_clips (creates_clip "u1" new_text) ∷ on_trash (restores "u1" ("c2" ∷ []) []) ∷ [])
        sample_db)
    ≡ 3
unfolding create_clip restore_items lock_clip_quota ensure_subscription add_clip_within add_clip
    resolve_folder_access read_clip_quota restore_found restore_rows check_restore
    prepare_folder_restore assert_folder_access assert_clip_increase
after_create = refl

create-IsClean_example :
    IsClean ⦃prisma = memory⦄ ⦃host = host_sample⦄ ⦃arithmetic = arithmetic_sample⦄
      ⦃outside = losing_sample⦄ ⦃numbers = numbers_sample⦄ ⦃colors = colors_sample⦄
      ⦃decoder = decoder_sample⦄ "u1" []
      (create ⦃prisma = memory⦄ ⦃host = host_sample⦄ ⦃arithmetic = arithmetic_sample⦄
        ⦃outside = losing_sample⦄ ⦃numbers = numbers_sample⦄ ⦃colors = colors_sample⦄
        ⦃decoder = decoder_sample⦄ "u1" "f1" none
        (some image_file)
        sample_world).1
create-IsClean_example =
    create-IsClean ⦃prisma = memory⦄ ⦃host = host_sample⦄ ⦃arithmetic = arithmetic_sample⦄
      ⦃outside = losing_sample⦄ ⦃numbers = numbers_sample⦄ ⦃colors = colors_sample⦄
      ⦃decoder = decoder_sample⦄ memory-IsDocumentedContent "u1" "f1" none (some image_file)
      sample_world

-- The upload of the failed request is asked to go.
cleaned :
    (create ⦃prisma = memory⦄ ⦃host = host_sample⦄ ⦃arithmetic = arithmetic_sample⦄
      ⦃outside = losing_sample⦄ ⦃numbers = numbers_sample⦄ ⦃colors = colors_sample⦄
      ⦃decoder = decoder_sample⦄ "u1" "f1" none
      (some image_file)
      sample_world).1.deleted
    ≡ "https://images/one" ∷ []
unfolding create save find_personal_folder_by_id with_read_access is_created_image_referenced
    lock_clip_quota ensure_subscription resolve_folder_access lock_workspace_access read_clip_quota
    assert_folder_access normalize_uploaded_file_name
cleaned = refl

hard_delete_spares_example :
    Ensures
      (λ _ d. Occurs live_clip d.clips)
      (hard_delete_items ⦃prisma = memory⦄ ⦃host = host_sample⦄ ⦃arithmetic = arithmetic_sample⦄
        "u1"
        ("c1" ∷ "c2" ∷ [])
        ("f1" ∷ [])
        sample_db)
hard_delete_spares_example =
    hard_delete_spares ⦃prisma = memory⦄ ⦃host = host_sample⦄ ⦃arithmetic = arithmetic_sample⦄
      memory-IsDocumentedContent "u1" ("c1" ∷ "c2" ∷ []) ("f1" ∷ []) live_clip (folder_row none)
      sample_db (inl refl, omega arith) refl (inl refl, (omega arith), refl, refl)

purge_spares_example :
    Ensures
      (λ _ d. Occurs trashed_sample d.clips)
      (hard_delete_expired_clips ⦃prisma = memory⦄ ⦃host = host_sample⦄
        ⦃arithmetic = arithmetic_sample⦄
        (some 39)
        10
        sample_db)
purge_spares_example =
    purge_spares ⦃prisma = memory⦄ ⦃host = host_sample⦄ ⦃arithmetic = arithmetic_sample⦄
      memory-IsDocumentedContent (some 39) 10 trashed_sample sample_db (inr (inl refl), omega arith)
      (omega arith)

filters-follow_example :
    (build_clip_trash_cursor_where text_before cursor_sample trashed_sample
      ≡ compare_trash_items text_less (item_at cursor_sample) (of_clip trashed_sample))
    × (build_folder_trash_cursor_where text_before cursor_sample (folder_row (some 40))
        ≡ compare_trash_items text_less (item_at cursor_sample) (of_folder (folder_row (some 40))))
filters-follow_example =
    filters-follow text_less text_before cursor_sample 40 trashed_sample 40 (folder_row (some 40))
      40 (λ a b. refl) refl refl refl

page-then_rest_example :
    (build_page (λ s. s) (take (1 + 1) ("a" ∷ "b" ∷ "c" ∷ [])) 1).items
      ++ drop_through (has_cursor (λ s. s) "a") ("a" ∷ "b" ∷ "c" ∷ [])
    ≡ "a" ∷ "b" ∷ "c" ∷ []
page-then_rest_example =
    page-then_rest (λ s. s) 1 ("a" ∷ "b" ∷ "c" ∷ []) "a" (refl, (refl, (refl, tt))) next_is_a

parse-cursor_text_example :
    parse_trash_item_cursor (cursor_text folder_item "f1") ≡ some (folder_item, "f1")
parse-cursor_text_example = parse-cursor_text folder_item "f1" refl refl

upgrade_iff_accepted_example : (true ≡ true) ↔ (
    assert_clip_increase (resolve_clip_entitlements paid_row 100) "f1" 50 1 sample_db
    ≡ ok (tt, sample_db))
upgrade_iff_accepted_example =
    upgrade_iff_accepted subscription_row paid_row 500 100 "f1" 50 1 sample_db refused_clip refl
      refl refl refl (omega arith) refusal

abbrev no_folders : ContentDb
no_folders = tables_of [] []

abbrev free_access : FolderAccess
free_access = record {
  entitlements = record { effective_plan = free; limit = 50 };
  workspace_id = "w1";
  accessible_folder_id = none;
}

abbrev after_lock : ContentDb
after_lock = record no_folders { workspaces = choose_folder none none workspace_row ∷ []; tick = 2 }

lock_of_new_user :
    lock_workspace_access ⦃prisma = memory⦄ ⦃host = host_sample⦄ ⦃arithmetic = arithmetic_sample⦄
      "w1" no_folders
    ≡ ok (free_access, after_lock)
unfolding lock_workspace_access lock_clip_quota ensure_subscription resolve_folder_access
    read_clip_quota
lock_of_new_user = refl

abbrev first_folder : CreateFolderParams
first_folder = record { workspace_id = "w1"; name = "first"; order = record { bits = 5 } }

create_folder-lone_example :
    Ensures
      (λ (f : FolderOutput) (d : ContentDb). count (live_in "w1") d.folders ≡ 1)
      (create_folder ⦃prisma = memory⦄ ⦃host = host_sample⦄ ⦃arithmetic = arithmetic_sample⦄
        first_folder no_folders)
create_folder-lone_example =
    create_folder-lone ⦃prisma = memory⦄ ⦃host = host_sample⦄ ⦃arithmetic = arithmetic_sample⦄
      memory-IsDocumentedContent first_folder free_access no_folders after_lock lock_of_new_user
      refl
