-- ===== src/Content/Trash/Cursors.antt =====
-- The cursor of a trash page: what it is written as, and what lies behind it.
use Prim.Native.Char.{code}
use easy_clip_be.Common.{
  ℕ, String, ◌≡◌, refl, Bool, false, not, ◌&&◌, ◌||◌, none, some, arith, ◌===◌, ◌==◌, is_empty,
}
use easy_clip_be.Content.Types.{Clip, Folder}
use easy_clip_be.Content.Trash.Listing.{
  TrashItemType, clip_item, folder_item, TrashItem, TrashItemCursor, up_to_colon,
  parse_trash_item_cursor, compare_trash_items, build_clip_trash_cursor_where,
  build_folder_trash_cursor_where, of_clip, of_folder,
}
use easy_clip_be.Content.Trash.Pages.{cursor_text}

abbrev pub has_colon : String → Bool
has_colon String.[] = false
has_colon (String.◌∷◌ c s) = let rest = has_colon s in (code c == 58) || rest

up_to_colon-none : (s : String) → has_colon s ≡ false → up_to_colon s ≡ s
up_to_colon-none String.[] h = refl
up_to_colon-none (String.◌∷◌ c s) h = ground (arith, up_to_colon-none s)

-- A cursor is read back as it was written, for an identifier that is not empty and has no colon.
pub parse-cursor_text :
    (t : TrashItemType) (id : String)
    → is_empty id ≡ false
    → has_colon id ≡ false
    → parse_trash_item_cursor (cursor_text t id) ≡ some (t, id)
unfolding cursor_text parse_trash_item_cursor
parse-cursor_text clip_item id e h = rw (up_to_colon-none id h) (ground (arith, e))
parse-cursor_text folder_item id e h = rw (up_to_colon-none id h) (ground (arith, e))

abbrev pub item_at : TrashItemCursor → TrashItem
item_at k = record {
  item_type = k.item_type;
  id = k.id;
  title = "";
  clip_type = none;
  folder_id = none;
  text_content = none;
  image_url = none;
  color_hex = none;
  deleted_at = k.deleted_at;
}

-- The database orders two identifiers as the code's `<` does.
abbrev pub Agree : (String → String → Bool) → (String → String → Bool) → Type 0
Agree less collate = (a b : String) → collate b a ≡ (not (a === b) && not (less a b))

-- For deleted rows, and a database that orders identifiers as the code does, the filters of the
-- next page pass exactly the items that the listing sorts behind the cursor.
pub filters-follow :
    (less collate : String → String → Bool) (k : TrashItemCursor) (t : ℕ) (c : Clip) (s : ℕ)
    (f : Folder) (u : ℕ)
    → Agree less collate
    → k.deleted_at ≡ some t
    → c.deleted_at ≡ some s
    → f.deleted_at ≡ some u
    → (build_clip_trash_cursor_where collate k c ≡ compare_trash_items less (item_at k) (of_clip c))
      × (build_folder_trash_cursor_where collate k f
          ≡ compare_trash_items less (item_at k) (of_folder f))
unfolding build_clip_trash_cursor_where build_folder_trash_cursor_where compare_trash_items
filters-follow less collate k t c s f u h kt cs fu =
    (ground (arith, h k.id c.id), ground (arith, h k.id f.id))
