-- ===== src/Content/Trash/Pages.antt =====
-- trash/application/helpers/trash-pagination.helper.ts.
use easy_clip_be.Common.{
  ℕ, String, Bool, true, false, Option, none, some, List, [], ◌∷◌, ltb, length, take, if◌then◌else◌,
}
use easy_clip_be.Content.Trash.Listing.{TrashItem, TrashItemType, clip_item, folder_item}

-- A number of a request or of the configuration.
pub data GivenNumber : Type 0 where
  missing fraction negative : GivenNumber
  whole : ℕ → GivenNumber

pub record TrashCursorPage (T : Type 0) : Type 0 where
  pub items : List T
  pub has_next_page : Bool
  pub next_cursor : Option String

unfoldable pub normalize_limit : GivenNumber → ℕ
normalize_limit missing = 20
normalize_limit fraction = 20
normalize_limit negative = 1
normalize_limit (whole n) = if ltb n 1 then 1 else if ltb 100 n then 100 else n

abbrev pub last_of : {A : Type 0} → List A → Option A
last_of [] = none
last_of (a ∷ as') = elim (last_of as') [ none ↦ some a | some b ↦ some b ]

abbrev pub cursor_at : {A : Type 0} → (A → String) → Option A → Option String
cursor_at f none = none
cursor_at f (some a) = some (f a)

unfoldable pub to_cursor_page : {T : Type 0} → List T → ℕ → (T → String) → TrashCursorPage T
to_cursor_page items limit get_cursor =
    if ltb limit (length items)
    then record {
      items = take limit items;
      has_next_page = true;
      next_cursor = cursor_at get_cursor (last_of (take limit items));
    }
    else record { items = items; has_next_page = false; next_cursor = none }

abbrev pub append : String → String → String
append String.[] t = t
append (String.◌∷◌ c s) t = String.◌∷◌ c (append s t)

abbrev pub type_name : TrashItemType → String
type_name clip_item = "CLIP"
type_name folder_item = "FOLDER"

-- `${item.itemType}:${item.id}`
unfoldable pub cursor_text : TrashItemType → String → String
cursor_text item_type id = append (type_name item_type) (append ":" id)

abbrev pub cursor_of_item : TrashItem → String
cursor_of_item item = cursor_text item.item_type item.id
