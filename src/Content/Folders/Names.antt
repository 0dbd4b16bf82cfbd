-- ===== src/Content/Folders/Names.antt =====
-- shared/application/name-normalization.helper.ts, shared/application/tag-name.helper.ts,
-- shared/application/tag-background-color.helper.ts and folders/application/helpers: the names
-- and colours that a request may give. A text is its code points, as `Array.from` counts them.
use Prim.Native.Char.{code}
use easy_clip_be.Common.{
  ℕ, suc, String, Bool, ◌&&◌, Option, none, some, List, [], ◌∷◌, ◌===◌, is_space, is_empty, ltb,
  leb, if◌then◌else◌,
}
use easy_clip_be.Content.Types.{
  TagBackgroundColor, gray, brown, orange, yellow, green, blue, purple, pink, red,
}

abbrev pub text_length : String → ℕ
text_length String.[] = 0
text_length (String.◌∷◌ c s) = suc (text_length s)

abbrev pub trim_start : String → String
trim_start String.[] = String.[]
trim_start (String.◌∷◌ c s) =
    let rest = trim_start s in if is_space (code c) then rest else String.◌∷◌ c s

-- A text of spaces alone ends here.
abbrev pub trim_end : String → String
trim_end String.[] = String.[]
trim_end (String.◌∷◌ c s) =
    let rest = trim_end s in
    if is_space (code c) && is_empty rest then String.[] else String.◌∷◌ c rest

-- `value.trim()`
abbrev pub trimmed : String → String
trimmed s = trim_end (trim_start s)

pub data NormalizeBoundedNameFailureReason : Type 0 where
  empty_name too_long : NormalizeBoundedNameFailureReason

pub data NormalizeBoundedNameResult : Type 0 where
  accepted : String → NormalizeBoundedNameResult
  refused : NormalizeBoundedNameFailureReason → NormalizeBoundedNameResult

unfoldable pub normalize_bounded_name : String → ℕ → NormalizeBoundedNameResult
normalize_bounded_name value max_length =
    if is_empty (trimmed value)
    then refused empty_name
    else if ltb max_length (text_length (trimmed value))
    then refused too_long
    else accepted (trimmed value)

abbrev pub folder_name_max_length : ℕ
folder_name_max_length = 10

abbrev pub tag_name_max_length : ℕ
tag_name_max_length = 10

unfoldable pub is_valid_tag_name : String → Bool
is_valid_tag_name value =
    ltb 0 (text_length (trimmed value)) && leb (text_length value) tag_name_max_length

-- None stands for a text that the use case refuses with BAD_REQUEST.
unfoldable pub normalize_folder_name : String → Option String
unfolding normalize_bounded_name
normalize_folder_name name = elim (normalize_bounded_name name folder_name_max_length) [
  | accepted value ↦ some value
  | refused _ ↦ none
]

unfoldable pub normalize_folder_tag_name : String → Option String
unfolding is_valid_tag_name
normalize_folder_tag_name name = if is_valid_tag_name name then some name else none

-- The value of a request, which may be of any type: undefined, null, or another.
pub data Given : Type 0 where
  absent null other : Given
  text : String → Given

-- `TAG_BACKGROUND_COLORS`, with the names that the database stores.
abbrev pub tag_background_colors : List (String × TagBackgroundColor)
tag_background_colors =
    ("GRAY", gray)
    ∷ ("BROWN", brown)
    ∷ ("ORANGE", orange)
    ∷ ("YELLOW", yellow)
    ∷ ("GREEN", green)
    ∷ ("BLUE", blue)
    ∷ ("PURPLE", purple)
    ∷ ("PINK", pink)
    ∷ ("RED", red)
    ∷ []

abbrev pub color_named : String → List (String × TagBackgroundColor) → Option TagBackgroundColor
color_named value [] = none
color_named value (c ∷ cs) = if c.0 === value then some c.1 else color_named value cs

unfoldable pub resolve_folder_tag_background_color : Given → Option TagBackgroundColor
resolve_folder_tag_background_color absent = some gray
resolve_folder_tag_background_color null = some gray
resolve_folder_tag_background_color other = none
resolve_folder_tag_background_color (text value) = color_named value tag_background_colors
