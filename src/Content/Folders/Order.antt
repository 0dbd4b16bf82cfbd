-- ===== src/Content/Folders/Order.antt =====
-- folders/application/helpers/reorder-folder.helper.ts: where a moved folder comes to stand.
use easy_clip_be.Common.{
  String, Bool, ◌||◌, ◌&&◌, not, Option, none, some, is_missing, if◌then◌else◌,
}
use easy_clip_be.Content.Types.{Double}
use easy_clip_be.Content.Access.Defs.{Arithmetic, is_text}

pub record ReorderFolderInput : Type 0 where
  pub target_id : String
  pub after_id : Option String
  pub before_id : Option String

-- Whether the request is well formed; the use case refuses the others with BAD_REQUEST.
unfoldable pub validate_reorder_folder_input : ReorderFolderInput → Bool
validate_reorder_folder_input input =
    not (
      (is_missing input.after_id && is_missing input.before_id)
      || (not (is_missing input.after_id) && not (is_missing input.before_id)))
    && not (is_text input.after_id input.target_id || is_text input.before_id input.target_id)

-- `??`: an empty `afterId` hides `beforeId`, and counts as none.
abbrev pub or_else : Option String → Option String → Option String
or_else (some t) _ = some t
or_else none o = o

unfoldable pub resolve_reference_id : ReorderFolderInput → Option String
resolve_reference_id input =
    if is_missing (or_else input.after_id input.before_id)
    then none
    else or_else input.after_id input.before_id

-- An order zero is falsy, like a missing one.
unfoldable pub calculate_reordered_folder_order :
    ⦃arithmetic : Arithmetic⦄ → Double → Option String → Option Double → Option Double → Double
calculate_reordered_folder_order ⦃arithmetic⦄ reference before_id previous_order next_order =
    if not (is_missing before_id)
    then elim previous_order [
      | none ↦ arithmetic.minus_one reference
      | some p ↦
          if arithmetic.is_zero p
          then arithmetic.minus_one reference
          else arithmetic.mean p reference
    ]
    else elim next_order [
      | none ↦ arithmetic.plus_one reference
      | some n ↦
          if arithmetic.is_zero n
          then arithmetic.plus_one reference
          else arithmetic.mean reference n
    ]
