-- ===== src/Content/Folders/UseCases.antt =====
-- folders/application/usecases.
use easy_clip_be.Common.{
  ℕ, String, Bool, true, false, ◌&&◌, not, Option, none, some, List, [], ◌===◌, ◌==◌, is_missing,
  if◌then◌else◌,
}
use easy_clip_be.Subscriptions.App.{bad_request, conflict}
use easy_clip_be.Content.Types.{
  Double, Folder, Tag, TagBackgroundColor, gray, brown, orange, yellow, green, blue, purple, pink,
  red, is_null,
}
use easy_clip_be.Content.Store.{ContentPrisma, Host}
use easy_clip_be.Content.App.{App, return_, refuse, ◌>>=◌, ◌>>◌, Outside, run}
use easy_clip_be.Content.Access.Defs.{Arithmetic, text_or_empty}
use easy_clip_be.Content.Clips.UseCases.{or_refuse, or_missing}
use easy_clip_be.Content.Folders.Names.{
  Given, absent, normalize_folder_name, normalize_folder_tag_name,
  resolve_folder_tag_background_color,
}
use easy_clip_be.Content.Folders.Order.{
  ReorderFolderInput, validate_reorder_folder_input, resolve_reference_id,
  calculate_reordered_folder_order,
}
use easy_clip_be.Content.Folders.Repository.{
  FolderOutput, FolderOrderParams, plain, find_personal_workspace_id,
  get_or_create_personal_workspace_id, find_folders_by_workspace_id, find_personal_folder_by_id,
  find_folder_by_id, find_folder_by_id_in_workspace, assert_tag_management_available,
  find_tags_by_folder_id, find_tag_by_id_in_folder, find_tag_by_name_in_folder,
  find_last_folder_order, create_folder, create_folder_tag, update_folder_name, update_folder_tag,
  update_folder_order, delete_folder_tag, soft_delete_folder, find_previous_folder_order,
  find_next_folder_order,
}

pub record UpdateFolderTagInput : Type 0 where
  pub folder_id : String
  pub tag_id : String
  pub name : Option String
  pub background_color : Given

abbrev pub color_number : TagBackgroundColor → ℕ
color_number gray = 0
color_number brown = 1
color_number orange = 2
color_number yellow = 3
color_number green = 4
color_number blue = 5
color_number purple = 6
color_number pink = 7
color_number red = 8

-- The double 1.
abbrev pub one : Double
one = record { bits = 0x3ff0000000000000 }

-- A name that is given and valid, or none that is given.
abbrev pub wanted_name : Option String → Option (Option String)
wanted_name none = some none
wanted_name (some n) = elim (normalize_folder_tag_name n) [ none ↦ none | some m ↦ some (some m) ]

abbrev pub wanted_color : Given → Option (Option TagBackgroundColor)
wanted_color absent = some none
wanted_color given = elim (resolve_folder_tag_background_color given) [
  | none ↦ none
  | some c ↦ some (some c)
]

abbrev pub changed_name : Option String → Tag → Option String
changed_name none g = none
changed_name (some n) g = if n === g.name then none else some n

abbrev pub changed_color : Option TagBackgroundColor → Tag → Option TagBackgroundColor
changed_color none g = none
changed_color (some c) g =
    if color_number c == color_number g.background_color then none else some c

abbrev pub clashes_with : Option Tag → Tag → Bool
clashes_with none g = false
clashes_with (some d) g = not (d.id === g.id)

module _ ⦃prisma : ContentPrisma⦄ ⦃host : Host⦄ ⦃arithmetic : Arithmetic⦄ ⦃outside : Outside⦄ where
  -- The folder of a request.
  abbrev pub of_folder : String → String → Bool → App FolderOutput
  of_folder user_id folder_id allow_locked = do
    found ← run (find_personal_folder_by_id user_id folder_id allow_locked)
    or_missing found

  abbrev pub next_order : Option Double → Double
  next_order none = one
  next_order (some d) = if arithmetic.is_zero d then one else arithmetic.plus_one d

  unfoldable pub create : String → String → App FolderOutput
  unfolding normalize_folder_name get_or_create_personal_workspace_id find_last_folder_order
      create_folder
  create user_id name = do
    normalized ← or_refuse (normalize_folder_name name)
    workspace_id ← run (get_or_create_personal_workspace_id user_id)
    last ← run (find_last_folder_order workspace_id)
    run (
        create_folder
          (record { workspace_id = workspace_id; name = normalized; order = next_order last }))

  unfoldable pub list_folders : String → App (List FolderOutput)
  unfolding find_personal_workspace_id find_folders_by_workspace_id
  list_folders user_id = do
    found ← run (find_personal_workspace_id user_id)
    if is_missing found
        then return_ []
        else run (find_folders_by_workspace_id (text_or_empty found))

  unfoldable pub get_folder : String → String → App FolderOutput
  get_folder user_id folder_id = of_folder user_id folder_id false

  -- Without a name the folder comes back as it is.
  unfoldable pub update_folder : String → String → Option String → App FolderOutput
  unfolding normalize_folder_name update_folder_name
  update_folder user_id folder_id name = do
    f ← of_folder user_id folder_id false
    elim name [
      | none ↦ return_ f
      | some n ↦ do
        normalized ← or_refuse (normalize_folder_name n)
        g ← run (update_folder_name f.id normalized)
        return_ (plain g)
    ]

  unfoldable pub delete_folder : String → String → App Folder
  unfolding soft_delete_folder
  delete_folder user_id folder_id = do
    f ← of_folder user_id folder_id true
    run (soft_delete_folder f.id)

  abbrev pub neighbour : Bool → App (Option Double) → App (Option Double)
  neighbour asked find = if asked then find else return_ none

  unfoldable pub reorder_folder : String → ReorderFolderInput → App FolderOutput
  unfolding validate_reorder_folder_input resolve_reference_id find_folder_by_id_in_workspace
      find_previous_folder_order find_next_folder_order calculate_reordered_folder_order
      find_folder_by_id update_folder_order
  reorder_folder user_id input =
      if not (validate_reorder_folder_input input) then refuse bad_request else do
        target ← of_folder user_id input.target_id false
        reference_id ← or_refuse (resolve_reference_id input)
        found ← run (find_folder_by_id_in_workspace reference_id target.workspace_id)
        reference ← or_missing found
        let params : FolderOrderParams = record {
          workspace_id = target.workspace_id;
          reference_order = reference.order;
          exclude_id = target.id;
        }
        previous ←
            neighbour (not (is_missing input.before_id)) (run (find_previous_folder_order params))
        next ← neighbour (is_missing input.before_id) (run (find_next_folder_order params))
        let order = calculate_reordered_folder_order reference.order input.before_id previous next
        if not (arithmetic.same order target.order)
            then (do f ← run (update_folder_order target.id order); return_ (plain f))
            else do
              again ← run (find_folder_by_id target.id)
              return_ (elim again [ none ↦ target | some f ↦ plain f ])

  unfoldable pub list_folder_tags : String → String → App (List Tag)
  unfolding find_tags_by_folder_id
  list_folder_tags user_id folder_id = do
    f ← of_folder user_id folder_id false
    run (find_tags_by_folder_id f.id)

  unfoldable pub create_tag : String → String → String → Given → App Tag
  unfolding normalize_folder_tag_name resolve_folder_tag_background_color
      assert_tag_management_available find_tag_by_name_in_folder create_folder_tag
  create_tag user_id folder_id name color = do
    normalized ← or_refuse (normalize_folder_tag_name name)
    background ← or_refuse (resolve_folder_tag_background_color color)
    f ← of_folder user_id folder_id false
    run (assert_tag_management_available f.id)
    existing ← run (find_tag_by_name_in_folder f.id normalized)
    if not (is_null existing)
        then refuse conflict
        else run (
            create_folder_tag
              (record { folder_id = f.id; name = normalized; background_color = background }))

  abbrev pub assert_name_free : String → Option String → Tag → App (Unit {0})
  assert_name_free folder_id none g = return_ tt
  assert_name_free folder_id (some n) g = do
    duplicated ← run (find_tag_by_name_in_folder folder_id n)
    if clashes_with duplicated g then refuse conflict else return_ tt

  unfoldable pub update_tag : String → UpdateFolderTagInput → App Tag
  unfolding find_tag_by_id_in_folder assert_tag_management_available update_folder_tag
  update_tag user_id input = do
    name ← or_refuse (wanted_name input.name)
    color ← or_refuse (wanted_color input.background_color)
    if is_null name && is_null color then refuse bad_request else do
      f ← of_folder user_id input.folder_id false
      found ← run (find_tag_by_id_in_folder f.id input.tag_id)
      g ← or_missing found
      run (assert_tag_management_available f.id)
      assert_name_free f.id (changed_name name g) g
      if is_null (changed_name name g) && is_null (changed_color color g)
          then return_ g
          else run (
              update_folder_tag g.id
                (record { name = changed_name name g; background_color = changed_color color g }))

  unfoldable pub delete_tag : String → String → String → App (Unit {0})
  unfolding find_tag_by_id_in_folder delete_folder_tag
  delete_tag user_id folder_id tag_id = do
    f ← of_folder user_id folder_id false
    found ← run (find_tag_by_id_in_folder f.id tag_id)
    g ← or_missing found
    run (delete_folder_tag g.id)
