-- ===== src/Content/Clips/UseCases.antt =====
-- clips/application/usecases: what a request changes, and the images that go with it.
use easy_clip_be.Common.{
  ℕ, String, Bool, true, false, ◌||◌, ◌&&◌, not, Option, none, some, List, ◌==◌, length, is_missing,
  is_empty, if◌then◌else◌,
}
use easy_clip_be.Subscriptions.App.{bad_request, not_found}
use easy_clip_be.Content.Types.{Clip, Folder, Tag, is_null}
use easy_clip_be.Content.Store.{ContentPrisma, Host, any}
use easy_clip_be.Content.App.{
  App, fail, return_, refuse, rescue, ◌>>=◌, ◌>>◌, Outside, UploadedFile, run, upload_image,
  delete_image,
}
use easy_clip_be.Content.Access.Defs.{Arithmetic, is_text, text_or_empty, unique}
use easy_clip_be.Content.Folders.Names.{
  accepted, refused, trimmed, normalize_bounded_name, is_valid_tag_name,
}
use easy_clip_be.Content.Clips.Colors.{Numbers, ColorString}
use easy_clip_be.Content.Clips.Data.{
  ClipData, Decoder, resolve_clip_data, to_image_clip_data, is_allowed_clip_image_mime_type,
}
use easy_clip_be.Content.Clips.Reads.{
  find_personal_folder_by_id, find_clip_by_id_for_user, is_created_image_referenced,
  is_clip_image_referenced,
}
use easy_clip_be.Content.Clips.Writes.{
  CreateClipParams, UpdateClipParams, content, title_only, create_clip, update_clip,
  create_clip_like, delete_clip_like, create_clip_view, replace_clip_tags, soft_delete_clip,
  soft_delete_clips, soft_delete_all_clips_in_folder,
}

abbrev pub clip_title_max_length : ℕ
clip_title_max_length = 15

-- `UpdateClipInput`: a title may be of any type.
pub data GivenTitle : Type 0 where
  absent other_title : GivenTitle
  title_text : String → GivenTitle

pub record UpdateClipInput : Type 0 where
  pub clip_id : String
  pub names_place : Bool
  pub title : GivenTitle
  pub text : Option String

-- The title that is asked for, if the request is right.
abbrev pub wanted_title : GivenTitle → Option (Option String)
wanted_title absent = some none
wanted_title other_title = none
wanted_title (title_text t) = elim (normalize_bounded_name t clip_title_max_length) [
  | accepted value ↦ some (some value)
  | refused _ ↦ none
]

abbrev pub params_of : ClipData → Folder → CreateClipParams
params_of d f = record {
  type = d.type;
  title = d.title;
  folder_id = f.id;
  workspace_id = f.workspace_id;
  text_content = d.text_content;
  color_hex = d.color_hex;
  image_url = d.image_url;
}

abbrev pub title_or : Option String → String → String
title_or none t = t
title_or (some t) _ = t

abbrev pub content_of : Option String → ClipData → UpdateClipParams
content_of title d = content d.type (title_or title d.title) d.text_content d.color_hex d.image_url

abbrev pub or_refuse : {A : Type 0} → Option A → App A
or_refuse none = refuse bad_request
or_refuse (some a) = return_ a

abbrev pub or_missing : {A : Type 0} → Option A → App A
or_missing none = refuse not_found
or_missing (some a) = return_ a

module _ ⦃prisma : ContentPrisma⦄ ⦃host : Host⦄ ⦃arithmetic : Arithmetic⦄ ⦃outside : Outside⦄
    ⦃numbers : Numbers⦄ ⦃colors : ColorString⦄ ⦃decoder : Decoder⦄ where
  abbrev pub upload_image_and_resolve_clip_data : String → UploadedFile → App ClipData
  upload_image_and_resolve_clip_data user_id file =
      if not (is_allowed_clip_image_mime_type file.mime_type)
      then refuse bad_request
      else do url ← upload_image user_id file; return_ (to_image_clip_data file url)

  abbrev pub clip_data : String → Option String → Option UploadedFile → App ClipData
  clip_data user_id text none = or_refuse (resolve_clip_data text)
  clip_data user_id text (some file) = upload_image_and_resolve_clip_data user_id file

  -- The image of a failed request is deleted where no clip is seen to refer to it.
  abbrev pub clean_up : Option UploadedFile → Option String → App Bool → App (Unit {0})
  clean_up file url is_referenced =
      if is_null file || is_missing url
      then return_ tt
      else rescue
          (do
            referenced ← is_referenced
            if referenced then return_ tt else delete_image (text_or_empty url))
          (λ _. return_ tt)

  -- The clip is written; the image of one that is not is cleaned up.
  unfoldable pub save : String → Option UploadedFile → ClipData → Folder → App Clip
  unfolding create_clip is_created_image_referenced
  save user_id file d f = rescue (run (create_clip user_id (params_of d f))) λ e. do
    clean_up file d.image_url
        (run (is_created_image_referenced user_id (text_or_empty d.image_url)))
    fail e

  unfoldable pub create : String → String → Option String → Option UploadedFile → App Clip
  unfolding find_personal_folder_by_id save
  create user_id folder_id text file = do
    found ← run (find_personal_folder_by_id user_id folder_id)
    f ← or_missing found
    d ← clip_data user_id text file
    save user_id file d f

  abbrev pub delete_previous_image_if_replaced : Option String → Option String → App (Unit {0})
  delete_previous_image_if_replaced previous next =
      if is_missing previous || is_text next (text_or_empty previous)
      then return_ tt
      else rescue (delete_image (text_or_empty previous)) (λ _. return_ tt)

  abbrev pub image_of : UpdateClipParams → Option String
  image_of (content _ _ _ _ url) = url
  image_of (title_only _) = none

  -- The new content with the title that is asked for, or the title alone.
  abbrev pub update_params :
      String → Bool → Option String → Option String → Option UploadedFile → App UpdateClipParams
  update_params user_id has_content title text file = elim has_content [
    | false ↦ return_ (title_only (text_or_empty title))
    | true ↦ do d ← clip_data user_id text file; return_ (content_of title d)
  ]

  abbrev pub apply_update :
      String → Bool → Option String → Option String → Option UploadedFile → Clip → App Clip
  apply_update user_id has_content title text file c = do
    params ← update_params user_id has_content title text file
    updated ← rescue (run (update_clip user_id c.id params)) λ e. do
      clean_up file (image_of params)
          (run (is_clip_image_referenced c.id (text_or_empty (image_of params))))
      fail e
    if has_content
        then delete_previous_image_if_replaced updated.previous_image_url updated.clip.image_url
        else return_ tt
    return_ updated.clip

  unfoldable pub update : String → UpdateClipInput → Option UploadedFile → App Clip
  unfolding find_clip_by_id_for_user
  update user_id input file = if input.names_place then refuse bad_request else do
    title ← or_refuse (wanted_title input.title)
    let has_content = not (is_null file) || not (is_null input.text)
    if not has_content && is_null title then refuse bad_request else do
      found ← run (find_clip_by_id_for_user user_id input.clip_id)
      c ← or_missing found
      apply_update user_id has_content title input.text file c

  -- The clip of a request has to be there and within reach, before it is written.
  abbrev pub of_clip : {A : Type 0} → String → String → (Clip → App A) → App A
  of_clip user_id clip_id go = do
    found ← run (find_clip_by_id_for_user user_id clip_id)
    c ← or_missing found
    go c

  unfoldable pub like_clip : String → String → App Bool
  unfolding create_clip_like
  like_clip user_id clip_id =
      of_clip user_id clip_id λ _. do run (create_clip_like user_id clip_id); return_ true

  unfoldable pub unlike_clip : String → String → App Bool
  unfolding delete_clip_like
  unlike_clip user_id clip_id =
      of_clip user_id clip_id λ _. do run (delete_clip_like user_id clip_id); return_ false

  unfoldable pub record_clip_view : String → String → App (Unit {0})
  unfolding create_clip_view
  record_clip_view user_id clip_id =
      of_clip user_id clip_id λ _. run (create_clip_view user_id clip_id)

  unfoldable pub replace_tags : String → String → List String → App (List Tag)
  unfolding is_valid_tag_name replace_clip_tags
  replace_tags user_id clip_id tags = of_clip user_id clip_id λ c.
      if any (λ name. not (is_valid_tag_name name)) (unique tags)
      then refuse bad_request
      else run (replace_clip_tags c.id user_id (unique tags))

  unfoldable pub delete_clip : String → String → App Clip
  unfolding soft_delete_clip
  delete_clip user_id clip_id = of_clip user_id clip_id λ c. run (soft_delete_clip user_id c.id)

  unfoldable pub delete_clips : String → List String → App ℕ
  unfolding soft_delete_clips
  delete_clips user_id ids =
      if length ids == 0
      then refuse bad_request
      else if any (λ id. is_empty (trimmed id)) ids
      then refuse bad_request
      else if not (length (unique ids) == length ids)
      then refuse bad_request
      else run (soft_delete_clips user_id ids)

  unfoldable pub delete_all_clips : String → String → App ℕ
  unfolding find_personal_folder_by_id soft_delete_all_clips_in_folder
  delete_all_clips user_id folder_id = do
    found ← run (find_personal_folder_by_id user_id folder_id)
    f ← or_missing found
    run (soft_delete_all_clips_in_folder user_id f.id)
