-- ===== src/Content/Clips/Data.antt =====
-- clips/application/helpers/clip-data.helper.ts: what a clip holds, from a text or from a file.
use easy_clip_be.Common.{
  ℕ, String, Bool, ◌&&◌, not, Option, none, some, List, [], ◌∷◌, ◌===◌, codes, leb, elem,
  is_missing, is_empty, if◌then◌else◌,
}
use easy_clip_be.Content.Types.{ClipType, text, color, image}
use easy_clip_be.Content.App.{UploadedFile}
use easy_clip_be.Content.Store.{any}
use easy_clip_be.Content.Access.Defs.{text_or_empty}
use easy_clip_be.Content.Clips.Colors.{
  Numbers, ColorString, DetectedClip, detected_text, detected_color, detected_image,
  detect_clip_type,
}

pub record ClipData : Type 0 where
  pub type : ClipType
  pub title : String
  pub text_content : Option String
  pub color_hex : Option String
  pub image_url : Option String

abbrev pub allowed_clip_image_mime_types : List String
allowed_clip_image_mime_types =
    "image/jpeg" ∷ "image/png" ∷ "image/webp" ∷ "image/gif" ∷ "image/avif" ∷ []

abbrev pub is_allowed_clip_image_mime_type : String → Bool
is_allowed_clip_image_mime_type mime_type = elem ◌===◌ mime_type allowed_clip_image_mime_types

-- A text of spaces alone is refused.
unfoldable pub to_clip_data : DetectedClip → Option ClipData
to_clip_data (detected_color hex) = some (record {
  type = color;
  title = hex;
  text_content = none;
  color_hex = some hex;
  image_url = none;
})
to_clip_data (detected_image url) = some (record {
  type = image;
  title = url;
  text_content = none;
  color_hex = none;
  image_url = some url;
})
to_clip_data (detected_text t) =
    if is_empty t
    then none
    else some (record {
      type = text;
      title = t;
      text_content = some t;
      color_hex = none;
      image_url = none;
    })

-- None stands for a text that is refused with BAD_REQUEST.
unfoldable pub resolve_clip_data :
    ⦃numbers : Numbers⦄ → ⦃colors : ColorString⦄ → Option String → Option ClipData
unfolding to_clip_data detect_clip_type
resolve_clip_data given =
    if is_missing given then none else to_clip_data (detect_clip_type (text_or_empty given))

abbrev pub is_hangul : ℕ → Bool
is_hangul c = leb 0xac00 c && leb c 0xd7a3

abbrev pub is_likely_korean_file_name : String → Bool
is_likely_korean_file_name value = any is_hangul (codes value)

-- `Buffer.from(fileName, 'latin1').toString('utf8')`
pub record Decoder : Type 0 where
  pub latin1_as_utf8 : String → String

unfoldable pub normalize_uploaded_file_name : ⦃decoder : Decoder⦄ → String → String
normalize_uploaded_file_name ⦃decoder⦄ name =
    if is_likely_korean_file_name (decoder.latin1_as_utf8 name)
      && not (is_likely_korean_file_name name)
    then decoder.latin1_as_utf8 name
    else name

abbrev pub to_image_clip_data : ⦃decoder : Decoder⦄ → UploadedFile → String → ClipData
to_image_clip_data file url = record {
  type = image;
  title = normalize_uploaded_file_name file.original_name;
  text_content = none;
  color_hex = none;
  image_url = some url;
}
