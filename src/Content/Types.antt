-- ===== src/Content/Types.antt =====
-- The rows of prisma/schema.prisma for folders and clips, as clips/domain/clip.types.ts,
-- folders/domain and trash/domain name them.
use easy_clip_be.Common.{ℕ, String, Bool, true, false, Option, none, some}
use easy_clip_be.Subscriptions.Types.{SubscriptionPlan}

-- `TagBackgroundColor` of shared/application/tag-background-color.helper.ts
pub data TagBackgroundColor : Type 0 where
  gray brown orange yellow green blue purple pink red : TagBackgroundColor

pub data ClipType : Type 0 where
  text color image : ClipType

-- A JavaScript number, by its 64 bits.
pub record Double : Type 0 where
  pub bits : ℕ

pub record Folder : Type 0 where
  pub id : String
  pub name : String
  pub order : Double
  pub workspace_id : String
  pub created_at : ℕ
  pub updated_at : ℕ
  pub deleted_at : Option ℕ

pub record Clip : Type 0 where
  pub id : String
  pub type : ClipType
  pub title : String
  pub text_content : Option String
  pub color_hex : Option String
  pub image_url : Option String
  pub workspace_id : String
  pub folder_id : String
  pub created_at : ℕ
  pub updated_at : ℕ
  pub deleted_at : Option ℕ

pub record Tag : Type 0 where
  pub id : String
  pub name : String
  pub background_color : TagBackgroundColor
  pub folder_id : String

pub record ClipTag : Type 0 where
  pub clip_id : String
  pub tag_id : String

pub record ClipLike : Type 0 where
  pub id : String
  pub user_id : String
  pub clip_id : String
  pub created_at : ℕ

pub record ClipView : Type 0 where
  pub id : String
  pub user_id : String
  pub clip_id : String
  pub viewed_at : ℕ

-- `deletedAt: null`
abbrev pub is_null : {A : Type 0} → Option A → Bool
is_null none = true
is_null (some _) = false

-- `ClipEntitlements`
pub record ClipEntitlements : Type 0 where
  pub effective_plan : SubscriptionPlan
  pub limit : ℕ

pub record FolderAccess : Type 0 where
  pub entitlements : ClipEntitlements
  pub open entitlements use *
  pub workspace_id : String
  pub accessible_folder_id : Option String
