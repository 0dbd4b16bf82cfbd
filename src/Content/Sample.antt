-- ===== src/Content/Sample.antt =====
-- An in-memory client, an environment, and rows for the tests.
use easy_clip_be.Common.{
  ℕ, ◌+◌, ◌*◌, String, Bool, true, false, not, ◌&&◌, ◌||◌, ◌===◌, if◌then◌else◌, Option, none, some,
  List, [], ◌∷◌, codes_eq, codes, ltb, ◌==◌,
}
use easy_clip_be.Subscriptions.Sample.{in_memory, in_memory-IsDocumented}
use easy_clip_be.Subscriptions.Types.{Subscription, Workspace, free, active}
use easy_clip_be.Content.Types.{Folder, Clip, text}
use easy_clip_be.Content.Store.{ContentDb, ContentPrisma, IsDocumentedContent, Host}
use easy_clip_be.Content.App.{Outside, World, UploadedFile, delivered, never_run}
use easy_clip_be.Content.Clips.Colors.{Numbers, ColorString}
use easy_clip_be.Content.Clips.Data.{Decoder}
use easy_clip_be.Content.Access.Defs.{Arithmetic}
use easy_clip_be.Content.Trash.Writes.{Locale}

abbrev pub memory : ContentPrisma
memory = record {
  workspace = in_memory _;
  subscription = in_memory _;
  folder = in_memory _;
  clip = in_memory _;
  tag = in_memory _;
  clip_tag = in_memory _;
  clip_like = in_memory _;
  clip_view = in_memory _;
  collate = λ a b. false;
  contains = λ t q. codes_eq (codes t) q;
}

pub memory-IsDocumentedContent : IsDocumentedContent memory
memory-IsDocumentedContent = record {
  workspace = in_memory-IsDocumented _;
  subscription = in_memory-IsDocumented _;
  folder = in_memory-IsDocumented _;
  clip = in_memory-IsDocumented _;
  tag = in_memory-IsDocumented _;
  clip_tag = in_memory-IsDocumented _;
  clip_like = in_memory-IsDocumented _;
  clip_view = in_memory-IsDocumented _;
}

-- Time 100, and one new identifier at each reading.
abbrev pub host_sample : Host
host_sample = record { clock = λ n. n + 100; new_id = λ n. "new" }

-- Orders by their bits, which is right for positive doubles.
abbrev pub arithmetic_sample : Arithmetic
arithmetic_sample = record {
  lt = λ a b. ltb a.bits b.bits;
  same = λ a b. a.bits == b.bits;
  is_zero = λ a. a.bits == 0;
  plus_one = λ a. record { bits = a.bits + 1 };
  minus_one = λ a. a;
  mean = λ a b. a;
}

abbrev pub locale_sample : Locale
locale_sample = record { precedes = λ a b. false }

-- Every answer arrives, every upload succeeds, every deletion of an image fails.
abbrev pub outside_sample : Outside
outside_sample = record {
  delivery = λ n. delivered;
  upload_image = λ n user file. some "https://images/one";
  deletion_fails = λ n url. true;
}

-- The third transaction never runs.
abbrev pub losing_sample : Outside
losing_sample = record outside_sample { delivery = λ n. if n == 2 then never_run else delivered }

abbrev pub numbers_sample : Numbers
numbers_sample = record {
  number = λ n. record { bits = n };
  half = record { bits = 0 };
  add = λ a b. record { bits = a.bits + b.bits };
  sub = λ a b. a;
  mul = λ a b. record { bits = a.bits * b.bits };
  div = λ a b. a;
  rem = λ a b. a;
  abs = λ a. a;
  round = λ a. a;
  less = λ a b. ltb a.bits b.bits;
  is_nan = λ a. false;
}

abbrev pub colors_sample : ColorString
colors_sample = record { get = λ t. none; to_hex = λ c. none; to_upper_case = λ t. t }

abbrev pub decoder_sample : Decoder
decoder_sample = record { latin1_as_utf8 = λ t. t }

abbrev pub image_file : UploadedFile
image_file = record { mime_type = "image/png"; original_name = "one.png"; content = 7 }

-- The order of code points, as `<` and as a collation.
abbrev pub codes_less : List ℕ → List ℕ → Bool
codes_less [] [] = false
codes_less [] (_ ∷ _) = true
codes_less (_ ∷ _) [] = false
codes_less (a ∷ as') (b ∷ bs) = let rest = codes_less as' bs in ltb a b || (a == b && rest)

abbrev pub text_less : String → String → Bool
text_less a b = codes_less (codes a) (codes b)

abbrev pub text_before : String → String → Bool
text_before b a = not (a === b) && not (text_less a b)

abbrev pub workspace_row : Workspace
workspace_row = record {
  id = "w1";
  name = "Personal Workspace";
  owner_user_id = "u1";
  free_accessible_folder_id = none;
  free_access_initialized = false;
  free_access_period_end = none;
}

abbrev pub subscription_row : Subscription
subscription_row = record {
  id = "s1";
  workspace_id = "w1";
  plan = free;
  status = active;
  auto_renew = false;
  started_at = 0;
  current_period_end = none;
  next_billing_at = none;
  provider = none;
  external_billing_key = none;
  external_customer_key = none;
}

abbrev pub folder_row : Option ℕ → Folder
folder_row deleted_at = record {
  id = "f1";
  name = "first";
  order = record { bits = 5 };
  workspace_id = "w1";
  created_at = 1;
  updated_at = 1;
  deleted_at = deleted_at;
}

abbrev pub clip_row : String → Option ℕ → Clip
clip_row id deleted_at = record {
  id = id;
  type = text;
  title = "note";
  text_content = some "note";
  color_hex = none;
  image_url = none;
  workspace_id = "w1";
  folder_id = "f1";
  created_at = 1;
  updated_at = 1;
  deleted_at = deleted_at;
}

abbrev pub tables_of : List Folder → List Clip → ContentDb
tables_of folders clips = record {
  workspaces = workspace_row ∷ [];
  subscriptions = subscription_row ∷ [];
  folders = folders;
  clips = clips;
  tags = [];
  clip_tags = [];
  likes = [];
  views = [];
  tick = 0;
}

-- A live clip and a deleted one.
abbrev pub sample_db : ContentDb
sample_db = tables_of (folder_row none ∷ []) (clip_row "c1" none ∷ clip_row "c2" (some 40) ∷ [])

abbrev pub sample_world : World
sample_world = record { db = sample_db; step = 0; deleted = [] }
