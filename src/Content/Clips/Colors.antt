-- ===== src/Content/Clips/Colors.antt =====
-- clips/application/helpers/clip-type-detector.ts: whether a text is a colour. The numbers are
-- doubles, and their operations and the package color-string are parameters.
use easy_clip_be.Common.{ℕ, String, Bool, Option, none, some, is_missing, if◌then◌else◌}
use easy_clip_be.Content.Types.{Double}
use easy_clip_be.Content.Folders.Names.{trimmed}

-- The operators of JavaScript on numbers.
pub record Numbers : Type 0 where
  pub number : ℕ → Double
  pub half : Double
  pub add : Double → Double → Double
  pub sub : Double → Double → Double
  pub mul : Double → Double → Double
  pub div : Double → Double → Double
  pub rem : Double → Double → Double
  pub abs : Double → Double
  pub round : Double → Double
  pub less : Double → Double → Bool
  pub is_nan : Double → Bool

-- The colour models of color-string, each with its three numbers and its opacity.
pub data Parsed : Type 0 where
  rgb hsl hwb : (a b c : Double) (alpha : Option Double) → Parsed

pub record Rgba : Type 0 where
  pub r : Double
  pub g : Double
  pub b : Double
  pub a : Option Double

pub record Rgb : Type 0 where
  pub r : Double
  pub g : Double
  pub b : Double

-- `colorString.get` and `colorString.to.hex`, and `toUpperCase`.
pub record ColorString : Type 0 where
  pub get : String → Option Parsed
  pub to_hex : Rgba → Option String
  pub to_upper_case : String → String

pub data DetectedClip : Type 0 where
  detected_text detected_color detected_image : String → DetectedClip

module _ ⦃numbers : Numbers⦄ where
  abbrev pub normalize_hue : Double → Double
  normalize_hue hue =
      let normalized = numbers.rem hue (numbers.number 360) in
      if numbers.less normalized (numbers.number 0)
      then numbers.add normalized (numbers.number 360)
      else normalized

  abbrev pub clamp_unit : Double → Double
  clamp_unit value =
      if numbers.is_nan value
      then numbers.number 0
      else if numbers.less value (numbers.number 0)
      then numbers.number 0
      else if numbers.less (numbers.number 1) value
      then numbers.number 1
      else value

  abbrev pub clamp_byte : Double → Double
  clamp_byte value =
      if numbers.is_nan value
      then numbers.number 0
      else if numbers.less (numbers.round value) (numbers.number 0)
      then numbers.number 0
      else if numbers.less (numbers.number 255) (numbers.round value)
      then numbers.number 255
      else numbers.round value

  abbrev pub clamp_alpha : Double → Double
  clamp_alpha value =
      if numbers.is_nan value
      then numbers.number 1
      else if numbers.less value (numbers.number 0)
      then numbers.number 0
      else if numbers.less (numbers.number 1) value
      then numbers.number 1
      else value

  abbrev pub pick_hue_segment : Double → Double → Double → Rgb
  pick_hue_segment segment chroma x =
      let zero = numbers.number 0 in
      if numbers.less segment (numbers.number 1)
      then record { r = chroma; g = x; b = zero }
      else if numbers.less segment (numbers.number 2)
      then record { r = x; g = chroma; b = zero }
      else if numbers.less segment (numbers.number 3)
      then record { r = zero; g = chroma; b = x }
      else if numbers.less segment (numbers.number 4)
      then record { r = zero; g = x; b = chroma }
      else if numbers.less segment (numbers.number 5)
      then record { r = x; g = zero; b = chroma }
      else record { r = chroma; g = zero; b = x }

  -- `(1 - Math.abs(2 * l - 1)) * s`
  abbrev pub chroma_of : Double → Double → Double
  chroma_of s l =
      numbers.mul
        (numbers.sub (numbers.number 1)
          (numbers.abs (numbers.sub (numbers.mul (numbers.number 2) l) (numbers.number 1))))
        s

  abbrev pub hsl_to_rgb_float : Double → Double → Double → Rgb
  hsl_to_rgb_float h s l =
      let chroma = chroma_of s l in
      let segment = numbers.div (normalize_hue h) (numbers.number 60) in
      let x = numbers.mul chroma (
        numbers.sub (numbers.number 1) (
          numbers.abs (numbers.sub (numbers.rem segment (numbers.number 2)) (numbers.number 1)))) in
      let m = numbers.sub l (numbers.div chroma (numbers.number 2)) in
      let p : Rgb = pick_hue_segment segment chroma x in
      record { r = numbers.add p.r m; g = numbers.add p.g m; b = numbers.add p.b m }

  abbrev pub to_byte : Double → Double
  to_byte value = clamp_byte (numbers.mul value (numbers.number 255))

  abbrev pub hsl_to_rgb : Double → Double → Double → Rgb
  hsl_to_rgb h s l =
      let p : Rgb =
        hsl_to_rgb_float h (clamp_unit (numbers.div s (numbers.number 100)))
          (clamp_unit (numbers.div l (numbers.number 100))) in
      record { r = to_byte p.r; g = to_byte p.g; b = to_byte p.b }

  abbrev pub hwb_to_rgb : Double → Double → Double → Rgb
  hwb_to_rgb h w b =
      let hue = normalize_hue h in
      let whiteness = clamp_unit (numbers.div w (numbers.number 100)) in
      let blackness = clamp_unit (numbers.div b (numbers.number 100)) in
      let ratio = numbers.add whiteness blackness in
      let gray = to_byte (numbers.div whiteness ratio) in
      let base : Rgb = hsl_to_rgb_float hue (numbers.number 1) numbers.half in
      let factor = numbers.sub (numbers.sub (numbers.number 1) whiteness) blackness in
      let mixed : Double → Double = λ c. to_byte (numbers.add (numbers.mul c factor) whiteness) in
      if numbers.less ratio (numbers.number 1)
      then record { r = mixed base.r; g = mixed base.g; b = mixed base.b }
      else record { r = gray; g = gray; b = gray }

  abbrev pub with_alpha : Rgb → Option Double → Rgba
  with_alpha p a = record { r = p.r; g = p.g; b = p.b; a = a }

  abbrev pub clamped_alpha : Option Double → Option Double
  clamped_alpha none = none
  clamped_alpha (some a) = some (clamp_alpha a)

  unfoldable pub to_rgba : Parsed → Rgba
  to_rgba (rgb r g b a) = record {
    r = clamp_byte r;
    g = clamp_byte g;
    b = clamp_byte b;
    a = clamped_alpha a;
  }
  to_rgba (hsl h s l a) = with_alpha (hsl_to_rgb h s l) a
  to_rgba (hwb h w b a) = with_alpha (hwb_to_rgb h w b) a

module _ ⦃numbers : Numbers⦄ ⦃colors : ColorString⦄ where
  unfoldable pub detect_color : String → Option DetectedClip
  unfolding to_rgba
  detect_color raw = elim (colors.get (trimmed raw)) [
    | none ↦ none
    | some parsed ↦ elim (colors.to_hex (to_rgba parsed)) [
      | none ↦ none
      | some hex ↦
          if is_missing (some hex) then none else some (detected_color (colors.to_upper_case hex))
    ]
  ]

  unfoldable pub detect_clip_type : String → DetectedClip
  unfolding detect_color
  detect_clip_type raw = elim (detect_color raw) [
    | some detected ↦ detected
    | none ↦ detected_text (trimmed raw)
  ]
