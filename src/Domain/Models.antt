-- ===== src/Domain/Models.antt =====
-- gateway/src/domain/models.ts: the closed registry, and how a name is matched against it. Letters
-- beyond ASCII keep their case here.
pub mod Closed
use nidora_ai_inference.Base.{
  ℕ, ◌+◌, ◌-◌, ◌/◌, min, max, ◌&&◌, Option, none, some, List, [], ◌∷◌, ◌++◌, map, leb, ◌==◌,
  if◌then◌else◌, is_some, Str, text, str_eq, truthy,
}
use nidora_ai_inference.Domain.Types.{Number, of_nat, Resolution, p480, p720}

pub record ModelSpec : Type 0 where
  pub endpoint : Str
  pub task : Str
  pub resolutions : List Resolution
  pub default_seconds : Number
  pub default_steps : Number
  pub default_guidance : Number
  pub max_seconds : ℕ
  pub max_steps : ℕ
  pub negative_prompt : Str
  pub max_prompt_chars : ℕ

unfoldable pub wan22_negative_prompt : Str
wan22_negative_prompt =
    text
      "色调艳丽，过曝，静态，细节模糊不清，字幕，风格，作品，画作，画面，静止，整体发灰，最差质量，低质量，JPEG压缩残留，丑陋的，残缺的，多余的手指，画得不好的手部，画得不好的脸部，畸形的，毁容的，形态畸形的肢体，手指融合，静止不动的画面，杂乱的背景，三条腿，背景人很多，倒着走"

unfoldable pub wan22_id : Str
wan22_id = text "Wan-AI/Wan2.2-I2V-A14B-Diffusers"

abbrev pub wan22_spec : ModelSpec
wan22_spec = record {
  endpoint = text "/v1/videos";
  task = text "i2v";
  resolutions = p480 ∷ p720 ∷ [];
  default_seconds = of_nat 5;
  default_steps = of_nat 4;
  default_guidance = of_nat 1;
  max_seconds = 10;
  max_steps = 12;
  negative_prompt = wan22_negative_prompt;
  max_prompt_chars = 2000;
}

unfoldable pub models : List (Str × ModelSpec)
models = (wan22_id, wan22_spec) ∷ []

abbrev pub lower_unit : ℕ → ℕ
lower_unit c = if leb 65 c && leb c 90 then c + 32 else c

unfoldable pub to_lower_case : Str → Str
to_lower_case s = map lower_unit s

-- The last non-empty segment of `path.split('/')`: `last` is the last one closed so far, `here` the
-- one being read.
unfoldable pub last_segment : Str → Str → Str → Str
last_segment last here [] = if truthy here then here else last
last_segment last here (c ∷ cs) =
    last_segment (if c == 47 && truthy here then here else last)
      (if c == 47 then [] else here ++ c ∷ []) cs

unfoldable pub model_key : Str → Str
unfolding last_segment to_lower_case
model_key path = to_lower_case (last_segment [] [] path)

-- A lookup in `MODELS`, by its own keys.
unfoldable pub lookup_model : Str → List (Str × ModelSpec) → Option ModelSpec
lookup_model name [] = none
lookup_model name ((id, spec) ∷ rest) = if str_eq id name then some spec else lookup_model name rest

-- `Object.keys(MODELS).find((id) => modelKey(id) === key)`.
unfoldable pub find_key : Str → List (Str × ModelSpec) → Option Str
find_key key [] = none
find_key key ((id, spec) ∷ rest) = if str_eq (model_key id) key then some id else find_key key rest

-- A value that is no string is `none`.
unfoldable pub resolve_model_id : Option Str → Option Str
resolve_model_id none = none
resolve_model_id (some []) = none
resolve_model_id (some (c ∷ cs)) =
    if is_some (lookup_model (c ∷ cs) models)
    then some (c ∷ cs)
    else if truthy (model_key (c ∷ cs))
    then find_key (model_key (c ∷ cs)) models
    else none

abbrev pub spec_of : Option Str → Option ModelSpec
spec_of none = none
spec_of (some id) = lookup_model id models

unfoldable pub get_model : Option Str → Option ModelSpec
get_model name = spec_of (resolve_model_id name)

-- `clamp` at natural numbers.
unfoldable pub clamp : ℕ → ℕ → ℕ → ℕ
clamp value lo hi = min (max value lo) hi
