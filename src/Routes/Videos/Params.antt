-- ===== src/Routes/Videos/Params.antt =====
-- gateway/src/routes/videos.ts, POST /v1/videos: the form, and the parameters that are read from it.
use nidora_ai_inference.Base.{
  ℕ, ◌+◌, ◌*◌, ◌/◌, ◌%◌, ◌^◌, Bool, ◌&&◌, ◌||◌, Option, none, some, List, [], ◌∷◌, ltb, leb, ◌==◌,
  if◌then◌else◌, coalesce, Str, text, str_eq, truthy,
}
use nidora_ai_inference.Domain.Types.{Number, of_nat, Resolution, JobParams}
use nidora_ai_inference.Domain.Models.{ModelSpec, clamp}
use nidora_ai_inference.Domain.Sizing.{trim}

pub data Part : Type 0 where
  file : Str → List ℕ → Part
  field : Str → Str → Part

pub record Form : Type 0 where
  pub fields : List (Str × Str)
  pub image : Option (List ℕ)

abbrev keep_first : Option (List ℕ) → List ℕ → Option (List ℕ)
keep_first none bytes = some bytes
keep_first (some old) bytes = some old

-- The newest value of a field stands first.
add_part : Part → Form → Form
add_part (file name bytes) form =
    if str_eq name (text "input_reference")
    then record form { image = keep_first form.image bytes }
    else form
add_part (field name value) form = record form { fields = (name, value) ∷ form.fields }

read_parts : List Part → Form → Form
unfolding add_part
read_parts [] form = form
read_parts (p ∷ ps) form = read_parts ps (add_part p form)

unfoldable pub read_upload : List Part → Form
unfolding read_parts
read_upload parts = read_parts parts (record { fields = []; image = none })

-- `fields[name]`
unfoldable pub lookup_field : Str → List (Str × Str) → Option Str
lookup_field name [] = none
lookup_field name ((k, v) ∷ rest) = if str_eq k name then some v else lookup_field name rest

-- `(fields[name] ?? '').trim()`
unfoldable pub trimmed : Str → List (Str × Str) → Str
unfolding lookup_field
trimmed name fields = trim (coalesce (lookup_field name fields) [])

-- `Math.round` of a number that is not negative, a tie upwards.
abbrev pub round_half : Number → ℕ
round_half n = (2 * n.num + 2 ^ n.scale) / (2 * 2 ^ n.scale)

-- `clamp(value, 1, max)` of a number.
unfoldable pub clamp_seconds : Number → ℕ → Number
clamp_seconds n hi =
    if n.negative || ltb n.num (2 ^ n.scale)
    then of_nat 1
    else if ltb (hi * 2 ^ n.scale) n.num
    then of_nat hi
    else n

-- `clamp(Math.round(value), 1, max)`; what is negative rounds to 0 at most.
unfoldable pub clamp_steps : Number → ℕ → ℕ
unfolding clamp
clamp_steps n hi = clamp (if n.negative then 0 else round_half n) 1 hi

-- `Number.isSafeInteger`.
abbrev is_safe_integer : Number → Bool
is_safe_integer n = n.num % 2 ^ n.scale == 0 && leb (n.num / 2 ^ n.scale) 9007199254740991

safe_seed : Option Number → Option Number
safe_seed none = none
safe_seed (some n) = if is_safe_integer n then some n else none

-- The section's parameter is `Number(text)` of the language, with `none` for what is not finite.
module _ (to_number : Str → Option Number) where
  num_of : Option Str → Option Number
  num_of none = none
  num_of (some s) = if truthy (trim s) then to_number s else none

  unfoldable pub num : Str → List (Str × Str) → Option Number
  unfolding num_of lookup_field
  num name fields = num_of (lookup_field name fields)

  unfoldable pub job_params : ModelSpec → List (Str × Str) → Str → Str → Resolution → JobParams
  unfolding num safe_seed trimmed clamp_seconds clamp_steps
  job_params spec fields prompt size resolution =
      let negative = trimmed (text "negative_prompt") fields in
      record {
        prompt = prompt;
        negative_prompt = if truthy negative then negative else spec.negative_prompt;
        resolution = resolution;
        size = size;
        seconds =
            clamp_seconds (coalesce (num (text "seconds") fields) spec.default_seconds)
              spec.max_seconds;
        num_inference_steps =
            clamp_steps (coalesce (num (text "num_inference_steps") fields) spec.default_steps)
              spec.max_steps;
        guidance_scale = spec.default_guidance;
        seed = safe_seed (num (text "seed") fields);
      }
