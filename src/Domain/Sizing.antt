-- ===== src/Domain/Sizing.antt =====
-- gateway/src/domain/sizing.ts: the resolution buckets and the check of a size that a client names.
pub mod Bounds
use mathlib.Core.List.{reverse}
use nidora_ai_inference.Base.{
  ℕ, ◌+◌, ◌-◌, ◌*◌, ◌/◌, ◌%◌, max, Bool, not, ◌&&◌, ◌||◌, Option, none, some, List, [], ◌∷◌, ◌++◌,
  ltb, leb, ◌==◌, if◌then◌else◌, length, Str, text, str_eq, truthy, decimal,
}
use nidora_ai_inference.Domain.Types.{Resolution, p480, p720}

unfoldable pub pixel_budget : Resolution → ℕ
pixel_budget p480 = 480 * 832
pixel_budget p720 = 720 * 1280

unfoldable pub max_dimension : Resolution → ℕ
max_dimension p480 = 832
max_dimension p720 = 1280

-- `isResolution` of a string, with the resolution that it names.
unfoldable pub read_resolution : Str → Option Resolution
read_resolution s =
    if str_eq s (text "480p") then some p480 else if str_eq s (text "720p") then some p720 else none

abbrev pub is_digit : ℕ → Bool
is_digit c = leb 48 c && leb c 57

-- The greedy \d* from the front, and what follows it.
unfoldable pub span_digits : Str → Str × Str
span_digits [] = ([], [])
span_digits (c ∷ cs) =
    let (ds, rest) = span_digits cs in if is_digit c then (c ∷ ds, rest) else ([], c ∷ cs)

abbrev number_from : ℕ → Str → ℕ
number_from acc [] = acc
number_from acc (c ∷ cs) = number_from (acc * 10 + (c - 48)) cs

-- `Number(digits)`.
unfoldable pub read_number : Str → ℕ
read_number ds = number_from 0 ds

abbrev counts_ok : Str → Bool
counts_ok ds = leb 2 (length ds) && leb (length ds) 5

-- What follows the digits of the width: an x, then the digits of the height and no more.
match_height : Str → Str → Option (ℕ × ℕ)
unfolding span_digits read_number
match_height ws [] = none
match_height ws (c ∷ cs) =
    let (hs, rest) = span_digits cs in
    if c == b'x' && (counts_ok ws && (counts_ok hs && not (truthy rest)))
    then some (read_number ws, read_number hs)
    else none

-- /^(\d{2,5})x(\d{2,5})$/ with its two numbers.
unfoldable pub match_size : Str → Option (ℕ × ℕ)
unfolding match_height span_digits
match_size s = let (ws, rest) = span_digits s in match_height ws rest

-- White space that `trim()` strips, within Latin-1.
abbrev is_space : ℕ → Bool
is_space c = c == 32 || (c == 160 || (leb 9 c && leb c 13))

unfoldable pub trim_start : Str → Str
trim_start [] = []
trim_start (c ∷ cs) = let rest = trim_start cs in if is_space c then rest else c ∷ cs

unfoldable pub trim : Str → Str
unfolding trim_start
trim s = reverse (trim_start (reverse (trim_start s)))

abbrev pub fits : ℕ → ℕ → Resolution → Bool
fits width height r =
    leb (width * height) (pixel_budget r) && leb (max width height) (max_dimension r)

pub record Sized : Type 0 where
  pub size : Str
  pub resolution : Resolution

-- `${width}x${height}`
unfoldable pub size_text : ℕ → ℕ → Str
size_text width height = decimal width ++ b'x' ∷ decimal height

-- The first allowed resolution that the frame fits.
unfoldable pub first_fit : ℕ → ℕ → List Resolution → Option Sized
unfolding size_text
first_fit width height [] = none
first_fit width height (r ∷ rs) =
    if fits width height r
    then some (record { size = size_text width height; resolution = r })
    else first_fit width height rs

check_frame : List Resolution → Option (ℕ × ℕ) → Option Sized
unfolding first_fit
check_frame allowed none = none
check_frame allowed (some (width, height)) =
    if not (width % 16 == 0) || not (height % 16 == 0) then none else first_fit width height allowed

unfoldable pub check_size : Str → List Resolution → Option Sized
unfolding check_frame match_size trim
check_size value allowed = check_frame allowed (match_size (trim value))

-- The double arithmetic that the source takes from the language. `round` is `Math.round` of a value
-- that is not negative.
pub record Floats : Type 1 where
  pub Float : Type 0
  pub from_nat : ℕ → Float
  pub times : Float → Float → Float
  pub over : Float → Float → Float
  pub sqrt : Float → Float
  pub above : Float → Float → Bool
  pub round : Float → ℕ

-- Down to a multiple of 16, and never below one macroblock.
unfoldable pub align16 : ℕ → ℕ
align16 rounded = max 16 (rounded / 16 * 16)

module _ (fl : Floats) where
  open fl use {Float, from_nat, times, over, sqrt, above, round}

  area_scale : ℕ → ℕ → Resolution → Float
  area_scale width height r =
      sqrt (over (from_nat (pixel_budget r)) (times (from_nat width) (from_nat height)))

  -- Pulled back where the longest side passes the limit.
  pub fit_scale : ℕ → ℕ → Resolution → Float
  unfolding area_scale
  fit_scale width height r =
      let scale = area_scale width height r in
      let longest = times (from_nat (max width height)) scale in
      let limit = from_nat (max_dimension r) in
      if above longest limit then times scale (over limit longest) else scale

  unfoldable pub fit_frame : ℕ → ℕ → Resolution → ℕ × ℕ
  unfolding fit_scale align16
  fit_frame width height r =
      let scale = fit_scale width height r in
      (
        align16 (round (times (from_nat width) scale)),
        align16 (round (times (from_nat height) scale)),
      )

  -- `none` is the exception for a side that is 0.
  unfoldable pub fit_size : ℕ → ℕ → Resolution → Option Str
  unfolding fit_frame size_text
  fit_size width height r =
      let (w, h) = fit_frame width height r in
      if not (ltb 0 width) || not (ltb 0 height) then none else some (size_text w h)
