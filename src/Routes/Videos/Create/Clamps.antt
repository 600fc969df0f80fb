-- ===== src/Routes/Videos/Create/Clamps.antt =====
-- gateway/src/routes/videos.ts, POST /v1/videos: the numbers that are clamped.
use nidora_ai_inference.Base.{ℕ, ◌*◌, ◌^◌, ◌≤◌, ◌<◌, ◌≡◌, refl, false, arith, if-elim, ltb, ◌||◌}
use nidora_ai_inference.Domain.Types.{Number}
use nidora_ai_inference.Domain.Models.{clamp}
use nidora_ai_inference.Routes.Videos.Params.{clamp_seconds, clamp_steps}

pub clamp_steps-bounded :
    (n : Number) (hi : ℕ) → 0 < hi → (1 ≤ clamp_steps n hi) × (clamp_steps n hi ≤ hi)
unfolding clamp_steps clamp
clamp_steps-bounded n hi pos = (omega arith, omega arith)

-- A number from 1 to `hi`.
pub record Within (hi : ℕ) (n : Number) : Type 0 where
  pub positive : n.negative ≡ false
  pub above : 2 ^ n.scale ≤ n.num
  pub below : n.num ≤ hi * 2 ^ n.scale

pub clamp_seconds-Within : (n : Number) (hi : ℕ) → 0 < hi → Within hi (clamp_seconds n hi)
unfolding clamp_seconds
clamp_seconds-Within n hi pos =
    if-elim (Within hi) (n.negative || ltb n.num (2 ^ n.scale)) _ _
      (λ e. record { positive = refl; above = omega arith; below = omega arith })
      (λ e.
        if-elim (Within hi) (ltb (hi * 2 ^ n.scale) n.num) _ _
          (λ e'. record { positive = refl; above = omega arith; below = omega arith })
          (λ e'. record { positive = ground arith; above = ground arith; below = ground arith }))
