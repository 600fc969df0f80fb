-- ===== src/Tests/Domain.antt =====
-- Probe, sizes, names, models and keys at concrete inputs.
use nidora_ai_inference.Base.{
  ℕ, ◌≤◌, ◌≡◌, refl, ◌≢◌, true, some, [], ◌∷◌, length, any, all, text, decimal,
}
use nidora_ai_inference.Domain.Types.{p480, p720}
use nidora_ai_inference.Domain.Filenames.{is_safe_filename}
use nidora_ai_inference.Domain.Filenames.Safety.{is_safe_filename-plain, is_plain_unit}
use nidora_ai_inference.Domain.Probe.{probe_dimensions, Probed, thrown}
use nidora_ai_inference.Domain.Probe.Totality.{probe_dimensions-Answered}
use nidora_ai_inference.Domain.Sizing.{size_text, pixel_budget, max_dimension, check_size}
use nidora_ai_inference.Domain.Sizing.Bounds.{IsRenderable, same, check_size-IsRenderable}
use nidora_ai_inference.Tests.{frame_480}

probe_dimensions-Answered_example :
    (r : Probed) × (probe_dimensions (0xff ∷ 0xd8 ∷ 0xff ∷ 0xc0 ∷ []) ≡ some r) × (r ≢ thrown)
probe_dimensions-Answered_example = probe_dimensions-Answered (0xff ∷ 0xd8 ∷ 0xff ∷ 0xc0 ∷ [])

check_size-IsRenderable_example :
    (any (same p480) (p480 ∷ p720 ∷ []) ≡ true)
    × ((w : ℕ) × (h : ℕ) × (text "480x832" ≡ size_text w h) × IsRenderable p480 w h)
unfolding check_size text pixel_budget max_dimension decimal
check_size-IsRenderable_example =
    check_size-IsRenderable (text " 480x832") (p480 ∷ p720 ∷ []) frame_480 refl

is_safe_filename-plain_example :
    (all is_plain_unit (text "output.mp4") ≡ true)
    × (1 ≤ length (text "output.mp4"))
    × (length (text "output.mp4") ≤ 255)
    × (text "output.mp4" ≢ b'.' ∷ [])
    × (text "output.mp4" ≢ b'.' ∷ b'.' ∷ [])
unfolding is_safe_filename text
is_safe_filename-plain_example = is_safe_filename-plain (text "output.mp4") refl
