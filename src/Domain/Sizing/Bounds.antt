-- ===== src/Domain/Sizing/Bounds.antt =====
-- gateway/src/domain/sizing.ts: the bounds of the frames that leave the checks. They are upper bounds: a
-- side may be 0.
use nidora_ai_inference.Base.{
  ℕ, ◌*◌, ◌%◌, ◌≤◌, max, ◌≡◌, refl, subst, Bool, true, false, not, ◌||◌, Option, none, some, List,
  [], ◌∷◌, arith, ◌==◌, if-elim, any, Str,
}
use nidora_ai_inference.Domain.Types.{Resolution, p480, p720}
use nidora_ai_inference.Domain.Sizing.{
  pixel_budget, max_dimension, fits, Sized, size_text, first_fit, check_frame, match_size, trim,
  check_size, align16, Floats, fit_scale, fit_frame,
}

-- A frame that the resolution allows: 16-aligned, and within its area and its longest side.
pub record IsRenderable (r : Resolution) (width height : ℕ) : Type 0 where
  pub width_aligned : width % 16 ≡ 0
  pub height_aligned : height % 16 ≡ 0
  pub area : width * height ≤ pixel_budget r
  pub width_bounded : width ≤ max_dimension r
  pub height_bounded : height ≤ max_dimension r

abbrev pub same : Resolution → Resolution → Bool
same p480 p480 = true
same p480 p720 = false
same p720 p480 = false
same p720 p720 = true

-- What a size that passed the check is: the text of a frame within those bounds, in an allowed resolution.
abbrev Passed : List Resolution → Option Sized → Type 0
Passed allowed none = Unit
Passed allowed (some s) =
    (any (same s.resolution) allowed ≡ true)
    × ((w : ℕ) × (h : ℕ) × (s.size ≡ size_text w h) × IsRenderable s.resolution w h)

bounded-left : (w h k : ℕ) → max w h ≤ k → w ≤ k
bounded-left w h k e = omega arith

bounded-right : (w h k : ℕ) → max w h ≤ k → h ≤ k
bounded-right w h k e = omega arith

same_refl : (r : Resolution) → same r r ≡ true
same_refl p480 = refl
same_refl p720 = refl

Passed-weaken :
    (r : Resolution) (rs : List Resolution) (o : Option Sized) → Passed rs o → Passed (r ∷ rs) o
Passed-weaken r rs none h = tt
Passed-weaken r rs (some s) (e, h) = (ground arith, h)

fits-IsRenderable :
    (w h : ℕ) (r : Resolution) → w % 16 ≡ 0 → h % 16 ≡ 0 → fits w h r ≡ true → IsRenderable r w h
fits-IsRenderable w h r p q e = record {
  width_aligned = p;
  height_aligned = q;
  area = ground arith;
  width_bounded = bounded-left w h (max_dimension r) (ground arith);
  height_bounded = bounded-right w h (max_dimension r) (ground arith);
}

first_fit-Passed :
    (w h : ℕ) (allowed : List Resolution)
    → w % 16 ≡ 0
    → h % 16 ≡ 0
    → Passed allowed (first_fit w h allowed)
unfolding first_fit
first_fit-Passed w h [] p q = tt
first_fit-Passed w h (r ∷ rs) p q =
    if-elim (Passed (r ∷ rs)) (fits w h r) _ _
      (λ e. (ground (arith, same_refl r), (w, h, refl, fits-IsRenderable w h r p q e)))
      (λ e. Passed-weaken r rs (first_fit w h rs) (first_fit-Passed w h rs p q))

check_frame-Passed :
    (allowed : List Resolution) (frame : Option (ℕ × ℕ))
    → Passed allowed (check_frame allowed frame)
unfolding check_frame
check_frame-Passed allowed none = tt
check_frame-Passed allowed (some (w, h)) =
    if-elim (Passed allowed) (not (w % 16 == 0) || not (h % 16 == 0)) _ _ (λ e. tt)
      (λ e. first_fit-Passed w h allowed (ground arith) (ground arith))

-- A size that the check lets through, whatever the client wrote, is the text of a frame whose sides
-- are multiples of 16 and which stays within the area and the longest side of the resolution it was
-- filed under; that resolution is one of the allowed ones that the check was given.
pub check_size-IsRenderable :
    (value : Str) (allowed : List Resolution) (s : Sized)
    → check_size value allowed ≡ some s
    → (any (same s.resolution) allowed ≡ true)
      × ((w : ℕ) × (h : ℕ) × (s.size ≡ size_text w h) × IsRenderable s.resolution w h)
unfolding check_size
check_size-IsRenderable value allowed s e =
    subst (Passed allowed) e (check_frame-Passed allowed (match_size (trim value)))

align16-aligned : (n : ℕ) → (align16 n % 16 ≡ 0) × (16 ≤ align16 n)
unfolding align16
align16-aligned n = (omega arith, omega arith)

-- A side of a frame that is fitted to an image, whatever the double arithmetic answers, is a
-- multiple of 16 and no less than 16.
pub fit_frame-aligned :
    (fl : Floats) (width height : ℕ) (r : Resolution)
    → let (w, h) = fit_frame fl width height r in (w % 16 ≡ 0) × (h % 16 ≡ 0) × (16 ≤ w) × (16 ≤ h)
unfolding fit_frame
fit_frame-aligned fl width height r =
    let scale = fit_scale fl width height r in
    let (a, c) = align16-aligned (fl.round (fl.times (fl.from_nat width) scale)) in
    let (b, d) = align16-aligned (fl.round (fl.times (fl.from_nat height) scale)) in (a, b, c, d)
