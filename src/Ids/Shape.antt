-- ===== src/Ids/Shape.antt =====
-- gateway/src/lib/ids.ts: a video id is one plain path segment, and it tells the bytes that it is made of.
use nidora_ai_inference.Base.{
  ℕ, ◌+◌, ◌-◌, ◌*◌, ◌/◌, ◌%◌, ◌<◌, ◌≡◌, refl, ap, true, some, List, [], ◌∷◌, arith, ltb,
  if◌then◌else◌, length, drop, all, All, Str, text,
}
use nidora_ai_inference.Domain.Filenames.{
  is_safe_unit, matches_safe, matches_dots_only, is_safe_filename,
}
use nidora_ai_inference.Artifacts.{artifact_path, resolve_artifact}
use nidora_ai_inference.Ids.{hex_digit, hex, new_video_id}

-- The digit that a unit of the id stands for, and the bytes that the digits do.
abbrev digit_of : ℕ → ℕ
digit_of c = if ltb c 58 then c - 48 else c - 87

abbrev pub unhex : Str → List ℕ
unhex [] = []
unhex (c ∷ []) = []
unhex (c ∷ d ∷ rest) = (16 * digit_of c + digit_of d) ∷ unhex rest

abbrev pub IsByte : ℕ → Type 0
IsByte b = b < 256

digit_of-hex_digit : (d : ℕ) → d < 16 → digit_of (hex_digit d) ≡ d
unfolding hex_digit
digit_of-hex_digit d h = ground arith

hex_digit-safe : (d : ℕ) → d < 16 → is_safe_unit (hex_digit d) ≡ true
unfolding hex_digit
hex_digit-safe d h = ground arith

length-hex : (bs : List ℕ) → length (hex bs) ≡ 2 * length bs
unfolding hex
length-hex [] = refl
length-hex (b ∷ bs) = ground (arith, length-hex bs)

hex-safe : (bs : List ℕ) → All IsByte bs → all is_safe_unit (hex bs) ≡ true
unfolding hex
hex-safe [] h = refl
hex-safe (b ∷ bs) (p, h) =
    rw (hex_digit-safe (b / 16) (omega arith), hex_digit-safe (b % 16) (omega arith))
      (hex-safe bs h)

unhex-hex : (bs : List ℕ) → All IsByte bs → unhex (hex bs) ≡ bs
unfolding hex
unhex-hex [] h = refl
unhex-hex (b ∷ bs) (p, h) =
    rw
      (
        digit_of-hex_digit (b / 16) (omega arith),
        digit_of-hex_digit (b % 16) (omega arith),
        unhex-hex bs h,
      )
      (ap (λ n. n ∷ bs) (omega arith))

-- Of six random bytes: the id has 18 units, and its last twelve digits give the bytes back; it is
-- one plain path segment, and a plain file name under it resolves to the file of that name in the
-- directory of the id.
pub new_video_id-Names :
    (bytes : List ℕ)
    → length bytes ≡ 6
    → All IsByte bytes
    → let id = new_video_id bytes in
      (length id ≡ 18)
      × (unhex (drop 6 id) ≡ bytes)
      × (is_safe_filename id ≡ true)
      × ((filename : Str)
          → is_safe_filename filename ≡ true
          → resolve_artifact id filename ≡ some (artifact_path id filename))
unfolding new_video_id text is_safe_filename matches_safe matches_dots_only resolve_artifact
new_video_id-Names bytes six h =
    let long : length (hex bytes) ≡ 12 = omega (arith, length-hex bytes) in
    let safe : is_safe_filename (new_video_id bytes) ≡ true =
      ground (arith, long, hex-safe bytes h) in
    (ground (arith, long), unhex-hex bytes h, safe, λ filename f. rw (safe, f) refl)
