-- ===== src/Domain/Filenames/Safety.antt =====
-- gateway/src/domain/filenames.ts: what a name that passes the validator cannot be.
use nidora_ai_inference.Base.{
  ℕ, ◌≤◌, ◌≡◌, refl, ◌≢◌, Bool, true, not, ◌&&◌, [], ◌∷◌, arith, ltb, ◌==◌, length, all, Str,
}
use nidora_ai_inference.Domain.Filenames.{is_safe_unit, is_safe_filename}

-- No unit is a slash, a backslash, a NUL or a blank.
abbrev pub is_plain_unit : ℕ → Bool
is_plain_unit c =
    not (c == b'/') && (not (c == 92) && (not (c == 0) && (not (c == 32) && ltb c 128)))

all-is_plain_unit : (s : Str) → all is_safe_unit s ≡ true → all is_plain_unit s ≡ true
all-is_plain_unit [] h = refl
all-is_plain_unit (c ∷ cs) h = ground (arith, all-is_plain_unit cs)

-- A safe name is one plain path segment: no separator, no NUL and no blank in it, nothing beyond
-- ASCII, 1 to 255 units long, and neither the directory itself nor its parent.
pub is_safe_filename-plain :
    (s : Str)
    → is_safe_filename s ≡ true
    → (all is_plain_unit s ≡ true)
      × (1 ≤ length s)
      × (length s ≤ 255)
      × (s ≢ b'.' ∷ [])
      × (s ≢ b'.' ∷ b'.' ∷ [])
unfolding is_safe_filename
is_safe_filename-plain s h = (
  all-is_plain_unit s (ground arith),
  ground arith,
  ground arith,
  λ e. ground arith,
  λ e. ground arith,
)
