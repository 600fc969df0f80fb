-- ===== src/Domain/Filenames.antt =====
-- gateway/src/domain/filenames.ts: the one validator of the file names that a pod sends.
pub mod Safety
use nidora_ai_inference.Base.{ℕ, Bool, not, ◌&&◌, ◌||◌, leb, ◌==◌, length, all, Str, truthy}

abbrev pub between : ℕ → ℕ → ℕ → Bool
between lo hi c = leb lo c && leb c hi

-- The class [A-Za-z0-9._-].
abbrev pub is_safe_unit : ℕ → Bool
is_safe_unit c =
    between 65 90 c || (between 97 122 c || (between 48 57 c || (c == 46 || (c == 95 || c == 45))))

abbrev is_dot : ℕ → Bool
is_dot c = c == 46

-- SAFE and DOTS_ONLY.
unfoldable pub matches_safe : Str → Bool
matches_safe s = truthy s && all is_safe_unit s

unfoldable pub matches_dots_only : Str → Bool
matches_dots_only s = truthy s && all is_dot s

-- `isSafeFilename` of a string; any other value is refused by its type.
unfoldable pub is_safe_filename : Str → Bool
unfolding matches_safe matches_dots_only
is_safe_filename value =
    leb 1 (length value)
    && (leb (length value) 255 && (matches_safe value && not (matches_dots_only value)))
