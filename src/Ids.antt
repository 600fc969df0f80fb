-- ===== src/Ids.antt =====
-- gateway/src/lib/ids.ts: the ids of videos, leases and sessions. What `randomBytes` and `randomUUID` of
-- node:crypto return is a parameter: a sequence, of which `drawn` of the database is the next index.
pub mod Shape
use nidora_ai_inference.Base.{ℕ, ◌+◌, ◌/◌, ◌%◌, List, [], ◌∷◌, ◌++◌, ltb, if◌then◌else◌, Str, text}

unfoldable pub hex_digit : ℕ → ℕ
hex_digit d = if ltb d 10 then 48 + d else 87 + d

-- `toString('hex')`
unfoldable pub hex : List ℕ → Str
unfolding hex_digit
hex [] = []
hex (b ∷ bs) = hex_digit (b / 16) ∷ hex_digit (b % 16) ∷ hex bs

-- The id that is made of the six bytes.
unfoldable pub new_video_id : List ℕ → Str
unfolding hex
new_video_id bytes = text "video_" ++ hex bytes

abbrev pub new_lease_id : (ℕ → Str) → ℕ → Str
new_lease_id uuid drawn = uuid drawn

abbrev pub new_session_id : (ℕ → Str) → ℕ → Str
new_session_id uuid drawn = uuid drawn
