-- ===== src/Domain/Inputs.antt =====
-- gateway/src/domain/inputs.ts: the format of an input image from its magic bytes.
pub mod Limits
use nidora_ai_inference.Base.{
  ℕ, Bool, true, false, ◌&&◌, Option, none, some, List, [], ◌∷◌, ltb, leb, ◌==◌, if◌then◌else◌,
  length, Str, text,
}
use nidora_ai_inference.Domain.Probe.{has_word}

pub data Format : Type 0 where
  jpeg png webp : Format

pub data InputError : Type 0 where
  is_empty exceeds_limit not_an_image : InputError

pub record DecodedImage : Type 0 where
  pub bytes : List ℕ
  pub format : Format
  pub extension : Str
  pub media_type : Str
  pub sha256 : Str

pub data Read : Type 0 where
  decoded : DecodedImage → Read
  refused : InputError → Read

-- The first bytes of the buffer are these.
unfoldable pub has_prefix : List ℕ → List ℕ → Bool
has_prefix [] bytes = true
has_prefix (p ∷ ps) [] = false
has_prefix (p ∷ ps) (b ∷ bs) = p == b && has_prefix ps bs

unfoldable pub sniff : List ℕ → Option Format
unfolding has_prefix
sniff bytes =
    if has_prefix (0xff ∷ 0xd8 ∷ 0xff ∷ []) bytes
    then some jpeg
    else if has_prefix (0x89 ∷ 0x50 ∷ 0x4e ∷ 0x47 ∷ 0x0d ∷ 0x0a ∷ 0x1a ∷ 0x0a ∷ []) bytes
    then some png
    else if leb 12 (length bytes)
        && (has_word bytes 0 (text "RIFF") && has_word bytes 8 (text "WEBP"))
    then some webp
    else none

-- META.
unfoldable pub extension_of : Format → Str
extension_of jpeg = text "jpg"
extension_of png = text "png"
extension_of webp = text "webp"

unfoldable pub media_type_of : Format → Str
media_type_of jpeg = text "image/jpeg"
media_type_of png = text "image/png"
media_type_of webp = text "image/webp"

-- The section's parameter is the hexadecimal SHA-256 of `node:crypto`.
module _ (sha256 : List ℕ → Str) where
  decode : List ℕ → Option Format → Read
  decode bytes none = refused not_an_image
  decode bytes (some f) = decoded (record {
    bytes = bytes;
    format = f;
    extension = extension_of f;
    media_type = media_type_of f;
    sha256 = sha256 bytes;
  })

  unfoldable pub read_image : List ℕ → ℕ → Read
  unfolding decode sniff
  read_image bytes max_bytes =
      if length bytes == 0
      then refused is_empty
      else if ltb max_bytes (length bytes)
      then refused exceeds_limit
      else decode bytes (sniff bytes)
