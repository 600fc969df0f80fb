-- ===== src/Domain/Inputs/Limits.antt =====
-- gateway/src/domain/inputs.ts: an image that is read is neither empty nor too large.
use nidora_ai_inference.Base.{
  ℕ, ◌≤◌, ◌<◌, ◌≡◌, refl, subst, Option, none, some, List, arith, ltb, ◌==◌, if-elim, length, Str,
}
use nidora_ai_inference.Domain.Inputs.{
  Format, DecodedImage, Read, decoded, refused, sniff, decode, read_image,
}

module _ (sha256 : List ℕ → Str) where
  abbrev Of : List ℕ → Read → Type 0
  Of bytes (decoded image) = image.bytes ≡ bytes
  Of bytes (refused e) = Unit

  decode-Of : (bytes : List ℕ) (o : Option Format) → Of bytes (decode sha256 bytes o)
  unfolding decode
  decode-Of bytes none = tt
  decode-Of bytes (some f) = refl

  abbrev Sized : ℕ → Read → Type 0
  Sized max_bytes (decoded image) = (0 < length image.bytes) × (length image.bytes ≤ max_bytes)
  Sized max_bytes (refused e) = Unit

  Of-Sized :
      (bytes : List ℕ) (max_bytes : ℕ) (r : Read)
      → 0 < length bytes
      → length bytes ≤ max_bytes
      → Of bytes r
      → Sized max_bytes r
  Of-Sized bytes max_bytes (decoded image) p q e = rw e (p, q)
  Of-Sized bytes max_bytes (refused x) p q e = tt

  read_image-Sized :
      (bytes : List ℕ) (max_bytes : ℕ) → Sized max_bytes (read_image sha256 bytes max_bytes)
  unfolding read_image
  read_image-Sized bytes max_bytes =
      if-elim (Sized max_bytes) (length bytes == 0) _ _ (λ e. tt)
        (λ e.
          if-elim (Sized max_bytes) (ltb max_bytes (length bytes)) _ _ (λ e'. tt)
            (λ e'.
              Of-Sized bytes max_bytes (decode sha256 bytes (sniff bytes)) (ground arith)
                (ground arith) (decode-Of bytes (sniff bytes))))

  pub read_image-sized :
      (bytes : List ℕ) (max_bytes : ℕ) (image : DecodedImage)
      → read_image sha256 bytes max_bytes ≡ decoded image
      → (0 < length image.bytes) × (length image.bytes ≤ max_bytes)
  read_image-sized bytes max_bytes image e =
      subst (Sized max_bytes) e (read_image-Sized bytes max_bytes)
