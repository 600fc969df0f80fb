-- ===== src/Domain/Probe/Totality.antt =====
-- gateway/src/domain/probe.ts: the end of the probe, and its reads that throw out of range.
use nidora_ai_inference.Base.{
  ℕ, zero, suc, ◌+◌, ◌*◌, ◌≤◌, ◌<◌, ◌≡◌, refl, ◌≢◌, inl, inr, Option, some, List, [], ◌∷◌, arith,
  ltb, leb, Bool-cases, if-elim, length,
}
use nidora_ai_inference.Domain.Probe.{
  byte, Probed, thrown, absent, found, Walk, stop, go_on, read_uint16_be, read_uint16_le,
  read_uint24_le, read_uint32_be, read_uint32_le, read_sof, walk_segment, walk_round, walk,
  probe_jpeg, probe_png, probe_webp, or_else, probe_dimensions,
}

-- A byte inside the buffer can be read.
byte-some : (bytes : List ℕ) (i : ℕ) → i < length bytes → (b : ℕ) × (byte bytes i ≡ some b)
byte-some [] i h = absurd (omega arith)
byte-some (x ∷ xs) zero h = (x, refl)
byte-some (x ∷ xs) (suc i) h = byte-some xs i (omega arith)

read_uint16_be-some :
    (bytes : List ℕ) (i : ℕ) → i + 1 < length bytes → (n : ℕ) × (read_uint16_be bytes i ≡ some n)
unfolding read_uint16_be
read_uint16_be-some bytes i h =
    let (a, p) = byte-some bytes i (omega arith) in
    let (b, q) = byte-some bytes (i + 1) h in (a * 256 + b, rw (p, q))

read_uint32_be-some :
    (bytes : List ℕ) (i : ℕ) → i + 3 < length bytes → (n : ℕ) × (read_uint32_be bytes i ≡ some n)
unfolding read_uint32_be
read_uint32_be-some bytes i h =
    let (a, p) = read_uint16_be-some bytes i (omega arith) in
    let (b, q) = read_uint16_be-some bytes (i + 2) (omega arith) in (a * 65536 + b, rw (p, q))

read_uint16_le-some :
    (bytes : List ℕ) (i : ℕ) → i + 1 < length bytes → (n : ℕ) × (read_uint16_le bytes i ≡ some n)
unfolding read_uint16_le
read_uint16_le-some bytes i h =
    let (a, p) = byte-some bytes i (omega arith) in
    let (b, q) = byte-some bytes (i + 1) h in (b * 256 + a, rw (p, q))

read_uint24_le-some :
    (bytes : List ℕ) (i : ℕ) → i + 2 < length bytes → (n : ℕ) × (read_uint24_le bytes i ≡ some n)
unfolding read_uint24_le
read_uint24_le-some bytes i h =
    let (a, p) = read_uint16_le-some bytes i (omega arith) in
    let (b, q) = byte-some bytes (i + 2) h in (b * 65536 + a, rw (p, q))

read_uint32_le-some :
    (bytes : List ℕ) (i : ℕ) → i + 3 < length bytes → (n : ℕ) × (read_uint32_le bytes i ≡ some n)
unfolding read_uint32_le
read_uint32_le-some bytes i h =
    let (a, p) = read_uint16_le-some bytes i (omega arith) in
    let (b, q) = read_uint16_le-some bytes (i + 2) (omega arith) in (b * 65536 + a, rw (p, q))

probe_png-ne-thrown : (bytes : List ℕ) → probe_png bytes ≢ thrown
unfolding probe_png
probe_png-ne-thrown bytes e = elim (Bool-cases (ltb (length bytes) 24)) [
  | inl h ↦ ground arith
  | inr h ↦
      let long : 24 ≤ length bytes = ground arith in
      let (w, p) = read_uint32_be-some bytes 16 (omega arith) in
      let (k, q) = read_uint32_be-some bytes 20 (omega arith) in ground arith
]

read_sof-ne-thrown : (bytes : List ℕ) (offset : ℕ) → read_sof bytes offset ≢ thrown
unfolding read_sof
read_sof-ne-thrown bytes offset e = elim (Bool-cases (leb (length bytes) (offset + 7))) [
  | inl h ↦ ground arith
  | inr h ↦
      let long : offset + 7 < length bytes = ground arith in
      let (w, p) = read_uint16_be-some bytes (offset + 5) (omega arith) in
      let (k, q) = read_uint16_be-some bytes (offset + 3) (omega arith) in ground arith
]

-- A round stops without an exception, or goes on behind where it stood.
abbrev Advances : ℕ → Walk → Type 0
Advances offset (stop r) = r ≢ thrown
Advances offset (go_on o) = offset < o

walk_segment-Advances :
    (bytes : List ℕ) (m offset : ℕ) → Advances (offset + 1) (walk_segment bytes m (offset + 2))
unfolding walk_segment
walk_segment-Advances bytes m offset = elim (Bool-cases (leb (length bytes) (offset + 2 + 1))) [
  | inl h ↦ ground arith
  | inr h ↦
      let (len, p) = read_uint16_be-some bytes (offset + 2) (ground arith) in
      ground (arith, read_sof-ne-thrown bytes (offset + 2))
]

walk_round-Advances :
    (bytes : List ℕ) (offset : ℕ)
    → offset + 3 < length bytes
    → Advances offset (walk_round bytes offset)
unfolding walk_round
walk_round-Advances bytes offset h =
    let (m, p) = byte-some bytes (offset + 1) (omega arith) in
    ground (arith, walk_segment-Advances bytes m offset)

-- What a probe that ends without an exception answers.
abbrev Answered : Option Probed → Type 0
Answered p = (r : Probed) × (p ≡ some r) × (r ≢ thrown)

absent-ne-thrown : absent ≢ thrown
absent-ne-thrown e = ground arith

follow-Answered :
    (fuel : ℕ) (bytes : List ℕ) (offset : ℕ)
    → ((o : ℕ) → offset < o → Answered (walk fuel bytes o))
    → (next : Walk) → Advances offset next
    → Answered (elim next [ stop r ↦ some r | go_on o ↦ walk fuel bytes o ])
follow-Answered fuel bytes offset rest (stop r) ok = (r, refl, ok)
follow-Answered fuel bytes offset rest (go_on o) ok = rest o ok

walk-Answered :
    (fuel : ℕ) (bytes : List ℕ) (offset : ℕ)
    → length bytes ≤ fuel + offset + 3
    → Answered (walk (suc fuel) bytes offset)
unfolding walk
walk-Answered zero bytes offset h =
    if-elim Answered (leb (length bytes) (offset + 3)) _ _ (λ e. (absent, refl, absent-ne-thrown))
      (λ e. absurd (ground arith))
walk-Answered (suc fuel) bytes offset h =
    if-elim Answered (leb (length bytes) (offset + 3)) _ _ (λ e. (absent, refl, absent-ne-thrown))
      (λ e.
        follow-Answered (suc fuel) bytes offset (λ o lt. walk-Answered fuel bytes o (omega arith))
          (walk_round bytes offset) (walk_round-Advances bytes offset (ground arith)))

probe_jpeg-Answered : (bytes : List ℕ) → Answered (probe_jpeg bytes)
unfolding probe_jpeg
probe_jpeg-Answered [] = (absent, refl, absent-ne-thrown)
probe_jpeg-Answered (x ∷ xs) =
    if-elim Answered _ _ _ (λ e. (absent, refl, absent-ne-thrown))
      (λ e. walk-Answered (length xs) (x ∷ xs) 2 (omega arith))

probe_webp-ne-thrown : (bytes : List ℕ) → probe_webp bytes ≢ thrown
unfolding probe_webp
probe_webp-ne-thrown bytes e = elim (Bool-cases (ltb (length bytes) 30)) [
  | inl h ↦ ground arith
  | inr h ↦
      let long : 30 ≤ length bytes = ground arith in
      let (a, p) = read_uint16_le-some bytes 26 (omega arith) in
      let (b, q) = read_uint16_le-some bytes 28 (omega arith) in
      let (c, u) = read_uint32_le-some bytes 21 (omega arith) in
      let (d, v) = read_uint24_le-some bytes 24 (omega arith) in
      let (f, w) = read_uint24_le-some bytes 27 (omega arith) in ground arith
]

or_else-ne-thrown : (p q : Probed) → p ≢ thrown → q ≢ thrown → or_else p q ≢ thrown
or_else-ne-thrown thrown q f g e = f refl
or_else-ne-thrown absent q f g e = g e
or_else-ne-thrown (found d) q f g e = f e

-- For every buffer the probe ends, and it ends with dimensions or with the answer that there are
-- none: the fuel of the JPEG walk suffices, and no read of the JPEG, PNG or WebP reader that would
-- throw is reached.
pub probe_dimensions-Answered :
    (bytes : List ℕ) → (r : Probed) × (probe_dimensions bytes ≡ some r) × (r ≢ thrown)
unfolding probe_dimensions
probe_dimensions-Answered bytes =
    let (jpeg, p, ok) = probe_jpeg-Answered bytes in
    (
      or_else jpeg (or_else (probe_png bytes) (probe_webp bytes)),
      rw p,
      or_else-ne-thrown jpeg (or_else (probe_png bytes) (probe_webp bytes)) ok (
          or_else-ne-thrown (probe_png bytes) (probe_webp bytes) (probe_png-ne-thrown bytes)
            (probe_webp-ne-thrown bytes)),
    )
