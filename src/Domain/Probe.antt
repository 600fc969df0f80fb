-- ===== src/Domain/Probe.antt =====
-- gateway/src/domain/probe.ts: the dimensions in the header of a JPEG, PNG or WebP image. A buffer is
-- the list of its bytes.
pub mod Totality
use nidora_ai_inference.Base.{
  ℕ, zero, suc, ◌+◌, ◌*◌, ◌/◌, ◌%◌, Bool, true, false, not, ◌&&◌, ◌||◌, Option, none, some, List,
  map, ltb, leb, ◌==◌, if◌then◌else◌, length, get_elem?, take, drop, Str, text, str_eq,
}

pub record Dimensions : Type 0 where
  pub width : ℕ
  pub height : ℕ

-- `bytes[i]`: undefined, here `none`, out of range. A read of the buffer's methods out of range
-- throws; `none` is that exception in the readers below.
abbrev pub byte : List ℕ → ℕ → Option ℕ
byte bytes i = get_elem? bytes i

infixl 5 ◌>>=◌
abbrev ◌>>=◌ {ℓ κ} : {A : Type ℓ} {B : Type κ} → Option A → (A → Option B) → Option B
none >>= f = none
some a >>= f = f a

abbrev byte_is : List ℕ → ℕ → ℕ → Bool
byte_is bytes i v = elim (byte bytes i) [ none ↦ false | some b ↦ b == v ]

unfoldable pub read_uint16_be : List ℕ → ℕ → Option ℕ
read_uint16_be bytes i = do a ← byte bytes i; b ← byte bytes (i + 1); some (a * 256 + b)

unfoldable pub read_uint32_be : List ℕ → ℕ → Option ℕ
unfolding read_uint16_be
read_uint32_be bytes i = do
  hi ← read_uint16_be bytes i
  lo ← read_uint16_be bytes (i + 2)
  some (hi * 65536 + lo)

unfoldable pub read_uint16_le : List ℕ → ℕ → Option ℕ
read_uint16_le bytes i = do a ← byte bytes i; b ← byte bytes (i + 1); some (b * 256 + a)

unfoldable pub read_uint24_le : List ℕ → ℕ → Option ℕ
unfolding read_uint16_le
read_uint24_le bytes i = do
  lo ← read_uint16_le bytes i
  hi ← byte bytes (i + 2)
  some (hi * 65536 + lo)

unfoldable pub read_uint32_le : List ℕ → ℕ → Option ℕ
unfolding read_uint16_le
read_uint32_le bytes i = do
  lo ← read_uint16_le bytes i
  hi ← read_uint16_le bytes (i + 2)
  some (hi * 65536 + lo)

-- `bytes.subarray(i, i + 4).toString('ascii') === word` for a word of four letters: the decoding clears
-- the high bit of each byte.
unfoldable pub has_word : List ℕ → ℕ → Str → Bool
has_word bytes i word = str_eq (map (λ b. b % 128) (take 4 (drop i bytes))) word

-- What a prober does: throw, return null, or return dimensions.
pub data Probed : Type 0 where
  thrown absent : Probed
  found : Dimensions → Probed

abbrev found_if : Option ℕ → Option ℕ → Probed
found_if none h = thrown
found_if (some w) none = thrown
found_if (some zero) (some h) = absent
found_if (some (suc w)) (some zero) = absent
found_if (some (suc w)) (some (suc h)) = found (record { width = suc w; height = suc h })

abbrev found_any : Option ℕ → Option ℕ → Probed
found_any none h = thrown
found_any (some w) none = thrown
found_any (some w) (some h) = found (record { width = w; height = h })

abbrev differs : Option ℕ → ℕ → Bool
differs none v = true
differs (some a) v = not (a == v)

unfoldable pub probe_png : List ℕ → Probed
unfolding read_uint32_be has_word
probe_png bytes =
    if ltb (length bytes) 24
    then absent
    else if differs (read_uint32_be bytes 0) 0x89504e47
        || differs (read_uint32_be bytes 4) 0x0d0a1a0a
    then absent
    else if not (has_word bytes 12 (text "IHDR"))
    then absent
    else found_if (read_uint32_be bytes 16) (read_uint32_be bytes 20)

-- Markers that carry no length.
abbrev pub is_standalone : ℕ → Bool
is_standalone m = m == 0xd8 || (m == 0x01 || (leb 0xd0 m && leb m 0xd7))

-- SOF0 to SOF15 but DHT, JPG and DAC.
abbrev pub is_sof : ℕ → Bool
is_sof m = leb 0xc0 m && (leb m 0xcf && (not (m == 0xc4) && (not (m == 0xc8) && not (m == 0xcc))))

-- The dimensions of a Start-Of-Frame whose length field stands at `offset`.
unfoldable pub read_sof : List ℕ → ℕ → Probed
unfolding read_uint16_be
read_sof bytes offset =
    if leb (length bytes) (offset + 7)
    then absent
    else found_if (read_uint16_be bytes (offset + 5)) (read_uint16_be bytes (offset + 3))

-- What a round of the walk says: stop with a result, or go on at an offset.
pub data Walk : Type 0 where
  stop : Probed → Walk
  go_on : ℕ → Walk

-- The segment with the marker `m`, its length field at `offset`.
walk_segment : List ℕ → ℕ → ℕ → Walk
unfolding read_sof read_uint16_be
walk_segment bytes m offset =
    if is_standalone m
    then go_on offset
    else if m == 0xda
    then stop absent
    else if leb (length bytes) (offset + 1)
    then stop absent
    else elim (read_uint16_be bytes offset) [
      | none ↦ stop thrown
      | some len ↦
          if ltb len 2
          then stop absent
          else if is_sof m
          then stop (read_sof bytes offset)
          else go_on (offset + len)
    ]

-- One round of the loop, at an offset inside the buffer.
unfoldable pub walk_round : List ℕ → ℕ → Walk
unfolding walk_segment
walk_round bytes offset =
    if not (byte_is bytes offset 0xff) then go_on (offset + 1) else elim (byte bytes (offset + 1)) [
      | none ↦ stop thrown
      | some m ↦ walk_segment bytes m (offset + 2)
    ]

-- The loop on fuel; `none` means that the fuel ran out.
unfoldable pub walk : ℕ → List ℕ → ℕ → Option Probed
walk zero bytes offset = none
walk (suc fuel) bytes offset =
    let next : Option Probed = elim (walk_round bytes offset) [
      | stop r ↦ some r
      | go_on o ↦ walk fuel bytes o
    ] in
    if leb (length bytes) (offset + 3) then some absent else next

-- An offset grows by one at least in each round, so the length of the buffer is enough fuel.
unfoldable pub probe_jpeg : List ℕ → Option Probed
unfolding walk walk_round
probe_jpeg bytes =
    if ltb (length bytes) 4 || (not (byte_is bytes 0 0xff) || not (byte_is bytes 1 0xd8))
    then some absent
    else walk (length bytes) bytes 2

-- The dimensions that `found_any` reports, with a correction applied to both.
abbrev both : (ℕ → ℕ) → Option ℕ → Option ℕ
both f none = none
both f (some n) = some (f n)

unfoldable pub probe_webp : List ℕ → Probed
unfolding has_word read_uint16_le read_uint24_le read_uint32_le
probe_webp bytes =
    if ltb (length bytes) 30
    then absent
    else if not (has_word bytes 0 (text "RIFF"))
    then absent
    else if not (has_word bytes 8 (text "WEBP"))
    then absent
    else if has_word bytes 12 (text "VP8 ")
    then (if not (byte_is bytes 23 0x9d)
          || (not (byte_is bytes 24 0x01) || not (byte_is bytes 25 0x2a))
        then absent
        else found_any (both (λ n. n % 0x4000) (read_uint16_le bytes 26))
            (both (λ n. n % 0x4000) (read_uint16_le bytes 28)))
    else if has_word bytes 12 (text "VP8L")
    then (if not (byte_is bytes 20 0x2f)
        then absent
        else found_any (both (λ n. n % 0x4000 + 1) (read_uint32_le bytes 21))
            (both (λ n. n / 0x4000 % 0x4000 + 1) (read_uint32_le bytes 21)))
    else if has_word bytes 12 (text "VP8X")
    then found_any (both (λ n. n + 1) (read_uint24_le bytes 24))
        (both (λ n. n + 1) (read_uint24_le bytes 27))
    else absent

-- `a ?? b` on the results.
abbrev or_else : Probed → Probed → Probed
or_else thrown r = thrown
or_else absent r = r
or_else (found d) r = found d

unfoldable pub probe_dimensions : List ℕ → Option Probed
unfolding probe_jpeg probe_png probe_webp
probe_dimensions bytes = do
  jpeg ← probe_jpeg bytes
  some (or_else jpeg (or_else (probe_png bytes) (probe_webp bytes)))
