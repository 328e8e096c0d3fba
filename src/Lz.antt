-- ===== src/Lz.antt =====
-- crates/oxide-spice-codecs/src/lz.rs: the SPICE LZ 1.1 image format. The decoder is `decode_lz`'s,
-- whose `should_cancel` always answers false, so the polls for cancellation are left out.
-- `BigEndianReader` is the bytes that it has not read.
pub mod Stream
pub mod Output
pub mod Decode
pub use oxide_spice.BigEndian.{pure, require, or_fail, lift, ◌>>=◌, ◌>>◌}
use oxide_spice.BigEndian
use oxide_spice.BigEndian.{from_be}
use oxide_spice.Common.{
  ℕ, suc, ◌+◌, ◌*◌, ◌/◌, ◌^◌, Bool, true, false, Option, none, some, List, [], ◌∷◌, String, ◌==◌,
  if◌then◌else◌, drop, take_exact,
}
use oxide_spice.Errors.{Result, ok, err}
use oxide_spice.Bytes.{Bytes, checked_add, checked_mul}

pub record DecodeLimits : Type 0 where
  pub maximum_width : ℕ
  pub maximum_height : ℕ
  pub maximum_output_bytes : ℕ

abbrev pub display_limits : DecodeLimits
display_limits = record {
  maximum_width = 16384;
  maximum_height = 16384;
  maximum_output_bytes = 256 * 1024 * 1024;
}

pub data LzErrorKind : Type 0 where
  truncated invalid_header invalid_back_reference output_overflow resource_limit unsupported_type
        missing_palette unexpected_palette invalid_palette_index trailing_data cancelled :
      LzErrorKind

pub record LzError : Type 0 where
  pub kind : LzErrorKind
  pub context : String

abbrev pub lz_error : LzErrorKind → String → LzError
lz_error kind context = record { kind = kind; context = context }

pub data LzImageType : Type 0 where
  palette1_le palette1_be palette4_le palette4_be palette8 rgb16 rgb24 rgb32 rgba xxx_alpha alpha8 :
      LzImageType

abbrev pub code : LzImageType → ℕ
code palette1_le = 1
code palette1_be = 2
code palette4_le = 3
code palette4_be = 4
code palette8 = 5
code rgb16 = 6
code rgb24 = 7
code rgb32 = 8
code rgba = 9
code xxx_alpha = 10
code alpha8 = 11

-- `TryFrom<u32>`.
unfoldable pub try_from : ℕ → Result LzError LzImageType
try_from v =
    if v == 1
    then ok palette1_le
    else if v == 2
    then ok palette1_be
    else if v == 3
    then ok palette4_le
    else if v == 4
    then ok palette4_be
    else if v == 5
    then ok palette8
    else if v == 6
    then ok rgb16
    else if v == 7
    then ok rgb24
    else if v == 8
    then ok rgb32
    else if v == 9
    then ok rgba
    else if v == 10
    then ok xxx_alpha
    else if v == 11
    then ok alpha8
    else err (lz_error unsupported_type "image type")

divided : ℕ → Option ℕ → Option ℕ
divided n none = none
divided n (some value) = some (value / n)

unfoldable pub expected_stride : LzImageType → ℕ → Option ℕ
unfolding divided
expected_stride palette1_le width = divided 8 (checked_add width 7)
expected_stride palette1_be width = divided 8 (checked_add width 7)
expected_stride palette4_le width = divided 2 (checked_add width 1)
expected_stride palette4_be width = divided 2 (checked_add width 1)
expected_stride palette8 width = some width
expected_stride alpha8 width = some width
expected_stride rgb16 width = checked_mul width 2
expected_stride rgb24 width = checked_mul width 3
expected_stride rgb32 width = checked_mul width 4
expected_stride rgba width = checked_mul width 4
expected_stride xxx_alpha width = checked_mul width 4

abbrev pub match_length_bias : LzImageType → ℕ
match_length_bias palette1_le = 3
match_length_bias palette1_be = 3
match_length_bias palette4_le = 3
match_length_bias palette4_be = 3
match_length_bias palette8 = 3
match_length_bias xxx_alpha = 3
match_length_bias alpha8 = 3
match_length_bias rgb16 = 2
match_length_bias rgb24 = 1
match_length_bias rgb32 = 1
match_length_bias rgba = 1

abbrev pub compressed_unit_bytes : LzImageType → ℕ
compressed_unit_bytes rgb16 = 2
compressed_unit_bytes rgb24 = 3
compressed_unit_bytes rgb32 = 3
compressed_unit_bytes rgba = 3
compressed_unit_bytes palette1_le = 1
compressed_unit_bytes palette1_be = 1
compressed_unit_bytes palette4_le = 1
compressed_unit_bytes palette4_be = 1
compressed_unit_bytes palette8 = 1
compressed_unit_bytes xxx_alpha = 1
compressed_unit_bytes alpha8 = 1

abbrev pub is_palette : LzImageType → Bool
is_palette palette1_le = true
is_palette palette1_be = true
is_palette palette4_le = true
is_palette palette4_be = true
is_palette palette8 = true
is_palette rgb16 = false
is_palette rgb24 = false
is_palette rgb32 = false
is_palette rgba = false
is_palette xxx_alpha = false
is_palette alpha8 = false

-- What reads from the bytes that are left and may fail.
abbrev pub Decoder {ℓ} : Type ℓ → Type ℓ
Decoder A = BigEndian.Decoder LzError A

abbrev pub u8 : String → Decoder ℕ
u8 context [] = err (lz_error truncated context)
u8 context (byte ∷ input) = ok (byte, input)

unfoldable pub bytes : ℕ → String → Decoder Bytes
bytes n context input = elim (take_exact n input) [
  | none ↦ err (lz_error truncated context)
  | some read ↦ ok (read, drop n input)
]

unfoldable pub u32 : String → Decoder ℕ
unfolding bytes
u32 context = do read ← bytes 4 context; pure (from_be 0 read)
