-- ===== src/Glz.antt =====
-- crates/oxide-spice-codecs/src/glz.rs: GLZ images, which refer to pixels of earlier images. The
-- decoder is that of a `should_cancel` that always answers false, and `resolve_image` is a function.
pub mod Reference
pub mod Decode
pub use oxide_spice.BigEndian.{pure, require, or_fail, lift, ◌>>=◌, ◌>>◌}
use oxide_spice.BigEndian
use oxide_spice.BigEndian.{from_be}
use oxide_spice.Common.{ℕ, Option, none, some, [], ◌∷◌, String, drop, take_exact}
use oxide_spice.Errors.{Result, ok, err}
use oxide_spice.Bytes.{Bytes}

pub data GlzErrorKind : Type 0 where
  truncated invalid_header invalid_back_reference missing_reference output_overflow resource_limit
        unsupported_type trailing_data cancelled :
      GlzErrorKind

pub record GlzError : Type 0 where
  pub kind : GlzErrorKind
  pub context : String
  pub missing_image_id : Option ℕ

abbrev pub glz_error : GlzErrorKind → String → GlzError
glz_error kind context = record { kind = kind; context = context; missing_image_id = none }

abbrev pub missing : ℕ → GlzError
missing image_id = record {
  kind = missing_reference;
  context = "dictionary image";
  missing_image_id = some image_id;
}

-- What reads from the bytes that are left and may fail.
abbrev pub Decoder {ℓ} : Type ℓ → Type ℓ
Decoder A = BigEndian.Decoder GlzError A

abbrev pub u8 : String → Decoder ℕ
u8 context [] = err (glz_error truncated context)
u8 context (value ∷ input) = ok (value, input)

unfoldable pub bytes : ℕ → String → Decoder Bytes
bytes n context input = elim (take_exact n input) [
  | none ↦ err (glz_error truncated context)
  | some read ↦ ok (read, drop n input)
]

unfoldable pub u32 : String → Decoder ℕ
unfolding bytes
u32 context = do read ← bytes 4 context; pure (from_be 0 read)

unfoldable pub u64 : String → Decoder ℕ
unfolding bytes
u64 context = do read ← bytes 8 context; pure (from_be 0 read)
