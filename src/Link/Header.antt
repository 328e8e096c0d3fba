-- ===== src/Link/Header.antt =====
-- crates/oxide-spice-protocol/src/link.rs: `LinkHeader`.
pub mod RoundTrip
use oxide_spice.Common.{
  ℕ, Bool, true, not, ◌&&◌, List, [], ◌∷◌, ◌++◌, ◌==◌, leb, if◌then◌else◌, length,
}
use oxide_spice.Errors.{
  truncated, invalid_value, unsupported, resource_limit, DecodeError, decode_error, Result, err,
}
use oxide_spice.Bytes.{Bytes, to_le}
use oxide_spice.Wire.{Parser, take, u32, pure, require, parse, ◌>>=◌, ◌>>◌}

-- "REDQ".
abbrev pub spice_magic : Bytes
spice_magic = b'R' ∷ b'E' ∷ b'D' ∷ b'Q' ∷ []

abbrev pub spice_version_major : ℕ
spice_version_major = 2

abbrev pub spice_version_minor : ℕ
spice_version_minor = 2

abbrev pub link_header_size : ℕ
link_header_size = 16

abbrev pub max_link_body_size : ℕ
max_link_body_size = 4096

pub record LinkHeader : Type 0 where
  pub major_version : ℕ
  pub minor_version : ℕ
  pub body_size : ℕ

abbrev pub current : ℕ → LinkHeader
current body_size = record {
  major_version = spice_version_major;
  minor_version = spice_version_minor;
  body_size = body_size;
}

-- Appended to the output buffer.
unfoldable pub encode : LinkHeader → Bytes → Bytes
encode h output =
    output
    ++ (spice_magic
        ++ (to_le 4 h.major_version ++ (to_le 4 h.minor_version ++ to_le 4 h.body_size)))

-- Equality of two byte strings.
pub bytes_eq : Bytes → Bytes → Bool
bytes_eq [] [] = true
bytes_eq [] (y ∷ ys) = not true
bytes_eq (x ∷ xs) [] = not true
bytes_eq (x ∷ xs) (y ∷ ys) = x == y && bytes_eq xs ys

fields : Parser LinkHeader
unfolding bytes_eq
fields = do
  magic ← take 4 "link magic"
  require (bytes_eq magic spice_magic) (decode_error invalid_value 0 "link magic")
  major_version ← u32 "link major version"
  minor_version ← u32 "link minor version"
  body_size ← u32 "link body size"
  require (major_version == spice_version_major) (decode_error unsupported 4 "link major version")
  require (leb body_size max_link_body_size) (decode_error resource_limit 12 "link body size")
  pure (record {
    major_version = major_version;
    minor_version = minor_version;
    body_size = body_size;
  })

unfoldable pub decode : Bytes → Result DecodeError LinkHeader
unfolding fields
decode input =
    if not (length input == link_header_size)
    then err (decode_error truncated (length input) "link header")
    else parse fields input
