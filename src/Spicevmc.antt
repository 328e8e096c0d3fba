-- ===== src/Spicevmc.antt =====
-- crates/oxide-spice-protocol/src/spicevmc.rs: the compressed-data envelope of SpiceVMC channels.
pub mod RoundTrip
mod Runs
use oxide_spice.Common.{
  ℕ, ◌+◌, Bool, not, ◌&&◌, ◌||◌, Option, none, some, List, [], ◌∷◌, ◌++◌, ◌==◌, ltb, leb,
  if◌then◌else◌, length,
}
use oxide_spice.Errors.{
  invalid_value, overflow, resource_limit, unsupported, DecodeError, decode_error, Result, ok, err,
}
use oxide_spice.Bytes.{Bytes, to_le, try_u32}
use oxide_spice.Wire.{Parser, take, u8, u32, pure, require, parse, remaining, ◌>>=◌, ◌>>◌}

abbrev pub spicevmc_compression_lz4 : ℕ
spicevmc_compression_lz4 = 1

abbrev pub compressed_data_header_bytes : ℕ
compressed_data_header_bytes = 1 + 4

pub record SpiceVmcCompressedData : Type 0 where
  pub uncompressed_size : ℕ
  pub compressed_bytes : Bytes

pub fields : ℕ → Parser SpiceVmcCompressedData
fields maximum_uncompressed_bytes = do
  compression ← u8 "SpiceVMC compression type"
  require (compression == spicevmc_compression_lz4)
      (decode_error unsupported 0 "SpiceVMC compression type")
  uncompressed_size ← u32 "SpiceVMC uncompressed size"
  require (not (uncompressed_size == 0 || ltb maximum_uncompressed_bytes uncompressed_size))
      (decode_error resource_limit 1 "SpiceVMC uncompressed size")
  left ← remaining
  compressed_bytes ← take left "SpiceVMC compressed bytes"
  require (not (length compressed_bytes == 0))
      (decode_error invalid_value compressed_data_header_bytes "SpiceVMC compressed bytes")
  pure (record { uncompressed_size = uncompressed_size; compressed_bytes = compressed_bytes })

-- `SpiceVmcCompressedData::decode`, the limit first.
pub decode : ℕ → Bytes → Result DecodeError SpiceVmcCompressedData
decode maximum_uncompressed_bytes body = parse (fields maximum_uncompressed_bytes) body

-- `encode_spicevmc_compressed_data`.
pub encode : ℕ → Bytes → Result DecodeError Bytes
encode uncompressed_size compressed_bytes =
    if uncompressed_size == 0 || length compressed_bytes == 0
    then err (decode_error invalid_value 0 "SpiceVMC compressed data")
    else elim (try_u32 uncompressed_size) [
      | none ↦ err (decode_error overflow 1 "SpiceVMC uncompressed size")
      | some size ↦ ok (spicevmc_compression_lz4 ∷ to_le 4 size ++ compressed_bytes)
    ]
