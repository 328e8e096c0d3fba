-- ===== src/Spicevmc/RoundTrip.antt =====
-- The compressed-data envelope, encoded and read back.
use oxide_spice.Common.{
  ℕ, ◌+◌, ◌≤◌, ◌<◌, ◌≡◌, refl, sym, ◌∙◌, subst, arith, not, ◌||◌, Bool-cases, inl, inr, ◌==◌, ltb,
  if◌then◌else◌, [], ◌∷◌, ◌++◌, append-nil, length,
}
use oxide_spice.Errors.{ok, err, invalid_value, resource_limit, decode_error}
use oxide_spice.Bytes.{Bytes, IsU32, to_le, usize_mod}
use oxide_spice.Wire.{new}
use oxide_spice.Wire.Cursor.{Sees, new-Sees, advance-Sees, u8-Sees, u32-Sees, take-Sees, left-Sees}
use oxide_spice.Spicevmc.{fields, decode, encode, spicevmc_compression_lz4}

sent : ℕ → Bytes → Bytes
sent size bytes = spicevmc_compression_lz4 ∷ to_le 4 size ++ bytes

encoded :
    (size : ℕ) (bytes : Bytes)
    → 0 < size
    → IsU32 size
    → 0 < length bytes
    → encode size bytes ≡ ok (sent size bytes)
unfolding encode sent
encoded size bytes some_size small some_bytes = ground arith

module _ (maximum size : ℕ) (bytes : Bytes) (small : IsU32 size)
    (fits : 5 + length bytes < usize_mod) where
  -- The reads up to the limit check.
  limited : decode maximum (sent size bytes) ≡ (
      if not (size == 0 || ltb maximum size)
      then (if not (length bytes == 0)
          then ok (record { uncompressed_size = size; compressed_bytes = bytes })
          else err (decode_error invalid_value 5 "SpiceVMC compressed bytes"))
      else err (decode_error resource_limit 1 "SpiceVMC uncompressed size"))
  unfolding decode fields sent
  limited =
      let s0 = new-Sees (sent size bytes) (omega arith) in
      let s1 = advance-Sees (new (sent size bytes)) (1 ∷ []) _ s0 in
      let s2 = advance-Sees _ (to_le 4 size) bytes s1 in
      rw
        (
          u8-Sees _ 1 _ "SpiceVMC compression type" s0,
          u32-Sees _ size _ "SpiceVMC uncompressed size" small s1,
        )
        (elim (Bool-cases (not (size == 0 || ltb maximum size))) [
          | inr over ↦ rw over refl
          | inl within ↦
              rw
                (
                  within,
                  left-Sees _ bytes s2,
                  take-Sees _ bytes [] "SpiceVMC compressed bytes"
                      (subst (Sees _) (sym (append-nil bytes)) s2),
                )
                (elim (Bool-cases (not (length bytes == 0))) [
                  | inl some_bytes ↦ rw some_bytes refl
                  | inr nothing ↦ rw nothing refl
                ])
        ])

-- Compressed bytes with the length of their output are encoded and read back unchanged by a
-- receiver whose limit admits that length; a receiver with a lower limit refuses them.
pub decode-encode_spicevmc :
    (maximum size : ℕ) (bytes : Bytes)
    → 0 < size
    → IsU32 size
    → 0 < length bytes
    → 5 + length bytes < usize_mod
    → (body : Bytes) × (encode size bytes ≡ ok body)
      × ((size ≤ maximum)
          → decode maximum body
            ≡ ok (record { uncompressed_size = size; compressed_bytes = bytes }))
      × ((maximum < size)
          → decode maximum body ≡ err (decode_error resource_limit 1 "SpiceVMC uncompressed size"))
decode-encode_spicevmc maximum size bytes some_size small some_bytes fits =
    let read = limited maximum size bytes small fits in
    (
      sent size bytes,
      encoded size bytes some_size small some_bytes,
      λ within. read ∙ ground arith,
      λ over. read ∙ ground arith,
    )
