-- ===== src/Spicevmc/Runs.antt =====
-- Three compressed bytes of 4096.
use oxide_spice.Common.{◌≤◌, ◌<◌, ◌≡◌, arith, [], ◌∷◌}
use oxide_spice.Errors.{ok, err, resource_limit, decode_error}
use oxide_spice.Bytes.{Bytes}
use oxide_spice.Spicevmc.{decode, encode}
use oxide_spice.Spicevmc.RoundTrip.{decode-encode_spicevmc}

decode-encode_spicevmc_example :
    (body : Bytes) × (encode 4096 (1 ∷ 2 ∷ 3 ∷ []) ≡ ok body)
    × ((4096 ≤ 8192)
        → decode 8192 body
          ≡ ok (record { uncompressed_size = 4096; compressed_bytes = 1 ∷ 2 ∷ 3 ∷ [] }))
    × ((8192 < 4096)
        → decode 8192 body ≡ err (decode_error resource_limit 1 "SpiceVMC uncompressed size"))
decode-encode_spicevmc_example =
    decode-encode_spicevmc 8192 4096 (1 ∷ 2 ∷ 3 ∷ []) (omega arith) (omega arith) (omega arith)
      (omega arith)
