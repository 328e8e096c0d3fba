-- ===== src/Smartcard/Runs.antt =====
-- An APDU of four bytes.
use oxide_spice.Common.{◌≤◌, ◌<◌, ◌≡◌, refl, arith, [], ◌∷◌, All}
use oxide_spice.Errors.{ok, err, resource_limit, decode_error}
use oxide_spice.Bytes.{Bytes, IsByte}
use oxide_spice.Wire.{take, u32}
use oxide_spice.Smartcard.{
  SmartcardMessage, apdu, decode, encode, fields, try_from, max_smartcard_data_bytes,
}
use oxide_spice.Smartcard.RoundTrip.{decode-encode_smartcard, encode-decode_smartcard}

abbrev select : SmartcardMessage
select = record { message_type = apdu; reader_id = 7; data_bytes = 0 ∷ 164 ∷ 4 ∷ 0 ∷ [] }

decode-encode_smartcard_example :
    ((4 ≤ max_smartcard_data_bytes)
      → (body : Bytes) × (encode select ≡ ok body) × (decode body ≡ ok select))
    × ((max_smartcard_data_bytes < 4)
        → encode select ≡ err (decode_error resource_limit 12 "smartcard data length"))
decode-encode_smartcard_example = decode-encode_smartcard select (omega arith)

abbrev select_bytes : Bytes
select_bytes = 7 ∷ 0 ∷ 0 ∷ 0 ∷ 7 ∷ 0 ∷ 0 ∷ 0 ∷ 4 ∷ 0 ∷ 0 ∷ 0 ∷ 0 ∷ 164 ∷ 4 ∷ 0 ∷ []

select_bytes-bytes : All IsByte select_bytes
select_bytes-bytes = (
  omega arith,
  (
    omega arith,
    (
      omega arith,
      (
        omega arith,
        (
          omega arith,
          (
            omega arith,
            (
              omega arith,
              (
                omega arith,
                (
                  omega arith,
                  (
                    omega arith,
                    (
                      omega arith,
                      (omega arith, (omega arith, (omega arith, (omega arith, (omega arith, tt))))),
                    ),
                  ),
                ),
              ),
            ),
          ),
        ),
      ),
    ),
  ),
)

select_bytes-accepted : decode select_bytes ≡ ok select
unfolding decode fields try_from take u32
select_bytes-accepted = refl

encode-decode_smartcard_example : (encode select ≡ ok select_bytes) × (4 ≤ max_smartcard_data_bytes)
encode-decode_smartcard_example =
    encode-decode_smartcard select_bytes select_bytes-bytes (omega arith) select_bytes-accepted
