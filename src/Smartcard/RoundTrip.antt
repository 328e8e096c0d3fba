-- ===== src/Smartcard/RoundTrip.antt =====
-- The VSC message codec, in both directions.
use oxide_spice.Common.{
  ℕ, ◌-◌, ◌≤◌, ◌<◌, ◌≡◌, refl, sym, ap, ◌∙◌, subst, arith, true, ◌==◌, ==_iff, ==_refl, leb, leb→le,
  [], ◌∷◌, ◌++◌, append-nil, length-append, length, All,
}
use oxide_spice.Errors.{ok, err, resource_limit, decode_error}
use oxide_spice.Bytes.{Bytes, IsByte, IsU32, to_le, usize_mod}
use oxide_spice.Wire.{take, u32, new}
use oxide_spice.Wire.Cursor.{Sees, new-Sees, advance-Sees, u32-Sees, take-Sees, left-Sees}
use oxide_spice.Wire.Inverse.{parse_ok, then_ok, lift_ok, require_ok, take_inv, u32_inv}
use oxide_spice.Smartcard.{
  SmartcardMessageType, SmartcardMessage, code, try_from, fields, decode, encode,
  max_smartcard_data_bytes,
}

try_from-code_lem : (t : SmartcardMessageType) → try_from (code t) ≡ ok t
unfolding try_from
try_from-code_lem t = ground arith

code-IsU32 : (t : SmartcardMessageType) → IsU32 (code t)
code-IsU32 t = ground arith

sent : SmartcardMessage → Bytes
sent m =
    to_le 4 (code m.message_type)
    ++ (to_le 4 m.reader_id ++ (to_le 4 (length m.data_bytes) ++ m.data_bytes))

encoded :
    (m : SmartcardMessage) → length m.data_bytes ≤ max_smartcard_data_bytes → encode m ≡ ok (sent m)
unfolding encode sent
encoded m small = ground arith

module _ (m : SmartcardMessage) (h : IsU32 m.reader_id)
    (small : length m.data_bytes ≤ max_smartcard_data_bytes) where
  decoded : decode (sent m) ≡ ok m
  unfolding decode fields sent
  decoded =
      let n = length m.data_bytes in
      let s0 = new-Sees (sent m) (omega arith) in
      let s1 = advance-Sees (new (sent m)) (to_le 4 (code m.message_type)) _ s0 in
      let s2 = advance-Sees _ (to_le 4 m.reader_id) (to_le 4 n ++ m.data_bytes) s1 in
      let s3 = advance-Sees _ (to_le 4 n) m.data_bytes s2 in
      rw
        (
          u32-Sees _ (code m.message_type) _ "smartcard message type" (code-IsU32 m.message_type)
              s0,
          try_from-code_lem m.message_type,
          u32-Sees _ m.reader_id _ "smartcard reader id" h s1,
          u32-Sees _ n _ "smartcard data length" (omega arith) s2,
          within,
          left-Sees _ m.data_bytes s3,
          ==_refl n,
          take-Sees _ m.data_bytes [] "smartcard data"
              (subst (Sees _) (sym (append-nil m.data_bytes)) s3),
        )
        refl
    where
      within : leb (length m.data_bytes) max_smartcard_data_bytes ≡ true
      within = ground arith

-- A message with at most 64 KiB of data is encoded and read back unchanged; with more it is
-- refused.
pub decode-encode_smartcard :
    (m : SmartcardMessage)
    → IsU32 m.reader_id
    → ((length m.data_bytes ≤ max_smartcard_data_bytes)
        → (body : Bytes) × (encode m ≡ ok body) × (decode body ≡ ok m))
      × ((max_smartcard_data_bytes < length m.data_bytes)
          → encode m ≡ err (decode_error resource_limit 12 "smartcard data length"))
unfolding encode decode fields
decode-encode_smartcard m h =
    (λ small. (sent m, encoded m small, decoded m h small), λ large. ground arith)

code-try_from_lem : (v : ℕ) (t : SmartcardMessageType) → try_from v ≡ ok t → code t ≡ v
unfolding try_from
code-try_from_lem v t e = ground arith

nil_of_length : (xs : Bytes) → length xs ≡ 0 → xs ≡ []
nil_of_length [] h = refl
nil_of_length (x ∷ xs) h = absurd (omega arith)

-- The message whose fields were read is encoded as the bytes that were read.
whole :
    (body : Bytes) (m : SmartcardMessage) (type_code reader_id data_length : ℕ)
    (t : SmartcardMessageType) (data_bytes rest : Bytes)
    → body
      ≡ to_le 4 type_code ++ (to_le 4 reader_id ++ (to_le 4 data_length ++ (data_bytes ++ rest)))
    → code t ≡ type_code
    → length data_bytes ≡ data_length
    → rest ≡ []
    → data_length ≤ max_smartcard_data_bytes
    → ◌≡◌ {A = SmartcardMessage}
        (record { message_type = t; reader_id = reader_id; data_bytes = data_bytes })
        m
    → (encode m ≡ ok body) × (length m.data_bytes ≤ max_smartcard_data_bytes)
unfolding sent
whole body m type_code reader_id data_length t xs rest split is_code size nothing small same =
    let form = λ (c n : ℕ) (q : Bytes). to_le 4 c ++ (to_le 4 reader_id ++ (to_le 4 n ++ q)) in
    let kept : form (code t) (length xs) xs ≡ body =
      ap (λ c. form c (length xs) xs) is_code
      ∙ ap (λ n. form type_code n xs) size
      ∙ ap (form type_code data_length) (sym (append-nil xs) ∙ ap (λ q. xs ++ q) (sym nothing))
      ∙ sym split in
    subst
      (λ (q : SmartcardMessage).
        (encode q ≡ ok body) × (length q.data_bytes ≤ max_smartcard_data_bytes))
      same
      (
        encoded (record { message_type = t; reader_id = reader_id; data_bytes = xs }) (omega arith)
            ∙ ap ok kept,
        omega arith,
      )

-- A body of fewer than 2 ^ 64 bytes that is accepted is the encoding of the message that was
-- decoded, and its data keep the limit.
pub encode-decode_smartcard :
    (body : Bytes) {m : SmartcardMessage}
    → All IsByte body
    → length body < usize_mod
    → decode body ≡ ok m
    → (encode m ≡ ok body) × (length m.data_bytes ≤ max_smartcard_data_bytes)
unfolding encode decode fields
encode-decode_smartcard body {m} bytes fits e = parse_ok fields body e λ r e0.
    let s0 = new-Sees body fits in
    then_ok (u32 "smartcard message type") _ (new body) e0 λ type_code r1 at_type e1.
      let m1 = u32_inv (new body) body "smartcard message type" bytes s0 at_type in
      lift_ok (try_from type_code) _ r1 e1 λ message_type typed e2.
        then_ok (u32 "smartcard reader id") _ r1 e2 λ reader_id r2 at_reader e3.
          let m2 = u32_inv r1 m1.rest "smartcard reader id" m1.bytes m1.sees at_reader in
          then_ok (u32 "smartcard data length") _ r2 e3 λ data_length r3 at_length e4.
            let m3 = u32_inv r2 m2.rest "smartcard data length" m2.bytes m2.sees at_length in
            require_ok (leb data_length max_smartcard_data_bytes) _ _ r3 e4 λ small e5.
              require_ok (length r3.input - r3.offset == data_length) _ _ r3 e5 λ exact e6.
                then_ok (take data_length "smartcard data") _ r3 e6 λ data_bytes r4 took e7.
                  let t = take_inv r3 m3.rest data_length "smartcard data" m3.sees took in
                  whole body m type_code reader_id data_length message_type data_bytes t.rest
                    (m1.split
                      ∙ ap (λ q. to_le 4 type_code ++ q)
                          (m2.split
                            ∙ ap (λ q. to_le 4 reader_id ++ q)
                                (m3.split ∙ ap (λ q. to_le 4 data_length ++ q) t.split)))
                    (code-try_from_lem type_code message_type typed) t.size
                    (nil_of_length t.rest (
                      omega (
                        arith,
                        (==_iff (length r3.input - r3.offset) data_length).0 exact,
                        left-Sees r3 m3.rest m3.sees,
                        ap length t.split,
                        length-append data_bytes t.rest,
                        t.size,
                      )))
                    (leb→le data_length max_smartcard_data_bytes small) (cc)
