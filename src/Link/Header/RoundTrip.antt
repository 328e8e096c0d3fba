-- ===== src/Link/Header/RoundTrip.antt =====
-- The link header codec, in both directions.
use oxide_spice.Common.{
  ℕ, ◌≤◌, ◌<◌, ◌≡◌, refl, sym, ap, ◌∙◌, subst, arith, true, Bool-cases, inl, inr, ◌==◌, ==_iff, leb,
  [], ◌∷◌, ◌++◌, length, All,
}
use oxide_spice.Errors.{ok, err, unsupported, resource_limit, decode_error}
use oxide_spice.Bytes.{Bytes, IsByte, IsU32, to_le, from_le-to_le_32}
use oxide_spice.Wire.{Reader, take, u32, new}
use oxide_spice.Wire.Cursor.{Sees, new-Sees}
use oxide_spice.Wire.Inverse.{then_ok, require_ok, parse_ok, take_inv, u32_inv, bytes-append}
use oxide_spice.Link.Header.{
  LinkHeader, encode, decode, fields, bytes_eq, spice_magic, spice_version_major,
  max_link_body_size,
}

-- A header of this protocol version whose body fits the limit is read back as it was written,
-- whatever its minor version; a larger body or another major version is refused.
pub decode-encode_link :
    (h : LinkHeader)
    → IsU32 h.major_version
    → IsU32 h.minor_version
    → IsU32 h.body_size
    → ((h.major_version ≡ spice_version_major)
        → (h.body_size ≤ max_link_body_size)
        → decode (encode h []) ≡ ok h)
      × ((h.major_version ≡ spice_version_major)
          → (max_link_body_size < h.body_size)
          → decode (encode h []) ≡ err (decode_error resource_limit 12 "link body size"))
      × (¬ (h.major_version ≡ spice_version_major)
          → decode (encode h []) ≡ err (decode_error unsupported 4 "link major version"))
unfolding decode encode take u32
decode-encode_link h h1 h2 h3 =
    let major = from_le-to_le_32 h.major_version h1 in
    let minor = from_le-to_le_32 h.minor_version h2 in
    let size = from_le-to_le_32 h.body_size h3 in
    (
      λ this small. ground (arith, major, minor, size),
      λ this large. ground (arith, major, minor, size),
      λ other. ground (arith, major, minor, size),
    )

bytes_eq_lem : (xs ys : Bytes) → bytes_eq xs ys ≡ true → xs ≡ ys
unfolding bytes_eq
bytes_eq_lem [] [] h = refl
bytes_eq_lem [] (y ∷ ys) h = absurd (cc)
bytes_eq_lem (x ∷ xs) [] h = absurd (cc)
bytes_eq_lem (x ∷ xs) (y ∷ ys) h = ground (arith, bytes_eq_lem xs ys)

nil_of_length : (xs : Bytes) → length xs ≡ 0 → xs ≡ []
nil_of_length [] h = refl
nil_of_length (x ∷ xs) h = absurd (omega arith)

-- An accepted header is the encoding of what was decoded, has major version 2 and declares a body
-- within the limit.
pub encode-decode_link :
    (input : Bytes) {h : LinkHeader}
    → All IsByte input
    → decode input ≡ ok h
    → (encode h [] ≡ input)
      × (h.major_version ≡ spice_version_major)
      × (h.body_size ≤ max_link_body_size)
unfolding decode encode
encode-decode_link input {h} bytes e = elim (Bool-cases (length input == 16)) [
  | inr other ↦ absurd (ground arith)
  | inl exact ↦
      parse_ok fields input (rw exact at e)
        λ r done. read_fields h r (new-Sees input (ground arith)) done
]
  where
    length_16 : length input ≡ 16
    length_16 = (==_iff (length input) 16).0 (ground arith)

    whole :
        (h : LinkHeader) (magic : Bytes) (major minor size : ℕ) (rest : Bytes)
        → magic ≡ spice_magic
        → input ≡ magic ++ (to_le 4 major ++ (to_le 4 minor ++ (to_le 4 size ++ rest)))
        → major ≡ 2
        → size ≤ 4096
        → ◌≡◌ {A = LinkHeader}
            (record { major_version = major; minor_version = minor; body_size = size })
            h
        → (encode h [] ≡ input)
          × (h.major_version ≡ spice_version_major)
          × (h.body_size ≤ max_link_body_size)
    whole h magic major minor size rest m split two small same =
        let form =
          λ (q t : Bytes). q ++ (to_le 4 major ++ (to_le 4 minor ++ (to_le 4 size ++ t))) in
        let known : input ≡ form spice_magic rest = split ∙ ap (λ q. form q rest) m in
        let none_left : rest ≡ [] =
          nil_of_length rest (omega (arith, ap length known, length_16)) in
        subst
          (λ (q : LinkHeader).
            (encode q [] ≡ input)
            × (q.major_version ≡ spice_version_major)
            × (q.body_size ≤ max_link_body_size))
          same (sym (known ∙ ap (form spice_magic) none_left), two, small)

    read_fields :
        (h : LinkHeader) (r : Reader)
        → Sees (new input) input
        → fields (new input) ≡ ok (h, r)
        → (encode h [] ≡ input)
          × (h.major_version ≡ spice_version_major)
          × (h.body_size ≤ max_link_body_size)
    read_fields h r s e0 = then_ok (take 4 "link magic") _ (new input) e0 λ magic r1 took e1.
        require_ok (bytes_eq magic spice_magic) _ _ r1 e1 λ right e2.
          let t = take_inv (new input) input 4 "link magic" s took in
          let (_, b1) = bytes-append magic t.rest (subst (All IsByte) t.split bytes) in
          then_ok (u32 "link major version") _ r1 e2 λ major r2 at_major e3.
            let m1 = u32_inv r1 t.rest "link major version" b1 t.sees at_major in
            then_ok (u32 "link minor version") _ r2 e3 λ minor r3 at_minor e4.
              let m2 = u32_inv r2 m1.rest "link minor version" m1.bytes m1.sees at_minor in
              then_ok (u32 "link body size") _ r3 e4 λ size r4 at_size e5.
                let m3 = u32_inv r3 m2.rest "link body size" m2.bytes m2.sees at_size in
                require_ok (major == spice_version_major) _ _ r4 e5 λ version e6.
                  require_ok (leb size max_link_body_size) _ _ r4 e6 λ small e7.
                    whole h magic major minor size m3.rest (bytes_eq_lem magic spice_magic right)
                      (t.split
                        ∙ ap (λ q. magic ++ q)
                            (m1.split
                              ∙ ap (λ q. to_le 4 major ++ q)
                                  (m2.split ∙ ap (λ q. to_le 4 minor ++ q) m3.split)))
                      (ground arith) (ground arith) (cc)
