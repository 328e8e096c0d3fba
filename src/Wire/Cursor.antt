-- ===== src/Wire/Cursor.antt =====
-- What one read does to a reader whose unread bytes are known.
use oxide_spice.Common.{
  ℕ, ◌+◌, ◌-◌, ◌<◌, ◌≡◌, refl, sym, ap, ◌∙◌, arith, some, [], ◌∷◌, ◌++◌, String, length,
  length-append, drop, drop-drop, drop-length-append, take_exact, take_exact-append, get_range,
  get_range-drop, get_range-none,
}
use oxide_spice.Errors.{truncated, decode_error, ok, err}
use oxide_spice.Bytes.{
  Bytes, to_le, from_le-to_le_16, from_le-to_le_32, from_le-to_le_64, IsU16, IsU32, IsU64,
  usize_mod,
}
use oxide_spice.Wire.{Reader, take, u8, u16, u32, u64, new, remaining}

-- `bs` are the bytes that `r` has not read. A Rust slice is shorter than 2 ^ 63 bytes.
pub record Sees (r : Reader) (bs : Bytes) : Type 0 where
  pub unread : drop r.offset r.input ≡ bs
  pub within : r.offset + length bs ≡ length r.input
  pub fits : length r.input < usize_mod

unfoldable pub advance : ℕ → Reader → Reader
advance n r = record r { offset = r.offset + n }

pub new-Sees : (bs : Bytes) → length bs < usize_mod → Sees (new bs) bs
new-Sees bs h = record { unread = refl; within = omega arith; fits = h }

pub advance-Sees :
    (r : Reader) (xs ys : Bytes) → Sees r (xs ++ ys) → Sees (advance (length xs) r) ys
unfolding advance
advance-Sees r xs ys s = record {
  unread =
      sym (drop-drop r.offset (length xs) r.input)
      ∙ ap (drop (length xs)) s.unread
      ∙ drop-length-append xs ys;
  within = omega (arith, s.within, length-append xs ys);
  fits = s.fits;
}

-- A read of the next bytes returns them and moves past them.
pub take-Sees :
    (r : Reader) (xs ys : Bytes) (context : String)
    → Sees r (xs ++ ys)
    → take (length xs) context r ≡ ok (xs, advance (length xs) r)
unfolding take advance
take-Sees r xs ys context s = ground (arith, cut, s.within, s.fits, length-append xs ys)
  where
    cut : get_range r.offset (length xs) r.input ≡ some xs
    cut =
        get_range-drop r.offset (length xs) r.input (omega (arith, s.within))
        ∙ ap (take_exact (length xs)) s.unread
        ∙ take_exact-append xs ys

-- A read of more than is left fails and names the offset.
pub take-short :
    (r : Reader) (bs : Bytes) (n : ℕ) (context : String)
    → Sees r bs
    → length bs < n
    → r.offset + n < usize_mod
    → take n context r ≡ err (decode_error truncated r.offset context)
unfolding take
take-short r bs n context s h b =
    ground (arith, s.within, get_range-none r.offset n r.input (omega (arith, s.within)))

module _ (r : Reader) (v : ℕ) (rest : Bytes) (context : String) where
  pub u8-Sees : Sees r (v ∷ rest) → u8 context r ≡ ok (v, advance 1 r)
  unfolding u8
  u8-Sees s = ground (arith, take-Sees r (v ∷ []) rest context s)

  pub u16-Sees : IsU16 v → Sees r (to_le 2 v ++ rest) → u16 context r ≡ ok (v, advance 2 r)
  unfolding u16
  u16-Sees h s = ground (arith, take-Sees r (to_le 2 v) rest context s, from_le-to_le_16 v h)

  pub u32-Sees : IsU32 v → Sees r (to_le 4 v ++ rest) → u32 context r ≡ ok (v, advance 4 r)
  unfolding u32
  u32-Sees h s = ground (arith, take-Sees r (to_le 4 v) rest context s, from_le-to_le_32 v h)

  pub u64-Sees : IsU64 v → Sees r (to_le 8 v ++ rest) → u64 context r ≡ ok (v, advance 8 r)
  unfolding u64
  u64-Sees h s = ground (arith, take-Sees r (to_le 8 v) rest context s, from_le-to_le_64 v h)

pub remaining-Sees : (r : Reader) (bs : Bytes) → Sees r bs → remaining r ≡ ok (length bs, r)
remaining-Sees r bs s = ground (arith, s.within)

pub left-Sees : (r : Reader) (bs : Bytes) → Sees r bs → length r.input - r.offset ≡ length bs
left-Sees r bs s = omega (arith, s.within)
