-- ===== src/Channel/SubMessages/Valid.antt =====
-- What `decode` has checked of every message of the list that it returns.
use native.Mathlib.Decide.{dec_lt}
use oxide_spice.Common.{
  ℕ, zero, suc, ◌+◌, ◌≤◌, ◌<◌, ◌≡◌, ◌≢◌, ◌⊎◌, inl, inr, refl, sym, ap, ◌∙◌, subst, arith, true, not,
  some, [], ◌∷◌, ◌++◌, String, ◌==◌, length, drop, drop-drop, take_exact, take_exact_split,
  get_range, get_range-drop, length-drop,
}
use oxide_spice.Errors.{ok, ok-injective, >>=-eq-ok, ensure-eq-ok, bind_ok, seq_ok, ensure_ok}
use oxide_spice.Bytes.{Bytes, from_le, usize_mod}
use oxide_spice.Wire.{Reader, Range, take, u16, u32, slice, resolve_range}
use oxide_spice.Wire.Bounds.{resolve_range_bounds, get_range_long}
use oxide_spice.Messages.CommonServer
use oxide_spice.Channel.SubMessages.{
  SubMessage, SubMessageList, read_submessage_offset, ranges_overlap, check_distinct, read_type,
  check_size, check_header, check_message, message_at, read_message,
}

-- The six bytes of a message header.
record Header : Type 0 where
  t0 : ℕ
  t1 : ℕ
  s0 : ℕ
  s1 : ℕ
  s2 : ℕ
  s3 : ℕ

abbrev header_bytes : Header → Bytes → Bytes
header_bytes h rest = h.t0 ∷ h.t1 ∷ h.s0 ∷ h.s1 ∷ h.s2 ∷ h.s3 ∷ rest

abbrev header_type : Header → ℕ
header_type h = from_le (h.t0 ∷ h.t1 ∷ [])

abbrev header_size : Header → ℕ
header_size h = from_le (h.s0 ∷ h.s1 ∷ h.s2 ∷ h.s3 ∷ [])

six : (xs : Bytes) → length xs ≡ 6 → (h : Header) × (xs ≡ header_bytes h [])
six [] e = absurd (omega arith)
six (a ∷ []) e = absurd (omega arith)
six (a ∷ b ∷ []) e = absurd (omega arith)
six (a ∷ b ∷ c ∷ []) e = absurd (omega arith)
six (a ∷ b ∷ c ∷ d ∷ []) e = absurd (omega arith)
six (a ∷ b ∷ c ∷ d ∷ f ∷ []) e = absurd (omega arith)
six (a ∷ b ∷ c ∷ d ∷ f ∷ g ∷ []) e =
    (record { t0 = a; t1 = b; s0 = c; s1 = d; s2 = f; s3 = g }, refl)
six (a ∷ b ∷ c ∷ d ∷ f ∷ g ∷ k ∷ ks) e = absurd (omega arith)

-- A header that `resolve_range` found in the body.
record Located (body : Bytes) (offset : ℕ) (range : Range) : Type 0 where
  header : Header
  rest : Bytes
  same : range ≡ record { start = offset; end = offset + 6 }
  cut : slice body range ≡ header_bytes header []
  tail : drop offset body ≡ header_bytes header rest
  size : offset + 6 + length rest ≡ length body

locate :
    (body : Bytes) (offset : ℕ) (context : String) {range : Range}
    → length body < usize_mod
    → resolve_range body offset 6 context ≡ ok range
    → Located body offset range
locate body offset context {range} fits e = elim (resolve_range_bounds body offset 6 context fits) [
  | inr (_, (k, refused, _)) ↦ absurd (cc)
  | inl (within, accepted, cut, size) ↦
      let same : range ≡ record { start = offset; end = offset + 6 } = cc in
      let (h, six_bytes) = six _ size in
      let (_, split) =
        take_exact_split 6 (drop offset body) _
          (sym (get_range-drop offset 6 body (omega arith)) ∙ cut) in
      let front : drop offset body ≡ header_bytes h [] ++ drop 6 (drop offset body) =
        split ∙ ap (λ q. q ++ drop 6 (drop offset body)) six_bytes in
      record {
        header = h;
        rest = drop 6 (drop offset body);
        same = same;
        cut = ap (slice body) same ∙ six_bytes;
        tail = front;
        size = omega (arith, within, length-drop 6 (drop offset body), length-drop offset body);
      }
]

-- A message is read from its own bytes when the body that its header declares is there.
read_message-header :
    (h : Header) (rest : Bytes) {body : Bytes}
    → take_exact (header_size h) rest ≡ some body
    → 6 + header_size h < usize_mod
    → read_message (header_bytes h rest) ≡ ok (record { message_type = header_type h; body = body })
unfolding read_message take u16 u32
read_message-header h rest cut fits = ground arith

-- `message_at` on an entry whose header was located and whose body lies in the envelope.
read_located :
    (l : SubMessageList) (index offset : ℕ) (h : Header) (rest : Bytes)
    → read_submessage_offset l.body l.offsets_start index ≡ ok offset
    → drop offset l.body ≡ header_bytes h rest
    → offset + 6 ≤ length l.body
    → header_size h ≤ length rest
    → 6 + header_size h < usize_mod
    → (body : Bytes) × (message_at l index
        ≡ ok (record { message_type = header_type h; body = body }))
      × (get_range (offset + 6) (header_size h) l.body ≡ some body)
      × (length body ≡ header_size h)
unfolding message_at
read_located l index offset h rest entry tail within fits wide =
    let (body, cut, size) = get_range_long 0 (header_size h) rest (omega arith) in
    (
      body,
      rw (entry, message_at) (rw tail (read_message-header h rest cut wide)),
      get_range-drop (offset + 6) (header_size h) l.body within
          ∙ ap (take_exact (header_size h)) (sym (drop-drop offset 6 l.body) ∙ ap (drop 6) tail)
          ∙ cut,
      size,
    )

-- What is known of message `index` of a decoded list, whose table lies from `list_start` to
-- `table_end`.
pub record ValidMessage (l : SubMessageList) (list_start table_end index : ℕ) : Type 0 where
  pub offset : ℕ
  pub message : SubMessage
  pub entry : read_submessage_offset l.body l.offsets_start index ≡ ok offset
  pub yields : message_at l index ≡ ok message
  pub in_envelope : offset + 6 + length message.body ≤ length l.body
  pub content : get_range (offset + 6) (length message.body) l.body ≡ some message.body
  pub not_nested : message.message_type ≢ CommonServer.list
  pub off_table : (offset + 6 + length message.body ≤ list_start) ⊎ (table_end ≤ offset)
  pub distinct :
      (earlier : ℕ)
      → earlier < index
      → ¬ (read_submessage_offset l.body l.offsets_start earlier ≡ ok offset)

check_distinct_lem :
    (body : Bytes) (offsets_start index offset rounds from : ℕ) {u : Unit {0}}
    → check_distinct body offsets_start index offset rounds from ≡ ok u
    → (earlier : ℕ) → from ≤ earlier
    → earlier < from + rounds
    → ¬ (read_submessage_offset body offsets_start earlier ≡ ok offset)
unfolding check_distinct
check_distinct_lem body start index offset zero from e earlier lo hi = λ _. omega arith
check_distinct_lem body start index offset (suc rounds) from e earlier lo hi =
    let (other, found, more) = >>=-eq-ok (read_submessage_offset body start from) _ e in
    let (differs, rest) = ensure-eq-ok (not (other == offset)) _ _ more in
    elim (dec_lt from earlier) [
      | yes later ↦
          check_distinct_lem body start index offset rounds (from + 1) rest earlier (omega arith)
            (omega arith)
      | no same ↦
          let here : earlier ≡ from = omega arith in
          λ hit. absurd (
            clash other (subst (λ q. read_submessage_offset body start q ≡ ok offset) here hit)
              found differs)
    ]
  where
    clash :
        (other : ℕ)
        → read_submessage_offset body start from ≡ ok offset
        → read_submessage_offset body start from ≡ ok other
        → not (other == offset) ≡ true
        → ⊥
    clash other p q d = let same = ok-injective (sym p ∙ q) in ground arith

check_size_bytes :
    (body : Bytes) (list_start table_end offset : ℕ) (h : Header) {u : Unit {0}}
    → check_size body list_start table_end
        (record { start = offset; end = offset + 6 })
        (record { input = header_bytes h []; offset = 2 })
      ≡ ok u
    → (offset + 6 + header_size h ≤ length body)
      × ((offset + 6 + header_size h ≤ list_start) ⊎ (table_end ≤ offset))
      × (offset + 6 + header_size h < usize_mod)
unfolding check_size u32 ranges_overlap
check_size_bytes body list_start table_end offset h e = ground arith

check_size_lem :
    (body : Bytes) (list_start table_end offset : ℕ) (range : Range)
    (located : Located body offset range) {u : Unit {0}}
    → check_size body list_start table_end range (record { input = slice body range; offset = 2 })
      ≡ ok u
    → (offset + 6 + header_size located.header ≤ length body)
      × ((offset + 6 + header_size located.header ≤ list_start) ⊎ (table_end ≤ offset))
      × (offset + 6 + header_size located.header < usize_mod)
check_size_lem body list_start table_end offset range located {u} e =
    check_size_bytes body list_start table_end offset located.header (
      subst
        (λ q.
          check_size body list_start table_end q
            (record { input = header_bytes located.header []; offset = 2 })
          ≡ ok u)
        located.same
        (subst
          (λ q.
            check_size body list_start table_end range (record { input = q; offset = 2 }) ≡ ok u)
          located.cut e))

read_type_lem :
    (body : Bytes) (offset : ℕ) (range : Range) (located : Located body offset range)
    → read_type body range
      ≡ ok (header_type located.header, record { input = slice body range; offset = 2 })
unfolding read_type u16
read_type_lem body offset range located = rw located.cut

-- The parts of a checked message together.
Located-ValidMessage :
    (l : SubMessageList) (list_start table_end index offset : ℕ) (range : Range)
    → read_submessage_offset l.body l.offsets_start index ≡ ok offset
    → ((earlier : ℕ)
        → earlier < index
        → ¬ (read_submessage_offset l.body l.offsets_start earlier ≡ ok offset))
    → (located : Located l.body offset range) → header_type located.header ≢ CommonServer.list
    → (offset + 6 + header_size located.header ≤ length l.body)
      × ((offset + 6 + header_size located.header ≤ list_start) ⊎ (table_end ≤ offset))
      × (offset + 6 + header_size located.header < usize_mod)
    → ValidMessage l list_start table_end index
Located-ValidMessage l list_start table_end index offset range entry fresh located plain
      (inside, off, wide) =
    let (body, yields, content, size) =
      read_located l index offset located.header located.rest entry located.tail
        (omega (arith, located.size)) (omega (arith, located.size)) (omega arith) in
    record {
      offset = offset;
      message = record { message_type = header_type located.header; body = body };
      entry = entry;
      yields = yields;
      in_envelope = omega arith;
      content = rw size content;
      not_nested = plain;
      off_table = rw size off;
      distinct = fresh;
    }

clash : (t : ℕ) → t ≡ CommonServer.list → ¬ (not (t == CommonServer.list) ≡ true)
clash t e h = ground arith

checked_ValidMessage :
    (l : SubMessageList) (list_start table_end index offset : ℕ) (range : Range) {u : Unit {0}}
    → read_submessage_offset l.body l.offsets_start index ≡ ok offset
    → ((earlier : ℕ)
        → earlier < index
        → ¬ (read_submessage_offset l.body l.offsets_start earlier ≡ ok offset))
    → Located l.body offset range
    → check_header l.body list_start table_end range ≡ ok u
    → ValidMessage l list_start table_end index
unfolding check_header
checked_ValidMessage l list_start table_end index offset range {u} entry fresh located e =
    bind_ok (read_type l.body range) _ e λ found typed e4.
      let same = ok-injective (sym typed ∙ read_type_lem l.body offset range located) in
      ensure_ok (not (found.0 == CommonServer.list)) _ _ e4 λ plain e5.
        Located-ValidMessage l list_start table_end index offset range entry fresh located
          (nested found same plain)
          (check_size_lem l.body list_start table_end offset range located (
            subst (λ (q : ℕ × Reader). check_size l.body list_start table_end range q.1 ≡ ok u) same
              e5))
  where
    nested :
        (found : ℕ × Reader)
        → found ≡ (header_type located.header, record { input = slice l.body range; offset = 2 })
        → not (found.0 == CommonServer.list) ≡ true
        → header_type located.header ≢ CommonServer.list
    nested found same plain hit =
        let first : found.0 ≡ header_type located.header = ap (λ (q : ℕ × Reader). q.0) same in
        clash found.0 (first ∙ hit) plain

pub check_message_lem :
    (l : SubMessageList) (list_start table_end index : ℕ) {u : Unit {0}}
    → length l.body < usize_mod
    → check_message l.body list_start table_end l.offsets_start index ≡ ok u
    → ValidMessage l list_start table_end index
unfolding check_message
check_message_lem l list_start table_end index fits e =
    bind_ok (read_submessage_offset l.body l.offsets_start index) _ e λ offset entry e1.
      seq_ok (check_distinct l.body l.offsets_start index offset index 0) _ e1 λ fresh e2.
        bind_ok (resolve_range l.body offset 6 "sub-message header") _ e2 λ range resolved e3.
          checked_ValidMessage l list_start table_end index offset range entry
            (λ earlier lt.
              check_distinct_lem l.body l.offsets_start index offset index 0 fresh earlier
                (omega arith) (omega arith))
            (locate l.body offset "sub-message header" fits resolved) e3
