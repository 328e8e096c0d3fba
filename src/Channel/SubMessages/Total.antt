-- ===== src/Channel/SubMessages/Total.antt =====
-- The iterator of `SubMessageList`, on a list that `decode` returned.
use native.Mathlib.Decide.{dec_lt}
use oxide_spice.Common.{
  ℕ, zero, suc, ◌+◌, ◌*◌, none, false, ◌==◌, ◌≤◌, ◌<◌, ◌≡◌, refl, ap, subst, arith, inl, inr, some,
  List, [], ◌∷◌, String, true, length, leb, drop,
}
use oxide_spice.Errors.{ok, ok-injective, bind_ok, ok_or_ok, seq_ok, ensure_ok}
use oxide_spice.Bytes.{Bytes, try_u32, usize_mod, checked_add, checked_mul}
use oxide_spice.Wire.{Range, u16, parse, resolve_range}
use oxide_spice.Wire.Bounds.{resolve_range_bounds}
use oxide_spice.Channel.SubMessages.{
  SubMessage, SubMessageList, check_message, check_messages, decode, message_at, next, collect,
  prepend, max_submessages,
}
use oxide_spice.Channel.SubMessages.Valid.{ValidMessage, check_message_lem}

check_messages_lem :
    (l : SubMessageList) (list_start table_end rounds from : ℕ) {u : Unit {0}}
    → length l.body < usize_mod
    → check_messages l.body list_start table_end l.offsets_start rounds from ≡ ok u
    → (index : ℕ) → from ≤ index
    → index < from + rounds
    → ValidMessage l list_start table_end index
unfolding check_messages
check_messages_lem l start end zero from fits e index lo hi = absurd (omega arith)
check_messages_lem l start end (suc rounds) from fits e index lo hi =
    seq_ok (check_message l.body start end l.offsets_start from) _ e λ first rest.
      elim (dec_lt from index) [
        | yes later ↦
            check_messages_lem l start end rounds (from + 1) fits rest index (omega arith)
              (omega arith)
        | no here ↦
            let same : index ≡ from = omega arith in
            rw same (check_message_lem l start end from fits first)
      ]

range_eq :
    (body : Bytes) (start n : ℕ) (context : String) {range : Range}
    → length body < usize_mod
    → resolve_range body start n context ≡ ok range
    → (range ≡ record { start = start; end = start + n }) × (start + n ≤ length body)
range_eq body start n context fits e = elim (resolve_range_bounds body start n context fits) [
  | inl (within, accepted, _, _) ↦ (cc, within)
  | inr (_, (k, refused, _)) ↦ absurd (cc)
]

-- What `decode` promises of the list that it returns for the table at `list_offset`.
pub record ValidList (body : Bytes) (list_offset : ℕ) (l : SubMessageList) : Type 0 where
  pub same_body : l.body ≡ body
  pub bounded : l.count ≤ max_submessages
  pub table : list_offset + 2 + l.count * 4 ≤ length body
  pub valid :
      (index : ℕ)
      → index < l.count
      → ValidMessage l list_offset (list_offset + 2 + l.count * 4) index

added_eq : (a b : ℕ) {c : ℕ} → checked_add a b ≡ some c → c ≡ a + b
added_eq a b e = ground arith

multiplied_eq : (a b : ℕ) {c : ℕ} → checked_mul a b ≡ some c → c ≡ a * b
multiplied_eq a b e = ground arith

narrow_eq : (a : ℕ) {c : ℕ} → try_u32 a ≡ some c → c ≡ a
narrow_eq a e = ground arith

assemble :
    (body : Bytes) (list_offset offsets_start count table_end start : ℕ)
    → length body < usize_mod
    → leb count max_submessages ≡ true
    → start ≡ list_offset
    → table_end ≡ list_offset + 2 + count * 4
    → table_end ≤ length body
    → check_messages body start table_end offsets_start count 0 ≡ ok tt
    → ValidList body list_offset
        (record { body = body; offsets_start = offsets_start; count = count })
assemble body list_offset offsets_start count table_end start fits few at_list at_end inside
      checked =
    record {
      same_body = refl;
      bounded = ground arith;
      table = omega arith;
      valid = λ index lt.
          check_messages_lem (record { body = body; offsets_start = offsets_start; count = count })
            list_offset (list_offset + 2 + count * 4) count 0 fits
            (subst (λ q. check_messages body list_offset q offsets_start count 0 ≡ ok tt) at_end
              (subst (λ q. check_messages body q table_end offsets_start count 0 ≡ ok tt) at_list
                checked))
            index (omega arith) (omega arith);
    }

-- Every list that `decode` returns is bounded, has its table in the envelope, and each of its
-- messages is valid.
pub decode-ValidList :
    (body : Bytes) (list_offset : ℕ) {l : SubMessageList}
    → length body < usize_mod
    → decode body list_offset ≡ ok l
    → ValidList body list_offset l
unfolding decode
decode-ValidList body list_offset {l} fits e =
    bind_ok (resolve_range body list_offset 2 "sub-message list") _ e λ list at_list e1.
      bind_ok (parse (u16 "sub-message count") (drop list.start body)) _ e1 λ count counted e2.
        ensure_ok (leb count max_submessages) _ _ e2 λ few e3.
          ok_or_ok (checked_add list.start 2) _ _ e3 λ offsets_start added e4.
            ok_or_ok (checked_mul count 4) _ _ e4 λ bytes multiplied e5.
              ok_or_ok (try_u32 offsets_start) _ _ e5 λ wire_start narrow e6.
                bind_ok (resolve_range body wire_start bytes "sub-message offsets") _ e6
                  λ table resolved e7.
                    seq_ok (check_messages body list.start table.end offsets_start count 0) _ e7
                      λ checked e8.
                        let (list_same, _) =
                          range_eq body list_offset 2 "sub-message list" fits at_list in
                        let (table_same, inside) =
                          range_eq body wire_start bytes "sub-message offsets" fits resolved in
                        let list_start = ap (λ (q : Range). q.start) list_same in
                        let end : table.end ≡ wire_start + bytes =
                          ap (λ (q : Range). q.end) table_same in
                        let sum : offsets_start ≡ list.start + 2 = added_eq list.start 2 added in
                        let size : bytes ≡ count * 4 = multiplied_eq count 4 multiplied in
                        let wire : wire_start ≡ offsets_start = narrow_eq offsets_start narrow in
                        subst (ValidList body list_offset) (ok-injective e8) (
                          assemble body list_offset offsets_start count table.end list.start fits
                            few list_start (omega arith) (omega arith) checked)

pub next_end : (l : SubMessageList) (index : ℕ) → index ≡ l.count → next l index ≡ none
unfolding next
next_end l index past = let at_end : (index == l.count) ≡ true = ground arith in rw at_end refl

pub next_lem :
    (l : SubMessageList) (index : ℕ) {m : SubMessage}
    → index < l.count
    → message_at l index ≡ ok m
    → next l index ≡ some (ok (m, index + 1))
unfolding next
next_lem l index before reads =
    let not_past : (index == l.count) ≡ false = ground arith in rw (not_past, reads) refl

pub collect_end :
    (calls : ℕ) (l : SubMessageList) (index : ℕ)
    → next l index ≡ none
    → collect (suc calls) l index ≡ some (ok [])
unfolding collect
collect_end calls l index past = rw (past, collect) refl

pub collect_step :
    (calls : ℕ) (l : SubMessageList) (index index' : ℕ) {m : SubMessage} {ms : List SubMessage}
    → next l index ≡ some (ok (m, index'))
    → collect calls l index' ≡ some (ok ms)
    → collect (suc calls) l index ≡ some (ok (m ∷ ms))
unfolding collect prepend
collect_step calls l index index' yields rest = rw (yields, collect, rest) refl
