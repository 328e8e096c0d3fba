-- ===== src/Client/Progress/Barrier.antt =====
-- `complete` and `wait_for` of `ProgressRegistry`.
use oxide_spice.Common.{
  ℕ, ◌≤◌, ◌<◌, ◌≡◌, ◌↔◌, inl, inr, refl, ap, ◌∙◌, subst, arith, Bool, true, false, ◌&&◌, Bool-cases,
  none, some, Option-cases, ◌⊎◌, List, [], ◌∷◌, ltb, leb, ltb→lt, ltb→le, All, if◌then◌else◌,
}
use oxide_spice.Client.Error.{internal}
use oxide_spice.Errors.{ok, err, ok-injective, ok_or_ok, ensure_ok}
use oxide_spice.Channel.Waits.{ChannelWait}
use oxide_spice.Client.Progress.{
  ChannelIdentity, same, Registry, get, set_progress, complete, ready, wait_for,
}

same_refl : (i : ChannelIdentity) → same i i ≡ true
same_refl i = ground arith

same_join : (i j k : ChannelIdentity) → same j i ≡ true → same j k ≡ same i k
same_join i j k h = ground arith

same_apart : (i j k : ChannelIdentity) → same j i ≡ false → same j k ≡ true → same i k ≡ false
same_apart i j k h e = ground arith

if_same {ℓ} :
    {A : Type ℓ} (b : Bool) (x y z : A)
    → (if b then x else y) ≡ (if b then x else (if b then z else y))
if_same true x y z = refl
if_same false x y z = refl

get-set_progress :
    (i j : ChannelIdentity) (serial : ℕ) (r : Registry) {old : ℕ}
    → get i r ≡ some old
    → get j (set_progress i serial r) ≡ (if same i j then some serial else get j r)
unfolding get set_progress
get-set_progress i j serial [] h = absurd (cc)
get-set_progress i j serial ((k, v) ∷ r) h = elim (Bool-cases (same k i)) [
  | inl here ↦
      rw here (rw (same_join i k j here) (if_same (same i j) (some serial) (get j r) (some v)))
  | inr there ↦ rw there (elim (Bool-cases (same k j)) [
    | inl hit ↦ rw (hit, same_apart i k j there hit) refl
    | inr miss ↦ rw miss (get-set_progress i j serial r (rw there at h))
  ])
]

-- A completed message was of a known channel with a lower serial, and only that channel moves.
complete_ok :
    (i : ChannelIdentity) (serial : ℕ) (r : Registry) {r' : Registry}
    → complete i serial r ≡ ok r'
    → (old : ℕ) × (get i r ≡ some old)
      × (old < serial)
      × ((j : ChannelIdentity) → get j r' ≡ (if same i j then some serial else get j r))
unfolding complete
complete_ok i serial r {r'} e = ok_or_ok (get i r) _ _ e λ old known e1.
    ensure_ok (ltb old serial) _ _ e1 λ later e2. (
      old,
      known,
      ltb→lt old serial later,
      λ j.
          subst (λ q. get j q ≡ (if same i j then some serial else get j r)) (ok-injective e2)
            (get-set_progress i j serial r known),
    )

-- `complete` succeeds exactly on a known channel whose completed serial lies below the new one, and then
-- it sets that channel's serial and leaves every other channel alone. It refuses an unknown channel and
-- a serial that is not above the completed one, each with its own error.
pub complete_lem :
    (i : ChannelIdentity) (serial : ℕ) (r : Registry)
    → ((old : ℕ) × (r' : Registry) × (get i r ≡ some old)
        × (old < serial)
        × (complete i serial r ≡ ok r')
        × ((j : ChannelIdentity) → get j r' ≡ (if same i j then some serial else get j r)))
      ⊎ (((get i r ≡ none)
            × (complete i serial r ≡ err (internal "missing progress channel identity")))
          ⊎ ((old : ℕ) × (get i r ≡ some old)
              × (serial ≤ old)
              × (complete i serial r ≡ err (internal "non-monotonic completed serial"))))
unfolding complete
complete_lem i serial r = elim (Option-cases (get i r)) [
  | inl missing ↦ inr (inl (missing, rw missing refl))
  | inr (old, known) ↦ elim (Bool-cases (ltb old serial)) [
    | inl later ↦ inl (
      old,
      set_progress i serial r,
      known,
      ltb→lt old serial later,
      rw (known, later) refl,
      λ j. get-set_progress i j serial r known,
    )
    | inr early ↦ inr (inr (old, known, ltb→le old serial early, rw (known, early) refl))
  ]
]

-- The serials of one registry are at most those of another.
abbrev Grown : Registry → Registry → Type 0
Grown r r' =
    (j : ChannelIdentity) (old : ℕ)
    → get j r ≡ some old
    → (now : ℕ) × (get j r' ≡ some now) × (old ≤ now)

same_right : (i j k : ChannelIdentity) → same i j ≡ true → same k i ≡ same k j
same_right i j k h = ground arith

if_eq {ℓ} :
    {A : Type ℓ} (b : Bool) (x : A) {y z : A} → y ≡ z → (if b then x else y) ≡ (if b then x else z)
if_eq b x e = ap (λ q. if b then x else q) e

get_same : (i j : ChannelIdentity) (r : Registry) → same i j ≡ true → get i r ≡ get j r
unfolding get
get_same i j [] h = refl
get_same i j ((k, v) ∷ r) h = rw (same_right i j k h) (if_eq (same k j) (some v) (get_same i j r h))

complete-Grown :
    (i : ChannelIdentity) (serial : ℕ) (r : Registry) {r' : Registry}
    → complete i serial r ≡ ok r'
    → Grown r r'
complete-Grown i serial r {r'} e j old known =
    let (before, at_i, later, others) = complete_ok i serial r e in
    elim (Bool-cases (same i j)) [
      | inl hit ↦ (serial, others j ∙ rw hit refl, older before at_i later hit)
      | inr miss ↦ (old, others j ∙ rw miss known, omega arith)
    ]
  where
    older : (before : ℕ) → get i r ≡ some before → before < serial → same i j ≡ true → old ≤ serial
    older before at_i later hit = let one = get_same i j r hit in ground arith

abbrev target : ChannelWait → ChannelIdentity
target w = record { channel_type = w.channel_type; channel_id = w.channel_id }

-- A barrier that does not name the waiting message itself and whose channel has come far enough.
abbrev pub Passed : Registry → ChannelIdentity → ℕ → ChannelWait → Type 0
Passed r requester requester_serial w =
    (same (target w) requester && leb requester_serial w.message_serial ≡ false)
    × ((completed : ℕ) × (get (target w) r ≡ some completed) × (w.message_serial ≤ completed))

-- A wait is over exactly when every barrier of the list has been passed.
pub wait_for_iff :
    (r : Registry) (requester : ChannelIdentity) (requester_serial : ℕ) (cancel : Bool)
    (waits : List ChannelWait)
    → (wait_for r requester requester_serial cancel waits ≡ ok ready)
      ↔ All (Passed r requester requester_serial) waits
unfolding wait_for
wait_for_iff r q n c [] = (λ _. tt, λ _. refl)
wait_for_iff r q n c (w ∷ waits) =
    let (there, back) = wait_for_iff r q n c waits in
    (
      λ e. elim (Bool-cases (same (target w) q && leb n w.message_serial)) [
        | inl self ↦ absurd (ground arith)
        | inr plain ↦ elim (Option-cases (get (target w) r)) [
          | inl missing ↦ absurd (ground arith)
          | inr (completed, known) ↦ elim (Bool-cases (ltb completed w.message_serial)) [
            | inl early ↦ absurd (ground arith)
            | inr late ↦ (
              (plain, (completed, known, ltb→le completed w.message_serial late)),
              there (ground arith),
            )
          ]
        ]
      ],
      λ ((plain, (completed, known, late)), rest). let last = back rest in ground arith,
    )

All-map {ℓ κ μ} :
    {A : Type ℓ} (P : A → Type κ) (Q : A → Type μ) (xs : List A)
    → ((a : A) → P a → Q a)
    → All P xs
    → All Q xs
All-map P Q [] f h = tt
All-map P Q (x ∷ xs) f h = (f x h.0, All-map P Q xs f h.1)

-- A wait that is over stays over when any channel completes another message.
pub wait_for-complete :
    (r : Registry) (requester i : ChannelIdentity) (requester_serial serial : ℕ) (cancel : Bool)
    (waits : List ChannelWait) {r' : Registry}
    → complete i serial r ≡ ok r'
    → wait_for r requester requester_serial cancel waits ≡ ok ready
    → wait_for r' requester requester_serial cancel waits ≡ ok ready
wait_for-complete r requester i requester_serial serial cancel waits {r'} e over =
    (wait_for_iff r' requester requester_serial cancel waits).1 (
      All-map (Passed r requester requester_serial) (Passed r' requester requester_serial) waits
        (λ w passed. onward w passed)
        ((wait_for_iff r requester requester_serial cancel waits).0 over))
  where
    onward :
        (w : ChannelWait)
        → Passed r requester requester_serial w
        → Passed r' requester requester_serial w
    onward w (plain, (completed, known, late)) =
        let (now, found, grown) = complete-Grown i serial r e (target w) completed known in
        (plain, (now, found, omega arith))
