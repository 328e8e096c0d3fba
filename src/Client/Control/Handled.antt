-- ===== src/Client/Control/Handled.antt =====
-- What handling one common message does to the ACK state.
use oxide_spice.Common.{
  ◌-◌, ◌≡◌, ◌≢◌, ◌⊎◌, inl, inr, refl, sym, ◌∙◌, subst, arith, Bool, true, false, not, ◌&&◌, ◌==◌,
  if◌then◌else◌, leb, length, All,
}
use oxide_spice.Errors.{Result, ok, ok-injective, bind_ok, ensure_ok}
use oxide_spice.Bytes.{IsByte}
use oxide_spice.Messages.CommonServer
use oxide_spice.Messages.CommonClient
use oxide_spice.Client.Error.{ClientError}
use oxide_spice.Client.Transport.{Channel, WriteAll, write_message}
use oxide_spice.Client.Transport.Migration.{Incoming, migrate_to_replacement}
use oxide_spice.Client.Control.{
  ControlState, ControlDisposition, Message, Handled, read_u32, restart, ends_with_zero,
  observe_migration, acknowledge_envelope, handle_set_ack, handle_ping, handle_disconnecting,
  handle_notify, handle_migrate, dispatch_control, count_message, handle_inner,
}
use oxide_spice.Client.Control.Window.{IsValid, acknowledge_envelope-IsValid}
use oxide_spice.Client.Control.Settled.{
  read_u32-IsU32, words_lem, IsInstalled, IsReset, IsKept, IsOther, Moved, Settled, restart-IsValid,
  observe_migration_lem, write_message_count, acknowledge_envelope_lem,
}

module _ {S : Type 0} (write_all : WriteAll S) where
  -- Every way to succeed has the property.
  abbrev Ends : (Handled write_all → Type 0) → Result ClientError (Handled write_all) → Type 0
  Ends P r = (h : Handled write_all) → r ≡ ok h → P h

  Ends-ok : (P : Handled write_all → Type 0) (h : Handled write_all) → P h → Ends P (ok h)
  Ends-ok P h p h' e = subst P (ok-injective e) p

  if-Ends :
      (P : Handled write_all → Type 0) (b : Bool) (x y : Result ClientError (Handled write_all))
      → (b ≡ true → Ends P x)
      → (b ≡ false → Ends P y)
      → Ends P (if b then x else y)
  if-Ends P true x y hx hy = hx refl
  if-Ends P false x y hx hy = hy refl

  abbrev After : ControlState → Message → Handled write_all → Type 0
  After o m h = Settled o m h.1 h.2

  module _ (o : ControlState) (c : Channel S) (m : Message) (v : IsValid o)
      (agree : o.migration_activation_count ≡ c.migration_activation_count) where
    set_ack-After :
        m.message_type ≡ CommonServer.set_ack
        → All IsByte m.body
        → Ends (After o m) (handle_set_ack write_all o c m.body)
    unfolding handle_set_ack
    set_ack-After kind bytes h e = ensure_ok (length m.body == 8) _ _ e λ exact e1.
        bind_ok (write_message write_all c CommonClient.ack_sync _) _ e1 λ c' wrote e2.
          let size : length m.body ≡ 8 = ground arith in
          let (first, second) = words_lem m.body size in
          let count = agree ∙ sym (write_message_count write_all c CommonClient.ack_sync _ wrote) in
          Ends-ok (After o m) _
            (
              record {
                narrow = read_u32-IsU32 m.body 4 bytes;
                off = λ _. refl;
                below = λ positive. omega arith;
              },
              count,
              inl (kind, size, first, second, refl),
            )
            h e2

    ping-After : IsOther m → Ends (After o m) (handle_ping write_all o c m.body)
    unfolding handle_ping
    ping-After other h e = ensure_ok (leb 12 (length m.body)) _ _ e λ long e1.
        bind_ok (write_message write_all c CommonClient.pong _) _ e1 λ c' wrote e2.
          let count = agree ∙ sym (write_message_count write_all c CommonClient.pong _ wrote) in
          Ends-ok (After o m) _ (v, count, inr (inr (other, (refl, refl)))) h e2

    same-After : (d : ControlDisposition) → IsOther m → Ends (After o m) (ok (d, o, c))
    same-After d other = Ends-ok (After o m) (d, o, c) (v, agree, inr (inr (other, (refl, refl))))

    notify-After : IsOther m → Ends (After o m) (handle_notify write_all o c m.body)
    unfolding handle_notify
    notify-After other h e = ensure_ok (leb 25 (length m.body)) _ _ e λ long e1.
        ensure_ok (read_u32 m.body 20 == length m.body - 25) _ _ e1
          λ exact e2. ensure_ok (ends_with_zero m.body) _ _ e2 λ ended e3. same-After _ other h e3

    disconnecting-After : Ends (After o m) (handle_disconnecting write_all m.body)
    unfolding handle_disconnecting
    disconnecting-After h e = ensure_ok (length m.body == 12) _ _ e λ exact e1. absurd (cc)

    module _ (incoming : Incoming S) where
      migrate-After :
          m.message_type ≡ CommonServer.migrate
          → Ends (After o m) (handle_migrate write_all incoming o c m.body)
      unfolding handle_migrate restart
      migrate-After kind h e =
          bind_ok (migrate_to_replacement write_all incoming c m.body) _ e λ c' moved e1.
            Ends-ok (After o m) _ (restart-IsValid _ o, refl, inr (inl (kind, (refl, refl, refl))))
              h e1

      dispatch-After :
          All IsByte m.body → Ends (After o m) (dispatch_control write_all incoming o c m)
      unfolding dispatch_control
      dispatch-After bytes =
          if-Ends (After o m) (m.message_type == CommonServer.set_ack) _ _
            (λ kind. set_ack-After (ground arith) bytes)
            (λ not_ack.
              if-Ends (After o m) (m.message_type == CommonServer.ping) _ _
                (λ kind. ping-After ((λ k. absurd (ground arith)), λ k. absurd (ground arith)))
                (λ not_ping.
                  if-Ends (After o m) (m.message_type == CommonServer.disconnecting) _ _
                    (λ kind. disconnecting-After)
                    (λ not_end.
                      if-Ends (After o m) (m.message_type == CommonServer.notify) _ _
                        (λ kind.
                          notify-After ((λ k. absurd (ground arith)), λ k. absurd (ground arith)))
                        (λ not_notify.
                          if-Ends (After o m) (m.message_type == CommonServer.migrate) _ _
                            (λ kind. migrate-After (ground arith))
                            (λ not_migrate.
                              same-After _
                                ((λ k. absurd (ground arith)), λ k. absurd (ground arith)))))))

  -- Counting an envelope keeps to it, since an installing message is not counted.
  acknowledged_lem :
      (o : ControlState) (m : Message) (s : ControlState) (c : Channel S) {s' : ControlState}
      {c' : Channel S}
      → m.message_type ≢ CommonServer.set_ack
      → Settled o m s c
      → acknowledge_envelope write_all s c ≡ ok (s', c')
      → Settled o m s' c'
  acknowledged_lem o m s c {s'} {c'} other (v, agree, moved) e =
      let valid = acknowledge_envelope-IsValid write_all s c v e in
      let (kept, count, count') = acknowledge_envelope_lem write_all s c e in
      (valid, count ∙ agree ∙ sym count', go valid kept moved)
    where
      go : IsValid s' → IsKept s s' → Moved o m s → Moved o m s'
      go valid kept (inl installed) = absurd (other installed.0)
      go valid (g, w) (inr (inl (kind, reset))) =
          inr (inl (kind, (g ∙ reset.0, w ∙ reset.1, valid.off (w ∙ reset.1))))
      go valid (g, w) (inr (inr (others, before))) =
          inr (inr (others, (g ∙ before.0, w ∙ before.1)))

  module _ (incoming : Incoming S) where
    count-After :
        (o : ControlState) (count : Bool) (m : Message) (d : Handled write_all)
        → After o m d
        → Ends (After o m) (count_message write_all incoming count m d)
    unfolding count_message
    count-After o count m (d, s, c) settled =
        if-Ends (After o m) (count && not (m.message_type == CommonServer.set_ack)) _ _
          (λ counts h e. bind_ok (acknowledge_envelope write_all s c) _ e λ after counted e1.
            let other : m.message_type ≢ CommonServer.set_ack = λ k. absurd (ground arith) in
            Ends-ok (After o m) (d, after.0, after.1)
              (acknowledged_lem o m s c other settled counted) h e1)
          (λ _. Ends-ok (After o m) (d, s, c) settled)

    -- From a valid state, every message with a body of bytes that is handled without an error
    -- leaves a valid state: the count of consumed envelopes is below the window when one is
    -- installed, and zero otherwise. It agrees with the channel on the number of migrations.
    -- Either the message is a set-ACK, and the window and the generation are those of its body
    -- with a count of zero; or the channel has moved since the state was last used, or moves with
    -- this message, and the window, the generation and the count are zero; or the window and the
    -- generation stay.
    pub handle_inner-IsValid :
        (s : ControlState) (c : Channel S) (m : Message) (count_for_ack : Bool)
        {h : Handled write_all}
        → IsValid s
        → All IsByte m.body
        → handle_inner write_all incoming s c m count_for_ack ≡ ok h
        → IsValid h.1
          × (h.1.migration_activation_count ≡ h.2.migration_activation_count)
          × (IsInstalled m h.1
              ⊎ ((m.message_type ≢ CommonServer.set_ack)
                  × ((((s.migration_activation_count ≢ c.migration_activation_count)
                          ⊎ (m.message_type ≡ CommonServer.migrate))
                        × IsReset h.1)
                      ⊎ ((s.migration_activation_count ≡ c.migration_activation_count)
                          × (m.message_type ≢ CommonServer.migrate)
                          × IsKept s h.1))))
    unfolding handle_inner
    handle_inner-IsValid s c m count {h} v bytes e =
        let o = observe_migration c.migration_activation_count s in
        let (valid, agree, origin) = observe_migration_lem c.migration_activation_count s v in
        bind_ok (dispatch_control write_all incoming o c m) _ e λ d handled e1.
          let (valid', agree', moved) =
            count-After o count m d (dispatch-After o c m valid agree incoming bytes d handled) h
              e1 in
          (valid', agree', go o valid' origin moved)
      where
        go :
            (o : ControlState)
            → IsValid h.1
            → ((s.migration_activation_count ≡ c.migration_activation_count) × (o ≡ s))
              ⊎ ((s.migration_activation_count ≢ c.migration_activation_count) × IsReset o)
            → Moved o m h.1
            → IsInstalled m h.1
              ⊎ ((m.message_type ≢ CommonServer.set_ack)
                  × ((((s.migration_activation_count ≢ c.migration_activation_count)
                          ⊎ (m.message_type ≡ CommonServer.migrate))
                        × IsReset h.1)
                      ⊎ ((s.migration_activation_count ≡ c.migration_activation_count)
                          × (m.message_type ≢ CommonServer.migrate)
                          × IsKept s h.1)))
        go o valid origin (inl installed) = inl installed
        go o valid origin (inr (inl (kind, reset))) =
            inr ((λ k. absurd (omega arith)), inl (inr kind, reset))
        go o valid (inl (seen, same)) (inr (inr (others, kept))) =
            inr
              (others.0, inr (seen, others.1, subst (λ (q : ControlState). IsKept q h.1) same kept))
        go o valid (inr (fresh, reset)) (inr (inr (others, (g, w)))) =
            let closed = w ∙ reset.1 in
            inr (others.0, inl (inl fresh, (g ∙ reset.0, closed, valid.off closed)))
