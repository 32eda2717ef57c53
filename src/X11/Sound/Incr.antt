-- ===== src/X11/Sound/Incr.antt =====
-- The invariant under the handlers of X11/Incr.antt.
use Prim.Native.Nat.{zero-le}
use clipbus.Base.{ℕ, ◌-◌, ◌≤◌, ◌≡◌, refl, [], ◌∷◌, some, length, arith, length-take, drop}
use clipbus.Text.{Text}
use clipbus.X11.State.{
  SelectionRequestEvent, PublishedTarget, OwnerIncrData, PendingRequest, owner_incr_data,
}
use clipbus.X11.Server.{World}
use clipbus.X11.Monad.{pure}
use clipbus.X11.Connection.{incr_chunk_size, max_change_property_payload_bytes}
use clipbus.X11.Incr.{
  begin_owner_incr_request, chunk_end, next_chunk, keep_sending, send_chunk,
  send_next_owner_incr_chunk, as_owner_incr_data,
}
use clipbus.X11.Sound.Invariant.{Issued, Sound}
use clipbus.X11.Sound.Rules.{Keeps, Keeps-take, Keeps-pure, keeps_rules}
use clipbus.X11.Sound.Connection.{connection_rules}

module _ ⦃w : World⦄ where
  pub chunk_fits : incr_chunk_size ≤ max_change_property_payload_bytes
  unfolding incr_chunk_size
  chunk_fits = omega arith

  chunk_end-le : (r : OwnerIncrData) → chunk_end r ≤ length r.payload
  chunk_end-le r = omega arith

  next_chunk-fits :
      (r : OwnerIncrData)
      → Sound (owner_incr_data r)
      → length (next_chunk r) ≤ max_change_property_payload_bytes
  next_chunk-fits r h =
      omega (arith, length-take (chunk_end r - r.offset) (drop r.offset r.payload), chunk_fits, h.1)

  as_owner_incr_data-Sound :
      (p : PendingRequest) (r : OwnerIncrData)
      → as_owner_incr_data (some p) ≡ some r
      → Sound p
      → Sound (owner_incr_data r)
  as_owner_incr_data-Sound (owner_incr_data q) r e h = ground arith
  as_owner_incr_data-Sound p r e h = cc

  module _ (id : ℕ) where
    pub Keeps-begin_owner_incr_request :
        (event : SelectionRequestEvent) (target : PublishedTarget) (payload : Text)
        → Keeps (λ next. Issued next id) (begin_owner_incr_request id event target payload)
    unfolding begin_owner_incr_request
    Keeps-begin_owner_incr_request event target payload =
        search (connection_rules, zero-le) depth 16

    Keeps-keep_sending :
        (r : OwnerIncrData) (chunk : Text)
        → Sound (owner_incr_data r)
        → Keeps (λ next. Issued next id) (keep_sending id r chunk)
    unfolding keep_sending
    Keeps-keep_sending r [] h = search connection_rules
    Keeps-keep_sending r (b ∷ bs) h = search (keeps_rules, chunk_end-le r, h.1)

    Keeps-send_chunk :
        (r : OwnerIncrData)
        → Sound (owner_incr_data r)
        → Keeps (λ next. Issued next id) (send_chunk id r)
    unfolding send_chunk
    Keeps-send_chunk r h = search (keeps_rules, next_chunk-fits r h, Keeps-keep_sending) depth 9

    pub Keeps-send_next_owner_incr_chunk : Keeps (λ next. Unit {0}) (send_next_owner_incr_chunk id)
    unfolding send_next_owner_incr_chunk
    Keeps-send_next_owner_incr_chunk =
        Keeps-take id as_owner_incr_data (pure tt) (send_chunk id) (λ r. Sound (owner_incr_data r))
          refl as_owner_incr_data-Sound (Keeps-pure tt) Keeps-send_chunk
