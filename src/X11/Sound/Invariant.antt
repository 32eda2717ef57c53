-- ===== src/X11/Sound/Invariant.antt =====
-- What holds of X11State at every moment: of the ids, of each pending request, and of each act so
-- far.
use clipbus.Base.{
  ℕ, ◌≤◌, ◌<◌, ◌≡◌, ◌⊎◌, [], ◌∷◌, Option, none, some, false, length, u32_max, u64_max,
  saturating_add, Entries,
}
use clipbus.Text.{Text}
use clipbus.Trace.{Act, Trace}
use clipbus.X11.State.{
  X11State, PendingRequest, owner_data, external_targets, external_data, external_incr_data,
  owner_incr_data, owner_incr_stream,
}
use clipbus.X11.Server.{World}
use clipbus.X11.Connection.{incr_chunk_size, max_change_property_payload_bytes}

abbrev pub queued_length : Option Text → ℕ
queued_length none = 0
queued_length (some chunk) = length chunk

-- An id that the counter has given out. The counter stays at u64::MAX once it is there.
abbrev pub Issued : ℕ → ℕ → Type 0
Issued next id = (1 ≤ id) × ((id < next) ⊎ (next ≡ u64_max))

abbrev pub AllActs : (Act → Type 0) → Trace → Type 0
AllActs P [] = Unit {0}
AllActs P (a ∷ t) = P a × AllActs P t

module _ ⦃w : World⦄ where
  abbrev pub Sound : PendingRequest → Type 0
  Sound (owner_data r) = Unit {0}
  Sound (external_targets r) = Unit {0}
  Sound (external_data r) = Unit {0}
  Sound (external_incr_data r) = length r.payload ≤ r.max_bytes
  Sound (owner_incr_data r) = (r.offset ≤ length r.payload) × (r.chunk_size ≡ incr_chunk_size)
  Sound (owner_incr_stream r) =
      (saturating_add r.written_bytes (queued_length r.queued_chunk) ≤ r.max_bytes)
      × (queued_length r.queued_chunk ≤ incr_chunk_size)
      × (r.chunk_size ≡ incr_chunk_size)
      × ((r.ready ≡ false) ⊎ ((r.queued_chunk ≡ none) × (r.queued_end ≡ none)))

  abbrev pub Good : ℕ → ℕ → PendingRequest → Type 0
  Good next id p = Issued next id × Sound p

  -- No 8-bit property write is longer than the connection takes, no read asks for more than a u32, and
  -- the host is asked for chunks of the size that is held to afterwards.
  abbrev pub Fits : Act → Type 0
  Fits (Act.change_property8 window property type_ payload) =
      length payload ≤ max_change_property_payload_bytes
  Fits (Act.get_property request) = request.long_length ≤ u32_max
  Fits (Act.call_stream_ready f user id target max_chunk_bytes timeout) =
      max_chunk_bytes ≡ incr_chunk_size
  Fits _ = Unit {0}

  pub record IsSound (s : X11State) : Type 0 where
    pub next_pos : 1 ≤ s.next_request_id
    pub next_le : s.next_request_id ≤ u64_max
    pub entries : Entries (Good s.next_request_id) s.pending
    pub acts : AllActs Fits s.trace

  -- The state is sound, and K holds of its counter.
  abbrev pub SoundWith : (ℕ → Type 0) → X11State → Type 0
  SoundWith K s = IsSound s × K s.next_request_id
