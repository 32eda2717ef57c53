-- ===== src/X11/Supply.antt =====
-- How an X server answers GetProperty for one property of the backend's window, into which an owner
-- writes its INCR chunks.
use clipbus.Base.{
  ℕ, suc, zero, ◌≤◌, ◌+◌, ◌-◌, ◌*◌, ◌≡◌, ◌&&◌, ◌==◌, ◌∷◌, ◌++◌, [], List, Bool, length, take, drop,
  leb, if◌then◌else◌, none, arith, refl, ap,
}
use clipbus.Text.{Text}
use clipbus.Trace.{Act, Trace, PropertyRequest, Window, Atom}
use clipbus.X11.Server.{World, PropertyReply, answer}
use clipbus.X11.Connection.{any_atom}

-- The reply for a property of this type and of format 8 that holds this value, by the protocol: from
-- the offset on, as many bytes as the length asks for, both in units of four bytes.
abbrev pub reply_to : Atom → PropertyRequest → Text → PropertyReply
reply_to type_ request value =
    let start : ℕ = 4 * request.long_offset in
    let asked : ℕ = 4 * request.long_length in
    record {
      type_ = type_;
      format = 8;
      bytes_after = length value - (start + asked);
      value = take asked (drop start value);
      value32 = none;
    }

-- By the protocol: the property is deleted if the request says so and no byte is left after the reply.
abbrev pub deletes : Window → Atom → PropertyRequest → Text → Bool
deletes window property request value =
    ((request.window == window) && (request.property == property))
    && (request.delete && leb (length value) (4 * request.long_offset + 4 * request.long_length))

-- The number of values of the property that were deleted: the one that it holds now has this number.
abbrev pub consumed : Window → Atom → (ℕ → Text) → Trace → ℕ
consumed window property chunk [] = 0
consumed window property chunk (Act.get_property request ∷ t) =
    let k = consumed window property chunk t in
    if deletes window property request (chunk k) then suc k else k
consumed window property chunk (Act.delete_property win p ∷ t) =
    let k = consumed window property chunk t in
    if (win == window) && (p == property) then suc k else k
consumed window property chunk (_ ∷ t) = consumed window property chunk t

-- The owner's values of the property are `chunk 0`, `chunk 1` and so on; it writes the next when the
-- last was deleted. A read of any type gets the value there is, and other properties may hold anything.
abbrev pub Serves : World → Window → Atom → Atom → (ℕ → Text) → Type 0
Serves w window property type_ chunk =
    (t : Trace) (request : PropertyRequest)
    → request.window ≡ window
    → request.property ≡ property
    → request.type_ ≡ any_atom
    → w.property t request
      ≡ answer (reply_to type_ request (chunk (consumed window property chunk t)))

-- From the value with number k on, these are the owner's chunks, and then an empty one.
abbrev pub Supplies : (ℕ → Text) → ℕ → List Text → Type 0
Supplies chunk k [] = chunk k ≡ []
Supplies chunk k (c ∷ cs) = (chunk k ≡ c) × (1 ≤ length c) × Supplies chunk (suc k) cs

-- the calls of the host's functions
abbrev call_of : Act → List Act
call_of (Act.call_target_request f user id name size timeout) =
    Act.call_target_request f user id name size timeout ∷ []
call_of (Act.call_targets_changed f user) = Act.call_targets_changed f user ∷ []
call_of (Act.call_owner_lost f user) = Act.call_owner_lost f user ∷ []
call_of (Act.call_error f user code message) = Act.call_error f user code message ∷ []
call_of (Act.call_target_list f user id status targets) =
    Act.call_target_list f user id status targets ∷ []
call_of (Act.call_target_data f user id name status payload) =
    Act.call_target_data f user id name status payload ∷ []
call_of (Act.call_stream_ready f user id name size timeout) =
    Act.call_stream_ready f user id name size timeout ∷ []
call_of _ = []

abbrev pub calls : Trace → Trace
calls [] = []
calls (a ∷ t) = call_of a ++ calls t

module _ {ℓ} {A : Type ℓ} where
  pub take-all : (n : ℕ) (xs : List A) → length xs ≤ n → take n xs ≡ xs
  take-all zero [] h = refl
  take-all (suc n) [] h = refl
  take-all (suc n) (x ∷ xs) h = ap (λ ys. x ∷ ys) (take-all n xs (omega (arith, h)))
  take-all zero (x ∷ xs) h = let bad : ⊥ = omega (arith, h) in elim bad [ ]
