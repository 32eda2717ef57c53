-- ===== src/X11/Listing.antt =====
-- Two backends: the target list that one answers with, the other hands to its host.
use mathlib.Core.List.{Perm}
use mathlib.Core.List.Perm
use clipbus.Base.{ℕ, ◌≡◌, ◌∷◌, ◌&&◌, ◌==◌, [], List, some, take, drop, if◌then◌else◌}
use clipbus.Text.{Text, c_string, from_utf8_lossy}
use clipbus.Trace.{Act, Trace, Atom, Window, PropertyRequest}
use clipbus.X11.Server.{World, PropertyReply, answer}
use clipbus.X11.Accepts.{Accepts}

-- The values of the last 32-bit write to this property.
abbrev pub posted : Window → Atom → Trace → List ℕ
posted window property [] = []
posted window property (Act.change_property32 win p type_ values ∷ t) =
    if (win == window) && (p == property) then values else posted window property t
posted window property (_ ∷ t) = posted window property t

-- By the protocol: a read of the property, which has this type, format 32 and these values, gets as
-- many of them as it asks for from its offset on.
abbrev pub Holds : World → Window → Atom → Atom → List ℕ → Type 0
Holds w window property type_ values =
    (t : Trace) (request : PropertyRequest)
    → request.window ≡ window
    → request.property ≡ property
    → request.type_ ≡ type_
    → (reply : PropertyReply) × (w.property t request ≡ answer reply)
      × (reply.type_ ≡ type_)
      × (reply.format ≡ 32)
      × (reply.value32 ≡ some (take request.long_length (drop request.long_offset values)))

-- The names of these atoms are UTF-8 and have no NUL.
abbrev pub Readable : (Atom → Text) → List Atom → Type 0
Readable name [] = Unit {0}
Readable name (a ∷ xs) =
    (from_utf8_lossy (name a) ≡ name a) × (c_string (name a) ≡ some (name a)) × Readable name xs

module _ ⦃w : World⦄ (name : Atom → Text) where
  -- each atom has its name
  abbrev pub Named : Type 0
  Named = (t : Trace) (a : Atom) → w.name_of t a ≡ answer (name a)
