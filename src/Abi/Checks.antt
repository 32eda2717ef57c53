-- ===== src/Abi/Checks.antt =====
-- What the parsing of the C structs accepts.
use clipbus.Base.{
  ℕ, ◌≡◌, ◌≢◌, ◌⊎◌, inl, inr, ◌∷◌, [], List, Option, none, some, Option-cases, Bool-cases, zero,
  suc, true, false, ok, err, take, ◌==◌, not, arith, refl,
}
use clipbus.Text.{Text, is_utf8}
use clipbus.Status.{Status}
use clipbus.Clipboard.{Options, TargetOffer}
use clipbus.Abi.Parse.{
  ClipbusOptions, ClipbusTargetOffer, parse_options, options_of, parse_offer, parse_each,
  parse_offers, offers_at, str_from_ptr, window_name, required_name,
}

-- a pointer to a C string that is null or UTF-8
abbrev pub Readable : Option Text → Type 0
Readable none = Unit {0}
Readable (some s) = is_utf8 s ≡ true

abbrev pub OptionsOf : ClipbusOptions → Options → Type 0
OptionsOf o r =
    (o.abi_version ≡ 4)
    × Readable o.display_name
    × Readable o.owner_window_name
    × (r.display_name ≡ o.display_name)
    × ((r.request_timeout_ms ≡ o.request_timeout_ms)
        ⊎ ((o.request_timeout_ms ≡ 0) × (r.request_timeout_ms ≡ 30000)))
    × ((r.max_inline_bytes ≡ o.max_inline_bytes)
        ⊎ ((o.max_inline_bytes ≡ 0) × (r.max_inline_bytes ≡ 16777216)))
    × (r.request_timeout_ms ≢ 0)
    × (r.max_inline_bytes ≢ 0)
    × (r.owner_window_name ≢ [])

window_name-nonempty : (name : Option Text) → window_name name ≢ []
unfolding window_name clipbus.Text.bytes
window_name-nonempty name = ground arith

-- The options are accepted only with the ABI version 4 and strings that are null or UTF-8. What is
-- accepted has a timeout, an inline limit and a window name that are none of them zero or empty: a
-- zero is replaced by its default, 30 seconds and 16 MiB, and any other number is taken as it is.
pub parse_options-OptionsOf :
    (o : ClipbusOptions) (r : Options) → parse_options (some o) ≡ ok r → OptionsOf o r
unfolding parse_options options_of str_from_ptr
parse_options-OptionsOf o r e =
    ground (arith, window_name-nonempty none, window_name-nonempty o.owner_window_name)

-- an offer of the host's, and what it is read as
abbrev pub OfferOf : ClipbusTargetOffer → TargetOffer → Type 0
OfferOf t o =
    (t.native_target ≡ some o.native_target)
    × (is_utf8 o.native_target ≡ true)
    × (o.native_target ≢ [])
    × (o.is_promised ≡ not (t.is_promised == 0))
    × (o.max_bytes ≡ t.max_bytes)

abbrev pub OffersOf : List ClipbusTargetOffer → List TargetOffer → Type 0
OffersOf [] [] = Unit {0}
OffersOf [] (o ∷ os) = ⊥
OffersOf (t ∷ ts) [] = ⊥
OffersOf (t ∷ ts) (o ∷ os) = OfferOf t o × OffersOf ts os

-- an offer without a name, or with one that is empty or not UTF-8
abbrev pub Nameless : ClipbusTargetOffer → Type 0
Nameless t =
    (t.native_target ≡ none)
    ⊎ ((t.native_target ≡ some [])
        ⊎ ((n : Text) × (t.native_target ≡ some n) × (is_utf8 n ≡ false)))

abbrev pub SomeNameless : List ClipbusTargetOffer → Type 0
SomeNameless [] = ⊥
SomeNameless (t ∷ ts) = Nameless t ⊎ SomeNameless ts

parse_offer-cases :
    (t : ClipbusTargetOffer)
    → ((o : TargetOffer) × (parse_offer t ≡ ok o) × OfferOf t o)
      ⊎ ((parse_offer t ≡ err Status.invalid_argument) × Nameless t)
unfolding parse_offer str_from_ptr required_name
parse_offer-cases t = elim (Option-cases t.native_target) [
  | inl e ↦ inr (ground arith, inl e)
  | inr ([], e) ↦ elim (Bool-cases (is_utf8 [])) [
    | inl u ↦ inr (ground arith, inr (inl e))
    | inr u ↦ inr (ground arith, inr (inl e))
  ]
  | inr (b ∷ bs, e) ↦ elim (Bool-cases (is_utf8 (b ∷ bs))) [
    | inl u ↦ inl (
      record {
        native_target = b ∷ bs;
        is_promised = not (t.is_promised == 0);
        max_bytes = t.max_bytes;
      },
      ground arith,
      ground arith,
    )
    | inr u ↦ inr (ground arith, inr (inr (b ∷ bs, e, u)))
  ]
]

parse_each-cases :
    (ts : List ClipbusTargetOffer)
    → ((os : List TargetOffer) × (parse_each ts ≡ ok os) × OffersOf ts os)
      ⊎ ((parse_each ts ≡ err Status.invalid_argument) × SomeNameless ts)
unfolding parse_each
parse_each-cases [] = inl ([], refl, tt)
parse_each-cases (t ∷ ts) = elim (parse_offer-cases t) [
  | inr (e, n) ↦ inr (ground arith, inl n)
  | inl (o, e, h) ↦ elim (parse_each-cases ts) [
    | inl (os, es, hs) ↦ inl (o ∷ os, ground arith, (h, hs))
    | inr (es, n) ↦ inr (ground arith, inr n)
  ]
]

-- the offers that a call names
abbrev pub named : Option (List ClipbusTargetOffer) → ℕ → List ClipbusTargetOffer
named none count = []
named (some ts) count = take count ts

-- The offers are read all or none: either the first `count` are all read, in order, each with its
-- name, flag and limit; or the call is an invalid argument, its count is not 0, and the array is
-- null or one of those offers has no name, an empty one, or one that is not UTF-8.
pub parse_offers-OffersOf :
    (targets : Option (List ClipbusTargetOffer)) (count : ℕ)
    → ((os : List TargetOffer) × (parse_offers targets count ≡ ok os)
        × OffersOf (named targets count) os)
      ⊎ ((parse_offers targets count ≡ err Status.invalid_argument)
          × (count ≢ 0)
          × ((targets ≡ none) ⊎ SomeNameless (named targets count)))
unfolding parse_offers offers_at
parse_offers-OffersOf none zero = inl ([], ground arith, tt)
parse_offers-OffersOf (some ts) zero = inl ([], ground arith, tt)
parse_offers-OffersOf none (suc n) = inr (ground arith, (λ e. omega (arith, e)), inl refl)
parse_offers-OffersOf (some ts) (suc n) = elim (parse_each-cases (take (suc n) ts)) [
  | inl (os, e, h) ↦ inl (os, ground arith, h)
  | inr (e, h) ↦ inr (ground arith, (λ e. omega (arith, e)), inr h)
]
