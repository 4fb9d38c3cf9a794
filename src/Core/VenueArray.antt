-- ===== src/Core/VenueArray.antt =====
-- `std::array<T, kVenueSlotCount>` and the vector of as many slots that the trackers are kept in,
-- indexed by `static_cast<std::uint8_t>(venue)`: a slot for each venue, so no index is out of range.
use hft_feed_handler.Common.{◌≡◌, refl, ◌≢◌, List, [], ◌∷◌}
use hft_feed_handler.Core.Types.{Venue, nasdaq, iex, cboe, cme, bitfinex}

pub record VenueArray {ℓ} (A : Type ℓ) : Type ℓ where
  pub nasdaq_slot : A
  pub iex_slot : A
  pub cboe_slot : A
  pub cme_slot : A
  pub bitfinex_slot : A

-- `kVenueSlotCount` equal entries.
abbrev pub fill {ℓ} : {A : Type ℓ} → A → VenueArray A
fill a = record { nasdaq_slot = a; iex_slot = a; cboe_slot = a; cme_slot = a; bitfinex_slot = a }

abbrev pub at {ℓ} : {A : Type ℓ} → VenueArray A → Venue → A
at xs nasdaq = xs.nasdaq_slot
at xs iex = xs.iex_slot
at xs cboe = xs.cboe_slot
at xs cme = xs.cme_slot
at xs bitfinex = xs.bitfinex_slot

abbrev pub put {ℓ} : {A : Type ℓ} → VenueArray A → Venue → A → VenueArray A
put xs nasdaq a = record xs { nasdaq_slot = a }
put xs iex a = record xs { iex_slot = a }
put xs cboe a = record xs { cboe_slot = a }
put xs cme a = record xs { cme_slot = a }
put xs bitfinex a = record xs { bitfinex_slot = a }

-- The venues in the order of their indices.
abbrev pub all_venues : List Venue
all_venues = nasdaq ∷ iex ∷ cboe ∷ cme ∷ bitfinex ∷ []

pub Venue-discrete : Discrete Venue
Venue-discrete = hlevel

module _ {ℓ} {A : Type ℓ} where
  pub at-put_self : (xs : VenueArray A) (v : Venue) (a : A) → at (put xs v a) v ≡ a
  at-put_self xs nasdaq a = refl
  at-put_self xs iex a = refl
  at-put_self xs cboe a = refl
  at-put_self xs cme a = refl
  at-put_self xs bitfinex a = refl

  pub at-put_ne : (xs : VenueArray A) (v w : Venue) (a : A) → v ≢ w → at (put xs v a) w ≡ at xs w
  at-put_ne xs nasdaq nasdaq a h = absurd (h refl)
  at-put_ne xs iex iex a h = absurd (h refl)
  at-put_ne xs cboe cboe a h = absurd (h refl)
  at-put_ne xs cme cme a h = absurd (h refl)
  at-put_ne xs bitfinex bitfinex a h = absurd (h refl)
  at-put_ne xs nasdaq w a h = refl
  at-put_ne xs iex w a h = refl
  at-put_ne xs cboe w a h = refl
  at-put_ne xs cme w a h = refl
  at-put_ne xs bitfinex w a h = refl

  pub at-fill : (a : A) (v : Venue) → at (fill a) v ≡ a
  at-fill a nasdaq = refl
  at-fill a iex = refl
  at-fill a cboe = refl
  at-fill a cme = refl
  at-fill a bitfinex = refl
