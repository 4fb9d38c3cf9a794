-- ===== src/Phase3/Nbbo.antt =====
-- src/phase3/nbbo_consolidator.cpp, `NbboConsolidator`: for each symbol the last top of every venue,
-- and the best bid and offer of these. `by_symbol_` is a map whose nodes never move or go, so
-- `cached_state_`, a pointer into it, is the key of its node; `none` is the null pointer.
pub mod Best
pub mod Locate
pub mod Update
use hft_feed_handler.Common.{
  ℕ, Bool, true, false, not, ◌&&◌, ◌||◌, Option, none, some, List, [], ◌∷◌, ltb, ◌==◌,
  if◌then◌else◌, find, assign,
}
use hft_feed_handler.Core.Types.{Venue, venue_to_u8}
use hft_feed_handler.Core.VenueArray.{VenueArray, fill, at, put, all_venues}
use hft_feed_handler.Phase3.Types.{TopOfBook, Nbbo, default_nbbo}

pub record VenueTop : Type 0 where
  pub has_bid : Bool
  pub has_ask : Bool
  pub bid_price : ℕ
  pub bid_qty : ℕ
  pub ask_price : ℕ
  pub ask_qty : ℕ
  pub bid_sequence : ℕ
  pub ask_sequence : ℕ

abbrev pub default_venue_top : VenueTop
default_venue_top = record {
  has_bid = false;
  has_ask = false;
  bid_price = 0;
  bid_qty = 0;
  ask_price = 0;
  ask_qty = 0;
  bid_sequence = 0;
  ask_sequence = 0;
}

pub record SymbolState : Type 0 where
  pub venues : VenueArray VenueTop
  pub nbbo : Nbbo

-- `SymbolState{}`.
abbrev pub default_state : SymbolState
default_state = record { venues = fill default_venue_top; nbbo = default_nbbo }

pub record NbboConsolidator : Type 0 where
  pub by_symbol : List (ℕ × SymbolState)
  pub cached_symbol : ℕ
  pub cached_state : Option ℕ
  pub cached_valid : Bool

unfoldable pub new_consolidator : NbboConsolidator
new_consolidator = record {
  by_symbol = [];
  cached_symbol = 0;
  cached_state = none;
  cached_valid = false;
}

-- One round of the loop of `compute`: the bid, then the ask.
abbrev pub take_bid : ℕ → VenueTop → Nbbo → Nbbo
take_bid i v out =
    if v.has_bid && (not out.has_bid || ltb out.bid_price v.bid_price)
    then record out {
      has_bid = true;
      bid_price = v.bid_price;
      bid_qty = v.bid_qty;
      bid_venue = i;
      bid_venue_sequence = v.bid_sequence;
    }
    else out

abbrev pub take_ask : ℕ → VenueTop → Nbbo → Nbbo
take_ask i v out =
    if v.has_ask && (not out.has_ask || ltb v.ask_price out.ask_price)
    then record out {
      has_ask = true;
      ask_price = v.ask_price;
      ask_qty = v.ask_qty;
      ask_venue = i;
      ask_venue_sequence = v.ask_sequence;
    }
    else out

unfoldable pub compute_over : VenueArray VenueTop → List Venue → Nbbo → Nbbo
compute_over tops [] out = out
compute_over tops (v ∷ vs) out =
    compute_over tops vs
      (take_ask (venue_to_u8 v) (at tops v) (take_bid (venue_to_u8 v) (at tops v) out))

unfoldable pub compute : SymbolState → Nbbo
unfolding compute_over
compute state = compute_over state.venues all_venues default_nbbo

differ : Bool → Bool → Bool
differ true b = not b
differ false b = b

unfoldable pub nbbo_changed : Nbbo → Nbbo → Bool
unfolding differ
nbbo_changed before after =
    differ before.has_bid after.has_bid
    || differ before.has_ask after.has_ask
    || not (before.bid_price == after.bid_price)
    || not (before.ask_price == after.ask_price)
    || not (before.bid_qty == after.bid_qty)
    || not (before.ask_qty == after.ask_qty)
    || not (before.bid_venue == after.bid_venue)
    || not (before.ask_venue == after.ask_venue)
    || not (before.bid_venue_sequence == after.bid_venue_sequence)
    || not (before.ask_venue_sequence == after.ask_venue_sequence)

abbrev pub is_some {ℓ} : {A : Type ℓ} → Option A → Bool
is_some none = false
is_some (some a) = true

abbrev pub or_default : Option SymbolState → SymbolState
or_default none = default_state
or_default (some s) = s

-- The state that a pointer names.
abbrev pub deref : List (ℕ × SymbolState) → Option ℕ → SymbolState
deref m none = default_state
deref m (some k) = or_default (find m k)

abbrev pub write : List (ℕ × SymbolState) → Option ℕ → SymbolState → List (ℕ × SymbolState)
write m none s = m
write m (some k) s = assign m k s

-- `emplace` of a default state where `find` gives the end.
abbrev pub emplace_missing :
    List (ℕ × SymbolState) → ℕ → Option SymbolState → List (ℕ × SymbolState)
emplace_missing m k none = assign m k default_state
emplace_missing m k (some s) = m

-- The branch that finds or makes the node and caches it.
abbrev pub refresh : NbboConsolidator → ℕ → NbboConsolidator
refresh c symbol = record {
  by_symbol = emplace_missing c.by_symbol symbol (find c.by_symbol symbol);
  cached_symbol = symbol;
  cached_state = some symbol;
  cached_valid = true;
}

-- The state's pointer, from the cache if it is the cached symbol's.
unfoldable pub locate : NbboConsolidator → ℕ → NbboConsolidator
locate c symbol =
    if c.cached_valid && c.cached_symbol == symbol && is_some c.cached_state
    then c
    else refresh c symbol

unfoldable pub with_top : VenueTop → TopOfBook → ℕ → VenueTop
with_top v top venue_sequence = record {
  has_bid = top.has_bid;
  has_ask = top.has_ask;
  bid_price = top.bid_price;
  bid_qty = top.bid_qty;
  ask_price = top.ask_price;
  ask_qty = top.ask_qty;
  bid_sequence = if top.has_bid then venue_sequence else v.bid_sequence;
  ask_sequence = if top.has_ask then venue_sequence else v.ask_sequence;
}

unfoldable pub update_state : SymbolState → Venue → TopOfBook → ℕ → SymbolState
update_state s venue top venue_sequence =
    let venues' = put s.venues venue (with_top (at s.venues venue) top venue_sequence) in
    record { venues = venues'; nbbo = compute (record s { venues = venues' }) }

-- `state` is the cached pointer on both ways.
unfoldable pub update_and_current :
    NbboConsolidator → ℕ → Venue → TopOfBook → ℕ → NbboConsolidator × Nbbo
unfolding locate update_state
update_and_current c symbol venue top venue_sequence =
    let c' = locate c symbol in
    let s = update_state (deref c'.by_symbol c'.cached_state) venue top venue_sequence in
    (record c' { by_symbol = write c'.by_symbol c'.cached_state s }, s.nbbo)

unfoldable pub current : NbboConsolidator → ℕ → Nbbo
current c symbol = (or_default (find c.by_symbol symbol)).nbbo

unfoldable pub update : NbboConsolidator → ℕ → Venue → TopOfBook → ℕ → NbboConsolidator × Bool
update c symbol venue top venue_sequence =
    let before = current c symbol in
    let (c', after) = update_and_current c symbol venue top venue_sequence in
    (c', nbbo_changed before after)
