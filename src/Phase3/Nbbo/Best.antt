-- ===== src/Phase3/Nbbo/Best.antt =====
-- src/phase3/nbbo_consolidator.cpp, `compute`: which quotes it chooses.
use hft_feed_handler.Common.{
  ℕ, Bool, true, false, Option, none, some, List, [], ◌∷◌, ◌++◌, map, ◌≡◌, refl, sym, ap, ◌∙◌,
  subst, inl, inr, ltb, if◌then◌else◌, Bool-cases, arith,
}
use mathlib.Core.List.{append_assoc, append-nil}
use hft_feed_handler.Core.Types.{Venue, venue_to_u8}
use hft_feed_handler.Core.VenueArray.{VenueArray, at, all_venues}
use hft_feed_handler.Phase3.Types.{Nbbo, default_nbbo}
use hft_feed_handler.Phase3.Nbbo.{VenueTop, SymbolState, compute, compute_over, take_bid, take_ask}

-- A quote with where it comes from.
pub record Quote : Type 0 where
  pub price : ℕ
  pub qty : ℕ
  pub venue : ℕ
  pub sequence : ℕ

-- What every quote of a list satisfies.
abbrev pub Every : (Quote → Type 0) → List (Option Quote) → Type 0
Every P [] = Unit {0}
Every P (none ∷ xs) = Every P xs
Every P (some q ∷ xs) = P q × Every P xs

-- The first of the best quotes of a list, or that there is none.
pub IsFirstBest : (ℕ → ℕ → Bool) → List (Option Quote) → Option Quote → Type 0
IsFirstBest better xs none = Every (λ q. ⊥) xs
IsFirstBest better xs (some q) =
    (pre : List (Option Quote)) × (post : List (Option Quote)) × (xs ≡ pre ++ some q ∷ post)
    × Every (λ p. better q.price p.price ≡ true) pre
    × Every (λ p. better p.price q.price ≡ false) post

abbrev choose : (ℕ → ℕ → Bool) → Option Quote → Option Quote → Option Quote
choose better acc none = acc
choose better none (some q) = some q
choose better (some p) (some q) = if better q.price p.price then some q else some p

choose_all : (ℕ → ℕ → Bool) → Option Quote → List (Option Quote) → Option Quote
choose_all better acc [] = acc
choose_all better acc (x ∷ xs) = choose_all better (choose better acc x) xs

Every-append :
    (P : Quote → Type 0) (xs ys : List (Option Quote))
    → Every P xs
    → Every P ys
    → Every P (xs ++ ys)
Every-append P [] ys h k = k
Every-append P (none ∷ xs) ys h k = Every-append P xs ys h k
Every-append P (some q ∷ xs) ys (p, h) k = (p, Every-append P xs ys h k)

Every-mono :
    {P Q : Quote → Type 0} (f : (q : Quote) → P q → Q q) (xs : List (Option Quote))
    → Every P xs
    → Every Q xs
Every-mono f [] h = tt
Every-mono f (none ∷ xs) h = Every-mono f xs h
Every-mono f (some q ∷ xs) (p, h) = (f q p, Every-mono f xs h)

module _ (better : ℕ → ℕ → Bool) (asym : (a b : ℕ) → better a b ≡ true → better b a ≡ false)
    (trans : (a b c : ℕ) → better a b ≡ true → better c b ≡ false → better a c ≡ true) where
  choose-IsFirstBest :
      (seen : List (Option Quote)) (acc x : Option Quote)
      → IsFirstBest better seen acc
      → IsFirstBest better (seen ++ x ∷ []) (choose better acc x)
  unfolding IsFirstBest
  choose-IsFirstBest seen none none h = Every-append _ seen (none ∷ []) h tt
  choose-IsFirstBest seen (some p) none (pre, post, e, before, after) = (
    pre,
    post ++ none ∷ [],
    ap (λ zs. zs ++ none ∷ []) e ∙ append_assoc pre (some p ∷ post) (none ∷ []),
    before,
    Every-append _ post (none ∷ []) after tt,
  )
  choose-IsFirstBest seen none (some q) h =
      (seen, [], refl, Every-mono (λ r bad. absurd bad) seen h, tt)
  choose-IsFirstBest seen (some p) (some q) (pre, post, e, before, after) =
      elim (Bool-cases (better q.price p.price)) [
        | inl up ↦ rw up (
          seen,
          [],
          refl,
          subst (Every (λ r. better q.price r.price ≡ true)) (sym e) (
              Every-append _ pre (some p ∷ post)
                (Every-mono
                  (λ r worse. trans q.price p.price r.price up (asym p.price r.price worse)) pre
                  before)
                (up, Every-mono (λ r worse. trans q.price p.price r.price up worse) post after)),
          tt,
        )
        | inr keep ↦ rw keep (
          pre,
          post ++ some q ∷ [],
          ap (λ zs. zs ++ some q ∷ []) e ∙ append_assoc pre (some p ∷ post) (some q ∷ []),
          before,
          Every-append _ post (some q ∷ []) after (keep, tt),
        )
      ]

  choose_all-IsFirstBest :
      (seen : List (Option Quote)) (acc : Option Quote) (xs : List (Option Quote))
      → IsFirstBest better seen acc
      → IsFirstBest better (seen ++ xs) (choose_all better acc xs)
  unfolding choose_all
  choose_all-IsFirstBest seen acc [] h =
      subst (λ ys. IsFirstBest better ys acc) (sym (append-nil seen)) h
  choose_all-IsFirstBest seen acc (x ∷ xs) h =
      subst (λ ys. IsFirstBest better ys (choose_all better (choose better acc x) xs))
        (append_assoc seen (x ∷ []) xs)
        (choose_all-IsFirstBest (seen ++ x ∷ []) (choose better acc x) xs
          (choose-IsFirstBest seen acc x h))

abbrev pub higher : ℕ → ℕ → Bool
higher a b = ltb b a

-- The quotes of a venue and of a result.
abbrev pub bid_of : VenueArray VenueTop → Venue → Option Quote
bid_of tops v =
    if (at tops v).has_bid
    then some (record {
      price = (at tops v).bid_price;
      qty = (at tops v).bid_qty;
      venue = venue_to_u8 v;
      sequence = (at tops v).bid_sequence;
    })
    else none

abbrev pub ask_of : VenueArray VenueTop → Venue → Option Quote
ask_of tops v =
    if (at tops v).has_ask
    then some (record {
      price = (at tops v).ask_price;
      qty = (at tops v).ask_qty;
      venue = venue_to_u8 v;
      sequence = (at tops v).ask_sequence;
    })
    else none

abbrev pub best_bid : Nbbo → Option Quote
best_bid out =
    if out.has_bid
    then some (record {
      price = out.bid_price;
      qty = out.bid_qty;
      venue = out.bid_venue;
      sequence = out.bid_venue_sequence;
    })
    else none

abbrev pub best_ask : Nbbo → Option Quote
best_ask out =
    if out.has_ask
    then some (record {
      price = out.ask_price;
      qty = out.ask_qty;
      venue = out.ask_venue;
      sequence = out.ask_venue_sequence;
    })
    else none

take_bid_lem :
    (tops : VenueArray VenueTop) (v : Venue) (out : Nbbo)
    → best_bid (take_ask (venue_to_u8 v) (at tops v) (take_bid (venue_to_u8 v) (at tops v) out))
      ≡ choose higher (best_bid out) (bid_of tops v)
take_bid_lem tops v out = ground arith

take_ask_lem :
    (tops : VenueArray VenueTop) (v : Venue) (out : Nbbo)
    → best_ask (take_ask (venue_to_u8 v) (at tops v) (take_bid (venue_to_u8 v) (at tops v) out))
      ≡ choose ltb (best_ask out) (ask_of tops v)
take_ask_lem tops v out = ground arith

compute_over_lem :
    (tops : VenueArray VenueTop) (vs : List Venue) (out : Nbbo)
    → (best_bid (compute_over tops vs out)
        ≡ choose_all higher (best_bid out) (map (bid_of tops) vs))
      × (best_ask (compute_over tops vs out) ≡ choose_all ltb (best_ask out) (map (ask_of tops) vs))
unfolding compute_over choose_all
compute_over_lem tops [] out = (refl, refl)
compute_over_lem tops (v ∷ vs) out =
    let next = take_ask (venue_to_u8 v) (at tops v) (take_bid (venue_to_u8 v) (at tops v) out) in
    let (bid, ask) = compute_over_lem tops vs next in
    (
      bid ∙ ap (λ q. choose_all higher q (map (bid_of tops) vs)) (take_bid_lem tops v out),
      ask ∙ ap (λ q. choose_all ltb q (map (ask_of tops) vs)) (take_ask_lem tops v out),
    )

-- The bid that `compute` reports, with its quantity, venue and sequence, is the first among the venues'
-- bids that no other exceeds, in the order of the venues, and there is none only if no venue has a bid.
-- So for the asks, with the lowest.
pub compute-IsFirstBest :
    (state : SymbolState)
    → IsFirstBest higher (map (bid_of state.venues) all_venues) (best_bid (compute state))
      × IsFirstBest ltb (map (ask_of state.venues) all_venues) (best_ask (compute state))
unfolding compute IsFirstBest
compute-IsFirstBest state =
    let (bid, ask) = compute_over_lem state.venues all_venues default_nbbo in
    (
      subst (IsFirstBest higher (map (bid_of state.venues) all_venues)) (sym bid) (
          choose_all-IsFirstBest higher (λ a b h. ground arith) (λ a b c h k. ground arith) [] none
            (map (bid_of state.venues) all_venues) tt),
      subst (IsFirstBest ltb (map (ask_of state.venues) all_venues)) (sym ask) (
          choose_all-IsFirstBest ltb (λ a b h. ground arith) (λ a b c h k. ground arith) [] none
            (map (ask_of state.venues) all_venues) tt),
    )
