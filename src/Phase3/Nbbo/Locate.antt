-- ===== src/Phase3/Nbbo/Locate.antt =====
-- src/phase3/nbbo_consolidator.cpp: the state that the cache or the map gives for a symbol.
use hft_feed_handler.Common.{
  &&-true, ℕ, true, Option, none, some, List, ◌≡◌, refl, sym, ap, ◌∙◌, subst, inl, inr, ◌==◌,
  if◌then◌else◌, Bool-cases, Option-cases, arith, ==_iff, find, ◌&&◌, find-assign,
}
use mathlib.Core.Option.{some-injective}
use hft_feed_handler.Core.Types.{Venue}
use hft_feed_handler.Core.VenueArray.{VenueArray, at, put}
use hft_feed_handler.Phase3.Types.{TopOfBook, default_nbbo}
use hft_feed_handler.Phase3.Nbbo.{
  NbboConsolidator, SymbolState, VenueTop, default_state, compute, compute_over, locate, with_top,
  deref, emplace_missing, refresh, or_default, is_some,
}

-- The tops that a consolidator has of a symbol's venues.
abbrev pub tops_of : NbboConsolidator → ℕ → VenueArray VenueTop
tops_of c symbol = (deref c.by_symbol (some symbol)).venues

-- Every state's best bid and offer is computed from its tops, and a valid cache points to the node
-- of the symbol that it names.
unfoldable pub IsWellFormed : NbboConsolidator → Type 0
IsWellFormed c =
    ((k : ℕ) (s : SymbolState) → find c.by_symbol k ≡ some s → s.nbbo ≡ compute s)
    × ((k : ℕ) → c.cached_valid ≡ true → c.cached_state ≡ some k → c.cached_symbol ≡ k)

-- What `update_state` does to the state of its symbol.
abbrev pub new_tops : VenueArray VenueTop → Venue → TopOfBook → ℕ → VenueArray VenueTop
new_tops tops venue top seq = put tops venue (with_top (at tops venue) top seq)

unfoldable pub Locates : NbboConsolidator → ℕ → NbboConsolidator → Type 0
Locates c symbol c' =
    (c'.cached_state ≡ some symbol)
    × (c'.cached_valid ≡ true → c'.cached_symbol ≡ symbol)
    × ((k : ℕ) → deref c'.by_symbol (some k) ≡ deref c.by_symbol (some k))
    × ((k : ℕ) (s : SymbolState) → find c'.by_symbol k ≡ some s → s.nbbo ≡ compute s)

find-emplace_missing :
    (m : List (ℕ × SymbolState)) (symbol k : ℕ)
    → find (emplace_missing m symbol (find m symbol)) k
      ≡ (if symbol == k then some (or_default (find m symbol)) else find m k)
find-emplace_missing m symbol k = elim (Option-cases (find m symbol)) [
  | inl e ↦ rw e (find-assign m symbol k default_state)
  | inr (s, e) ↦ rw e (elim (Bool-cases (symbol == k)) [
    | inl same ↦ rw same (subst (λ j. find m j ≡ some s) ((==_iff symbol k).0 same) e)
    | inr other ↦ rw other refl
  ])
]

pub default_fresh : default_nbbo ≡ compute default_state
unfolding compute compute_over
default_fresh = refl

refresh_lem :
    (c : NbboConsolidator) (symbol : ℕ) → IsWellFormed c → Locates c symbol (refresh c symbol)
unfolding IsWellFormed Locates
refresh_lem c symbol (fresh, points) = (
  refl,
  (λ valid. refl),
  (λ k. ap or_default (find-emplace_missing c.by_symbol symbol k) ∙ found k),
  (λ k s e. kept k s (sym (find-emplace_missing c.by_symbol symbol k) ∙ e)),
)
  where
    found :
        (k : ℕ)
        → or_default (
            if symbol == k then some (or_default (find c.by_symbol symbol)) else find c.by_symbol k)
          ≡ or_default (find c.by_symbol k)
    found k = elim (Bool-cases (symbol == k)) [
      | inl same ↦ rw same (ap (λ j. or_default (find c.by_symbol j)) ((==_iff symbol k).0 same))
      | inr other ↦ rw other refl
    ]

    default :
        (o : Option SymbolState)
        → find c.by_symbol symbol ≡ o
        → (or_default o).nbbo ≡ compute (or_default o)
    default none e = default_fresh
    default (some s) e = fresh symbol s e

    kept :
        (k : ℕ) (s : SymbolState)
        → (if symbol == k then some (or_default (find c.by_symbol symbol)) else find c.by_symbol k)
          ≡ some s
        → s.nbbo ≡ compute s
    kept k s = elim (Bool-cases (symbol == k)) [
      | inl same ↦ rw same (λ e.
          subst (λ t. t.nbbo ≡ compute t) (some-injective _ _ e)
            (default (find c.by_symbol symbol) refl))
      | inr other ↦ rw other (fresh k s)
    ]

hit_lem :
    (c : NbboConsolidator) (symbol k : ℕ)
    → c.cached_valid ≡ true
    → c.cached_state ≡ some k
    → c.cached_symbol ≡ symbol
    → IsWellFormed c
    → Locates c symbol c
unfolding IsWellFormed Locates
hit_lem c symbol k valid e same (fresh, points) =
    (e ∙ ap some (sym (points k valid e) ∙ same), (λ v. same), (λ j. refl), fresh)

is_some-true {ℓ} : {A : Type ℓ} (o : Option A) → is_some o ≡ true → (a : A) × (o ≡ some a)
is_some-true none h = absurd (ground arith)
is_some-true (some a) h = (a, refl)

pub locate_lem :
    (c : NbboConsolidator) (symbol : ℕ) → IsWellFormed c → Locates c symbol (locate c symbol)
unfolding locate
locate_lem c symbol well =
    elim (Bool-cases (c.cached_valid && c.cached_symbol == symbol && is_some c.cached_state)) [
      | inr miss ↦ rw miss (refresh_lem c symbol well)
      | inl hit ↦
          let (front, there) = &&-true (c.cached_valid && c.cached_symbol == symbol) _ hit in
          let (valid, same) = &&-true c.cached_valid _ front in
          let (k, e) = is_some-true c.cached_state there in
          rw hit (hit_lem c symbol k valid e ((==_iff c.cached_symbol symbol).0 same) well)
    ]
