-- ===== src/Phase3/Nbbo/Update.antt =====
-- src/phase3/nbbo_consolidator.cpp: the cache of the last symbol changes no result, and a symbol's best
-- bid and offer follow its venues' tops.
use hft_feed_handler.Common.{
  ℕ, true, false, Option, none, some, ◌≡◌, ◌↔◌, refl, sym, ap, ◌∙◌, subst, inl, inr, ◌==◌,
  if◌then◌else◌, Bool-cases, arith, find, find-assign,
}
use mathlib.Core.Option.{some-injective, none-ne-some}
use hft_feed_handler.Core.Types.{Venue}
use hft_feed_handler.Phase3.Types.{TopOfBook, Nbbo}
use hft_feed_handler.Phase3.Nbbo.{
  NbboConsolidator, SymbolState, compute, compute_over, nbbo_changed, differ, locate, update_state,
  update_and_current, update, current, new_consolidator, deref, write, or_default,
}
use hft_feed_handler.Phase3.Nbbo.Locate.{
  tops_of, IsWellFormed, new_tops, Locates, locate_lem, default_fresh,
}

-- Storing a state through the pointer that was located.
write_lem :
    (c c' : NbboConsolidator) (symbol : ℕ) (s : SymbolState)
    → Locates c symbol c'
    → s.nbbo ≡ compute s
    → (let c'' = record c' { by_symbol = write c'.by_symbol c'.cached_state s } in
        IsWellFormed c''
        × ((k : ℕ)
            → deref c''.by_symbol (some k)
              ≡ (if symbol == k then s else deref c.by_symbol (some k))))
unfolding IsWellFormed Locates
write_lem c c' symbol s (node, named, kept, fresh) new = rw node (
  (
    (λ k t e. fresh_after k t (sym (find-assign c'.by_symbol symbol k s) ∙ e)),
    (λ k valid e. named valid ∙ some-injective _ _ e),
  ),
  (λ k. ap or_default (find-assign c'.by_symbol symbol k s) ∙ found k),
)
  where
    fresh_after :
        (k : ℕ) (t : SymbolState)
        → (if symbol == k then some s else find c'.by_symbol k) ≡ some t
        → t.nbbo ≡ compute t
    fresh_after k t = elim (Bool-cases (symbol == k)) [
      | inl same ↦ rw same (λ e. subst (λ u. u.nbbo ≡ compute u) (some-injective _ _ e) new)
      | inr other ↦ rw other (fresh k t)
    ]

    found :
        (k : ℕ)
        → or_default (if symbol == k then some s else find c'.by_symbol k)
          ≡ (if symbol == k then s else deref c.by_symbol (some k))
    found k = elim (Bool-cases (symbol == k)) [
      | inl same ↦ rw same refl
      | inr other ↦ rw other (kept k)
    ]

update_state-fresh :
    (s : SymbolState) (venue : Venue) (top : TopOfBook) (seq : ℕ)
    → (update_state s venue top seq).nbbo ≡ compute (update_state s venue top seq)
unfolding update_state compute compute_over
update_state-fresh s venue top seq = refl

located_state :
    (c c' : NbboConsolidator) (symbol : ℕ)
    → Locates c symbol c'
    → deref c'.by_symbol c'.cached_state ≡ deref c.by_symbol (some symbol)
unfolding Locates
located_state c c' symbol (node, named, kept, fresh) = rw node (kept symbol)

pub update_and_current_lem :
    (c : NbboConsolidator) (symbol : ℕ) (venue : Venue) (top : TopOfBook) (seq : ℕ)
    → IsWellFormed c
    → (let (c', result) = update_and_current c symbol venue top seq in
        IsWellFormed c'
        × ((k : ℕ)
            → tops_of c' k
              ≡ (if symbol == k then new_tops (tops_of c symbol) venue top seq else tops_of c k))
        × (result ≡ current c' symbol))
unfolding update_and_current update_state current
update_and_current_lem c symbol venue top seq well =
    let c' = locate c symbol in
    let located = locate_lem c symbol well in
    let old = deref c'.by_symbol c'.cached_state in
    let (well', states) =
      write_lem c c' symbol (update_state old venue top seq) located
        (update_state-fresh old venue top seq) in
    (
      well',
      (λ k. ap (λ s. s.venues) (states k) ∙ choose k),
      ap (λ s. s.nbbo)
          (sym (
            states symbol
            ∙ ap
                (λ b. if b then update_state old venue top seq else deref c.by_symbol (some symbol))
                (here symbol))),
    )
  where
    here : (k : ℕ) → (k == k) ≡ true
    here k = ground arith

    choose :
        (k : ℕ)
        → (if symbol == k
            then update_state
                (deref (locate c symbol).by_symbol (locate c symbol).cached_state)
                venue
                top
                seq
            else deref c.by_symbol (some k)).venues
          ≡ (if symbol == k then new_tops (tops_of c symbol) venue top seq else tops_of c k)
    choose k = elim (Bool-cases (symbol == k)) [
      | inl same ↦ rw same (
          ap (λ s. new_tops s.venues venue top seq)
            (located_state c (locate c symbol) symbol (locate_lem c symbol well)))
      | inr other ↦ rw other refl
    ]

-- In a well-formed consolidator `current` is the best bid and offer of the symbol's tops.
pub current-compute :
    (c : NbboConsolidator) (symbol : ℕ)
    → IsWellFormed c
    → current c symbol ≡ compute (deref c.by_symbol (some symbol))
unfolding current IsWellFormed
current-compute c symbol (fresh, points) = computed (find c.by_symbol symbol) refl
  where
    computed :
        (o : Option SymbolState)
        → find c.by_symbol symbol ≡ o
        → (or_default o).nbbo ≡ compute (or_default o)
    computed none e = default_fresh
    computed (some s) e = fresh symbol s e

pub new_consolidator-IsWellFormed : IsWellFormed new_consolidator
unfolding IsWellFormed new_consolidator
new_consolidator-IsWellFormed =
    ((λ k s e. absurd (none-ne-some _ e)), (λ k valid e. absurd (none-ne-some _ e)))

pub nbbo_changed_iff : (m n : Nbbo) → (nbbo_changed m n ≡ false) ↔ (m ≡ n)
unfolding nbbo_changed differ
nbbo_changed_iff m n = (unchanged m n, (λ e. subst (λ k. nbbo_changed m k ≡ false) e (itself m)))
  where
    unchanged : (m n : Nbbo) → nbbo_changed m n ≡ false → m ≡ n
    unchanged m n h = ground arith

    itself : (m : Nbbo) → nbbo_changed m m ≡ false
    itself m = ground arith

-- On a well-formed consolidator `update` says that nothing changed exactly when what `current` says of
-- the symbol is the same before and after.
pub update_lem :
    (c : NbboConsolidator) (symbol : ℕ) (venue : Venue) (top : TopOfBook) (seq : ℕ)
    → IsWellFormed c
    → (let (c', changed) = update c symbol venue top seq in
        (changed ≡ false) ↔ (current c symbol ≡ current c' symbol))
unfolding update
update_lem c symbol venue top seq well =
    let (c', result) = update_and_current c symbol venue top seq in
    let (well', tops, same) = update_and_current_lem c symbol venue top seq well in
    subst
      (λ r. (nbbo_changed (current c symbol) r ≡ false) ↔ (current c symbol ≡ current c' symbol))
      (sym same) (nbbo_changed_iff (current c symbol) (current c' symbol))
