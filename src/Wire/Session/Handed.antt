-- ===== src/Wire/Session/Handed.antt =====
-- src/wire/feed_session.cpp: what a poll does, told without its loops and callbacks.
use hft_feed_handler.Common.{
  ℕ, suc, ◌+◌, ◌%◌, ◌<◌, ◌≡◌, refl, sym, ap, ap₂, ◌∙◌, ◌++◌, length-append, Option, none, some,
  List, [], ◌∷◌, length, u64_mod, arith,
}
use hft_feed_handler.Core.Types.{BookEvent}
use hft_feed_handler.Phase2.Arbiter.{FeedSide}
use hft_feed_handler.Proto.Bytes.{Bytes, read}
use hft_feed_handler.Wire.Framing.{WireProtocol, FrameSlice, frame}
use hft_feed_handler.Wire.Session.{Parser, FeedSessionStats, FeedSession, parse_frame}

-- What the frames of a datagram give, one after the other: each is a span of the datagram, which the
-- parser takes with the frame's number and the time of arrival.
pub data Parses (datagram : Bytes) (ingest_ts_ns : ℕ)
    : Parser → List FrameSlice → Parser → List (Option BookEvent) → Type 0 where
  no_frame : (p : Parser) → Parses datagram ingest_ts_ns p [] p []
  parsed :
      {p p' p'' : Parser} {f : FrameSlice} {fs : List FrameSlice} {os : List (Option BookEvent)}
      (payload : Bytes) (o : Option BookEvent)
      → read datagram f.data_off f.len ≡ some payload
      → parse_frame p payload f.sequence ingest_ts_ns ≡ some (p', o)
      → Parses datagram ingest_ts_ns p' fs p'' os
      → Parses datagram ingest_ts_ns p (f ∷ fs) p'' (o ∷ os)

-- What datagrams give, up to the first empty one, and what is left of them.
pub data Receives (protocol : WireProtocol)
    : Parser → List (Bytes × ℕ) → Parser → List (Option BookEvent) → List (Bytes × ℕ) → Type 0 where
  no_datagram : (p : Parser) → Receives protocol p [] p [] []
  empty :
      (p : Parser) (ingest_ts_ns : ℕ) (ds : List (Bytes × ℕ))
      → Receives protocol p (([], ingest_ts_ns) ∷ ds) p [] ds
  framed :
      {p p' p'' : Parser} {ds left : List (Bytes × ℕ)} {os os' : List (Option BookEvent)} (b : ℕ)
      (bs : Bytes) (ingest_ts_ns : ℕ) (slices : List FrameSlice)
      → frame protocol (b ∷ bs) ≡ some slices
      → Parses (b ∷ bs) ingest_ts_ns p slices p' os
      → Receives protocol p' ds p'' os' left
      → Receives protocol p ((b ∷ bs, ingest_ts_ns) ∷ ds) p'' (os ++ os') left

-- The results without an event, and the events of the others.
abbrev pub missing : List (Option BookEvent) → ℕ
missing [] = 0
missing (none ∷ os) = suc (missing os)
missing (some ev ∷ os) = missing os

abbrev pub events : List (Option BookEvent) → List BookEvent
events [] = []
events (none ∷ os) = events os
events (some ev ∷ os) = ev ∷ events os

missing-append : (os os' : List (Option BookEvent)) → missing (os ++ os') ≡ missing os + missing os'
missing-append [] os' = omega arith
missing-append (none ∷ os) os' = omega (arith, missing-append os os')
missing-append (some ev ∷ os) os' = missing-append os os'

events-append : (os os' : List (Option BookEvent)) → events (os ++ os') ≡ events os ++ events os'
events-append [] os' = refl
events-append (none ∷ os) os' = events-append os os'
events-append (some ev ∷ os) os' = ap (◌∷◌ ev) (events-append os os')

-- The counters are in their range.
pub record AreSmall (st : FeedSessionStats) : Type 0 where
  pub frames_lt : st.frames_parsed < u64_mod
  pub failures_lt : st.parse_failures < u64_mod
  pub callbacks_lt : st.sink_callbacks_fired < u64_mod

module _ {ℓ} {S : Type ℓ} (sink : FeedSide → BookEvent → S → S) where
  -- The sink after calls of it.
  abbrev pub called : FeedSide → List BookEvent → S → S
  called side [] out = out
  called side (ev ∷ evs) out = called side evs (sink side ev out)

  called-append :
      (side : FeedSide) (xs ys : List BookEvent) (out : S)
      → called side (xs ++ ys) out ≡ called side ys (called side xs out)
  called-append side [] ys out = refl
  called-append side (x ∷ xs) ys out = called-append side xs ys (sink side x out)

  -- A session has gone on by these results: the sink was called with each event, and each result counted.
  pub record Handed (s : FeedSession) (out : S) (os : List (Option BookEvent)) (s' : FeedSession)
      (out' : S) : Type ℓ where
    pub framer_eq : s'.framer ≡ s.framer
    pub side_eq : s'.side ≡ s.side
    pub sink_eq : out' ≡ called s.side (events os) out
    pub frames_eq : s'.stats.frames_parsed ≡ (s.stats.frames_parsed + length os) % u64_mod
    pub failures_eq : s'.stats.parse_failures ≡ (s.stats.parse_failures + missing os) % u64_mod
    pub callbacks_eq :
        s'.stats.sink_callbacks_fired
        ≡ (s.stats.sink_callbacks_fired + length (events os)) % u64_mod

  pub Handed-nothing : (s : FeedSession) (out : S) → AreSmall s.stats → Handed s out [] s out
  Handed-nothing s out small = record {
    framer_eq = refl;
    side_eq = refl;
    sink_eq = refl;
    frames_eq = omega (arith, small.frames_lt);
    failures_eq = omega (arith, small.failures_lt);
    callbacks_eq = omega (arith, small.callbacks_lt);
  }

  pub Handed-AreSmall :
      (s s' : FeedSession) (out out' : S) (os : List (Option BookEvent))
      → Handed s out os s' out'
      → AreSmall s'.stats
  Handed-AreSmall s s' out out' os h = record {
    frames_lt = omega (arith, h.frames_eq);
    failures_lt = omega (arith, h.failures_eq);
    callbacks_lt = omega (arith, h.callbacks_eq);
  }

  pub Handed-append :
      (s s' s'' : FeedSession) (out out' out'' : S) (os os' : List (Option BookEvent))
      → Handed s out os s' out'
      → Handed s' out' os' s'' out''
      → Handed s out (os ++ os') s'' out''
  Handed-append s s' s'' out out' out'' os os' h h' = record {
    framer_eq = h'.framer_eq ∙ h.framer_eq;
    side_eq = h'.side_eq ∙ h.side_eq;
    sink_eq =
        h'.sink_eq
        ∙ ap₂ (λ side o. called side (events os') o) h.side_eq h.sink_eq
        ∙ sym (
            ap (λ evs. called s.side evs out) (events-append os os')
            ∙ called-append s.side (events os) (events os') out);
    frames_eq = omega (arith, h.frames_eq, h'.frames_eq, length-append os os');
    failures_eq = omega (arith, h.failures_eq, h'.failures_eq, missing-append os os');
    callbacks_eq = omega (
      arith,
      h.callbacks_eq,
      h'.callbacks_eq,
      ap length (events-append os os'),
      length-append (events os) (events os'),
    );
  }
