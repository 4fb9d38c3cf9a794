-- ===== src/Wire/Session/Poll.antt =====
-- src/wire/feed_session.cpp: a poll comes to its end, and hands each event to the sink.
use hft_feed_handler.Common.{
  ℕ, ◌≡◌, refl, subst, ◌++◌, Option, none, some, List, [], ◌∷◌, length, arith, HasResult,
}
use hft_feed_handler.Core.Types.{BookEvent}
use hft_feed_handler.Phase2.Arbiter.{FeedSide}
use hft_feed_handler.Proto.Bytes.{Bytes, slice, read_within}
use hft_feed_handler.Proto.Itch.Safe.{parse_message-HasResult}
use hft_feed_handler.Proto.Deep.Safe.{parse_message-HasResult_deep}
use hft_feed_handler.Proto.Pitch.Safe.{parse_message-HasResult_pitch}
use hft_feed_handler.Wire.Framing.{FrameSlice}
use hft_feed_handler.Wire.Framing.Safe.{AreInside, frame-IsSafe}
use hft_feed_handler.Wire.Session.{
  Parser, itch, deep, pitch, FeedSession, counted_frame, received, parse_frame, hand_over, on_frame,
  on_frames, poll,
}
use hft_feed_handler.Wire.Session.Handed.{
  Parses, no_frame, parsed, Receives, no_datagram, empty, framed, AreSmall, Handed, Handed-nothing,
  Handed-AreSmall, Handed-append,
}

parse_frame-HasResult :
    (p : Parser) (payload : Bytes) (seq ingest_ts_ns : ℕ)
    → HasResult (parse_frame p payload seq ingest_ts_ns)
unfolding parse_frame
parse_frame-HasResult (itch st) payload seq ingest_ts_ns =
    rw ((parse_message-HasResult payload seq ingest_ts_ns st).1) (_, refl)
parse_frame-HasResult (deep st) payload seq ingest_ts_ns =
    rw ((parse_message-HasResult_deep payload seq ingest_ts_ns st).1) (_, refl)
parse_frame-HasResult (pitch st) payload seq ingest_ts_ns =
    rw ((parse_message-HasResult_pitch payload seq ingest_ts_ns st).1) (_, refl)

module _ {ℓ} {S : Type ℓ} (sink : FeedSide → BookEvent → S → S) where
  hand_over-Handed :
      (s : FeedSession) (p : Parser) (out : S) (o : Option BookEvent)
      → AreSmall s.stats
      → Handed sink s out
          (o ∷ [])
          (hand_over sink (counted_frame s p) out o).0
          (hand_over sink (counted_frame s p) out o).1
  unfolding hand_over
  hand_over-Handed s p out none small = record {
    framer_eq = refl;
    side_eq = refl;
    sink_eq = refl;
    frames_eq = omega arith;
    failures_eq = omega arith;
    callbacks_eq = omega (arith, small.callbacks_lt);
  }
  hand_over-Handed s p out (some ev) small = record {
    framer_eq = refl;
    side_eq = refl;
    sink_eq = refl;
    frames_eq = omega arith;
    failures_eq = omega (arith, small.failures_lt);
    callbacks_eq = omega arith;
  }

  hand_over-parser :
      (s : FeedSession) (p : Parser) (out : S) (o : Option BookEvent)
      → (hand_over sink (counted_frame s p) out o).0.parser ≡ p
  unfolding hand_over
  hand_over-parser s p out none = refl
  hand_over-parser s p out (some ev) = refl

  on_frames-Handed :
      (d : Bytes) (ingest_ts_ns : ℕ) (s : FeedSession) (out : S) (slices : List FrameSlice)
      → AreInside d slices
      → AreSmall s.stats
      → (r : FeedSession × S) × (os : List (Option BookEvent)) × (on_frames sink d ingest_ts_ns s
            out slices
          ≡ some r)
        × Parses d ingest_ts_ns s.parser slices r.0.parser os
        × Handed sink s out os r.0 r.1
  unfolding on_frames on_frame
  on_frames-Handed d ingest_ts_ns s out [] inside small =
      ((s, out), [], refl, no_frame s.parser, Handed-nothing sink s out small)
  on_frames-Handed d ingest_ts_ns s out (f ∷ fs) (fits, inside) small =
      let payload = slice d f.data_off f.len in
      let ((p, o), e) = parse_frame-HasResult s.parser payload f.sequence ingest_ts_ns in
      let next = hand_over sink (counted_frame s p) out o in
      let first = hand_over-Handed s p out o small in
      let (r, os, done, parses, handed) =
        on_frames-Handed d ingest_ts_ns next.0 next.1 fs inside
          (Handed-AreSmall sink s next.0 out next.1 (o ∷ []) first) in
      (
        r,
        o ∷ os,
        rw (read_within d f.data_off f.len fits, e) done,
        parsed payload o (read_within d f.data_off f.len fits) e (
            subst (λ q. Parses d ingest_ts_ns q fs r.0.parser os) (hand_over-parser s p out o)
              parses),
        Handed-append sink s next.0 r.0 out next.1 r.1 (o ∷ []) os first handed,
      )

  -- A poll of whatever datagrams, up to the first empty one, reads nothing outside them and comes to its
  -- end. Its results are those of the parser on the frames of the datagrams, in order; the sink was called
  -- with the event of each result that has one, in order, and with nothing else; the frames, the failures
  -- and the calls of the sink are counted, modulo 2^64.
  pub poll-Handed :
      (s : FeedSession) (out : S) (datagrams : List (Bytes × ℕ))
      → AreSmall s.stats
      → (r : FeedSession × S × List (Bytes × ℕ)) × (os : List (Option BookEvent)) × (poll sink s out
            datagrams
          ≡ some r)
        × Receives s.framer s.parser datagrams r.0.parser os r.2
        × Handed sink s out os r.0 r.1
  unfolding poll
  poll-Handed s out [] small =
      ((s, out, []), [], refl, no_datagram s.parser, Handed-nothing sink s out small)
  poll-Handed s out (([], ingest_ts_ns) ∷ datagrams) small = (
    (s, out, datagrams),
    [],
    refl,
    empty s.parser ingest_ts_ns datagrams,
    Handed-nothing sink s out small,
  )
  poll-Handed s out ((b ∷ bs, ingest_ts_ns) ∷ datagrams) small =
      let (slices, e, inside) = frame-IsSafe s.framer (b ∷ bs) in
      let s₀ = received s (length (b ∷ bs)) in
      let (r, os, done, parses, handed) =
        on_frames-Handed (b ∷ bs) ingest_ts_ns s₀ out slices inside (record {
          frames_lt = small.frames_lt;
          failures_lt = small.failures_lt;
          callbacks_lt = small.callbacks_lt;
        }) in
      let here : Handed sink s out os r.0 r.1 = record {
        framer_eq = handed.framer_eq;
        side_eq = handed.side_eq;
        sink_eq = handed.sink_eq;
        frames_eq = handed.frames_eq;
        failures_eq = handed.failures_eq;
        callbacks_eq = handed.callbacks_eq;
      } in
      let (r', os', done', receives, handed') =
        poll-Handed r.0 r.1 datagrams (Handed-AreSmall sink s r.0 out r.1 os here) in
      (
        r',
        os ++ os',
        rw (e, done) done',
        framed b bs ingest_ts_ns slices e parses (
            subst (λ f. Receives f r.0.parser datagrams r'.0.parser os' r'.2) here.framer_eq
              receives),
        Handed-append sink s r.0 r'.0 out r.1 r'.1 os os' here handed',
      )
