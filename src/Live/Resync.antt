-- ===== src/Live/Resync.antt =====
-- src/live/bitfinex/resync_state_machine.cpp. The events handed to `emit_`, which is set, are the result;
-- the sidecar file that a snapshot is copied to is left out.
pub mod Branches
pub mod Unbroken
use hft_feed_handler.Common.{
  ℕ, Bool, true, false, not, ◌&&◌, ◌||◌, Option, none, some, List, [], ◌∷◌, ◌++◌, ◌==◌,
  if◌then◌else◌,
}
use hft_feed_handler.Core.Types.{BookEvent}
use hft_feed_handler.Phase2.Tracker.{inc64}
use hft_feed_handler.Proto.Bytes.{Bytes}
use hft_feed_handler.Live.Lowering.{
  Doubles, OnBookTracker, LoweringStats, no_lowering_stats, BookRow, Lowered, lower_row, event_list,
  Bootstrap, lower_snapshot_rows,
}

pub data FeedState : Type 0 where
  gapped live : FeedState

pub data FeedAction : Type 0 where
  no_action request_resubscribe : FeedAction

pub record FeedStats : Type 0 where
  pub gaps : ℕ
  pub resyncs : ℕ
  pub reconnects : ℕ
  pub snapshots : ℕ
  pub updates_applied : ℕ

-- `last_seq` is `last_seq_` where `have_seq_` is set; the code keeps 0 there where it is not.
pub record ResyncStateMachine : Type 0 where
  pub symbol_wire : Bytes
  pub state : FeedState
  pub stats : FeedStats
  pub on_book : OnBookTracker
  pub lowering_stats : LoweringStats
  pub last_seq : Option ℕ

unfoldable pub new_machine : Bytes → ResyncStateMachine
new_machine symbol_wire = record {
  symbol_wire = symbol_wire;
  state = gapped;
  stats = record { gaps = 0; resyncs = 0; reconnects = 0; snapshots = 0; updates_applied = 0 };
  on_book = [];
  lowering_stats = no_lowering_stats;
  last_seq = none;
}

unfoldable pub is_live_state : FeedState → Bool
is_live_state live = true
is_live_state gapped = false

unfoldable pub on_disconnect : ResyncStateMachine → ResyncStateMachine
on_disconnect m = record m {
  state = gapped;
  last_seq = none;
  stats = record m.stats { reconnects = inc64 m.stats.reconnects };
}

-- `!have_seq_ || sequence != last_seq_ + 1`.
unfoldable pub breaks : Option ℕ → ℕ → Bool
breaks none sequence = true
breaks (some last) sequence = not (sequence == inc64 last)

abbrev pub is_event : Option BookEvent → Bool
is_event none = false
is_event (some ev) = true

module _ (d : Doubles) where
  pub record SnapshotFrame : Type 0 where
    pub rows : List (BookRow d)
    pub sequence : ℕ

  pub record UpdateFrame : Type 0 where
    pub row : BookRow d
    pub sequence : ℕ

  -- What a call leaves and gives.
  pub record Outcome : Type 0 where
    pub machine : ResyncStateMachine
    pub action : FeedAction
    pub emitted : List BookEvent

  unfoldable pub on_snapshot : ResyncStateMachine → SnapshotFrame → ℕ → Outcome
  on_snapshot m frame ts_ns =
      let bootstrap = lower_snapshot_rows d frame.rows ts_ns m.symbol_wire [] m.lowering_stats in
      record {
        machine = record m {
          state = live;
          last_seq = if frame.sequence == 0 then none else some frame.sequence;
          on_book = bootstrap.on_book;
          lowering_stats = bootstrap.stats;
          stats = record m.stats {
            snapshots = inc64 m.stats.snapshots;
            resyncs = inc64 m.stats.resyncs;
          };
        };
        action = no_action;
        emitted = bootstrap.events;
      }

  -- `on_update` behind its tests.
  unfoldable pub apply_update : ResyncStateMachine → UpdateFrame → ℕ → Outcome
  apply_update m frame ts_ns =
      let lowered =
        lower_row d frame.row frame.sequence ts_ns m.symbol_wire m.on_book m.lowering_stats in
      record {
        machine = record m {
          on_book = lowered.on_book;
          lowering_stats = lowered.stats;
          stats =
              if is_event lowered.event
              then record m.stats { updates_applied = inc64 m.stats.updates_applied }
              else m.stats;
        };
        action = no_action;
        emitted = event_list lowered.event;
      }

  unfoldable pub on_update : ResyncStateMachine → UpdateFrame → ℕ → Outcome
  on_update m frame ts_ns =
      if not (is_live_state m.state)
      then record { machine = m; action = request_resubscribe; emitted = [] }
      else if frame.sequence == 0
      then apply_update m frame ts_ns
      else if breaks m.last_seq frame.sequence
      then record {
        machine = record m {
          state = gapped;
          last_seq = none;
          stats = record m.stats { gaps = inc64 m.stats.gaps };
        };
        action = request_resubscribe;
        emitted = [];
      }
      else apply_update (record m { last_seq = some frame.sequence }) frame ts_ns
