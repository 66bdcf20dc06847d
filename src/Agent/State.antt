-- ===== src/Agent/State.antt =====
-- apps-agent/src/loop/state.ts and heartbeat.ts: the agent's state. The clock is an argument.
use psybot_ai.Base.{ℕ, ◌-◌, Option, none, some, List, [], ◌∷◌, take}
use psybot_ai.Base.Text.{Text}

pub data AgentPhase : Type 0 where
  boot observe summarize moduleize suggest_forks actions sleep : AgentPhase

pub record ErrorInfo : Type 0 where
  pub at : ℕ
  pub message : Text
  pub stack : Option Text

pub record Summary : Type 0 where
  pub at : ℕ
  pub source : Text
  pub summary : Text

pub record Memory : Type 0 where
  pub last_observed : Option ℕ
  pub last_github_etag : Option Text
  pub last_npm_etag : Option Text
  pub recent_summaries : List Summary

pub record AgentState : Type 0 where
  pub agent_id : Text
  pub started_at : ℕ
  pub tick : ℕ
  pub phase : AgentPhase
  pub last_heartbeat_at : ℕ
  pub last_error : Option ErrorInfo
  pub memory : Memory

-- `createInitialState`, for an id of `ulid()` and the time.
unfoldable pub create_initial_state : Text → ℕ → AgentState
create_initial_state id now = record {
  agent_id = id;
  started_at = now;
  tick = 0;
  phase = boot;
  last_heartbeat_at = now;
  last_error = none;
  memory = record {
    last_observed = none;
    last_github_etag = none;
    last_npm_etag = none;
    recent_summaries = [];
  };
}

unfoldable pub record_error : AgentState → ℕ → Text → Option Text → AgentState
record_error state now message stack = record state {
  last_error = some (record { at = now; message = message; stack = stack });
}

-- `pushSummary`. The source writes into the memory object, which the step has just made and which
-- nothing else holds.
unfoldable pub push_summary : AgentState → ℕ → Text → Text → AgentState
push_summary state now source summary =
    let entry : Summary = record { at = now; source = source; summary = summary } in
    record state {
      memory = record (state.memory) {
        recent_summaries = take 50 (entry ∷ state.memory.recent_summaries);
      };
    }

pub record Heartbeat : Type 0 where
  pub agent_id : Text
  pub ts : ℕ
  pub tick : ℕ
  pub phase : AgentPhase
  pub uptime_ms : ℕ
  pub last_error : Option (ℕ × Text)

abbrev short_error : Option ErrorInfo → Option (ℕ × Text)
short_error none = none
short_error (some e) = some (e.at, e.message)

-- `heartbeat`: the new state, and what the sink is given, by a clock that does not go back.
unfoldable pub heartbeat : AgentState → ℕ → AgentState × Heartbeat
heartbeat state now = (
  record state { last_heartbeat_at = now },
  record {
    agent_id = state.agent_id;
    ts = now;
    tick = state.tick;
    phase = state.phase;
    uptime_ms = now - state.started_at;
    last_error = short_error state.last_error;
  },
)
