-- ===== src/Metrics.antt =====
-- src/metrics.rs: the counters, and the registry of component states. Of the text of an error, only
-- whether there is one is modelled.
use softnix_log_agent.Prelude.{ℕ, Bool, true, false, none, some, List, add64}
use Prim.Native.String.{String}
use softnix_log_agent.Event.{get, insert}

pub record Metrics : Type 0 where
  pub events_received : ℕ
  pub events_sent : ℕ
  pub events_failed : ℕ
  pub events_dropped : ℕ
  pub errors : ℕ
  pub last_error : Bool
  pub channel_bytes : ℕ

unfoldable pub record_error : Metrics → Metrics
record_error m = record m { errors = add64 m.errors 1; last_error = true }

pub record InputStatus : Type 0 where
  pub id : String
  pub kind : String
  pub detail : String
  pub active : Bool
  pub events : ℕ
  pub last_error : Bool

pub record OutputStatus : Type 0 where
  pub id : String
  pub kind : String
  pub detail : String
  pub healthy : Bool
  pub connected : Bool
  pub events_sent : ℕ
  pub retries : ℕ
  pub consecutive_failures : ℕ
  pub last_error : Bool

pub record StatusRegistry : Type 0 where
  pub inputs : List (String × InputStatus)
  pub outputs : List (String × OutputStatus)

unfoldable pub set_input : InputStatus → StatusRegistry → StatusRegistry
unfolding insert
set_input st r = record r { inputs = insert st.id st r.inputs }

unfoldable pub update_input : String → (InputStatus → InputStatus) → StatusRegistry → StatusRegistry
unfolding get insert
update_input id f r = elim (get id r.inputs) [
  | none ↦ r
  | some st ↦ record r { inputs = insert id (f st) r.inputs }
]

unfoldable pub set_output : OutputStatus → StatusRegistry → StatusRegistry
unfolding insert
set_output st r = record r { outputs = insert st.id st r.outputs }

unfoldable pub update_output :
    String → (OutputStatus → OutputStatus) → StatusRegistry → StatusRegistry
unfolding get insert
update_output id f r = elim (get id r.outputs) [
  | none ↦ r
  | some st ↦ record r { outputs = insert id (f st) r.outputs }
]

unfoldable pub output_healthy : String → StatusRegistry → Bool
unfolding get
output_healthy id r = elim (get id r.outputs) [ none ↦ false | some st ↦ st.healthy ]
