-- ===== src/Cron/Types.antt =====
-- internal/cron/cron.go: schedules, jobs and their state. An `int64` or `int` is an integer.
use gobot.Prelude.{Bool, Option, String}
use gobot.Prelude.Int.{ℤ}

-- `ScheduleKind` is a string: `other` is any value beside the three constants.
pub data Kind : Type 0 where
  at every cron : Kind
  other : String → Kind

pub record Schedule : Type 0 where
  pub kind : Kind
  pub at_ms : Option ℤ
  pub every_ms : Option ℤ
  pub expr : String
  pub tz : String

pub record Payload : Type 0 where
  pub id : String
  pub channel : String
  pub agent : String
  pub to : String
  pub subject : String
  pub message : String

pub record JobState : Type 0 where
  pub last_run_at_ms : ℤ
  pub next_run_at_ms : ℤ
  pub run_count : ℤ
  pub success_count : ℤ
  pub failure_count : ℤ

pub record Job : Type 0 where
  pub id : String
  pub source : String
  pub name : String
  pub enabled : Bool
  pub schedule : Schedule
  pub payload : Payload
  pub state : JobState
