-- ===== src/Protocol/Host.antt =====
-- shared/src/lib.rs: services, packages, probes, backups and drift.
use shellfleet.Common.{ℕ, String, Option, List}
use shellfleet.Common.Int.{ℤ}

pub data BackupMode : Type 0 where
  tar : BackupMode
  restic : BackupMode

pub data HealthProbeKind : Type 0 where
  http : HealthProbeKind
  tcp : HealthProbeKind
  exec : HealthProbeKind

pub data HealthProbeState : Type 0 where
  green : HealthProbeState
  red : HealthProbeState

pub record ServiceInfo : Type 0 where
  pub name : String
  pub description : String
  pub status : String
  pub active_state : String

pub record BackupArchive : Type 0 where
  pub name : String
  pub uri : String
  pub bytes : ℕ
  pub mtime : ℤ

pub record HealthProbeSpec : Type 0 where
  pub id : String
  pub name : String
  pub kind : HealthProbeKind
  pub target : String
  pub interval_secs : ℕ
  pub timeout_secs : ℕ
  pub expect_status : Option ℕ
  pub expect_body : Option String
  pub env : List String

pub record HealthProbeResult : Type 0 where
  pub id : String
  pub state : HealthProbeState
  pub latency_ms : ℕ
  pub detail : String
  pub at : ℤ

pub record AptUpgradable : Type 0 where
  pub name : String
  pub current_version : String
  pub new_version : String
  pub source : String

pub record DriftPackage : Type 0 where
  pub name : String
  pub version : String
  pub status : String

pub record DriftService : Type 0 where
  pub name : String
  pub active : String
  pub enabled : String

pub record DriftContainer : Type 0 where
  pub name : String
  pub image : String
  pub state : String

pub record DriftConfigFile : Type 0 where
  pub path : String
  pub hash : String
  pub size : ℕ
  pub mtime : ℤ
