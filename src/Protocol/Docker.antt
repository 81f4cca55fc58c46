-- ===== src/Protocol/Docker.antt =====
-- shared/src/lib.rs: the records that Docker and Swarm messages carry. `f32` values are their bit
-- patterns: the program moves them and never computes with them.
use shellfleet.Common.{ℕ, Bool, String, Option, List}

pub data SwarmRole : Type 0 where
  not_in_swarm : SwarmRole
  worker : SwarmRole
  manager : SwarmRole

pub data DockerContainerAction : Type 0 where
  start : DockerContainerAction
  stop : DockerContainerAction
  restart : DockerContainerAction
  remove : DockerContainerAction

pub data SwarmAction : Type 0 where
  scale : ℕ → SwarmAction
  force_update : SwarmAction
  remove : SwarmAction

pub record DockerContainer : Type 0 where
  pub id : String
  pub names : String
  pub image : String
  pub state : String
  pub status : String
  pub ports : String

pub record SwarmService : Type 0 where
  pub id : String
  pub name : String
  pub mode : String
  pub replicas : String
  pub image : String
  pub ports : String

pub record SwarmNode : Type 0 where
  pub id : String
  pub hostname : String
  pub status : String
  pub availability : String
  pub manager_status : String
  pub engine_version : String

pub record DockerContainerStats : Type 0 where
  pub id : String
  pub name : String
  pub cpu_percent : ℕ
  pub mem_bytes : ℕ
  pub mem_limit_bytes : ℕ
  pub net_rx_bytes : ℕ
  pub net_tx_bytes : ℕ
  pub blk_read_bytes : ℕ
  pub blk_write_bytes : ℕ
  pub pids : ℕ

pub record DockerNetwork : Type 0 where
  pub id : String
  pub name : String
  pub driver : String
  pub scope : String
  pub created : String
  pub ipv6 : Bool
  pub internal : Bool
  pub attachable : Bool

pub record DockerVolume : Type 0 where
  pub name : String
  pub driver : String
  pub mountpoint : String
  pub size_bytes : ℕ
  pub created : String
  pub labels : String

pub record SwarmStack : Type 0 where
  pub name : String
  pub services : ℕ
  pub orchestrator : String

pub record DockerImage : Type 0 where
  pub id : String
  pub repository : String
  pub tag : String
  pub size_bytes : ℕ
  pub created : String

pub record SwarmTask : Type 0 where
  pub id : String
  pub name : String
  pub node : String
  pub desired_state : String
  pub current_state : String
  pub error : String
  pub image : String

pub record SwarmServiceSpecSummary : Type 0 where
  pub image : String
  pub image_digest : String
  pub mode : String
  pub replicas : Option ℕ
  pub created_at : String
  pub updated_at : String
  pub env : List String
  pub mounts : List String
  pub networks : List String
  pub constraints : List String
  pub published_ports : List String

pub record ContainerSpec : Type 0 where
  pub image : String
  pub name : Option String
  pub ports : List String
  pub env : List String
  pub volumes : List String
  pub restart_policy : Option String
  pub command : Option String
  pub network : Option String
  pub detached : Bool
  pub pull : Bool

pub record ServiceSpec : Type 0 where
  pub image : String
  pub name : String
  pub replicas : Option ℕ
  pub mode : Option String
  pub ports : List String
  pub env : List String
  pub mounts : List String
  pub constraints : List String
  pub command : Option String
  pub networks : List String
  pub restart_condition : Option String
