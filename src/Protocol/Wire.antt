-- ===== src/Protocol/Wire.antt =====
-- shared/src/lib.rs: the messages of the agent and the dashboard sockets, a constructor for each
-- variant. A `HashMap` field is its list of entries; byte strings are lists of numbers.
use shellfleet.Common.{ℕ, Bool, String, Option, List}
use shellfleet.Common.Int.{ℤ}
use shellfleet.Protocol.Docker.{
  SwarmRole, DockerContainerAction, SwarmAction, DockerContainer, SwarmService, SwarmNode,
  DockerContainerStats, DockerNetwork, DockerVolume, SwarmStack, DockerImage, SwarmTask,
  SwarmServiceSpecSummary, ContainerSpec, ServiceSpec,
}
use shellfleet.Protocol.Kube.{K8sDeployment, K8sService, K8sIngress, K8sPvc, K8sEvent, K8sPod}
use shellfleet.Protocol.Host.{
  BackupMode, ServiceInfo, BackupArchive, HealthProbeSpec, HealthProbeResult, AptUpgradable,
  DriftPackage, DriftService, DriftContainer, DriftConfigFile,
}

pub data Message : Type 0 where
  register :
      (hostname : String) (protocol_version : ℕ) (capabilities : List String)
      (metadata : List (String × String))
      → Message
  register_ack : (agent_id : String) → Message
  capabilities_update : (capabilities : List String) → Message
  ping : Message
  pong : Message
  list_services_request : Message
  list_services_response : (services : List ServiceInfo) → Message
  control_service_request : (name action : String) → Message
  control_service_response : (name : String) (success : Bool) (error : Option String) → Message
  start_terminal_request : (session_id : String) → Message
  terminal_data : (session_id : String) (bytes : List ℕ) → Message
  stop_terminal_request : (session_id : String) → Message
  terminal_resize : (session_id : String) (cols rows : ℕ) → Message
  trusted_operation_client : (request_id : String) (start close : Bool) (payload : List ℕ) → Message
  trusted_operation_host : (request_id : String) (complete : Bool) (payload : List ℕ) → Message
  k8s_list_pods_request : Message
  k8s_list_pods_response : (pods : List K8sPod) (error : Option String) → Message
  k8s_list_deployments_request : Message
  k8s_list_deployments_response :
      (deployments : List K8sDeployment) (error : Option String) → Message
  k8s_list_services_request : Message
  k8s_list_services_response : (services : List K8sService) (error : Option String) → Message
  k8s_list_ingresses_request : Message
  k8s_list_ingresses_response : (ingresses : List K8sIngress) (error : Option String) → Message
  k8s_list_pvcs_request : Message
  k8s_list_pvcs_response : (pvcs : List K8sPvc) (error : Option String) → Message
  k8s_list_events_request : Message
  k8s_list_events_response : (events : List K8sEvent) (error : Option String) → Message
  k8s_describe_request : (kind : String) (namespace : Option String) (name : String) → Message
  k8s_describe_response :
      (kind : String) (namespace : Option String) (name yaml : String) (error : Option String)
      → Message
  k8s_logs_request :
      (stream_id namespace pod_name : String) (container : Option String) (tail_lines : ℤ)
      (follow : Bool)
      → Message
  k8s_logs_chunk : (stream_id : String) (lines : List String) → Message
  k8s_logs_stop : (stream_id : String) → Message
  k8s_logs_end : (stream_id : String) (error : Option String) → Message
  k8s_exec_request :
      (session_id namespace pod_name : String) (container : Option String) (command : List String)
      → Message
  k8s_exec_response : (session_id : String) (success : Bool) (error : Option String) → Message
  run_command_request : (request_id command : String) (timeout_secs : ℕ) → Message
  run_command_response :
      (request_id : String) (exit_code : ℤ) (stdout stderr : String) (error : Option String)
      (truncated timed_out : Bool) (duration_ms : ℕ)
      → Message
  k8s_apply_request : (yaml : String) (dry_run force : Bool) → Message
  k8s_apply_response : (result : String) (error : Option String) → Message
  k8s_scale_request : (kind namespace name : String) (replicas : ℤ) → Message
  k8s_scale_response :
      (kind namespace name : String) (success : Bool) (error : Option String) → Message
  k8s_delete_pod_request : (namespace name : String) (grace_period_secs : Option ℤ) → Message
  k8s_delete_pod_response :
      (namespace name : String) (success : Bool) (error : Option String) → Message
  read_config_request : (path : String) → Message
  read_config_response : (path content : String) (error : Option String) → Message
  write_config_request : (path content : String) → Message
  write_config_response : (path : String) (success : Bool) (error : Option String) → Message
  system_stats_request : Message
  system_stats_response :
      (hostname kernel : String)
      (uptime_secs cpu_count load_1 load_5 load_15 mem_total_kb mem_available_kb swap_total_kb
        swap_free_kb root_disk_total_kb root_disk_used_kb : ℕ)
      → Message
  docker_list_request : Message
  docker_list_response :
      (available : Bool) (swarm_role : SwarmRole) (containers : List DockerContainer)
      (error : Option String)
      → Message
  swarm_list_request : Message
  swarm_list_response :
      (available is_manager : Bool) (services : List SwarmService) (nodes : List SwarmNode)
      (error : Option String)
      → Message
  swarm_service_action_request : (name : String) (action : SwarmAction) → Message
  swarm_service_action_response :
      (name : String) (success : Bool) (log : String) (error : Option String) → Message
  apt_status_request : Message
  apt_status_response :
      (available : Bool) (upgradable : List AptUpgradable) (last_update_secs : ℕ)
      (error : Option String)
      → Message
  apt_refresh_request : Message
  apt_refresh_response : (success : Bool) (log : String) (error : Option String) → Message
  apt_upgrade_request : (package_name : Option String) → Message
  apt_upgrade_response :
      (package_name : Option String) (success : Bool) (log : String) (error : Option String)
      → Message
  docker_create_container_request : (spec : ContainerSpec) → Message
  docker_create_container_response :
      (success : Bool) (container_id : Option String) (log : String) (error : Option String)
      → Message
  swarm_create_service_request : (spec : ServiceSpec) → Message
  swarm_create_service_response :
      (success : Bool) (service_id : Option String) (log : String) (error : Option String) → Message
  docker_container_action_request : (id : String) (action : DockerContainerAction) → Message
  docker_container_action_response :
      (id : String) (success : Bool) (log : String) (error : Option String) → Message
  docker_logs_request : (container_id : String) (tail : ℕ) (follow : Bool) → Message
  docker_logs_chunk : (container_id bytes : String) → Message
  docker_logs_stop : (container_id : String) → Message
  docker_logs_end : (container_id : String) (error : Option String) → Message
  journal_logs_request : (unit : String) (lines : ℕ) (follow : Bool) → Message
  journal_logs_chunk : (unit bytes : String) → Message
  journal_logs_stop : (unit : String) → Message
  journal_logs_end : (unit : String) (error : Option String) → Message
  journal_stream_request :
      (stream_id : String) (units : List String) (priority since grep identifier : Option String)
      (lines : ℕ) (follow : Bool)
      → Message
  journal_stream_chunk : (stream_id : String) (lines : List String) → Message
  journal_stream_stop : (stream_id : String) → Message
  journal_stream_end : (stream_id : String) (error : Option String) → Message
  swarm_service_inspect_request : (name : String) → Message
  swarm_service_inspect_response :
      (name : String) (success : Bool) (tasks : List SwarmTask)
      (spec : Option SwarmServiceSpecSummary) (log : String) (error : Option String)
      → Message
  swarm_stack_deploy_request : (stack_name compose_yaml : String) (prune : Bool) → Message
  swarm_stack_deploy_response :
      (stack_name : String) (success : Bool) (log : String) (error : Option String) → Message
  health_probe_sync_request : (probes : List HealthProbeSpec) → Message
  health_probe_report : (results : List HealthProbeResult) → Message
  backup_run_request :
      (id name : String) (paths : List String) (dest : String) (mode : BackupMode) → Message
  backup_run_response :
      (id name : String) (success : Bool) (archive_path : String) (bytes : ℕ) (log : String)
      (error : Option String)
      → Message
  backup_list_archives_request : (id name dest : String) → Message
  backup_list_archives_response :
      (id : String) (success : Bool) (archives : List BackupArchive) (error : Option String)
      → Message
  backup_restore_request : (id archive_uri dest_root : String) → Message
  backup_restore_response :
      (id archive_uri dest_root : String) (success : Bool) (log : String) (error : Option String)
      → Message
  docker_image_list_request : Message
  docker_image_list_response :
      (available : Bool) (images : List DockerImage) (error : Option String) → Message
  docker_image_remove_request : (id : String) (force : Bool) → Message
  docker_image_remove_response :
      (id : String) (success : Bool) (log : String) (error : Option String) → Message
  docker_image_pull_request : (reference : String) → Message
  docker_image_pull_response :
      (reference : String) (success : Bool) (log : String) (error : Option String) → Message
  docker_network_list_request : Message
  docker_network_list_response :
      (available : Bool) (networks : List DockerNetwork) (error : Option String) → Message
  docker_network_inspect_request : (id : String) → Message
  docker_network_inspect_response :
      (id : String) (success : Bool) (json : String) (error : Option String) → Message
  docker_network_create_request :
      (name driver : String) (subnet : Option String) (attachable internal : Bool) → Message
  docker_network_create_response :
      (name : String) (success : Bool) (id : Option String) (log : String) (error : Option String)
      → Message
  docker_network_remove_request : (id : String) → Message
  docker_network_remove_response :
      (id : String) (success : Bool) (log : String) (error : Option String) → Message
  docker_volume_list_request : Message
  docker_volume_list_response :
      (available : Bool) (volumes : List DockerVolume) (error : Option String) → Message
  docker_volume_inspect_request : (name : String) → Message
  docker_volume_inspect_response :
      (name : String) (success : Bool) (json : String) (error : Option String) → Message
  docker_volume_remove_request : (name : String) (force : Bool) → Message
  docker_volume_remove_response :
      (name : String) (success : Bool) (log : String) (error : Option String) → Message
  docker_volume_prune_request : Message
  docker_volume_prune_response :
      (success : Bool) (removed : List String) (space_reclaimed_bytes : ℕ) (log : String)
      (error : Option String)
      → Message
  swarm_stack_list_request : Message
  swarm_stack_list_response :
      (available is_manager : Bool) (stacks : List SwarmStack) (error : Option String) → Message
  swarm_stack_inspect_request : (name : String) → Message
  swarm_stack_inspect_response :
      (name : String) (success : Bool) (services : List SwarmService) (tasks : List SwarmTask)
      (log : String) (error : Option String)
      → Message
  swarm_stack_remove_request : (name : String) → Message
  swarm_stack_remove_response :
      (name : String) (success : Bool) (log : String) (error : Option String) → Message
  docker_system_prune_request : (dry_run prune_volumes : Bool) → Message
  docker_system_prune_response :
      (dry_run success : Bool) (reclaimed_bytes : ℕ)
      (containers_removed images_removed networks_removed volumes_removed : List String)
      (log : String) (error : Option String)
      → Message
  docker_stats_request : Message
  docker_stats_response :
      (available : Bool) (snapshots : List DockerContainerStats) (error : Option String) → Message
  docker_exec_start_request : (container_id shell : String) → Message
  docker_exec_start_response :
      (container_id : String) (success : Bool) (error : Option String) → Message
  docker_exec_stop_request : Message
  drift_snapshot_request : (snapshot_id : String) (categories config_paths : List String) → Message
  drift_snapshot_response :
      (snapshot_id : String) (packages : List DriftPackage) (services : List DriftService)
      (containers : List DriftContainer) (configs : List DriftConfigFile) (error : Option String)
      → Message

pub data UiMessage : Type 0 where
  list_agents_request : UiMessage
  list_agents_response :
      (agents : List String) (capabilities : List (String × List String)) → UiMessage
  send_to_agent : (agent_id : String) (message : Message) → UiMessage
  agent_message : (agent_id : String) (message : Message) → UiMessage
  permission_denied : (agent_id variant_type reason : String) → UiMessage
