-- ===== src/Protocol/Security.antt =====
-- shared/src/security.rs: the security contract of every message that a dashboard may send.
use shellfleet.Common.{
  Bool, true, false, String, Option, none, some, ◌==◌, string_eq, if◌then◌else◌,
}
use shellfleet.Common.Result.{Result, ok, err, ◌>>=◌, ok_or}
use shellfleet.Protocol.Docker.{DockerContainerAction, SwarmAction}
use shellfleet.Protocol.Wire.{Message}
use shellfleet.Protocol.Wire.{
  register, register_ack, capabilities_update, ping, pong, list_services_request,
  list_services_response, control_service_request, control_service_response, start_terminal_request,
  terminal_data, stop_terminal_request, terminal_resize, trusted_operation_client,
  trusted_operation_host, k8s_list_pods_request, k8s_list_pods_response,
  k8s_list_deployments_request, k8s_list_deployments_response, k8s_list_services_request,
  k8s_list_services_response, k8s_list_ingresses_request, k8s_list_ingresses_response,
  k8s_list_pvcs_request, k8s_list_pvcs_response, k8s_list_events_request, k8s_list_events_response,
  k8s_describe_request, k8s_describe_response, k8s_logs_request, k8s_logs_chunk, k8s_logs_stop,
  k8s_logs_end, k8s_exec_request, k8s_exec_response, run_command_request, run_command_response,
  k8s_apply_request, k8s_apply_response, k8s_scale_request, k8s_scale_response,
  k8s_delete_pod_request, k8s_delete_pod_response, read_config_request, read_config_response,
  write_config_request, write_config_response, system_stats_request, system_stats_response,
  docker_list_request, docker_list_response, swarm_list_request, swarm_list_response,
  swarm_service_action_request, swarm_service_action_response, apt_status_request,
  apt_status_response, apt_refresh_request, apt_refresh_response, apt_upgrade_request,
  apt_upgrade_response, docker_create_container_request, docker_create_container_response,
  swarm_create_service_request, swarm_create_service_response, docker_container_action_request,
  docker_container_action_response, docker_logs_request, docker_logs_chunk, docker_logs_stop,
  docker_logs_end, journal_logs_request, journal_logs_chunk, journal_logs_stop, journal_logs_end,
  journal_stream_request, journal_stream_chunk, journal_stream_stop, journal_stream_end,
  swarm_service_inspect_request, swarm_service_inspect_response, swarm_stack_deploy_request,
  swarm_stack_deploy_response, health_probe_sync_request, health_probe_report, backup_run_request,
  backup_run_response, backup_list_archives_request, backup_list_archives_response,
  backup_restore_request, backup_restore_response, docker_image_list_request,
  docker_image_list_response, docker_image_remove_request, docker_image_remove_response,
  docker_image_pull_request, docker_image_pull_response, docker_network_list_request,
  docker_network_list_response, docker_network_inspect_request, docker_network_inspect_response,
  docker_network_create_request, docker_network_create_response, docker_network_remove_request,
  docker_network_remove_response, docker_volume_list_request, docker_volume_list_response,
  docker_volume_inspect_request, docker_volume_inspect_response, docker_volume_remove_request,
  docker_volume_remove_response, docker_volume_prune_request, docker_volume_prune_response,
  swarm_stack_list_request, swarm_stack_list_response, swarm_stack_inspect_request,
  swarm_stack_inspect_response, swarm_stack_remove_request, swarm_stack_remove_response,
  docker_system_prune_request, docker_system_prune_response, docker_stats_request,
  docker_stats_response, docker_exec_start_request, docker_exec_start_response,
  docker_exec_stop_request, drift_snapshot_request, drift_snapshot_response,
}

pub data UiRequestClass : Type 0 where
  read privileged_read interactive mutation : UiRequestClass

abbrev pub requires_admin : UiRequestClass → Bool
requires_admin read = false
requires_admin privileged_read = true
requires_admin interactive = true
requires_admin mutation = true

abbrev pub requires_approval : UiRequestClass → Bool
requires_approval mutation = true
requires_approval _ = false

pub record UiRequestSecurity : Type 0 where
  pub action : Option String
  pub class : UiRequestClass

pub data UiRequestError : Type 0 where
  not_ui_request invalid_action : UiRequestError

abbrev request : Option String → UiRequestClass → UiRequestSecurity
request a c = record { action = a; class = c }

unfoldable pub service_action : String → Option String
service_action action =
    if action == "start"
    then some "service:Start"
    else if action == "stop"
    then some "service:Stop"
    else if action == "restart"
    then some "service:Restart"
    else none

abbrev swarm_action : SwarmAction → String
swarm_action (SwarmAction.scale _) = "swarm:Scale"
swarm_action SwarmAction.force_update = "swarm:Deploy"
swarm_action SwarmAction.remove = "swarm:Remove"

abbrev container_action : DockerContainerAction → String
container_action DockerContainerAction.start = "container:Start"
container_action DockerContainerAction.stop = "container:Stop"
container_action DockerContainerAction.restart = "container:Restart"
container_action DockerContainerAction.remove = "container:Remove"

unfoldable pub ui_request_security : Message → Result UiRequestError UiRequestSecurity
ui_request_security list_services_request = ok (request (some "service:List") read)
ui_request_security (control_service_request _ action) = do
  policy_action ← ok_or (service_action action) invalid_action
  ok (request (some policy_action) mutation)
ui_request_security (start_terminal_request _) = ok (request (some "agent:Terminal") interactive)
ui_request_security (terminal_data _ _) = ok (request (some "agent:Terminal") interactive)
ui_request_security (stop_terminal_request _) = ok (request (some "agent:Terminal") interactive)
ui_request_security (terminal_resize _ _ _) = ok (request (some "agent:Terminal") interactive)
ui_request_security (trusted_operation_client _ _ _ _) =
    ok (request (some "agent:TrustedRoot") interactive)
ui_request_security k8s_list_pods_request = ok (request (some "k8s:List") read)
ui_request_security k8s_list_deployments_request = ok (request (some "k8s:List") read)
ui_request_security k8s_list_services_request = ok (request (some "k8s:List") read)
ui_request_security k8s_list_ingresses_request = ok (request (some "k8s:List") read)
ui_request_security k8s_list_pvcs_request = ok (request (some "k8s:List") read)
ui_request_security k8s_list_events_request = ok (request (some "k8s:List") read)
ui_request_security (k8s_describe_request _ _ _) = ok (request (some "k8s:Describe") read)
ui_request_security (k8s_logs_request _ _ _ _ _ _) = ok (request (some "k8s:Logs") privileged_read)
ui_request_security (k8s_logs_stop _) = ok (request (some "k8s:Logs") privileged_read)
ui_request_security (k8s_exec_request _ _ _ _ _) = ok (request (some "k8s:Exec") interactive)
ui_request_security (k8s_apply_request _ _ _) = ok (request (some "k8s:Apply") mutation)
ui_request_security (k8s_scale_request _ _ _ _) = ok (request (some "k8s:Scale") mutation)
ui_request_security (k8s_delete_pod_request _ _ _) = ok (request (some "k8s:Delete") mutation)
ui_request_security (read_config_request _) = ok (request (some "config:Read") privileged_read)
ui_request_security (write_config_request _ _) = ok (request (some "config:Write") mutation)
ui_request_security system_stats_request = ok (request (none) read)
ui_request_security docker_list_request = ok (request (some "container:List") read)
ui_request_security swarm_list_request = ok (request (some "swarm:List") read)
ui_request_security (swarm_service_action_request _ action) =
    ok (request (some (swarm_action action)) mutation)
ui_request_security apt_status_request = ok (request (some "apt:Status") read)
ui_request_security apt_refresh_request = ok (request (some "apt:Refresh") mutation)
ui_request_security (apt_upgrade_request _) = ok (request (some "apt:Upgrade") mutation)
ui_request_security (docker_create_container_request _) =
    ok (request (some "container:Create") mutation)
ui_request_security (swarm_create_service_request _) = ok (request (some "swarm:Deploy") mutation)
ui_request_security (docker_container_action_request _ action) =
    ok (request (some (container_action action)) mutation)
ui_request_security (docker_logs_request _ _ _) = ok (request (some "container:Logs") read)
ui_request_security (docker_logs_stop _) = ok (request (some "container:Logs") read)
ui_request_security (journal_logs_request _ _ _) = ok (request (some "journal:Read") read)
ui_request_security (journal_logs_stop _) = ok (request (some "journal:Read") read)
ui_request_security (journal_stream_request _ _ _ _ _ _ _ _) =
    ok (request (some "journal:Read") read)
ui_request_security (journal_stream_stop _) = ok (request (some "journal:Read") read)
ui_request_security (swarm_service_inspect_request _) = ok (request (some "swarm:List") read)
ui_request_security (swarm_stack_deploy_request _ _ _) = ok (request (some "swarm:Deploy") mutation)
ui_request_security (backup_run_request _ _ _ _ _) = ok (request (some "backup:Run") mutation)
ui_request_security (backup_list_archives_request _ _ _) = ok (request (some "backup:List") read)
ui_request_security (backup_restore_request _ _ _) = ok (request (some "backup:Restore") mutation)
ui_request_security docker_image_list_request = ok (request (some "docker:ImageList") read)
ui_request_security (docker_image_remove_request _ _) =
    ok (request (some "docker:ImageRemove") mutation)
ui_request_security (docker_image_pull_request _) = ok (request (some "docker:ImagePull") mutation)
ui_request_security docker_network_list_request = ok (request (some "network:List") read)
ui_request_security (docker_network_inspect_request _) = ok (request (some "network:List") read)
ui_request_security (docker_network_create_request _ _ _ _ _) =
    ok (request (some "network:Create") mutation)
ui_request_security (docker_network_remove_request _) =
    ok (request (some "network:Remove") mutation)
ui_request_security docker_volume_list_request = ok (request (some "volume:List") read)
ui_request_security (docker_volume_inspect_request _) = ok (request (some "volume:List") read)
ui_request_security (docker_volume_remove_request _ _) =
    ok (request (some "volume:Remove") mutation)
ui_request_security docker_volume_prune_request = ok (request (some "docker:Prune") mutation)
ui_request_security swarm_stack_list_request = ok (request (some "swarm:List") read)
ui_request_security (swarm_stack_inspect_request _) = ok (request (some "swarm:List") read)
ui_request_security (swarm_stack_remove_request _) = ok (request (some "swarm:Remove") mutation)
ui_request_security (docker_system_prune_request _ _) = ok (request (some "docker:Prune") mutation)
ui_request_security docker_stats_request = ok (request (some "container:List") read)
ui_request_security (docker_exec_start_request _ _) =
    ok (request (some "container:Exec") interactive)
ui_request_security docker_exec_stop_request = ok (request (some "container:Exec") interactive)
ui_request_security (drift_snapshot_request _ _ _) = ok (request (some "drift:Snapshot") mutation)
ui_request_security (register _ _ _ _) = err not_ui_request
ui_request_security (register_ack _) = err not_ui_request
ui_request_security (capabilities_update _) = err not_ui_request
ui_request_security ping = err not_ui_request
ui_request_security pong = err not_ui_request
ui_request_security (list_services_response _) = err not_ui_request
ui_request_security (control_service_response _ _ _) = err not_ui_request
ui_request_security (k8s_list_pods_response _ _) = err not_ui_request
ui_request_security (k8s_list_deployments_response _ _) = err not_ui_request
ui_request_security (k8s_list_services_response _ _) = err not_ui_request
ui_request_security (k8s_list_ingresses_response _ _) = err not_ui_request
ui_request_security (k8s_list_pvcs_response _ _) = err not_ui_request
ui_request_security (k8s_list_events_response _ _) = err not_ui_request
ui_request_security (k8s_describe_response _ _ _ _ _) = err not_ui_request
ui_request_security (k8s_logs_chunk _ _) = err not_ui_request
ui_request_security (k8s_logs_end _ _) = err not_ui_request
ui_request_security (k8s_exec_response _ _ _) = err not_ui_request
ui_request_security (run_command_request _ _ _) = err not_ui_request
ui_request_security (run_command_response _ _ _ _ _ _ _ _) = err not_ui_request
ui_request_security (k8s_apply_response _ _) = err not_ui_request
ui_request_security (k8s_scale_response _ _ _ _ _) = err not_ui_request
ui_request_security (k8s_delete_pod_response _ _ _ _) = err not_ui_request
ui_request_security (read_config_response _ _ _) = err not_ui_request
ui_request_security (write_config_response _ _ _) = err not_ui_request
ui_request_security (system_stats_response _ _ _ _ _ _ _ _ _ _ _ _ _) = err not_ui_request
ui_request_security (docker_list_response _ _ _ _) = err not_ui_request
ui_request_security (swarm_list_response _ _ _ _ _) = err not_ui_request
ui_request_security (swarm_service_action_response _ _ _ _) = err not_ui_request
ui_request_security (apt_status_response _ _ _ _) = err not_ui_request
ui_request_security (apt_refresh_response _ _ _) = err not_ui_request
ui_request_security (apt_upgrade_response _ _ _ _) = err not_ui_request
ui_request_security (docker_create_container_response _ _ _ _) = err not_ui_request
ui_request_security (swarm_create_service_response _ _ _ _) = err not_ui_request
ui_request_security (docker_container_action_response _ _ _ _) = err not_ui_request
ui_request_security (docker_logs_chunk _ _) = err not_ui_request
ui_request_security (docker_logs_end _ _) = err not_ui_request
ui_request_security (journal_logs_chunk _ _) = err not_ui_request
ui_request_security (journal_logs_end _ _) = err not_ui_request
ui_request_security (journal_stream_chunk _ _) = err not_ui_request
ui_request_security (journal_stream_end _ _) = err not_ui_request
ui_request_security (swarm_service_inspect_response _ _ _ _ _ _) = err not_ui_request
ui_request_security (swarm_stack_deploy_response _ _ _ _) = err not_ui_request
ui_request_security (health_probe_sync_request _) = err not_ui_request
ui_request_security (health_probe_report _) = err not_ui_request
ui_request_security (backup_run_response _ _ _ _ _ _ _) = err not_ui_request
ui_request_security (backup_list_archives_response _ _ _ _) = err not_ui_request
ui_request_security (backup_restore_response _ _ _ _ _ _) = err not_ui_request
ui_request_security (docker_image_list_response _ _ _) = err not_ui_request
ui_request_security (docker_image_remove_response _ _ _ _) = err not_ui_request
ui_request_security (docker_image_pull_response _ _ _ _) = err not_ui_request
ui_request_security (docker_network_list_response _ _ _) = err not_ui_request
ui_request_security (docker_network_inspect_response _ _ _ _) = err not_ui_request
ui_request_security (docker_network_create_response _ _ _ _ _) = err not_ui_request
ui_request_security (docker_network_remove_response _ _ _ _) = err not_ui_request
ui_request_security (docker_volume_list_response _ _ _) = err not_ui_request
ui_request_security (docker_volume_inspect_response _ _ _ _) = err not_ui_request
ui_request_security (docker_volume_remove_response _ _ _ _) = err not_ui_request
ui_request_security (docker_volume_prune_response _ _ _ _ _) = err not_ui_request
ui_request_security (swarm_stack_list_response _ _ _ _) = err not_ui_request
ui_request_security (swarm_stack_inspect_response _ _ _ _ _ _) = err not_ui_request
ui_request_security (swarm_stack_remove_response _ _ _ _) = err not_ui_request
ui_request_security (docker_system_prune_response _ _ _ _ _ _ _ _ _) = err not_ui_request
ui_request_security (docker_stats_response _ _ _) = err not_ui_request
ui_request_security (docker_exec_start_response _ _ _) = err not_ui_request
ui_request_security (drift_snapshot_response _ _ _ _ _ _) = err not_ui_request
ui_request_security (trusted_operation_host _ _ _) = err not_ui_request
