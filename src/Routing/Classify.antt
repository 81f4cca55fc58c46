-- ===== src/Routing/Classify.antt =====
-- server/src/operation_routing.rs: `ui_operation` and `agent_operation`.
use shellfleet.Common.{
  Bool, true, false, not, String, Option, none, some, ◌==◌, string_eq, if◌then◌else◌,
}
use shellfleet.Protocol.Wire.{
  Message, start_terminal_request, k8s_exec_request, docker_exec_start_request, k8s_logs_request,
  docker_logs_request, journal_logs_request, journal_stream_request, terminal_data, terminal_resize,
  stop_terminal_request, docker_exec_stop_request, k8s_logs_stop, docker_logs_stop,
  journal_logs_stop, journal_stream_stop, trusted_operation_client, k8s_exec_response,
  docker_exec_start_response, k8s_logs_chunk, k8s_logs_end, docker_logs_chunk, docker_logs_end,
  journal_logs_chunk, journal_logs_end, journal_stream_chunk, journal_stream_end,
  trusted_operation_host,
}
use shellfleet.Routing.Key.{
  OperationKey, terminal, docker_exec, k8s_logs, docker_logs, journal_logs, journal_stream, trusted,
}

pub data UiOperation : Type 0 where
  start use_existing stop : OperationKey → UiOperation

pub record AgentOperation : Type 0 where
  pub key : OperationKey
  pub ends : Bool

-- The empty session id stands for the one container session of an agent.
unfoldable pub terminal_key : String → OperationKey
terminal_key session_id = if session_id == "" then docker_exec else terminal session_id

trusted_operation : Bool → Bool → OperationKey → UiOperation
trusted_operation starts closes key =
    if starts then start key else if closes then stop key else use_existing key

unfoldable pub ui_operation : Message → Option UiOperation
unfolding terminal_key trusted_operation
ui_operation (start_terminal_request session_id) = some (start (terminal session_id))
ui_operation (k8s_exec_request session_id _ _ _ _) = some (start (terminal session_id))
ui_operation (docker_exec_start_request _ _) = some (start docker_exec)
ui_operation (k8s_logs_request stream_id _ _ _ _ _) = some (start (k8s_logs stream_id))
ui_operation (docker_logs_request container_id _ _) = some (start (docker_logs container_id))
ui_operation (journal_logs_request unit _ _) = some (start (journal_logs unit))
ui_operation (journal_stream_request stream_id _ _ _ _ _ _ _) =
    some (start (journal_stream stream_id))
ui_operation (terminal_data session_id _) = some (use_existing (terminal_key session_id))
ui_operation (terminal_resize session_id _ _) = some (use_existing (terminal_key session_id))
ui_operation (stop_terminal_request session_id) = some (stop (terminal_key session_id))
ui_operation docker_exec_stop_request = some (stop docker_exec)
ui_operation (k8s_logs_stop stream_id) = some (stop (k8s_logs stream_id))
ui_operation (docker_logs_stop container_id) = some (stop (docker_logs container_id))
ui_operation (journal_logs_stop unit) = some (stop (journal_logs unit))
ui_operation (journal_stream_stop stream_id) = some (stop (journal_stream stream_id))
ui_operation (trusted_operation_client request_id starts closes _) =
    some (trusted_operation starts closes (trusted request_id))
ui_operation _ = none

abbrev answer : OperationKey → Bool → Option AgentOperation
answer key ends = some (record { key = key; ends = ends })

unfoldable pub agent_operation : Message → Option AgentOperation
unfolding terminal_key
agent_operation (terminal_data session_id _) = answer (terminal_key session_id) false
agent_operation (k8s_exec_response session_id success _) =
    answer (terminal session_id) (not success)
agent_operation (docker_exec_start_response _ success _) = answer docker_exec (not success)
agent_operation (k8s_logs_chunk stream_id _) = answer (k8s_logs stream_id) false
agent_operation (k8s_logs_end stream_id _) = answer (k8s_logs stream_id) true
agent_operation (docker_logs_chunk container_id _) = answer (docker_logs container_id) false
agent_operation (docker_logs_end container_id _) = answer (docker_logs container_id) true
agent_operation (journal_logs_chunk unit _) = answer (journal_logs unit) false
agent_operation (journal_logs_end unit _) = answer (journal_logs unit) true
agent_operation (journal_stream_chunk stream_id _) = answer (journal_stream stream_id) false
agent_operation (journal_stream_end stream_id _) = answer (journal_stream stream_id) true
agent_operation (trusted_operation_host request_id complete _) =
    answer (trusted request_id) complete
agent_operation _ = none
