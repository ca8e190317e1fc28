-- ===== src/Examples/Data.antt =====
-- Test data: a small deployment with two models, in thousandths of a second.
use stupid_inference_router.Prelude.{true, false, none, some, List, [], ◌∷◌}
use stupid_inference_router.Prelude.Int.{ℤ, pos}
use stupid_inference_router.Float.Fixed.{fixed}
use stupid_inference_router.Types.Request.{GenerationRequest, QueuedRequest, RequestState}
use stupid_inference_router.Types.Scheduling.{ModelState, SchedulerSnapshot}
use stupid_inference_router.Config.Scheduler.{SchedulerConfig, JobsConfig}
use stupid_inference_router.Config.Models.{ModelConfig, BackendKind, ServedName}
use stupid_inference_router.Config.App.{AppConfig}
use stupid_inference_router.Json.{Fields, end}

abbrev pub a_config : SchedulerConfig ℤ
a_config = record {
  min_residency_seconds = pos 30_000;
  max_wait_seconds = pos 120_000;
  age_weight = pos 1000;
  depth_weight = pos 500;
  switch_cost_weight = pos 1000;
  max_concurrent_requests = 2;
  tick_interval_seconds = pos 250;
  backend_retry_seconds = pos 30_000;
}

-- Resident and idle, since the start.
abbrev pub chat : ModelState ℤ
chat = record {
  name = "chat";
  priority = pos 1000;
  depth = 0;
  oldest_enqueued_at = none;
  estimated_load_seconds = pos 20_000;
  resident = true;
  resident_since = some (pos 0);
  in_flight = 0;
  idle_since = some (pos 10_000);
  unavailable_until = none;
}

-- Two requests wait for it, the older since the tenth second.
abbrev pub code : ModelState ℤ
code = record {
  name = "code";
  priority = pos 1000;
  depth = 2;
  oldest_enqueued_at = some (pos 10_000);
  estimated_load_seconds = pos 20_000;
  resident = false;
  resident_since = none;
  in_flight = 0;
  idle_since = none;
  unavailable_until = none;
}

abbrev pub both : List (ModelState ℤ)
both = chat ∷ code ∷ []

abbrev pub a_snapshot : SchedulerSnapshot ℤ
a_snapshot = record { models = both; resident = some "chat"; draining = false; switching = false }

abbrev pub a_jobs_config : JobsConfig ℤ
a_jobs_config = record {
  enabled = true;
  lease_seconds = pos 60_000;
  result_ttl_seconds = pos 300_000;
  read_ttl_seconds = pos 30_000;
  sweep_interval_seconds = pos 5000;
  max_jobs = 1;
}

abbrev pub chat_config : ModelConfig ℤ
chat_config = record {
  name = "chat";
  served_model_name = ServedName.one "org/chat";
  backend = BackendKind.mock;
  priority = pos 1000;
  mock = record {
    load_seconds = pos 2000;
    unload_seconds = pos 1000;
    tokens_per_second = pos 50_000;
    first_token_seconds = pos 100;
    default_max_tokens = 64;
    fail_on_load_every_n = 0;
    crash_after_n_requests = 0;
  };
  vllm = record {
    base_url = "http://localhost:8000";
    health_path = "/health";
    manage_lifecycle = false;
    container_name = none;
    docker_socket = "/var/run/docker.sock";
    start_timeout_seconds = pos 600_000;
    ready_poll_seconds = pos 1000;
    stop_timeout_seconds = pos 30_000;
    connect_timeout_seconds = pos 5000;
    stream_stall_seconds = pos 120_000;
    estimated_load_seconds = pos 60_000;
    estimated_request_seconds = pos 10_000;
  };
}

abbrev pub code_config : ModelConfig ℤ
code_config = record chat_config { name = "code"; served_model_name = ServedName.unset }

abbrev pub an_app : AppConfig ℤ
an_app = record {
  server = record { host = "127.0.0.1"; port = 8080; log_level = "info" };
  scheduler = a_config;
  jobs = a_jobs_config;
  models = chat_config ∷ code_config ∷ [];
}

abbrev pub nothing_sent : Fields ℤ
nothing_sent = end

abbrev pub a_request : GenerationRequest ℤ
a_request = record {
  model = "chat";
  served_model = "org/chat";
  payload = nothing_sent;
  request_id = "r";
}

abbrev pub waiting_request : QueuedRequest ℤ
waiting_request = record {
  request = a_request;
  enqueued_at = pos 1000;
  events = [];
  cancelled = false;
  id = "r1";
  state = RequestState.queued;
  started_at = none;
  finished_at = none;
}
