-- ===== src/Lifecycle/Phase.antt =====
-- core/lifecycle/phase.go
use codespace_ssh_gateway.Shared.{ℕ, String, Bool, ◌==◌, string_eq}
use codespace_ssh_gateway.Providers.Environment.{State}

pub data Phase : Type 0 where
  unknown stopped provisioning starting running connecting connected stopping : Phase
  provider_managed failed : Phase

-- `string(p)`
unfoldable pub phase_text : Phase → String
phase_text Phase.unknown = "UNKNOWN"
phase_text Phase.stopped = "STOPPED"
phase_text Phase.provisioning = "PROVISIONING"
phase_text Phase.starting = "STARTING"
phase_text Phase.running = "RUNNING"
phase_text Phase.connecting = "CONNECTING"
phase_text Phase.connected = "CONNECTED"
phase_text Phase.stopping = "STOPPING"
phase_text Phase.provider_managed = "IDLE/PROVIDER_MANAGED"
phase_text Phase.failed = "FAILED"

-- from == to
unfoldable pub same_phase : Phase → Phase → Bool
unfolding phase_text
same_phase p q = phase_text p == phase_text q

unfoldable pub phase_for_state : State → Phase
phase_for_state State.running = Phase.running
phase_for_state State.stopped = Phase.stopped
phase_for_state State.starting = Phase.starting
phase_for_state State.provisioning = Phase.provisioning
phase_for_state State.stopping = Phase.stopping
phase_for_state State.failed = Phase.failed
phase_for_state _ = Phase.unknown

-- The line for a waiting client, or the empty text.
unfoldable pub notice : Phase → String
notice Phase.provisioning = "codespace 不存在，正在创建…"
notice Phase.starting = "codespace 已停止，正在启动…"
notice Phase.stopping = "codespace 正在关机，等它结束后再启动…"
notice Phase.running = "codespace 已就绪"
notice Phase.connecting = "正在建立连接…"
notice Phase.failed = "准备 codespace 失败"
notice _ = ""

pub record Transition : Type 0 where
  pub from : Phase
  pub to : Phase
  pub at : ℕ
  pub reason : String

-- The cap of the log of one environment.
abbrev pub max_history : ℕ
max_history = 32
