-- ===== src/Gateway/Resolve.antt =====
-- core/gateway/backend.go: ResolveEnvironment and userFacing.
use codespace_ssh_gateway.Shared.{
  String, ◌⁺◌, ◌||◌, Option, none, some, List, [], ◌∷◌, ◌==◌, string_eq, if◌then◌else◌,
}
use codespace_ssh_gateway.Providers.Environment.{Environment}
use codespace_ssh_gateway.Providers.Errors.{
  Failure, Sentinel, Result, ok, err, is, quoted, error_text,
}
use codespace_ssh_gateway.Lifecycle.World.{Oracle, M, pure, ◌>>=◌, call_list}
use codespace_ssh_gateway.Gateway.Names.{trim_space, valid_environment_name}
use codespace_ssh_gateway.Gateway.Redact.{redact}

abbrev pub default_environment_name : String
default_environment_name = "codespace"

-- strings.Join(names, ", ")
unfoldable pub joined_ids : List Environment → String
joined_ids [] = ""
joined_ids (env ∷ []) = env.id
joined_ids (env ∷ env' ∷ envs) = env.id ⁺ (", " ⁺ joined_ids (env' ∷ envs))

module _ (o : Oracle) where
  -- The switch on the environments of the account.
  unfoldable pub pick : Result (List Environment) → Result String
  pick (err e) = err (Failure.wrap "没有配置目标 codespace，列举也失败了：" "" e)
  pick (ok []) =
      if o.capabilities.create
      then ok default_environment_name
      else err (
          Failure.text (
            "这个账号还没有 codespace：先去 github.com/codespaces 建一个，"
            ⁺ "或者设置 github.create.repository 让 gateway 自动创建"))
  pick (ok (env ∷ [])) = ok env.id
  pick (ok (env ∷ env' ∷ envs)) = err (
      Failure.text (
        "有多个 codespace（"
        ⁺ (joined_ids (env ∷ env' ∷ envs)
            ⁺ ("）：请设置 github.codespace，" ⁺ "或者用 root+<名字>@gateway 连接"))))

  abbrev pub hinted : String → Option Failure → Result String
  hinted hint none = ok hint
  hinted hint (some e) = err e

  -- ResolveEnvironment, with the provider's default environment
  unfoldable pub resolve_environment : String → String → M (Result String)
  resolve_environment default raw =
      let hint = trim_space raw in
      if hint == ""
      then (if default == "" then call_list o >>= (λ r. pure (pick r)) else pure (ok default))
      else pure (hinted hint (valid_environment_name hint))

  -- userFacing
  unfoldable pub user_facing : List String → String → Failure → Failure
  user_facing secrets handle e =
      let msg = redact secrets (error_text e) in
      if is e Sentinel.auth
      then Failure.text ("gateway 无法通过 " ⁺ (o.name ⁺ (" 认证：" ⁺ msg)))
      else if is e Sentinel.not_found
      then Failure.text ("codespace " ⁺ (quoted handle ⁺ (" 不存在，也无法创建：" ⁺ msg)))
      else if is e Sentinel.deadline_exceeded
      then Failure.text ("准备 codespace " ⁺ (quoted handle ⁺ (" 超时：" ⁺ msg)))
      else if is e Sentinel.canceled
      then Failure.text ("准备 codespace " ⁺ (quoted handle ⁺ (" 被取消：" ⁺ msg)))
      else if is e Sentinel.too_many_sessions || is e Sentinel.too_many_sessions_for_env
      then e
      else Failure.text msg
