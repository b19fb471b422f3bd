-- ===== src/Gateway/Access.antt =====
-- core/gateway/gateway.go with core/config and ssh/auth.go: what a configuration that was loaded gives
-- the parts that New builds.
use codespace_ssh_gateway.Shared.{
  String, Bool, true, false, ◌||◌, string_eq, ◌≡◌, refl, sym, ◌∙◌, arith,
}
use codespace_ssh_gateway.Shared.Map.{Map}
use codespace_ssh_gateway.Shared.Integers.{ℤ, positive, below}
use codespace_ssh_gateway.Providers.Errors.{Result, ok, err}
use codespace_ssh_gateway.Gateway.Wiring.{
  lowers_to, trim_brackets, loopback_host, of_host, loopback_listen, auth_config,
  lifecycle_settings,
}
use codespace_ssh_gateway.Lifecycle.Defaults.{with_defaults}
use codespace_ssh_gateway.Config.{Config}
use codespace_ssh_gateway.Config.Paths.{Surroundings}
use codespace_ssh_gateway.Config.Validate.{split_host_port, min_poll_interval}
use codespace_ssh_gateway.Config.Load.{
  Yaml, load, load_file, parsed, finished, located, with_warning, with_state_dir,
}
use codespace_ssh_gateway.Config.Bounds.{Valid, validate-Valid}
use codespace_ssh_gateway.Ssh.Auth.{
  Authorizer, KeyLine, FileRead, contents, missing, unreadable, new_authorizer,
}
use codespace_ssh_gateway.Ssh.Auth.Checking.{nothing, authenticate}
use codespace_ssh_gateway.Ssh.Auth.Policy.{accepted, is_nil, presented, lines_of}
use codespace_ssh_gateway.Ssh.Auth.Admits.{authenticate-new_authorizer}

positive_enough : (z : ℤ) → below z min_poll_interval ≡ false → positive z ≡ true
positive_enough z h = ground (arith, h)

module _ {Node : Type 0} where
  settings_kept :
      (c : Config Node) → Valid c → with_defaults (lifecycle_settings c) ≡ lifecycle_settings c
  unfolding with_defaults lifecycle_settings
  settings_kept c v =
      rw
        (
          v.start,
          v.create,
          v.connect,
          positive_enough c.lifecycle.status_poll_interval v.poll,
          v.retries,
        )
        refl

  module _ (yaml : Yaml Node) (s : Surroundings) (perm_warning : String → String) where
    located_lem :
        (path : String) (r : Result (Config Node)) (c : Config Node)
        → located yaml s perm_warning path r ≡ ok c
        → r ≡ ok c
    located_lem path (ok c₁) c h = h
    located_lem path (err e) c h = absurd (ground (arith, h))

    finished-Valid :
        (path : String) (r : Result (Config Node)) (c : Config Node)
        → finished yaml s perm_warning path r ≡ ok c
        → Valid c
    finished-Valid path (err e) c h = absurd (ground (arith, h))
    finished-Valid path (ok c₁) c h =
        (validate-Valid
          (with_warning yaml s perm_warning (perm_warning path)
            (with_state_dir yaml s perm_warning c₁))
          c (located_lem path _ c h)).0

    parsed-Valid :
        (path : String) (r : Result (Map Node)) (c : Config Node)
        → parsed yaml s perm_warning path r ≡ ok c
        → Valid c
    parsed-Valid path (err e) c h = absurd (ground (arith, h))
    parsed-Valid path (ok top) c h = finished-Valid path _ c h

    load_file-Valid :
        (path : String) (file : FileRead) (c : Config Node)
        → load_file yaml s perm_warning path file ≡ ok c
        → Valid c
    unfolding load_file
    load_file-Valid path missing c h = absurd (ground (arith, h))
    load_file-Valid path (unreadable e) c h = absurd (ground (arith, h))
    load_file-Valid path (contents raw) c h = parsed-Valid path (yaml.unmarshal raw) c h

    -- Load gives only configurations that satisfy the bounds, and those are so that the lifecycle
    -- manager replaces none of the durations it is given by a default of its own.
    pub load-Valid :
        (read_file : String → FileRead) (path : String) (c : Config Node)
        → load yaml s perm_warning read_file path ≡ ok c
        → Valid c × (with_defaults (lifecycle_settings c) ≡ lifecycle_settings c)
    unfolding load
    load-Valid read_file path c h = let v = load_file-Valid _ _ c h in (v, settings_kept c v)

of_host_lem :
    (loopback_ip : String → Bool) (r : Result (String × String))
    → of_host loopback_ip r ≡ true
    → (host : String) × (port : String) × (r ≡ ok (host, port))
      × ((lowers_to host "localhost" || loopback_ip (trim_brackets host)) ≡ true)
unfolding loopback_host
of_host_lem loopback_ip (err e) h = absurd (ground (arith, h))
of_host_lem loopback_ip (ok (host, port)) h = (host, port, refl, ground (arith, h))

module _ {Node : Type 0} (loopback_ip : String → Bool) (parse_key : String → Result KeyLine)
    (fingerprint : String → String) where
  -- A client that shows nothing is let in only by a gateway whose address has the host localhost or
  -- a loopback address, and that has neither passwords nor a configured key.
  pub authenticate_nothing_lem :
      (s : Surroundings) (c : Config Node) (file : FileRead) (random : Result String)
      (a : Authorizer)
      → new_authorizer parse_key (auth_config loopback_ip s c) file random ≡ ok a
      → (raw : String) → accepted (authenticate fingerprint a raw nothing) ≡ true
      → (host : String) × (port : String) × (split_host_port c.ssh.listen ≡ ok (host, port))
        × ((lowers_to host "localhost" || loopback_ip (trim_brackets host)) ≡ true)
        × (c.ssh.password_auth ≡ false)
        × (is_nil (lines_of parse_key (auth_config loopback_ip s c) file) ≡ true)
  unfolding presented auth_config loopback_listen
  authenticate_nothing_lem s c file random a h raw y =
      let cfg = auth_config loopback_ip s c in
      let e =
        sym (authenticate-new_authorizer parse_key fingerprint cfg file random a h raw nothing)
        ∙ y in
      let l = of_host_lem loopback_ip (split_host_port c.ssh.listen) (ground (arith, e)) in
      (l.0, l.1, l.2, l.3, ground (arith, e), ground (arith, e))
