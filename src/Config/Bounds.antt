-- ===== src/Config/Bounds.antt =====
-- core/config/load.go, validate: what a configuration that it accepts satisfies.
use codespace_ssh_gateway.Shared.{
  ℕ, suc, String, Bool, true, false, ◌==◌, string_eq, ◌≡◌, refl, sym, arith, inl, inr, subst,
  Bool-cases,
}
use codespace_ssh_gateway.Shared.Integers.{ℤ, pos, negative, positive, below}
use codespace_ssh_gateway.Providers.Errors.{Result, ok, err}
use codespace_ssh_gateway.Config.{Config, SshConfig, default_ssh, default_lifecycle, seconds}
use codespace_ssh_gateway.Config.Validate.{
  split_host_port, parse_log_level, min_poll_interval, or_if_not_positive, with_listen,
  with_handshake, floored, with_durations, check_level, validate_lifecycle, validate_limits,
  validate_address, validate,
}

abbrev pub is_ok {ℓ} : {A : Type ℓ} → Result A → Bool
is_ok (ok a) = true
is_ok (err e) = false

pub record Valid {Node : Type 0} (c : Config Node) : Type 0 where
  pub provider : (c.provider == "") ≡ false
  pub listen : (c.ssh.listen == "") ≡ false
  pub address : is_ok (split_host_port c.ssh.listen) ≡ true
  pub handshake : positive c.ssh.handshake_timeout ≡ true
  pub grace : negative c.ssh.shutdown_grace ≡ false
  pub sessions : negative c.ssh.max_sessions ≡ false
  pub per_env : negative c.ssh.max_sessions_per_env ≡ false
  pub start : positive c.lifecycle.start_timeout ≡ true
  pub create : positive c.lifecycle.create_timeout ≡ true
  pub connect : positive c.lifecycle.connect_timeout ≡ true
  pub poll : below c.lifecycle.status_poll_interval min_poll_interval ≡ false
  pub retries : negative c.lifecycle.connect_retries ≡ false
  pub level : is_ok (parse_log_level c.log.level) ≡ true

or_positive : (z : ℤ) (n : ℕ) → positive (or_if_not_positive z (pos (suc n))) ≡ true
or_positive z n = ground arith

floored_lem : (z : ℤ) → below (floored z (seconds 2)) min_poll_interval ≡ false
unfolding floored
floored_lem z = ground arith

floored_kept : (z d : ℤ) → below z min_poll_interval ≡ false → floored z d ≡ z
unfolding floored
floored_kept z d h = ground arith

listen_filled : (c : SshConfig) → ((with_listen c).listen == "") ≡ false
unfolding with_listen default_ssh
listen_filled c = elim (Bool-cases (c.listen == "")) [ inl e ↦ rw e refl | inr e ↦ rw e e ]

listen_kept : (c : SshConfig) → (c.listen == "") ≡ false → with_listen c ≡ c
unfolding with_listen
listen_kept c h = rw h refl

handshake_kept : (c : SshConfig) → positive c.handshake_timeout ≡ true → with_handshake c ≡ c
unfolding with_handshake
handshake_kept c h = rw h refl

check_level_kept :
    {Node : Type 0} (c : Config Node) (r : Result String) → is_ok r ≡ true → check_level c r ≡ ok c
unfolding check_level
check_level_kept c (ok s) h = refl
check_level_kept c (err e) h = absurd (ground (arith, h))

module _ {Node : Type 0} where
  -- The configuration with what validate fills in.
  unfoldable pub filled : Config Node → Config Node
  filled c = record c {
    ssh = with_handshake (with_listen c.ssh);
    lifecycle = with_durations c.lifecycle;
  }

  check_level_lem :
      (c c' : Config Node) (r : Result String)
      → check_level c r ≡ ok c'
      → (c ≡ c') × (is_ok r ≡ true)
  unfolding check_level
  check_level_lem c c' (err e) h = absurd (ground (arith, h))
  check_level_lem c c' (ok s) h = (ground (arith, h), refl)

  validate_lifecycle_lem :
      (c c' : Config Node)
      → validate_lifecycle c ≡ ok c'
      → (record c { lifecycle = with_durations c.lifecycle } ≡ c')
        × (negative c.lifecycle.connect_retries ≡ false)
        × (is_ok (parse_log_level c.log.level) ≡ true)
  unfolding validate_lifecycle
  validate_lifecycle_lem c c' h = elim (Bool-cases (negative c.lifecycle.connect_retries)) [
    | inl bad ↦ absurd (ground (arith, rw bad at h))
    | inr good ↦
        let r = check_level_lem _ c' (parse_log_level c.log.level) (rw good at h) in
        (r.0, good, r.1)
  ]

  validate_limits_lem :
      (c c' : Config Node)
      → validate_limits c ≡ ok c'
      → (validate_lifecycle c ≡ ok c')
        × (negative c.ssh.shutdown_grace ≡ false)
        × (negative c.ssh.max_sessions ≡ false)
        × (negative c.ssh.max_sessions_per_env ≡ false)
  unfolding validate_limits
  validate_limits_lem c c' h = ground (arith, h)

  validate_address_lem :
      (c c' : Config Node) (r : Result (String × String))
      → validate_address c r ≡ ok c'
      → (validate_limits (record c { ssh = with_handshake c.ssh }) ≡ ok c') × (is_ok r ≡ true)
  unfolding validate_address
  validate_address_lem c c' (err e) h = absurd (ground (arith, h))
  validate_address_lem c c' (ok r) h = (h, refl)

  validate_lem :
      (c c' : Config Node)
      → validate c ≡ ok c'
      → (validate_address
            (record c { ssh = with_listen c.ssh })
            (split_host_port (with_listen c.ssh).listen)
          ≡ ok c')
        × ((c.provider == "") ≡ false)
  unfolding validate
  validate_lem c c' h = ground (arith, h)

  -- validate accepts a configuration only with every bound that the gateway relies on in place, and
  -- changes nothing but what it fills in: an empty address, timeouts that are not positive, and an
  -- interval of polling that is too short.
  pub validate-Valid : (c c' : Config Node) → validate c ≡ ok c' → Valid c' × (c' ≡ filled c)
  unfolding filled with_handshake with_listen with_durations default_lifecycle
  validate-Valid c c' h =
      let p = validate_lem c c' h in
      let a = validate_address_lem _ c' (split_host_port (with_listen c.ssh).listen) p.0 in
      let s = validate_limits_lem _ c' a.0 in
      let l = validate_lifecycle_lem _ c' s.0 in
      (
        subst Valid l.0 (record {
          provider = p.1;
          listen = listen_filled c.ssh;
          address = a.1;
          handshake = or_positive c.ssh.handshake_timeout _;
          grace = s.1;
          sessions = s.2;
          per_env = s.3;
          start = or_positive c.lifecycle.start_timeout _;
          create = or_positive c.lifecycle.create_timeout _;
          connect = or_positive c.lifecycle.connect_timeout _;
          poll = floored_lem c.lifecycle.status_poll_interval;
          retries = l.1;
          level = l.2;
        }),
        sym l.0,
      )

  durations_kept : (c : Config Node) → Valid c → with_durations c.lifecycle ≡ c.lifecycle
  unfolding with_durations
  durations_kept c v =
      rw (v.start, v.create, v.connect, floored_kept c.lifecycle.status_poll_interval _ v.poll) refl

  address_kept :
      (c : Config Node) (r : Result (String × String))
      → Valid c
      → is_ok r ≡ true
      → validate_address c r ≡ ok c
  unfolding validate_address validate_limits validate_lifecycle
  address_kept c (err e) v h = absurd (ground (arith, h))
  address_kept c (ok r) v h =
      rw
        (
          handshake_kept c.ssh v.handshake,
          v.grace,
          v.sessions,
          v.per_env,
          v.retries,
          durations_kept c v,
        )
        (check_level_kept c (parse_log_level c.log.level) v.level)

  -- A configuration that satisfies the bounds is accepted as it is.
  pub validate_of_Valid : (c : Config Node) → Valid c → validate c ≡ ok c
  unfolding validate
  validate_of_Valid c v =
      rw (listen_kept c.ssh v.listen, v.provider)
        (address_kept c (split_host_port c.ssh.listen) v v.address)

  -- What validate accepts, it accepts again and leaves as it is.
  pub validate_twice : (c c' : Config Node) → validate c ≡ ok c' → validate c' ≡ ok c'
  validate_twice c c' h = validate_of_Valid c' (validate-Valid c c' h).0
