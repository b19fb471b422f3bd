-- ===== src/Session/Closing.antt =====
-- Close, SetPhase and SetKind keep the registry in order.
use codespace_ssh_gateway.Shared.{
  ℕ, suc, ◌+◌, ◌-◌, ◌<◌, String, true, false, some, ◌≡◌, ◌≢◌, sym, ap, ap₂, ◌∙◌, arith, nat_eq,
  string_eq, eq_iff, length,
}
use codespace_ssh_gateway.Shared.Map.{get, del, get-put, get-del, length-del, del-Unique}
use codespace_ssh_gateway.Session.Counting.{in_env, count_env, count_env-del, count_env-cells}
use codespace_ssh_gateway.Session.Invariant.{Inv}
use codespace_ssh_gateway.Session.Manager.{
  Session, Manager, store, session_id, count_for, deregister,
}

module _ (p : ℕ) (s : Session) (m : Manager) (v : Inv m) (at : m.cells p ≡ some s)
    (flag : s.closed ≡ false) where
  here : get m.by_id s.info.id ≡ some p
  here = v.registered p s at flag

  -- No other entry points at the session.
  elsewhere :
      (id : String) (q : ℕ)
      → get (del m.by_id s.info.id) id ≡ some q
      → (get m.by_id id ≡ some q) × (q ≢ p)
  elsewhere id q e =
      let kept : get m.by_id id ≡ some q = ground (arith, get-del m.by_id s.info.id id) in
      let (s', there, _, same) = v.live id q kept in
      (
        kept,
        λ (b : q ≡ p).
            ground (arith, get-del m.by_id s.info.id id, eq_iff s.info.id id, there, same, at),
      )

  other : (q : ℕ) → q ≢ p → m.cells q ≡ store m.cells p (record s { closed = true }) q
  other q n = ground arith

  count-del :
      (env : String)
      → count_env m.cells env m.by_id
        ≡ in_env env (some s)
          + count_env (store m.cells p (record s { closed = true })) env (del m.by_id s.info.id)
  count-del env =
      count_env-del m.cells env m.by_id s.info.id p v.unique here
      ∙ ap₂ ◌+◌ (ap (in_env env) at) (
          count_env-cells m.cells (store m.cells p (record s { closed = true })) env
            (del m.by_id s.info.id) (del-Unique m.by_id s.info.id v.unique)
            (λ id q e. ap (in_env env) (other q (elsewhere id q e).1)))

  deregister-counted :
      (env : String)
      → count_for (deregister p s m) env
        ≡ count_env (deregister p s m).cells env (deregister p s m).by_id
  unfolding deregister count_for
  deregister-counted env = ground (
    arith,
    count-del env,
    count-del s.info.environment,
    v.counted env,
    v.counted s.info.environment,
    get-put m.per_env s.info.environment (count_for m s.info.environment - 1) env,
    get-del m.per_env s.info.environment env,
    eq_iff s.info.environment env,
    eq_iff s.info.environment s.info.environment,
  )

  -- The environment of an open session has a count.
  pub count-pos : 0 < count_for m s.info.environment
  count-pos = ground (
    arith,
    v.counted s.info.environment,
    count-del s.info.environment,
    eq_iff s.info.environment s.info.environment,
  )

  pub total-deregister : suc (length (deregister p s m).by_id) ≡ length m.by_id
  unfolding deregister
  total-deregister = length-del m.by_id s.info.id p v.unique here

  pub deregister-Inv : Inv (deregister p s m)
  unfolding deregister
  deregister-Inv = record {
    unique = del-Unique m.by_id s.info.id v.unique;
    allocated = λ q h. ground (arith, v.allocated q);
    live = λ id q e.
        let (kept, apart) = elsewhere id q e in
        let (s', there, flag', same) = v.live id q kept in
        (s', sym (other q apart) ∙ there, flag', same);
    registered = λ q t e c. ground (
      arith,
      v.registered q t,
      get-del m.by_id s.info.id t.info.id,
      eq_iff s.info.id t.info.id,
      here,
    );
    counted = deregister-counted;
    fresh = λ n h. ground (arith, get-del m.by_id s.info.id (session_id n), v.fresh n);
  }
