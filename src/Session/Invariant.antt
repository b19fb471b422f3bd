-- ===== src/Session/Invariant.antt =====
-- The registry agrees with itself: tables, counters and session flags.
use text.Mathlib.TextLemmas.{append_cancel_left}
use codespace_ssh_gateway.Shared.{
  suc, length, ℕ, ◌+◌, ◌≤◌, ◌<◌, String, Bool, false, none, some, ◌≡◌, refl, sym, ap, inl, inr,
  arith, ◌==◌, nat_eq, string_eq, eq_iff, Bool-cases, decimal-injective,
}
use codespace_ssh_gateway.Shared.Map.{length-put_fresh, get, get-put, Unique, put-Unique}
use codespace_ssh_gateway.Session.Counting.{
  in_env, count_env, count_env-nil, count_env-put, count_env-cells,
}
use codespace_ssh_gateway.Session.Manager.{
  Info, Session, Manager, store, session_id, count_for, opened, insert, new_manager, set_hooks,
}

pub record Inv (m : Manager) : Type 0 where
  pub unique : Unique m.by_id
  pub allocated : (p : ℕ) → m.next ≤ p → m.cells p ≡ none
  -- a registered session is allocated, open, and stands under its own id
  pub live :
      (id : String) (p : ℕ)
      → get m.by_id id ≡ some p
      → (s : Session) × (m.cells p ≡ some s) × (s.closed ≡ false) × (s.info.id ≡ id)
  -- an open session is registered
  pub registered :
      (p : ℕ) (s : Session) → m.cells p ≡ some s → s.closed ≡ false → get m.by_id s.info.id ≡ some p
  pub counted : (env : String) → count_for m env ≡ count_env m.cells env m.by_id
  pub fresh : (n : ℕ) → m.seq < n → get m.by_id (session_id n) ≡ none

pub session_id-injective : (a b : ℕ) → session_id a ≡ session_id b → a ≡ b
unfolding session_id
session_id-injective a b e = decimal-injective a b (append_cancel_left "s" _ _ e)

pub new_manager-Inv : (a b : ℕ) → Inv (new_manager a b)
unfolding new_manager get count_for
new_manager-Inv a b = record {
  unique = tt;
  allocated = λ p h. refl;
  live = λ id p e. ground arith;
  registered = λ p s e c. ground arith;
  counted = λ env. sym (count_env-nil _ env);
  fresh = λ n h. refl;
}

pub set_hooks-Inv : (m : Manager) (f l : Bool) → Inv m → Inv (set_hooks m f l)
unfolding set_hooks count_for
set_hooks-Inv m f l v = record {
  unique = v.unique;
  allocated = v.allocated;
  live = v.live;
  registered = v.registered;
  counted = v.counted;
  fresh = v.fresh;
}

module _ (now k : ℕ) (info : Info) (m : Manager) (v : Inv m) (new : m.seq < k) where
  -- The table points below `next`, so it does not see the new cell.
  below_next : (id : String) (p : ℕ) → get m.by_id id ≡ some p → p < m.next
  below_next id p e = ground (arith, v.allocated p, v.live id p e)

  id_fresh : get m.by_id (session_id k) ≡ none
  id_fresh = v.fresh k new

  old_cell :
      (id : String) (p : ℕ)
      → get m.by_id id ≡ some p
      → m.cells p ≡ store m.cells m.next (opened now info k) p
  old_cell id p e = ground (arith, below_next id p e)

  insert-counted :
      (env : String)
      → count_for (insert k now info m) env
        ≡ count_env (insert k now info m).cells env (insert k now info m).by_id
  unfolding insert count_for opened
  insert-counted env = ground (
    arith,
    count_env-put (store m.cells m.next (opened now info k)) env m.by_id (session_id k) m.next
        id_fresh,
    count_env-cells m.cells (store m.cells m.next (opened now info k)) env m.by_id v.unique
        (λ id p e. ap (in_env env) (old_cell id p e)),
    v.counted env,
    get-put m.per_env info.environment (count_for m info.environment + 1) env,
    eq_iff info.environment env,
  )

  insert-live :
      (id : String) (p : ℕ)
      → get (insert k now info m).by_id id ≡ some p
      → (s : Session) × ((insert k now info m).cells p ≡ some s)
        × (s.closed ≡ false)
        × (s.info.id ≡ id)
  unfolding insert opened
  insert-live id p e = elim (Bool-cases (session_id k == id)) [
    | inl hit ↦ (
      opened now info k,
      ground (arith, get-put m.by_id (session_id k) m.next id),
      refl,
      (eq_iff (session_id k) id).0 hit,
    )
    | inr miss ↦
        let old : get m.by_id id ≡ some p =
          ground (arith, get-put m.by_id (session_id k) m.next id) in
        let (s, at, flag, same) = v.live id p old in
        (s, ground (arith, below_next id p old), flag, same)
  ]

  pub total-insert : length (insert k now info m).by_id ≡ suc (length m.by_id)
  unfolding insert
  total-insert = length-put_fresh m.by_id (session_id k) m.next id_fresh

  pub insert-Inv : Inv (insert k now info m)
  unfolding insert opened
  insert-Inv = record {
    unique = put-Unique m.by_id _ m.next v.unique;
    allocated = λ p h. ground (arith, v.allocated p);
    live = insert-live;
    registered = λ p s e c. ground (
      arith,
      get-put m.by_id (session_id k) m.next s.info.id,
      eq_iff (session_id k) s.info.id,
      v.registered p s,
      v.allocated p,
      id_fresh,
    );
    counted = insert-counted;
    fresh = λ n h. ground (
      arith,
      get-put m.by_id (session_id k) m.next (session_id n),
      eq_iff (session_id k) (session_id n),
      session_id-injective k n,
      v.fresh n,
    );
  }
