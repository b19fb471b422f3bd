-- ===== src/Lifecycle/History.antt =====
-- The transition log of each environment, under any interleaving of the manager's methods.
use codespace_ssh_gateway.Shared.{
  ℕ, zero, suc, ◌-◌, ◌≤◌, ◌<◌, String, true, false, some, List, [], ◌∷◌, ◌++◌, ◌≡◌, ◌≢◌, refl, sym,
  ◌∙◌, ap, eq_refl, inl, inr, arith, ◌==◌, string_eq, eq_iff, ltb, length, length-drop, drop,
  Bool-cases, Option-cases, subst, if◌then◌else◌,
}
use codespace_ssh_gateway.Shared.Map.{get, put, get-put}
use codespace_ssh_gateway.Providers.Environment.{Environment}
use codespace_ssh_gateway.Providers.Errors.{Failure}
use codespace_ssh_gateway.Lifecycle.Phase.{Phase, phase_text, Transition, same_phase, max_history}
use codespace_ssh_gateway.Lifecycle.States.{
  EnvState, States, new_state, state_locked, trim, transition, enter, move, set_phase, phase_of,
  observe, resolve, record_err, bump, add_start, add_create, add_connect,
}

-- Each transition changes the phase and starts where the one before it ended; the last one ends at
-- `p`. A log is empty only before the first transition.
pub Linked : List Transition → Phase → Type 0
Linked [] p = p ≡ Phase.unknown
Linked (t ∷ []) p = (t.from ≢ t.to) × (t.to ≡ p)
Linked (t ∷ u ∷ r) p = (t.from ≢ t.to) × (t.to ≡ u.from) × Linked (u ∷ r) p

pub record IsLog (st : EnvState) : Type 0 where
  pub linked : Linked st.history st.phase
  pub bounded : length st.history ≤ max_history

-- The phases are told apart by their names.
phase_named : String → Phase
phase_named s =
    if s == "UNKNOWN"
    then Phase.unknown
    else if s == "STOPPED"
    then Phase.stopped
    else if s == "PROVISIONING"
    then Phase.provisioning
    else if s == "STARTING"
    then Phase.starting
    else if s == "RUNNING"
    then Phase.running
    else if s == "CONNECTING"
    then Phase.connecting
    else if s == "CONNECTED"
    then Phase.connected
    else if s == "STOPPING"
    then Phase.stopping
    else if s == "IDLE/PROVIDER_MANAGED"
    then Phase.provider_managed
    else Phase.failed

phase_named-text : (p : Phase) → phase_named (phase_text p) ≡ p
unfolding phase_named phase_text
phase_named-text Phase.unknown = refl
phase_named-text Phase.stopped = refl
phase_named-text Phase.provisioning = refl
phase_named-text Phase.starting = refl
phase_named-text Phase.running = refl
phase_named-text Phase.connecting = refl
phase_named-text Phase.connected = refl
phase_named-text Phase.stopping = refl
phase_named-text Phase.provider_managed = refl
phase_named-text Phase.failed = refl

pub same_phase→eq : (p q : Phase) → same_phase p q ≡ true → p ≡ q
unfolding same_phase
same_phase→eq p q h =
    sym (phase_named-text p)
    ∙ ap phase_named ((eq_iff (phase_text p) (phase_text q)).0 h)
    ∙ phase_named-text q

pub same_phase_refl : (p : Phase) → same_phase p p ≡ true
unfolding same_phase
same_phase_refl p = eq_refl (phase_text p)

Linked-append :
    (h : List Transition) (p : Phase) (t : Transition)
    → Linked h p
    → t.from ≡ p
    → t.from ≢ t.to
    → Linked (h ++ t ∷ []) t.to
unfolding Linked
Linked-append [] p t l e n = (n, refl)
Linked-append (u ∷ []) p t l e n = (l.0, l.1 ∙ sym e, (n, refl))
Linked-append (u ∷ v ∷ r) p t l e n = (l.0, l.1, Linked-append (v ∷ r) p t l.2 e n)

Linked-drop :
    (n : ℕ) (h : List Transition) (p : Phase) → n < length h → Linked h p → Linked (drop n h) p
unfolding Linked
Linked-drop zero h p lt l = l
Linked-drop (suc n) [] p lt l = absurd (omega arith)
Linked-drop (suc n) (t ∷ []) p lt l = absurd (omega arith)
Linked-drop (suc n) (t ∷ u ∷ r) p lt l = Linked-drop n (u ∷ r) p (omega arith) l.2

trim-Linked : (h : List Transition) (p : Phase) → Linked h p → Linked (trim h) p
unfolding trim
trim-Linked h p l = elim (Bool-cases (ltb max_history (length h))) [
  | inl long ↦ rw long (Linked-drop (length h - max_history) h p (ground arith) l)
  | inr short ↦ rw short l
]

length-trim : (h : List Transition) → length (trim h) ≤ max_history
unfolding trim
length-trim h = ground (arith, length-drop (length h - max_history) h)

new_state-IsLog : (now : ℕ) → IsLog (new_state now)
unfolding new_state Linked
new_state-IsLog now = record { linked = refl; bounded = omega arith }

enter-IsLog :
    (now : ℕ) (to : Phase) (reason : String) (st : EnvState)
    → same_phase st.phase to ≡ false
    → IsLog st
    → IsLog (enter now to reason st)
unfolding enter
enter-IsLog now to reason st change v = record {
  linked = trim-Linked (st.history ++ transition now to reason st ∷ []) to (
      Linked-append st.history st.phase (transition now to reason st) v.linked refl
        (λ e. cc (same_phase_refl to)));
  bounded = length-trim (st.history ++ transition now to reason st ∷ []);
}

move-IsLog :
    (now : ℕ) (to : Phase) (reason : String) (st : EnvState)
    → IsLog st
    → IsLog (move now to reason st)
unfolding move
move-IsLog now to reason st v = elim (Bool-cases (same_phase st.phase to)) [
  | inl same ↦ simp same v
  | inr change ↦ simp change (enter-IsLog now to reason st change v)
]

-- What writes neither the phase nor the history.
relabel-IsLog : (st t : EnvState) → t.phase ≡ st.phase → t.history ≡ st.history → IsLog st → IsLog t
relabel-IsLog st t p h v = record { linked = rw (p, h) v.linked; bounded = rw h v.bounded }

-- One locked section of the manager, at the time that it reads.
pub data Section : Type 0 where
  sets : ℕ → String → Phase → String → Section
  reads : ℕ → String → Section
  observes : ℕ → Environment → Section
  resolves : ℕ → String → Environment → Section
  records : ℕ → String → Failure → Section
  starts creates connects : ℕ → String → Section

unfoldable pub perform : States → Section → States
perform m (sets now env to reason) = (set_phase now env to reason m).0
perform m (reads now env) = (phase_of now env m).1
perform m (observes now env) = observe now env m
perform m (resolves now handle env) = resolve now handle env m
perform m (records now env e) = record_err now env e m
perform m (Section.starts now env) = bump now env add_start m
perform m (Section.creates now env) = bump now env add_create m
perform m (Section.connects now env) = bump now env add_connect m

unfoldable pub perform_all : States → List Section → States
perform_all m [] = m
perform_all m (s ∷ ss) = perform_all (perform m s) ss

pub record AreLogs (m : States) : Type 0 where
  pub at : (env : String) (st : EnvState) → get m env ≡ some st → IsLog st

locked-IsLog : (now : ℕ) (env : String) (m : States) → AreLogs m → IsLog (state_locked now env m)
unfolding state_locked
locked-IsLog now env m v = elim (Option-cases (get m env)) [
  | inl e ↦ rw e (new_state-IsLog now)
  | inr (st, e) ↦ rw e (v.at env st e)
]

put-AreLogs :
    (m : States) (env : String) (st : EnvState) → IsLog st → AreLogs m → AreLogs (put m env st)
put-AreLogs m env st l v = record {
  at = λ j t e. elim (Bool-cases (env == j)) [
    | inl hit ↦ subst IsLog (ground (arith, get-put m env st j)) l
    | inr miss ↦ v.at j t (ground (arith, get-put m env st j))
  ];
}

-- Such a write under a name of the manager.
relabel-AreLogs :
    (now : ℕ) (env : String) (m : States) (t : EnvState)
    → t.phase ≡ (state_locked now env m).phase
    → t.history ≡ (state_locked now env m).history
    → AreLogs m
    → AreLogs (put m env t)
relabel-AreLogs now env m t p h v =
    put-AreLogs m env t (relabel-IsLog (state_locked now env m) t p h (locked-IsLog now env m v)) v

perform-AreLogs : (m : States) (s : Section) → AreLogs m → AreLogs (perform m s)
unfolding perform set_phase phase_of observe resolve record_err bump
perform-AreLogs m (sets now env to reason) v =
    put-AreLogs m env (move now to reason (state_locked now env m))
      (move-IsLog now to reason (state_locked now env m) (locked-IsLog now env m v)) v
perform-AreLogs m (reads now env) v = relabel-AreLogs now env m _ refl refl v
perform-AreLogs m (observes now env) v = elim (Bool-cases (env.id == "")) [
  | inl empty ↦ rw empty v
  | inr named ↦ rw named (relabel-AreLogs now env.id m _ refl refl v)
]
perform-AreLogs m (resolves now handle env) v = elim (Bool-cases (env.id == "")) [
  | inl empty ↦ rw empty v
  | inr named ↦ rw named (relabel-AreLogs now handle m _ refl refl v)
]
perform-AreLogs m (records now env e) v = relabel-AreLogs now env m _ refl refl v
perform-AreLogs m (Section.starts now env) v = relabel-AreLogs now env m _ refl refl v
perform-AreLogs m (Section.creates now env) v = relabel-AreLogs now env m _ refl refl v
perform-AreLogs m (Section.connects now env) v = relabel-AreLogs now env m _ refl refl v

perform_all_keeps : (m : States) (ss : List Section) → AreLogs m → AreLogs (perform_all m ss)
unfolding perform_all
perform_all_keeps m [] v = v
perform_all_keeps m (s ∷ ss) v = perform_all_keeps (perform m s) ss (perform-AreLogs m s v)

-- However the locked sections of any number of goroutines interleave, from no states at all: every
-- environment's log has at most `max_history` entries, each of which changes the phase and starts
-- where the one before it ended, and the last ends at the environment's phase.
pub perform_all-AreLogs : (ss : List Section) → AreLogs (perform_all [] ss)
unfolding get
perform_all-AreLogs ss = perform_all_keeps [] ss (record { at = λ env st e. ground (arith, e) })
