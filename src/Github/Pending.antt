-- ===== src/Github/Pending.antt =====
-- providers/github/lifecycle.go: awaitNoPendingOperation and Start. The clock is a parameter, a function
-- of the contacts with the network so far.
use codespace_ssh_gateway.Shared.{
  ℕ, zero, suc, ◌+◌, ◌*◌, ◌≤◌, ◌<◌, String, ◌⁺◌, not, Option, none, some, List, ◌∷◌, ltb,
  if◌then◌else◌, ◌≡◌, refl, arith, ◌⊎◌, inl, inr, Bool-cases,
}
use codespace_ssh_gateway.Providers.Errors.{Failure, Result, ok, err}
use codespace_ssh_gateway.Lifecycle.World.{Ended, ended_error, second}
use codespace_ssh_gateway.Github.Client.{Contact, slept, Http}
use codespace_ssh_gateway.Github.Codespaces.{Codespace, Codec, get_codespace, start_codespace}

-- An answer, or none if the rounds have run out.
abbrev pub Waited : Type 0
Waited = Option (Option Failure) × List Contact

abbrev pub still_pending : String → Codespace → Failure
still_pending id cs = Failure.temporary_error (
    Failure.text
      ("codespace " ⁺ (id ⁺ (" still has a pending operation (" ⁺ (cs.pending_reason ⁺ ")")))))

module _ (h : Http) (codec : Codec) (now : List Contact → ℕ) where
  -- The select.
  abbrev pub paused : (List Contact → Waited) → Option Ended → List Contact → Waited
  paused again (some t) es = (some (some (ended_error t)), slept (5 * second) (some t) ∷ es)
  paused again none es = again (slept (5 * second) none ∷ es)

  unfoldable pub judged :
      (List Contact → Waited) → ℕ → String → Result Codespace × List Contact → Waited
  judged again deadline id (err e, es) = (some (some e), es)
  judged again deadline id (ok cs, es) =
      if not cs.pending_operation
      then (some none, es)
      else if ltb deadline (now es)
      then (some (some (still_pending id cs)), es)
      else paused again (h.sleep es (5 * second)) es

  -- The loop, for a number of rounds.
  unfoldable pub await_rounds : ℕ → ℕ → String → List Contact → Waited
  await_rounds zero deadline id es = (none, es)
  await_rounds (suc left) deadline id es =
      judged (await_rounds left deadline id) deadline id (get_codespace h codec id es)

  -- awaitNoPendingOperation
  unfoldable pub await_no_pending_operation : ℕ → String → List Contact → Waited
  await_no_pending_operation rounds id es = await_rounds rounds (now es + 120 * second) id es

  -- Start, from the answer of awaitNoPendingOperation.
  abbrev pub start_after : String → Waited → Waited
  start_after id (none, es) = (none, es)
  start_after id (some (some e), es) = (some (some e), es)
  start_after id (some none, es) = let r = start_codespace h codec id es in (some r.0, r.1)

  unfoldable pub start : ℕ → String → List Contact → Waited
  start rounds id es = start_after id (await_no_pending_operation rounds id es)

  abbrev pub Answers : Waited → Type 0
  Answers w = (a : Option Failure) × (w.0 ≡ some a)

module _ (h : Http) (codec : Codec) (now : List Contact → ℕ)
    (rests : (es : List Contact) (d : ℕ) → now es + d ≤ now (slept d none ∷ es))
    (requests : (id : String) (es : List Contact)
      → now es ≤ now (get_codespace h codec id es).1) where
  abbrev Later : ℕ → ℕ → String → List Contact → Type 0
  Later left deadline id es =
      (es' : List Contact)
      → now es + 5 * second ≤ now es'
      → Answers h codec now (await_rounds h codec now left deadline id es')

  paused-Answers :
      (left deadline : ℕ) (id : String) (es : List Contact) (o : Option Ended)
      → Later left deadline id es
      → Answers h codec now (paused h codec now (await_rounds h codec now left deadline id) o es)
  paused-Answers left deadline id es (some t) later = (_, refl)
  paused-Answers left deadline id es none later = later _ (rests es (5 * second))

  judged-Answers :
      (left deadline : ℕ) (id : String) (es : List Contact) (r : Result Codespace × List Contact)
      → now es ≤ now r.1
      → (deadline < now es) ⊎ Later left deadline id es
      → Answers h codec now
          (judged h codec now (await_rounds h codec now left deadline id) deadline id r)
  unfolding judged
  judged-Answers left deadline id es (err e, es₁) passed or = (_, refl)
  judged-Answers left deadline id es (ok cs, es₁) passed or =
      elim (Bool-cases cs.pending_operation) [
        | inr idle ↦ rw idle (_, refl)
        | inl busy ↦ rw busy (elim (Bool-cases (ltb deadline (now es₁))) [
          | inl over ↦ rw over (_, refl)
          | inr early ↦ rw early (elim or [
            | inl over ↦ absurd (ground (arith, early, over, passed))
            | inr later ↦
                paused-Answers left deadline id es₁ (h.sleep es₁ (5 * second))
                  (λ es' t. later es' (omega (arith, t, passed)))
          ])
        ])
      ]

  await_rounds-Answers :
      (k deadline : ℕ) (id : String) (es : List Contact)
      → deadline < now es + k * (5 * second)
      → Answers h codec now (await_rounds h codec now (suc k) deadline id es)
  unfolding await_rounds
  await_rounds-Answers zero deadline id es soon =
      judged-Answers zero deadline id es (get_codespace h codec id es) (requests id es)
        (inl (omega (arith, soon)))
  await_rounds-Answers (suc k) deadline id es soon =
      judged-Answers (suc k) deadline id es (get_codespace h codec id es) (requests id es)
        (inr (λ es' t. await_rounds-Answers k deadline id es' (omega (arith, soon, t))))

  start_after-Answers :
      (id : String) (w : Waited)
      → Answers h codec now w
      → Answers h codec now (start_after h codec now id w)
  start_after-Answers id (none, es) (a, e) = absurd (ground (arith, e))
  start_after-Answers id (some (some e), es) a = (_, refl)
  start_after-Answers id (some none, es) a = (_, refl)

  -- If the clock does not go back during a request and passes by as long as a pause lasts, 26 rounds
  -- of the wait for a pending operation are enough, whatever GitHub and the context answer: Start
  -- answers.
  pub start-Answers :
      (id : String) (es : List Contact) → Answers h codec now (start h codec now 26 id es)
  unfolding start await_no_pending_operation
  start-Answers id es =
      let a = await_rounds-Answers 25 (now es + 120 * second) id es (omega arith) in
      start_after-Answers id (await_rounds h codec now 26 (now es + 120 * second) id es) a
