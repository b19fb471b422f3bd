-- ===== src/Lifecycle/Halting.antt =====
-- core/lifecycle/ensure.go: that a run ends, once its context does.
pub mod Calls
pub mod Parts
pub mod Answers
pub mod Connects
use codespace_ssh_gateway.Shared.{
  dec_le, ℕ, zero, suc, ◌+◌, ◌≤◌, ◌<◌, String, Bool, true, false, Option, none, some, List, [], ◌∷◌,
  ◌≡◌, refl, arith, if◌then◌else◌,
}
use codespace_ssh_gateway.Lifecycle.World.{
  Oracle, World, M, Event, paused, Pause, Ended, pure, ◌>>=◌, ◌>>◌, continue, wait,
}

-- The polls of waitFor so far.
unfoldable pub polls : List Event → ℕ
polls [] = 0
polls (paused Pause.poll t ∷ es) = suc (polls es)
polls (_ ∷ es) = polls es

-- A context that ends after at most `n` polls, as one with a timeout does.
abbrev pub Expires : Oracle → ℕ → Type 0
Expires o n = (es : List Event) → n ≤ polls es → ¬ (o.pause es Pause.poll ≡ none)

abbrev pub Goes : {A : Type 0} → ℕ → Option (A × World) → Type 0
Goes k none = ⊥
Goes k (some (a, w)) = k ≤ polls w.trace

-- After at least `k` polls, `m` answers.
pub record Halts (k : ℕ) {A : Type 0} (m : M A) : Type 0 where
  pub run : (w : World) → k ≤ polls w.trace → Goes k (m w)

module _ {A B : Type 0} (k : ℕ) where
  continue-Goes :
      (r : Option (A × World)) (f : A → M B)
      → Goes k r
      → ((a : A) → Halts k (f a))
      → Goes k (continue r f)
  continue-Goes none f h e = h
  continue-Goes (some (a, w)) f h e = (e a).run w h

module _ {A B : Type 0} {k : ℕ} where
  pub Halts-bind :
      (m : M A) (f : A → M B) → Halts k m → ((a : A) → Halts k (f a)) → Halts k (m >>= f)
  unfolding ◌>>=◌
  Halts-bind m f h e = record { run = λ w le. continue-Goes k (m w) f (h.run w le) e }

module _ {A : Type 0} (k : ℕ) where
  weaken-Goes : (r : Option (A × World)) → Goes (suc k) r → Goes k r
  weaken-Goes none h = h
  weaken-Goes (some (a, w)) h = omega arith

module _ {A : Type 0} {k : ℕ} where
  pub Halts-pure : (a : A) → Halts k (pure a)
  Halts-pure a = record { run = λ w le. le }

  pub Halts-if : (b : Bool) (m n : M A) → Halts k m → Halts k n → Halts k (if b then m else n)
  Halts-if true m n hm hn = hm
  Halts-if false m n hm hn = hn

module _ {B : Type 0} (o : Oracle) (k n : ℕ) (expires : Expires o n) (f : Option Ended → M B) where
  polled :
      (w : World) (t : Option Ended)
      → o.pause w.trace Pause.poll ≡ t
      → k ≤ polls w.trace
      → ((e : Ended) → Halts k (f (some e)))
      → (k < n → Halts (suc k) (f none))
      → Goes k (f t (record w { trace = paused Pause.poll t ∷ w.trace }))
  unfolding polls
  polled w (some e) q le he hn =
      (he e).run (record w { trace = paused Pause.poll (some e) ∷ w.trace }) (omega arith)
  polled w none q le he hn = elim (dec_le n (polls w.trace)) [
    | yes h ↦ absurd (expires w.trace h q)
    | no h ↦ weaken-Goes k (f none (record w { trace = paused Pause.poll none ∷ w.trace })) (
        (hn (omega arith)).run (record w { trace = paused Pause.poll none ∷ w.trace })
          (omega arith))
  ]

  -- A poll that the context lets pass is one of fewer than `n`.
  pub Halts-poll :
      ((e : Ended) → Halts k (f (some e)))
      → (k < n → Halts (suc k) (f none))
      → Halts k (wait o Pause.poll >>= f)
  unfolding wait ◌>>=◌
  Halts-poll he hn = record { run = λ w le. polled w (o.pause w.trace Pause.poll) refl le he hn }
