-- ===== src/Lifecycle/Closing.antt =====
-- core/lifecycle/connect.go: Stop and OnSessionClosed.
use codespace_ssh_gateway.Shared.{
  suc, zero, ℕ, String, Bool, true, false, ◌&&◌, Option, none, some, ◌≡◌, refl, arith, ltb,
  if◌then◌else◌,
}
use codespace_ssh_gateway.Providers.Errors.{Failure}
use codespace_ssh_gateway.Lifecycle.Phase.{Phase}
use codespace_ssh_gateway.Lifecycle.World.{Oracle, Options, World, pure, ◌>>◌, set_phase}
use codespace_ssh_gateway.Lifecycle.Wp.{Holds, Ends, Ends-after, Ends-bind}
use codespace_ssh_gateway.Lifecycle.Ensure.{fail}
use codespace_ssh_gateway.Lifecycle.Outcome.{IsAt, set_phase-IsAt}
use codespace_ssh_gateway.Lifecycle.Connect.{stop, stop_result, on_session_closed, idle_reason}

-- The phase that tells of Stop's answer.
abbrev pub Stopped : String → Option Failure → World → Type 0
Stopped handle none w = IsAt handle Phase.stopped w
Stopped handle (some e) w = IsAt handle Phase.failed w

-- After Stop the phase is STOPPED without an error, and FAILED with one.
pub stop-Stopped : (o : Oracle) (handle : String) → Ends (stop o handle) (Stopped handle)
unfolding stop
stop-Stopped o handle =
    Ends-after _ _ (λ id. Ends-after _ _ (λ _. Ends-after _ _ (λ r. settled id r)))
  where
    settled : (id : String) (r : Option Failure) → Ends (stop_result o handle id r) (Stopped handle)
    settled id none =
        unfold stop_result in
        Ends-bind _ _ (set_phase-IsAt o handle Phase.stopped "stopped on request") (λ _ w h. h)
    settled id (some e) =
        unfold stop_result fail in
        Ends-bind _ _ (Ends-after _ _ (λ _. set_phase-IsAt o handle Phase.failed "stop failed"))
          (λ _ w h. h)

-- What the end of a session leads to, by the number of sessions that remain.
abbrev pub ClosedAt : Oracle → Options → String → ℕ → World → Bool → World → Type 0
ClosedAt o opts handle zero w asked v =
    (asked ≡ (opts.stop_on_last_disconnect && o.capabilities.stop))
    × IsAt handle (if asked then Phase.stopping else Phase.provider_managed) v
ClosedAt o opts handle (suc n) w asked v = (asked ≡ false) × (v ≡ w)

module _ (o : Oracle) (handle : String) where
  -- The last session's end, by the answer to whether it stops the environment.
  last_closes :
      (b : Bool) (w : World)
      → Holds
          (λ asked v.
            (asked ≡ b) × IsAt handle (if asked then Phase.stopping else Phase.provider_managed) v)
          ((if b
              then (do
                set_phase o handle Phase.stopping "stop_on_last_disconnect: last session closed"
                pure true)
              else (do set_phase o handle Phase.provider_managed (idle_reason o); pure false))
            w)
  last_closes true w =
      (Ends-bind _ _
          (set_phase-IsAt o handle Phase.stopping "stop_on_last_disconnect: last session closed")
          (λ _ v h. (refl, h))).run
        w
  last_closes false w =
      (Ends-bind _ _ (set_phase-IsAt o handle Phase.provider_managed (idle_reason o))
          (λ _ v h. (refl, h))).run
        w

-- While other sessions remain, the end of one changes nothing and starts no stop. The end of the
-- last one starts a stop exactly if stop_on_last_disconnect is set and the provider can stop; the
-- phase is then STOPPING, and otherwise IDLE/PROVIDER_MANAGED.
pub on_session_closed_lem :
    (o : Oracle) (opts : Options) (handle : String) (remaining : ℕ) (w : World)
    → Holds (ClosedAt o opts handle remaining w) (on_session_closed o opts handle remaining w)
unfolding on_session_closed
on_session_closed_lem o opts handle zero w =
    last_closes o handle (opts.stop_on_last_disconnect && o.capabilities.stop) w
on_session_closed_lem o opts handle (suc n) w =
    let left : ltb 0 (suc n) ≡ true = ground arith in rw left (refl, refl)
