-- ===== src/Github/Requests.antt =====
-- providers/github/api.go, do: how often it asks.
use codespace_ssh_gateway.Shared.{
  ℕ, zero, suc, ◌+◌, ◌*◌, ◌≤◌, String, true, Option, none, some, List, [], ◌∷◌, ◌≡◌, ◌≢◌, refl, inl,
  inr, arith, Bool-cases, ◌&&◌, ◌==◌, nat_eq, string_eq, ltb, leb, if◌then◌else◌,
}
use codespace_ssh_gateway.Providers.Errors.{Failure, ApiError, Result, ok, err, api_temporary}
use codespace_ssh_gateway.Lifecycle.World.{Ended, cancelled, timed_out, ended_error, second}
use codespace_ssh_gateway.Github.Client.{
  Request, Response, Reply, unsendable, lost, cut, full, Contact, sent, slept, Http, Net, Answer,
  api_of, doubling, backoff_of, backoff_for, parse_api_error, send, decoded, retry, refused,
  disconnected, received, deliver, rested, rounds, perform,
}

unfoldable pub requests : List Contact → ℕ
requests [] = 0
requests (sent req r ∷ es) = suc (requests es)
requests (slept delay t ∷ es) = requests es

-- At most `left` requests were sent, and all of them before a temporary API error was returned.
pub record Exhausts {A : Type 0} (left n : ℕ) (r : Answer A × List Contact) : Type 0 where
  pub bounded : requests r.1 ≤ n + left
  pub exhausted :
      (a : ApiError)
      → r.0.1 ≡ err (Failure.api_error a)
      → api_temporary a ≡ true
      → requests r.1 ≡ n + left

ended_text : (t : Ended) (a : ApiError) → ended_error t ≢ Failure.api_error a
unfolding ended_error
ended_text cancelled a e = absurd (ground (arith, e))
ended_text timed_out a e = absurd (ground (arith, e))

err_inj : {A : Type 0} (e f : Failure) → ◌≡◌ {A = Result A} (err e) (err f) → e ≡ f
err_inj e f h = cc h

module _ (h : Http) (message_of : String → Option String) {A : Type 0} (decode : String → Result A)
    (empty : A) where
  module _ (left attempt : ℕ) (rest : left + attempt ≡ 3) (again : Failure → Net (Answer A))
      (ih : (e : Failure) (es : List Contact) → Exhausts left (requests es) (again e es))
      (req : Request) where
    retry-Exhausts :
        (status : ℕ) (e : Failure) (es : List Contact)
        → Exhausts left (requests es) (retry h message_of decode empty again attempt status e es)
    unfolding retry
    retry-Exhausts status e es = elim (Bool-cases (attempt == 3)) [
      | inl last ↦
          rw last
            (record { bounded = omega arith; exhausted = λ a at t. ground (arith, last, rest) })
      | inr more ↦ rw more (ih e es)
    ]

    refused-Exhausts :
        (resp : Response) (es : List Contact)
        → Exhausts left (requests es) (refused h message_of decode empty again req attempt resp es)
    unfolding refused
    refused-Exhausts resp es =
        elim (Bool-cases (api_temporary (parse_api_error h message_of req resp))) [
          | inl temporary ↦ rw temporary (retry-Exhausts resp.status _ es)
          | inr final ↦
              rw final (record {
                bounded = omega arith;
                exhausted = λ a at t. ground (arith, final, at, t);
              })
        ]

    disconnected-Exhausts :
        (e : Failure) (t : Option Ended) (es : List Contact)
        → Exhausts left
            (requests es)
            (disconnected h message_of decode empty again req attempt e t es)
    unfolding disconnected
    disconnected-Exhausts e none es = retry-Exhausts 0 _ es
    disconnected-Exhausts e (some t) es = record {
      bounded = omega arith;
      exhausted = λ a at u. absurd (ground (arith, at));
    }

    read-Exhausts :
        (status : ℕ) (raw : String) (r : Result A) (es : List Contact)
        → Exhausts left
            (requests es)
            ((status, if raw == "" then ok empty else decoded h message_of decode empty req r), es)
    read-Exhausts status raw (ok b) es = record {
      bounded = omega arith;
      exhausted = λ a at u. absurd (ground (arith, at));
    }
    read-Exhausts status raw (err e) es = record {
      bounded = omega arith;
      exhausted = λ a at u. absurd (ground (arith, at));
    }

    received-Exhausts :
        (r : Reply) (es : List Contact)
        → Exhausts left (requests es) (received h message_of decode empty again req attempt r es)
    unfolding received
    received-Exhausts (unsendable m) es = record {
      bounded = omega arith;
      exhausted = λ a at u. absurd (ground (arith, at));
    }
    received-Exhausts (lost e) es = disconnected-Exhausts e (h.parent es) es
    received-Exhausts (cut status e) es = retry-Exhausts status _ es
    received-Exhausts (full resp) es =
        elim (Bool-cases (leb 200 resp.status && ltb resp.status 300)) [
          | inl good ↦ rw good (read-Exhausts resp.status resp.raw (decode resp.raw) es)
          | inr bad ↦ rw bad (refused-Exhausts resp es)
        ]

    -- With the request, there is one round more.
    more-Exhausts :
        {r : Answer A × List Contact} (n : ℕ) → Exhausts left (suc n) r → Exhausts (suc left) n r
    more-Exhausts n v = record {
      bounded = omega (arith, v.bounded);
      exhausted = λ a at t. omega (arith, v.exhausted a at t);
    }

    deliver-Exhausts :
        (es : List Contact)
        → Exhausts
            (suc left)
            (requests es)
            (deliver h message_of decode empty again req attempt (send h message_of req es))
    unfolding send requests
    deliver-Exhausts es =
        more-Exhausts (requests es)
          (received-Exhausts (h.reply es req) (sent req (h.reply es req) ∷ es))

    rested-Exhausts :
        (delay : ℕ) (t : Option Ended) (es : List Contact)
        → Exhausts
            (suc left)
            (requests es)
            (rested h message_of decode empty again req attempt delay t es)
    unfolding requests
    rested-Exhausts delay (some t) es = record {
      bounded = omega arith;
      exhausted =
          λ a at u. absurd (ended_text t a (err_inj (ended_error t) (Failure.api_error a) at));
    }
    rested-Exhausts delay none es = deliver-Exhausts (slept delay none ∷ es)

  rounds-Exhausts :
      (left : ℕ) (req : Request) (attempt : ℕ) (last : Failure) (es : List Contact)
      → left + attempt ≡ 4
      → Exhausts left (requests es) (rounds h message_of decode empty left req attempt last es)
  unfolding rounds
  rounds-Exhausts zero req attempt last es rest = record {
    bounded = omega arith;
    exhausted = λ a at t. omega arith;
  }
  rounds-Exhausts (suc left) req attempt last es rest =
      let ih : (e : Failure) (us : List Contact)
          → Exhausts left (requests us)
              (rounds h message_of decode empty left req (attempt + 1) e us) =
        λ e us. rounds-Exhausts left req (attempt + 1) e us (omega arith) in
      let again = rounds h message_of decode empty left req (attempt + 1) in
      elim (Bool-cases (ltb 1 attempt)) [
        | inl later ↦
            rw later (rested-Exhausts left attempt (omega arith) again ih req _ (h.sleep es _) es)
        | inr first ↦ rw first (deliver-Exhausts left attempt (omega arith) again ih req es)
      ]

-- do sends at most three requests, and returns a temporary error of the API only after all three,
-- whatever the network and the context do.
pub perform-Exhausts :
    (h : Http) (message_of : String → Option String) {A : Type 0} (decode : String → Result A)
    (empty : A) (req : Request) (es : List Contact)
    → Exhausts 3 (requests es) (perform h message_of decode empty req es)
unfolding perform
perform-Exhausts h message_of decode empty req es =
    rounds-Exhausts h message_of decode empty 3 req 1 _ es refl

doubling_bound : (attempt : ℕ) → doubling attempt ≤ 30 * second
doubling_bound attempt = ground arith

-- No error makes do wait more than 30 seconds, whatever Retry-After says.
pub backoff_for_bound : (e : Failure) (attempt : ℕ) → backoff_for e attempt ≤ 30 * second
unfolding backoff_for
backoff_for_bound e attempt = bound (api_of e)
  where
    bound : (a : Option ApiError) → backoff_of attempt a ≤ 30 * second
    bound none = doubling_bound attempt
    bound (some a) = ground (arith, doubling_bound attempt)
