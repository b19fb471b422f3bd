-- ===== src/Github/Client.antt =====
-- providers/github/api.go. The network is an `Http`: each answer is any function of what was sent
-- and slept so far, newest first.
use codespace_ssh_gateway.Shared.{
  ℕ, zero, suc, ◌+◌, ◌-◌, ◌*◌, ◌^◌, ◌%◌, String, ◌⁺◌, code, Bool, true, false, not, ◌&&◌, ◌||◌,
  Option, none, some, List, ◌∷◌, ◌==◌, nat_eq, string_eq, ltb, leb, if◌then◌else◌,
}
use codespace_ssh_gateway.Providers.Errors.{Failure, ApiError, Result, ok, err, api_temporary}
use codespace_ssh_gateway.Lifecycle.World.{Ended, ended_error, second}
use codespace_ssh_gateway.Gateway.Names.{trim_space}

pub record Request : Type 0 where
  pub method : String
  pub path : String
  pub body : String

-- The parts of a response that are read.
pub record Response : Type 0 where
  pub status : ℕ
  pub raw : String
  pub retry_after : String
  pub remaining : String

-- What becomes of a request: it is malformed, c.http.Do fails, reading the body fails, or neither.
pub data Reply : Type 0 where
  unsendable : String → Reply
  lost : Failure → Reply
  cut : ℕ → Failure → Reply
  full : Response → Reply

pub data Contact : Type 0 where
  sent : Request → Reply → Contact
  slept : ℕ → Option Ended → Contact

-- `parent` is ctx.Err().
pub record Http : Type 0 where
  pub reply : List Contact → Request → Reply
  pub sleep : List Contact → ℕ → Option Ended
  pub parent : List Contact → Option Ended

abbrev pub Net : Type 0 → Type 0
Net A = List Contact → A × List Contact

-- The status code and the decoded body.
abbrev pub Answer : Type 0 → Type 0
Answer A = ℕ × Result A

-- strconv.Atoi of a text of digits; a number above 2^63 - 1 is out of range
unfoldable pub digits : ℕ → String → Option ℕ
digits acc String.[] = if ltb acc (2 ^ 63) then some acc else none
digits acc (String.◌∷◌ c s) =
    let rest = digits (acc * 10 + (code c - b'0')) s in
    if leb b'0' (code c) && leb (code c) b'9' then rest else none

unfoldable pub number : String → Option ℕ
number String.[] = none
number (String.◌∷◌ c s) = digits 0 (String.◌∷◌ c s)

-- strconv.Atoi where it gives no negative number
unfoldable pub atoi : String → Option ℕ
atoi String.[] = none
atoi (String.◌∷◌ c s) = if code c == b'+' then number s else number (String.◌∷◌ c s)

-- A duration in an int64; a negative one counts as 0, as in the tests that read it.
abbrev pub duration : ℕ → ℕ
duration n = let d = n % 2 ^ 64 in if ltb d (2 ^ 63) then d else 0

-- unicode.ToLower, where it leads to an ASCII letter
abbrev pub lower : ℕ → ℕ
lower c =
    if leb b'A' c && leb c b'Z'
    then c + 32
    else if c == 0x130
    then b'i'
    else if c == 0x212a
    then b'k'
    else c

unfoldable pub begins : String → String → Bool
begins s String.[] = true
begins String.[] (String.◌∷◌ d t) = false
begins (String.◌∷◌ c s) (String.◌∷◌ d t) = lower (code c) == code d && begins s t

-- strings.Contains(strings.ToLower(s), t), for `t` in lower case
unfoldable pub mentions : String → String → Bool
mentions String.[] t = begins String.[] t
mentions (String.◌∷◌ c s) t = begins (String.◌∷◌ c s) t || mentions s t

abbrev pub wait_of : Option ℕ → ℕ
wait_of none = 0
wait_of (some secs) = duration (secs * second)

-- errors.As(err, &ae)
unfoldable pub api_of : Failure → Option ApiError
api_of (Failure.api_error a) = some a
api_of (Failure.wrap before after e) = api_of e
api_of (Failure.temporary_error e) = api_of e
api_of _ = none

-- The delay that doubles.
abbrev pub doubling : ℕ → ℕ
doubling attempt =
    let d = 2 ^ (attempt - 1) * 500000000 in if ltb (5 * second) d then 5 * second else d

abbrev pub backoff_of : ℕ → Option ApiError → ℕ
backoff_of attempt none = doubling attempt
backoff_of attempt (some a) =
    if ltb 0 a.retry_after
    then (if ltb (30 * second) a.retry_after then 30 * second else a.retry_after)
    else doubling attempt

-- backoffFor
unfoldable pub backoff_for : Failure → ℕ → ℕ
backoff_for e attempt = backoff_of attempt (api_of e)

-- `message_of` is json.Unmarshal of an error's body, with the field that is read.
module _ (h : Http) (message_of : String → Option String) where
  abbrev pub message : String → Option String → String
  message raw (some m) = trim_space m
  message raw none =
      if not (raw == "") && ltb (Prim.Native.String.len raw) 512 then trim_space raw else ""

  -- parseAPIError
  unfoldable pub parse_api_error : Request → Response → ApiError
  parse_api_error req resp =
      let m = message resp.raw (message_of resp.raw) in
      record {
        method = req.method;
        path = req.path;
        status = resp.status;
        message = m;
        retry_after = wait_of (atoi resp.retry_after);
        rate_limit = resp.remaining == "0" || mentions m "rate limit";
      }

  abbrev pub prefix : Request → String
  prefix req = "github api " ⁺ (req.method ⁺ (" " ⁺ req.path))

  unfoldable pub send : Request → Net Reply
  send req es = let r = h.reply es req in (r, sent req r ∷ es)

  -- `decode` fills `out` from a body that is not empty, and `empty` is what `out` held before.
  module _ {A : Type 0} (decode : String → Result A) (empty : A) where
    abbrev pub decoded : Request → Result A → Result A
    decoded req (ok a) = ok a
    decoded req (err e) = err (Failure.wrap (prefix req ⁺ ": decode response: ") "" e)

    -- A failure of this attempt: the last one returns it, with the status.
    unfoldable pub retry : (Failure → Net (Answer A)) → ℕ → ℕ → Failure → Net (Answer A)
    retry again attempt status e = if attempt == 3 then (λ es. ((status, err e), es)) else again e

    unfoldable pub refused : (Failure → Net (Answer A)) → Request → ℕ → Response → Net (Answer A)
    refused again req attempt resp =
        let a = parse_api_error req resp in
        if api_temporary a
        then retry again attempt resp.status (Failure.api_error a)
        else (λ es. ((resp.status, err (Failure.api_error a)), es))

    unfoldable pub disconnected :
        (Failure → Net (Answer A)) → Request → ℕ → Failure → Option Ended → Net (Answer A)
    disconnected again req attempt e (some t) es =
        ((0, err (Failure.wrap (prefix req ⁺ ": ") "" (ended_error t))), es)
    disconnected again req attempt e none es =
        retry again attempt 0 (Failure.temporary_error (Failure.wrap (prefix req ⁺ ": ") "" e)) es

    unfoldable pub received : (Failure → Net (Answer A)) → Request → ℕ → Reply → Net (Answer A)
    received again req attempt (unsendable m) es = ((0, err (Failure.text m)), es)
    received again req attempt (lost e) es = disconnected again req attempt e (h.parent es) es
    received again req attempt (cut status e) es =
        retry again attempt status
          (Failure.temporary_error (Failure.wrap (prefix req ⁺ ": read body: ") "" e)) es
    received again req attempt (full resp) es =
        if leb 200 resp.status && ltb resp.status 300
        then ((resp.status, if resp.raw == "" then ok empty else decoded req (decode resp.raw)), es)
        else refused again req attempt resp es

    abbrev pub deliver :
        (Failure → Net (Answer A)) → Request → ℕ → Reply × List Contact → Answer A × List Contact
    deliver again req attempt (r, es) = received again req attempt r es

    abbrev pub rested : (Failure → Net (Answer A)) → Request → ℕ → ℕ → Option Ended → Net (Answer A)
    rested again req attempt delay (some t) es =
        ((0, err (ended_error t)), slept delay (some t) ∷ es)
    rested again req attempt delay none es =
        deliver again req attempt (send req (slept delay none ∷ es))

    -- The rounds of do's loop, `left` of them, with lastErr.
    unfoldable pub rounds : ℕ → Request → ℕ → Failure → Net (Answer A)
    rounds zero req attempt last es = ((0, err last), es)
    rounds (suc left) req attempt last es =
        let again = rounds left req (attempt + 1) in
        let delay = backoff_for last attempt in
        if ltb 1 attempt
        then rested again req attempt delay (h.sleep es delay) es
        else deliver again req attempt (send req es)

    -- do
    unfoldable pub perform : Request → Net (Answer A)
    perform req = rounds 3 req 1 (Failure.text "")
