-- ===== src/Github/Codespaces.antt =====
-- providers/github/codespace.go and lifecycle.go. `sources` is the provider's sourceCache; its
-- files are not written here.
use codespace_ssh_gateway.Shared.{
  ℕ, zero, suc, ◌+◌, ◌*◌, String, ◌⁺◌, Char, decimal, Bool, true, false, ◌&&◌, ◌||◌, Option, none,
  some, List, [], ◌∷◌, ◌++◌, length, ◌==◌, nat_eq, string_eq, ltb, if◌then◌else◌,
}
use codespace_ssh_gateway.Shared.Integers.{ℤ, pos, positive, to_nat}
use codespace_ssh_gateway.Shared.Map.{Map, put}
use codespace_ssh_gateway.Providers.Environment.{Environment, State}
use codespace_ssh_gateway.Providers.Errors.{Failure, Sentinel, ApiError, Result, ok, err, is}
use codespace_ssh_gateway.Lifecycle.World.{second}
use codespace_ssh_gateway.Github.Sources.{EnvSource, CreateConfig, remember}
use codespace_ssh_gateway.Github.Client.{
  Request, Contact, Http, Net, Answer, api_of, mentions, perform,
}

pub record Codespace : Type 0 where
  pub name : String
  pub display_name : String
  pub state : String
  pub last_used_at : String
  pub web_url : String
  pub location : String
  pub devcontainer_path : String
  pub idle_timeout_minutes : ℤ
  pub pending_operation : Bool
  pub pending_reason : String
  pub machine : String
  pub repository : String
  pub ref : String
  pub owner : String

-- `codespace{}`
abbrev pub no_codespace : Codespace
no_codespace = record {
  name = "";
  display_name = "";
  state = "";
  last_used_at = "";
  web_url = "";
  location = "";
  devcontainer_path = "";
  idle_timeout_minutes = pos 0;
  pending_operation = false;
  pending_reason = "";
  machine = "";
  repository = "";
  ref = "";
  owner = "";
}

unfoldable pub one_of : String → List String → Bool
one_of s [] = false
one_of s (t ∷ ts) = s == t || one_of s ts

-- stateFor
unfoldable pub state_for : String → State
state_for native =
    if native == "Available"
    then State.running
    else if one_of native ("Created" ∷ "Queued" ∷ "Provisioning" ∷ [])
    then State.provisioning
    else if one_of native ("Starting" ∷ "Awaiting" ∷ "Updating" ∷ "Rebuilding" ∷ "Exporting" ∷ [])
    then State.starting
    else if native == "ShuttingDown"
    then State.stopping
    else if one_of native ("Shutdown" ∷ "Archived" ∷ [])
    then State.stopped
    else if native == "Failed"
    then State.failed
    else if native == "Unavailable"
    then State.unavailable
    else if one_of native ("Deleted" ∷ "Moved" ∷ [])
    then State.not_found
    else State.unknown

-- `if v != "" { attrs[k] = v }`
abbrev pub attribute : String → String → Map String → Map String
attribute k v attrs = if v == "" then attrs else put attrs k v

abbrev pub pending_attributes : Codespace → Map String → Map String
pending_attributes cs attrs =
    if cs.pending_operation
    then attribute "pending_reason" cs.pending_reason (put attrs "pending_operation" "true")
    else attrs

unfoldable pub attributes : Codespace → Map String
attributes cs = pending_attributes cs (
    attribute "owner" cs.owner (
      attribute "display_name" cs.display_name (
        attribute "location" cs.location (
          attribute "machine" cs.machine
            (attribute "branch" cs.ref (attribute "repository" cs.repository []))))))

abbrev pub or_zero : Option ℕ → ℕ
or_zero none = 0
or_zero (some t) = t

-- `parse_time` is time.Parse(time.RFC3339, …), in nanoseconds.
unfoldable pub environment : (String → Option ℕ) → Codespace → Environment
environment parse_time cs = record {
  id = cs.name;
  display_name = cs.display_name;
  provider = "github";
  state = state_for cs.state;
  native_state = cs.state;
  attributes = attributes cs;
  idle_timeout =
      if positive cs.idle_timeout_minutes then to_nat cs.idle_timeout_minutes * 60 * second else 0;
  last_used_at = or_zero (parse_time cs.last_used_at);
  web_url = cs.web_url;
}

abbrev pub source_of : Codespace → EnvSource
source_of cs = record {
  repository = cs.repository;
  branch = cs.ref;
  machine = cs.machine;
  location = cs.location;
  devcontainer_path = cs.devcontainer_path;
}

-- rememberSource
unfoldable pub remember_source : Codespace → List String → Map EnvSource → Map EnvSource
remember_source cs handles sources =
    (remember (source_of cs) (cs.name ∷ cs.display_name ∷ handles) sources).0

-- What encoding/json, net/url, time and the case folding of package unicode do for the client.
pub record Codec : Type 0 where
  pub message_of : String → Option String
  pub codespaces_of : String → Result (List Codespace)
  pub codespace_of : String → Result Codespace
  pub repository_of : String → Result (ℕ × String)
  pub create_body : ℕ → CreateConfig → String → String
  pub path_escape : String → String
  pub parse_time : String → Option ℕ
  pub fold : Char → ℕ

-- strings.EqualFold
unfoldable pub equal_fold : (Char → ℕ) → String → String → Bool
equal_fold fold String.[] String.[] = true
equal_fold fold (String.◌∷◌ c s) (String.◌∷◌ d t) = fold c == fold d && equal_fold fold s t
equal_fold fold _ _ = false

abbrev pub request : String → String → Request
request method path = record { method = method; path = path; body = "" }

module _ (h : Http) (codec : Codec) where
  unfoldable pub page_after :
      (List Codespace → Net (Result (List Codespace)))
      → List Codespace
      → Answer (List Codespace) × List Contact
      → Result (List Codespace) × List Contact
  page_after again all ((status, err e), es) = (err e, es)
  page_after again all ((status, ok page), es) =
      if ltb (length page) 100 then (ok (all ++ page), es) else again (all ++ page) es

  -- The rounds of the loop over pages.
  unfoldable pub pages : ℕ → ℕ → List Codespace → Net (Result (List Codespace))
  pages zero page all es = (ok all, es)
  pages (suc left) page all es = page_after (pages left (page + 1)) all (
      perform h codec.message_of codec.codespaces_of []
        (request "GET" ("/user/codespaces?per_page=100&page=" ⁺ decimal page)) es)

  -- listCodespaces
  unfoldable pub list_codespaces : Net (Result (List Codespace))
  list_codespaces = pages 20 1 []

  abbrev pub path_of : String → String
  path_of name = "/user/codespaces/" ⁺ codec.path_escape name

  -- getCodespace
  unfoldable pub get_codespace : String → Net (Result Codespace)
  get_codespace name es =
      let r =
        perform h codec.message_of codec.codespace_of no_codespace (request "GET" (path_of name))
          es in
      (r.0.1, r.1)

  unfoldable pub match : String → List Codespace → Option Codespace
  match id [] = none
  match id (cs ∷ list) = if equal_fold codec.fold cs.display_name id then some cs else match id list

  -- What the provider returns, with its cache.
  abbrev pub Known : Type 0
  Known = Result Environment × Map EnvSource

  abbrev pub known : String → Codespace → Map EnvSource → Known
  known id cs sources = (ok (environment codec.parse_time cs), remember_source cs (id ∷ []) sources)

  abbrev pub matched : String → Map EnvSource → Option Codespace → Known
  matched id sources (some cs) = known id cs sources
  matched id sources none = (err (Failure.not_found_error "github" id), sources)

  abbrev pub searched :
      String → Map EnvSource → Result (List Codespace) × List Contact → Known × List Contact
  searched id sources (err e, es) = ((err e, sources), es)
  searched id sources (ok list, es) = (matched id sources (match id list), es)

  unfoldable pub found :
      String → Map EnvSource → Result Codespace × List Contact → Known × List Contact
  found id sources (ok cs, es) = (known id cs sources, es)
  found id sources (err e, es) =
      if is e Sentinel.not_found
      then searched id sources (list_codespaces es)
      else ((err e, sources), es)

  -- Get
  unfoldable pub get : String → Map EnvSource → Net Known
  get id sources es =
      if id == ""
      then (
        (
          err (
              Failure.text (
                "no codespace selected: set github.codespace "
                ⁺ "or run `gateway codespace select <name>`")),
          sources,
        ),
        es,
      )
      else found id sources (get_codespace id es)

  abbrev pub status_of : Result Environment → State × Option Failure
  status_of (ok env) = (env.state, none)
  status_of (err e) = ((if is e Sentinel.not_found then State.not_found else State.unknown), some e)

  abbrev pub start_answer : Answer (Unit {0}) → Option Failure
  start_answer (status, ok u) = none
  start_answer (status, err e) = if status == 409 then none else some e

  -- startCodespace
  unfoldable pub start_codespace : String → Net (Option Failure)
  start_codespace name es =
      let r =
        perform h codec.message_of (λ raw. ok tt) tt (request "POST" (path_of name ⁺ "/start"))
          es in
      (start_answer r.0, r.1)

  abbrev pub shut_down : Option ApiError → Bool
  shut_down none = false
  shut_down (some a) = a.status == 422 && mentions a.message "shutdown"

  abbrev pub stop_answer : Answer (Unit {0}) → Option Failure
  stop_answer (status, ok u) = none
  stop_answer (status, err e) =
      if is e Sentinel.conflict || shut_down (api_of e) then none else some e

  -- stopCodespace and Stop
  unfoldable pub stop : String → Net (Option Failure)
  stop name es =
      let r =
        perform h codec.message_of (λ raw. ok tt) tt (request "POST" (path_of name ⁺ "/stop")) es in
      (stop_answer r.0, r.1)
