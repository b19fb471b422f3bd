-- ===== src/Github/Examples.antt =====
-- An API that is rate limited, and a codespace that is found by its display name.
use codespace_ssh_gateway.Shared.Integers.{pos}
use codespace_ssh_gateway.Shared.{
  List, ◌+◌, ◌≤◌, ℕ, arith, take, length, ◌++◌, ◌+◌, ◌≤◌, String, code, true, false, none, some, [],
  ◌∷◌, ◌≡◌, refl, ◌==◌, string_eq, if◌then◌else◌,
}
use codespace_ssh_gateway.Providers.Errors.{ok}
use codespace_ssh_gateway.Github.Settings.{
  Section, apply_defaults, with_connector, with_policy, with_timeout, check_create, connector_of,
  policy_of, clean_url, trim_slash, has_prefix, idle_out_of_range,
}
use codespace_ssh_gateway.Github.Ready.{Ready, apply_defaults-Ready}
use codespace_ssh_gateway.Github.Options.{
  text_value, merge_create_options, set_options, set_option, print,
}
use codespace_ssh_gateway.Github.Creating.{slashes}
use codespace_ssh_gateway.Gateway.Names.{trim_space, trim_left, trim_right, space}
use codespace_ssh_gateway.Github.Streams.{write, write_all, new_safe_buffer, parse_terminal_modes}
use codespace_ssh_gateway.Github.Kept.{
  concat, encode_modes, value_of, last_of, meant, write_all-new_safe_buffer,
  parse_terminal_modes-encode_modes,
}
use codespace_ssh_gateway.Github.Sources.{EnvSource, CreateConfig, lookup, remember, any, any_from}
use codespace_ssh_gateway.Github.Recall.{listed, lookup-remember, agree, any_lem}
use codespace_ssh_gateway.Github.Paging.{list_codespaces_bound}
use codespace_ssh_gateway.Github.Client.{
  Request, Response, full, Http, perform, Contact, sent, slept, rounds, received, send,
}
use codespace_ssh_gateway.Github.Requests.{Exhausts, requests, perform-Exhausts}
use codespace_ssh_gateway.Github.Codespaces as Codespaces
use codespace_ssh_gateway.Github.Codespaces.{Codespace, Codec, no_codespace, get_codespace}
use codespace_ssh_gateway.Github.Pending.{Answers, start, start-Answers}
use codespace_ssh_gateway.Github.Creating.{create, Recalled, get-Recalled, create-Recalled}

abbrev limited : Response
limited = record { status = 403; raw = "rate limit"; retry_after = "1"; remaining = "0" }

abbrev answer : Response
answer = record { status = 200; raw = "{}"; retry_after = ""; remaining = "10" }

abbrev busy : Http
busy = record { reply = λ es req. full limited; sleep = λ es delay. none; parent = λ es. none }

abbrev calm : Http
calm = record { reply = λ es req. full answer; sleep = λ es delay. none; parent = λ es. none }

abbrev made : Codespace
made = record no_codespace {
  name = "fluffy-guide-1";
  display_name = "box";
  state = "Available";
  repository = "octo/demo";
  ref = "main";
}

abbrev codec : Codec
codec = record {
  message_of = λ raw. none;
  codespaces_of = λ raw. ok (made ∷ []);
  codespace_of = λ raw. ok made;
  repository_of = λ raw. ok (7, "octo/demo");
  create_body = λ id cfg name. "{}";
  path_escape = λ s. s;
  parse_time = λ s. none;
  fold = λ c. code c;
}

abbrev ping : Request
ping = record { method = "GET"; path = "/user"; body = "" }

perform-Exhausts_example :
    Exhausts 3 (requests []) (perform busy (λ raw. none) {A = Unit {0}} (λ raw. ok tt) tt ping [])
perform-Exhausts_example = perform-Exhausts busy (λ raw. none) (λ raw. ok tt) tt ping []

get-Recalled_example : Recalled codec "box" [] (Codespaces.get calm codec "box" [] []).0
get-Recalled_example = get-Recalled calm codec "box" [] [] refl

abbrev demo : CreateConfig
demo = record {
  repository = "octo/demo";
  branch = "main";
  machine = "";
  location = "";
  devcontainer_path = "";
  idle_timeout_minutes = pos 0;
  retention_period_minutes = pos 0;
  display_name = "";
}

create-Recalled_example : Recalled codec "box" [] (create calm codec demo "box" [] []).0
create-Recalled_example = create-Recalled calm codec demo "box" [] [] refl

abbrev source : EnvSource
source = record {
  repository = "octo/demo";
  branch = "main";
  machine = "";
  location = "";
  devcontainer_path = "";
}

lookup-remember_example :
    lookup "box" (remember source ("fluffy-guide-1" ∷ "box" ∷ []) []).0
    ≡ (if listed "box" ("fluffy-guide-1" ∷ "box" ∷ []) then some source else lookup "box" [])
lookup-remember_example = lookup-remember source ("fluffy-guide-1" ∷ "box" ∷ []) [] "box" refl refl

any_lem_example :
    ((source.repository == "") ≡ false) × (agree source.repository (("box", source) ∷ []) ≡ true)
unfolding any any_from
any_lem_example = any_lem (("box", source) ∷ []) source refl

abbrev box : String
box = "box"

list_codespaces_bound_example :
    requests (Codespaces.list_codespaces calm codec []).1 ≤ requests [] + 60
list_codespaces_bound_example = list_codespaces_bound calm codec []

-- A message in two writes, for a buffer of five bytes.
write_all-new_safe_buffer_example :
    ((write_all ((1 ∷ 2 ∷ 3 ∷ []) ∷ (4 ∷ 5 ∷ 6 ∷ []) ∷ []) (new_safe_buffer 5)).buf
      ≡ take 5 (concat ((1 ∷ 2 ∷ 3 ∷ []) ∷ (4 ∷ 5 ∷ 6 ∷ []) ∷ [])))
    × ((write (7 ∷ []) (write_all ((1 ∷ 2 ∷ 3 ∷ []) ∷ (4 ∷ 5 ∷ 6 ∷ []) ∷ []) (new_safe_buffer 5))).1
        ≡ length {A = ℕ} (7 ∷ []))
write_all-new_safe_buffer_example =
    write_all-new_safe_buffer 5 ((1 ∷ 2 ∷ 3 ∷ []) ∷ (4 ∷ 5 ∷ 6 ∷ []) ∷ []) (7 ∷ [])

parse_terminal_modes-encode_modes_example :
    value_of 128 (
      parse_terminal_modes
        (encode_modes ((53, 1) ∷ (128, 9600) ∷ (128, 38400) ∷ []) ++ (0 ∷ 9 ∷ [])))
    ≡ some 38400
unfolding meant last_of
parse_terminal_modes-encode_modes_example =
    parse_terminal_modes-encode_modes ((53, 1) ∷ (128, 9600) ∷ (128, 38400) ∷ []) (9 ∷ []) 128
      ((refl, omega arith), ((refl, omega arith), ((refl, omega arith), tt)))

abbrev no_create : CreateConfig
no_create = record {
  repository = "";
  branch = "";
  machine = "";
  location = "";
  devcontainer_path = "";
  idle_timeout_minutes = pos 30;
  retention_period_minutes = pos 0;
  display_name = "";
}

abbrev bare_section : Section
bare_section = record {
  token = record { v = "" };
  token_file = "";
  codespace = "";
  api_url = "";
  gh_path = "";
  connector = "";
  host_key_policy = "";
  ssh_user = "";
  request_timeout = pos 0;
  create = record no_create { repository = "octo/dev" };
}

abbrev filled_section : Section
filled_section = record bare_section {
  api_url = "https://api.github.com";
  connector = "auto";
  host_key_policy = "tofu";
  request_timeout = pos 30000000000;
}

filled_section_lem : apply_defaults bare_section ≡ ok filled_section
unfolding apply_defaults with_connector with_policy with_timeout check_create connector_of policy_of
    clean_url trim_slash has_prefix idle_out_of_range trim_space trim_left trim_right space slashes
filled_section_lem = refl

apply_defaults-Ready_example : Ready filled_section
apply_defaults-Ready_example = apply_defaults-Ready bare_section filled_section filled_section_lem

-- With both names of one option, the last that Go comes to counts.
branch_last :
    merge_create_options no_create (("ref", text_value "a") ∷ ("branch", text_value "b") ∷ [])
    ≡ ok (record no_create { branch = "b" })
unfolding merge_create_options set_options set_option print slashes
branch_last = refl

ref_last :
    merge_create_options no_create (("branch", text_value "b") ∷ ("ref", text_value "a") ∷ [])
    ≡ ok (record no_create { branch = "a" })
unfolding merge_create_options set_options set_option print slashes
ref_last = refl

-- A codespace whose rebuild never ends, by a clock that only pauses move.
abbrev rebuilding : Codec
rebuilding = record codec { codespace_of = λ raw. ok (record made { pending_operation = true }) }

unfoldable clock : List Contact → ℕ
clock [] = 0
clock (sent req reply ∷ es) = clock es
clock (slept d ended ∷ es) = clock es + d

clock_rests : (es : List Contact) (d : ℕ) → clock es + d ≤ clock (slept d none ∷ es)
unfolding clock
clock_rests es d = omega arith

clock_requests :
    (id : String) (es : List Contact) → clock es ≤ clock (get_codespace calm rebuilding id es).1
unfolding get_codespace perform rounds received send clock
clock_requests id es = omega arith

start-Answers_example :
    Answers calm rebuilding clock (start calm rebuilding clock 26 "fluffy-guide-1" [])
start-Answers_example =
    start-Answers calm rebuilding clock clock_rests clock_requests "fluffy-guide-1" []
