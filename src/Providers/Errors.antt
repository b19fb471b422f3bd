-- ===== src/Providers/Errors.antt =====
-- providers/errors.go, with the error values of the whole program: an error is a chain, and
-- `errors.Is` and `errors.As` walk it.
use codespace_ssh_gateway.Shared.{
  ℕ, String, Bool, true, false, ◌&&◌, ◌||◌, Option, none, some, List, [], ◌∷◌, ◌⁺◌, ◌==◌, nat_eq,
  leb, string_eq, decimal, if◌then◌else◌,
}

-- The package variables and the errors of package context that `errors.Is` is asked about.
pub data Sentinel : Type 0 where
  not_found not_supported auth conflict unavailable : Sentinel
  too_many_sessions too_many_sessions_for_env no_config no_auth_methods : Sentinel
  deadline_exceeded canceled : Sentinel

unfoldable pub sentinel_text : Sentinel → String
sentinel_text Sentinel.not_found = "environment not found"
sentinel_text Sentinel.not_supported = "not supported by provider"
sentinel_text Sentinel.auth = "provider authentication failed"
sentinel_text Sentinel.conflict = "conflicting operation in progress"
sentinel_text Sentinel.unavailable = "environment unavailable"
sentinel_text Sentinel.too_many_sessions = "too many sessions"
sentinel_text Sentinel.too_many_sessions_for_env = "too many sessions for environment"
sentinel_text Sentinel.no_config = "config file not found"
sentinel_text Sentinel.no_auth_methods =
    "no authentication configured for a non-loopback listener: "
    ⁺ ("bind ssh.listen to 127.0.0.1, or add a public key (ssh.authorized_keys / "
        ⁺ "ssh.authorized_keys_inline) or set ssh.password_auth: true")
sentinel_text Sentinel.deadline_exceeded = "context deadline exceeded"
sentinel_text Sentinel.canceled = "context canceled"

sentinel_address : Sentinel → ℕ
sentinel_address Sentinel.not_found = 0
sentinel_address Sentinel.not_supported = 1
sentinel_address Sentinel.auth = 2
sentinel_address Sentinel.conflict = 3
sentinel_address Sentinel.unavailable = 4
sentinel_address Sentinel.too_many_sessions = 5
sentinel_address Sentinel.too_many_sessions_for_env = 6
sentinel_address Sentinel.no_config = 7
sentinel_address Sentinel.no_auth_methods = 8
sentinel_address Sentinel.deadline_exceeded = 9
sentinel_address Sentinel.canceled = 10

-- Each variable holds a pointer of its own, and two errors are the same if their pointers are.
unfoldable pub same_sentinel : Sentinel → Sentinel → Bool
unfolding sentinel_address
same_sentinel s t = sentinel_address s == sentinel_address t

-- providers/github/api.go: a non-2xx answer of the GitHub API.
pub record ApiError : Type 0 where
  pub method : String
  pub path : String
  pub status : ℕ
  pub message : String
  pub retry_after : ℕ
  pub rate_limit : Bool

-- The dynamic types of error that the program makes.
pub data Failure : Type 0 where
  sentinel : Sentinel → Failure
  -- errors.New, and fmt.Errorf with no %w
  text : String → Failure
  -- fmt.Errorf(before + "%w" + after, err)
  wrap : String → String → Failure → Failure
  -- *TemporaryError
  temporary_error : Failure → Failure
  -- *NotFoundError, of a provider and an id
  not_found_error : String → String → Failure
  -- *apiError
  api_error : ApiError → Failure

-- (*apiError).Unwrap
unfoldable pub api_unwrap : ApiError → Option Failure
api_unwrap e =
    if e.status == 401
    then some (Failure.sentinel Sentinel.auth)
    else if e.status == 403 && not_limited
    then some (Failure.sentinel Sentinel.auth)
    else if e.status == 404
    then some (Failure.sentinel Sentinel.not_found)
    else if e.status == 409
    then some (Failure.sentinel Sentinel.conflict)
    else if e.status == 503
    then some (Failure.sentinel Sentinel.unavailable)
    else none
  where
    not_limited : Bool
    not_limited = if e.rate_limit then false else true

-- (*apiError).Temporary
unfoldable pub api_temporary : ApiError → Bool
api_temporary e = e.status == 429 || leb 500 e.status || e.rate_limit

api_is : Option Failure → Sentinel → Bool
unfolding same_sentinel
api_is (some (Failure.sentinel s)) t = same_sentinel s t
api_is _ t = false

-- errors.Is(err, target)
unfoldable pub is : Failure → Sentinel → Bool
unfolding same_sentinel api_is api_unwrap
is (Failure.sentinel s) t = same_sentinel s t
is (Failure.text m) t = false
is (Failure.wrap before after e) t = is e t
is (Failure.temporary_error e) t = is e t
is (Failure.not_found_error p i) t = same_sentinel Sentinel.not_found t
is (Failure.api_error a) t = api_is (api_unwrap a) t

-- The first error of the chain with a Temporary method answers. context.DeadlineExceeded has one.
unfoldable pub is_temporary : Failure → Bool
unfolding api_temporary
is_temporary (Failure.sentinel Sentinel.deadline_exceeded) = true
is_temporary (Failure.sentinel _) = false
is_temporary (Failure.text m) = false
is_temporary (Failure.wrap before after e) = is_temporary e
is_temporary (Failure.temporary_error e) = true
is_temporary (Failure.not_found_error p i) = false
is_temporary (Failure.api_error a) = api_temporary a

-- Temporary(err), with no error for nil
unfoldable pub temporary : Option Failure → Option Failure
temporary none = none
temporary (some e) = some (Failure.temporary_error e)

-- The table of http.StatusText.
abbrev status_texts : List (ℕ × String)
status_texts =
    (100, "Continue")
    ∷ (101, "Switching Protocols")
    ∷ (102, "Processing")
    ∷ (103, "Early Hints")
    ∷ (300, "Multiple Choices")
    ∷ (301, "Moved Permanently")
    ∷ (302, "Found")
    ∷ (303, "See Other")
    ∷ (304, "Not Modified")
    ∷ (305, "Use Proxy")
    ∷ (307, "Temporary Redirect")
    ∷ (308, "Permanent Redirect")
    ∷ (400, "Bad Request")
    ∷ (401, "Unauthorized")
    ∷ (402, "Payment Required")
    ∷ (403, "Forbidden")
    ∷ (404, "Not Found")
    ∷ (405, "Method Not Allowed")
    ∷ (406, "Not Acceptable")
    ∷ (407, "Proxy Authentication Required")
    ∷ (408, "Request Timeout")
    ∷ (409, "Conflict")
    ∷ (410, "Gone")
    ∷ (411, "Length Required")
    ∷ (412, "Precondition Failed")
    ∷ (413, "Request Entity Too Large")
    ∷ (414, "Request URI Too Long")
    ∷ (415, "Unsupported Media Type")
    ∷ (416, "Requested Range Not Satisfiable")
    ∷ (417, "Expectation Failed")
    ∷ (418, "I'm a teapot")
    ∷ (421, "Misdirected Request")
    ∷ (422, "Unprocessable Entity")
    ∷ (423, "Locked")
    ∷ (424, "Failed Dependency")
    ∷ (425, "Too Early")
    ∷ (426, "Upgrade Required")
    ∷ (428, "Precondition Required")
    ∷ (429, "Too Many Requests")
    ∷ (431, "Request Header Fields Too Large")
    ∷ (451, "Unavailable For Legal Reasons")
    ∷ (500, "Internal Server Error")
    ∷ (501, "Not Implemented")
    ∷ (502, "Bad Gateway")
    ∷ (503, "Service Unavailable")
    ∷ (504, "Gateway Timeout")
    ∷ (505, "HTTP Version Not Supported")
    ∷ (506, "Variant Also Negotiates")
    ∷ (507, "Insufficient Storage")
    ∷ (508, "Loop Detected")
    ∷ (510, "Not Extended")
    ∷ (511, "Network Authentication Required")
    ∷ []

text_of_status : List (ℕ × String) → ℕ → String
text_of_status [] n = ""
text_of_status ((k, t) ∷ rest) n = if k == n then t else text_of_status rest n

-- (*apiError).Error
unfoldable pub api_text : ApiError → String
unfolding text_of_status
api_text e =
    let msg = if e.message == "" then text_of_status status_texts e.status else e.message in
    let head = "github api " ⁺ (e.method ⁺ (" " ⁺ (e.path ⁺ ": "))) in
    if e.status == 401
    then head ⁺ ("401 " ⁺ (msg ⁺ " (token invalid, expired or revoked)"))
    else if e.status == 403
    then (if e.rate_limit
        then head ⁺ ("403 rate limited (" ⁺ (msg ⁺ ")"))
        else head ⁺ ("403 " ⁺ (msg ⁺ " (token is missing the \"codespace\" scope?)")))
    else head ⁺ (decimal e.status ⁺ (" " ⁺ msg))

-- %q, for text with nothing to escape
unfoldable pub quoted : String → String
quoted s = "\"" ⁺ (s ⁺ "\"")

-- err.Error()
unfoldable pub error_text : Failure → String
unfolding sentinel_text api_text quoted
error_text (Failure.sentinel s) = sentinel_text s
error_text (Failure.text m) = m
error_text (Failure.wrap before after e) = before ⁺ (error_text e ⁺ after)
error_text (Failure.temporary_error e) = error_text e
error_text (Failure.not_found_error p i) =
    if i == ""
    then p ⁺ (": " ⁺ sentinel_text Sentinel.not_found)
    else p ⁺ (": environment " ⁺ (quoted i ⁺ " not found"))
error_text (Failure.api_error a) = api_text a

pub data Result {ℓ} (A : Type ℓ) : Type ℓ where
  ok : A → Result A
  err : Failure → Result A
