-- ===== src/Github/Streams.antt =====
-- providers/github/util.go: what is kept of a child's stderr, and connection.go: the terminal modes of a
-- client, and the choice between the two ways to connect. Bytes are numbers below 256.
use codespace_ssh_gateway.Shared.{
  ℕ, ◌+◌, ◌-◌, ◌*◌, ◌^◌, String, ◌⁺◌, Bool, not, ◌&&◌, List, [], ◌∷◌, ◌++◌, ◌==◌, nat_eq, string_eq,
  ltb, leb, length, take, if◌then◌else◌,
}
use codespace_ssh_gateway.Gateway.Names.{trim_space}
use codespace_ssh_gateway.Providers.Errors.{Failure, Result, err}
use codespace_ssh_gateway.Ssh.Auth.{split_lines}

pub record SafeBuffer : Type 0 where
  pub buf : List ℕ
  pub limit : ℕ

-- newSafeBuffer
unfoldable pub new_safe_buffer : ℕ → SafeBuffer
new_safe_buffer limit = record { buf = []; limit = limit }

-- Write, with the number that it returns
unfoldable pub write : List ℕ → SafeBuffer → SafeBuffer × ℕ
write p b =
    let room = b.limit - length b.buf in
    (
      if ltb 0 room
          then record b { buf = b.buf ++ (if leb (length p) room then p else take room p) }
          else b,
      length p,
    )

unfoldable pub write_all : List (List ℕ) → SafeBuffer → SafeBuffer
write_all [] b = b
write_all (p ∷ ps) b = write_all ps (write p b).0

-- The lines of Tail, from the last one, which is the first of `lines`, on.
unfoldable pub last_lines : ℕ → List String → List String → List String
last_lines n [] out = out
last_lines n (line ∷ lines) out =
    last_lines n lines
      (if ltb (length out) n && not (trim_space line == "") then trim_space line ∷ out else out)

unfoldable pub reversed : List String → List String → List String
reversed [] out = out
reversed (line ∷ lines) out = reversed lines (line ∷ out)

-- strings.Join(out, "; ")
unfoldable pub join_lines : List String → String
join_lines [] = ""
join_lines (line ∷ []) = line
join_lines (line ∷ next ∷ lines) = line ⁺ ("; " ⁺ join_lines (next ∷ lines))

-- Tail, of the text of the buffer
unfoldable pub tail : ℕ → String → String
tail n text = join_lines (last_lines n (reversed (split_lines (trim_space text)) []) [])

-- termOr and dimOr
unfoldable pub term_or : String → String
term_or term = if term == "" then "xterm-256color" else term

unfoldable pub dim_or : ℕ → ℕ → ℕ
dim_or v fallback = if v == 0 then fallback else v

-- gossh.TerminalModes: a map from opcodes, with one entry for each.
abbrev pub Modes : Type 0
Modes = List (ℕ × ℕ)

unfoldable pub set_mode : Modes → ℕ → ℕ → Modes
set_mode [] op v = (op, v) ∷ []
set_mode ((o, w) ∷ m) op v = if o == op then (o, v) ∷ m else (o, w) ∷ set_mode m op v

-- The loop of parseTerminalModes. The shifts of bytes set different bits.
unfoldable pub read_modes : List ℕ → Modes → Modes
read_modes (op ∷ a ∷ b ∷ c ∷ d ∷ raw) m =
    let rest = read_modes raw (set_mode m op (a * 2 ^ 24 + b * 2 ^ 16 + c * 2 ^ 8 + d)) in
    if op == 0 then m else rest
read_modes _ m = m

-- ECHO, TTY_OP_ISPEED and TTY_OP_OSPEED
abbrev pub usual_modes : Modes
usual_modes = (53, 1) ∷ (128, 14400) ∷ (129, 14400) ∷ []

abbrev pub or_usual : Modes → Modes
or_usual [] = usual_modes
or_usual (m ∷ ms) = m ∷ ms

-- parseTerminalModes
unfoldable pub parse_terminal_modes : List ℕ → Modes
parse_terminal_modes raw = or_usual (read_modes raw [])

-- The values of github.connector.
pub data Connector : Type 0 where
  auto stdio exec : Connector

-- What connectStdio answers: its first case is an error that wraps errStdioUnsupported.
pub data Stdio : Type 0 where
  unsupported : Failure → Stdio
  answered : Result ℕ → Stdio

unfoldable pub stdio_result : Stdio → Result ℕ
stdio_result (unsupported e) = err e
stdio_result (answered r) = r

-- Connect, with the calls of connectStdio and connectExec and the connector that it leaves
pub data Dial : Type 0 where
  by_stdio by_exec : Dial

unfoldable pub fall_back : Stdio → Result ℕ → List Dial × (Result ℕ × Connector)
fall_back (unsupported e) exec_answer = (by_stdio ∷ by_exec ∷ [], (exec_answer, exec))
fall_back (answered r) exec_answer = (by_stdio ∷ [], (r, auto))

unfoldable pub connect_by : Connector → Stdio → Result ℕ → List Dial × (Result ℕ × Connector)
connect_by stdio s e = (by_stdio ∷ [], (stdio_result s, stdio))
connect_by exec s e = (by_exec ∷ [], (e, exec))
connect_by auto s e = fall_back s e

-- errGHMissing is the reason `missing`.
unfoldable pub connect :
    Bool → Failure → String → Connector → Stdio → Result ℕ → List Dial × (Result ℕ × Connector)
connect available gh_missing id connector s e = if available then connect_by connector s e else (
  [],
  (err (Failure.wrap ("cannot connect to codespace " ⁺ (id ⁺ ": ")) "" gh_missing), connector),
)
