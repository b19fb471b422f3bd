-- ===== src/Ssh/Exit.antt =====
-- ssh/forward.go: what the client of a channel sees besides the streams: notices, the reason why there
-- is no session, and the exit status.
use codespace_ssh_gateway.Shared.{
  ℕ, ◌%◌, ◌^◌, String, code, ◌⁺◌, Bool, true, false, ◌&&◌, ◌||◌, List, [], ◌∷◌, ◌==◌, nat_eq,
  string_eq, if◌then◌else◌,
}
use codespace_ssh_gateway.Shared.Integers.{ℤ, pos, negsuc, negative, to_nat}
use codespace_ssh_gateway.Gateway.Names.{trim_space}
use codespace_ssh_gateway.Providers.Errors.{Failure, error_text}
use codespace_ssh_gateway.Ssh.Channel.{Channel}

-- providers.ExitStatus
pub record ExitStatus : Type 0 where
  pub exit_code : ℤ
  pub signal : String

-- What goes to the client's channel.
pub data Output : Type 0 where
  wrote wrote_stderr : String → Output
  exit_status : ℕ → Output
  exit_signal : String → Output
  half_closed closed : Output

abbrev pub line_to : Bool → String → Output
line_to true text = wrote (text ⁺ "\r\n")
line_to false text = wrote_stderr (text ⁺ "\n")

unfoldable pub notify : String → Channel → List Output
notify msg st = if st.quiet || (msg == "") then [] else line_to st.pty ("[gateway] " ⁺ msg) ∷ []

-- strings.TrimPrefix(s, "SIG")
unfoldable pub trim_sig : String → String
trim_sig (String.◌∷◌ a (String.◌∷◌ b (String.◌∷◌ c s))) =
    if (code a == b'S') && ((code b == b'I') && (code c == b'G'))
    then s
    else String.◌∷◌ a (String.◌∷◌ b (String.◌∷◌ c s))
trim_sig s = s

-- The code as it is sent: 255 for a negative one, else its last 32 bits.
unfoldable pub sent_code : ℤ → ℕ
sent_code z = if negative z then 255 else to_nat z % 2 ^ 32

unfoldable pub send_exit : ExitStatus → List Output
send_exit status =
    (if status.signal == ""
      then exit_status (sent_code status.exit_code)
      else exit_signal (trim_sig status.signal))
    ∷ half_closed
    ∷ closed
    ∷ []

unfoldable pub fail : Failure → Channel → List Output
fail e st =
    line_to st.pty ("gateway: " ⁺ trim_space (error_text e))
    ∷ send_exit (record { exit_code = pos 254; signal = "" })

abbrev pub is_zero : ℤ → Bool
is_zero (pos n) = n == 0
is_zero (negsuc n) = false

-- The status that pump reports, from what Wait answered.
unfoldable pub reported : ExitStatus → Bool → ExitStatus
reported status failed =
    if failed && (is_zero status.exit_code && (status.signal == ""))
    then record status { exit_code = pos 255 }
    else status

-- The end of pump.
unfoldable pub pump_end : ExitStatus → Bool → List Output
pump_end status failed = send_exit (reported status failed)
