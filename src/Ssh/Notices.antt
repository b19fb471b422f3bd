-- ===== src/Ssh/Notices.antt =====
-- ssh/forward.go: no failure looks like a success, and no notice gets into a subsystem's stream.
use codespace_ssh_gateway.Shared.{
  ◌%◌, ◌^◌, ◌<◌, String, Bool, true, false, not, ◌&&◌, ◌||◌, List, [], ◌∷◌, ◌==◌, nat_eq, string_eq,
  ◌≡◌, refl, ◌∙◌, arith, inl, inr, Bool-cases,
}
use codespace_ssh_gateway.Shared.Integers.{ℤ, pos, negsuc, to_nat}
use codespace_ssh_gateway.Providers.Errors.{Failure}
use codespace_ssh_gateway.Ssh.Channel.{Channel, Request, Event, react, begin, handle_session}
use codespace_ssh_gateway.Ssh.Answers.{react-Fair}
use codespace_ssh_gateway.Ssh.Exit.{
  ExitStatus, Output, exit_status, line_to, notify, sent_code, send_exit, fail, is_zero, reported,
  pump_end,
}

-- Whether a client is told that its command succeeded.
unfoldable pub succeeds : List Output → Bool
succeeds [] = false
succeeds (exit_status n ∷ out) = n == 0 || succeeds out
succeeds (_ ∷ out) = succeeds out

sent_code_lem : (z : ℤ) → to_nat z < 2 ^ 32 → (sent_code z == 0) ≡ is_zero z
unfolding sent_code
sent_code_lem (pos n) h = let e : n % 2 ^ 32 ≡ n = omega arith in rw e refl
sent_code_lem (negsuc n) h = refl

succeeds-send_exit :
    (status : ExitStatus)
    → succeeds (send_exit status) ≡ (sent_code status.exit_code == 0 && (status.signal == ""))
unfolding succeeds send_exit
succeeds-send_exit status = elim (Bool-cases (status.signal == "")) [
  | inl e ↦ rw e (ground arith)
  | inr e ↦ rw e (ground arith)
]

succeeds-line_to :
    (pty : Bool) (text : String) (out : List Output)
    → succeeds (line_to pty text ∷ out) ≡ succeeds out
unfolding succeeds
succeeds-line_to true text out = refl
succeeds-line_to false text out = refl

reported_success :
    (status : ExitStatus) (failed : Bool)
    → (is_zero (reported status failed).exit_code && ((reported status failed).signal == ""))
      ≡ (not failed && (is_zero status.exit_code && (status.signal == "")))
unfolding reported
reported_success status failed = ground arith

reported_code_lem :
    (status : ExitStatus) (failed : Bool)
    → to_nat status.exit_code < 2 ^ 32
    → to_nat (reported status failed).exit_code < 2 ^ 32
unfolding reported
reported_code_lem status failed h =
    elim (Bool-cases (failed && (is_zero status.exit_code && (status.signal == "")))) [
      | inl e ↦ rw e (omega arith)
      | inr e ↦ rw e h
    ]

-- A client is told that its session succeeded exactly if the connection ended without an error, no
-- signal, and with the code 0, for codes of 32 bits; and never if there was no session.
pub succeeds-pump_end :
    (status : ExitStatus) (failed : Bool) (e : Failure) (st : Channel)
    → to_nat status.exit_code < 2 ^ 32
    → (succeeds (pump_end status failed)
        ≡ (not failed && (is_zero status.exit_code && (status.signal == ""))))
      × (succeeds (fail e st) ≡ false)
unfolding pump_end fail
succeeds-pump_end status failed e st h = (
  succeeds-send_exit (reported status failed)
      ∙ rw (sent_code_lem (reported status failed).exit_code (reported_code_lem status failed h))
          (reported_success status failed),
  succeeds-line_to st.pty _ _
      ∙ succeeds-send_exit (record { exit_code = pos 254; signal = "" })
      ∙ (unfold sent_code in refl),
)

quiet-handle_session :
    (es : List Event) (st : Channel) → st.started ≡ true → (handle_session es st).0.quiet ≡ st.quiet
unfolding handle_session
quiet-handle_session [] st h = refl
quiet-handle_session (e ∷ es) st h =
    let f = (react-Fair e st).frozen h in quiet-handle_session es (react e st).0 f.0 ∙ f.5

begin_lem :
    (req : Request) (kind command name : String) (st : Channel)
    → st.started ≡ false
    → (name == "") ≡ false
    → ((begin req kind command name st).0.started ≡ true)
      × ((begin req kind command name st).0.quiet ≡ true)
unfolding begin
begin_lem req kind command name st new named = rw (new, named) (refl, refl)

-- Once a client has started a subsystem with a name, no notice is written to its channel, which would
-- break the subsystem's protocol, whatever the client asks afterwards.
pub notify-begin :
    (req : Request) (kind command name : String) (st : Channel) (es : List Event) (msg : String)
    → st.started ≡ false
    → (name == "") ≡ false
    → notify msg (handle_session es (begin req kind command name st).0).0 ≡ []
unfolding notify
notify-begin req kind command name st es msg new named =
    let b = begin_lem req kind command name st new named in
    rw (quiet-handle_session es (begin req kind command name st).0 b.0, b.1) refl
