-- ===== src/Ssh/Answers.antt =====
-- ssh/session.go: what a channel keeps, whatever its client asks.
use codespace_ssh_gateway.Shared.{
  ℕ, suc, ◌+◌, String, Bool, true, false, Option, none, some, List, [], ◌∷◌, ◌++◌, ◌≡◌, refl, ◌∙◌,
  ap, arith, inl, inr, Bool-cases, string_eq, if◌then◌else◌,
}
use codespace_ssh_gateway.Gateway.Names.{Login}
use codespace_ssh_gateway.Gateway.Opening.{OpenRequest}
use codespace_ssh_gateway.Ssh.Channel.{
  clamp_dimension, Kind, pty_req, env, window_change, signal, shell, exec, subsystem, other,
  Request, Channel, Effect, replied, resized, signalled, ran, reply, resize, resize_conn,
  signal_conn, forward_signal, begin, set_pty, set_env, Event, asked, connected, react, set_conn,
  handle_kind, handle, handle_session, forwarded_env, open_request, environment_hint,
}

unfoldable pub runs : List Effect → ℕ
runs [] = 0
runs (ran kind command name ∷ es) = suc (runs es)
runs (_ ∷ es) = runs es

unfoldable pub replies : List Effect → ℕ
replies [] = 0
replies (replied ok ∷ es) = suc (replies es)
replies (_ ∷ es) = replies es

abbrev pub bit : Bool → ℕ
bit b = if b then 1 else 0

runs-append : (xs ys : List Effect) → runs (xs ++ ys) ≡ runs xs + runs ys
unfolding runs
runs-append [] ys = omega arith
runs-append (replied ok ∷ xs) ys = runs-append xs ys
runs-append (resized c r k ∷ xs) ys = runs-append xs ys
runs-append (signalled c n ∷ xs) ys = runs-append xs ys
runs-append (ran k c n ∷ xs) ys = omega (arith, runs-append xs ys)

replies-append : (xs ys : List Effect) → replies (xs ++ ys) ≡ replies xs + replies ys
unfolding replies
replies-append [] ys = omega arith
replies-append (replied ok ∷ xs) ys = omega (arith, replies-append xs ys)
replies-append (resized c r k ∷ xs) ys = replies-append xs ys
replies-append (signalled c n ∷ xs) ys = replies-append xs ys
replies-append (ran k c n ∷ xs) ys = replies-append xs ys

-- Whether an event wants a reply.
abbrev pub asks : Event → Bool
asks (asked req) = req.want_reply
asks (connected conn) = false

-- The requests that want a reply.
unfoldable pub wanted : List Event → ℕ
wanted [] = 0
wanted (e ∷ es) = bit (asks e) + wanted es

-- One event: it is answered once if it wants to be, and it starts a run exactly if it marks the
-- channel as started.
pub record Fair (b : Bool) (st : Channel) (r : Channel × List Effect) : Type 0 where
  pub answered : replies r.1 ≡ bit b
  pub started_once : bit st.started + runs r.1 ≡ bit r.0.started
  -- a started channel keeps what its session was opened with
  pub frozen :
      st.started ≡ true
      → (r.0.started ≡ true)
        × (r.0.pty ≡ st.pty)
        × (r.0.term ≡ st.term)
        × (r.0.modes ≡ st.modes)
        × (r.0.env ≡ st.env)
        × (r.0.quiet ≡ st.quiet)

-- The calls of the connection neither answer the client nor start anything.
abbrev Calls : List Effect → Type 0
Calls es = (replies es ≡ 0) × (runs es ≡ 0)

resize_conn_lem : (o : Option ℕ) (rows cols : ℕ) → Calls (resize_conn o rows cols)
unfolding runs replies
resize_conn_lem none rows cols = (refl, refl)
resize_conn_lem (some conn) rows cols = (ground arith, ground arith)

signal_conn_lem : (o : Option ℕ) (name : String) → Calls (signal_conn o name)
unfolding runs replies
signal_conn_lem none name = (refl, refl)
signal_conn_lem (some conn) name = (refl, refl)

module _ (req : Request) (st : Channel) where
  reply_lem :
      (ok : Bool) → (replies (reply req ok) ≡ bit req.want_reply) × (runs (reply req ok) ≡ 0)
  unfolding reply replies runs
  reply_lem ok = ground arith

  refuses-Fair : (ok : Bool) → Fair req.want_reply st (st, reply req ok)
  refuses-Fair ok = record {
    answered = (reply_lem ok).0;
    started_once = omega (arith, (reply_lem ok).1);
    frozen = λ h. (h, refl, refl, refl, refl, refl);
  }

  begin-Fair :
      (kind command name : String) → Fair req.want_reply st (begin req kind command name st)
  unfolding begin runs replies reply
  begin-Fair kind command name = elim (Bool-cases st.started) [
    | inl old ↦ record {
      answered = ground (arith, old);
      started_once = ground (arith, old);
      frozen = λ h. ground (arith, old);
    }
    | inr new ↦ record {
      answered = ground (arith, new);
      started_once = ground (arith, new);
      frozen = λ h. cc;
    }
  ]

  -- A request whose effects are calls and then its reply, on a channel with another size.
  beside_reply :
      (calls : List Effect) (rows cols : ℕ)
      → Calls calls
      → Fair req.want_reply st (record st { rows = rows; cols = cols }, calls ++ reply req true)
  beside_reply calls rows cols silent = record {
    answered = omega (arith, silent.0, replies-append calls (reply req true), (reply_lem true).0);
    started_once = omega (arith, silent.1, runs-append calls (reply req true), (reply_lem true).1);
    frozen = λ h. (h, refl, refl, refl, refl, refl);
  }

  handle_kind-Fair : (k : Kind) → Fair req.want_reply st (handle_kind req k st)
  unfolding handle_kind set_pty set_env resize forward_signal reply runs replies
  handle_kind-Fair (pty_req none) = refuses-Fair false
  handle_kind-Fair (pty_req (some m)) = record {
    answered = ground (arith);
    started_once = ground (arith);
    frozen = λ h. ground (arith, h);
  }
  handle_kind-Fair (env none) = refuses-Fair false
  handle_kind-Fair (env (some (name, value))) = record {
    answered = ground (arith);
    started_once = ground (arith);
    frozen = λ h. ground (arith, h);
  }
  handle_kind-Fair (window_change none) = refuses-Fair false
  handle_kind-Fair (window_change (some m)) =
      beside_reply (resize_conn st.conn (clamp_dimension m.rows) (clamp_dimension m.columns))
        (clamp_dimension m.rows) (clamp_dimension m.columns)
        (resize_conn_lem st.conn (clamp_dimension m.rows) (clamp_dimension m.columns))
  handle_kind-Fair (signal none) = refuses-Fair true
  handle_kind-Fair (signal (some name)) =
      beside_reply (signal_conn st.conn name) st.rows st.cols (signal_conn_lem st.conn name)
  handle_kind-Fair shell = begin-Fair "shell" "" ""
  handle_kind-Fair (exec none) = refuses-Fair false
  handle_kind-Fair (exec (some command)) = begin-Fair "exec" command ""
  handle_kind-Fair (subsystem none) = refuses-Fair false
  handle_kind-Fair (subsystem (some name)) = begin-Fair "subsystem" "" name
  handle_kind-Fair (other name) = refuses-Fair false

-- The same of an event.
pub react-Fair : (e : Event) (st : Channel) → Fair (asks e) st (react e st)
unfolding react handle set_conn
react-Fair (asked req) st = handle_kind-Fair req st req.kind
react-Fair (connected conn) st = record {
  answered = (resize_conn_lem (some conn) st.rows st.cols).0;
  started_once = omega (arith, (resize_conn_lem (some conn) st.rows st.cols).1);
  frozen = λ h. (h, refl, refl, refl, refl, refl);
}

-- A channel answers as many times as its client's requests want, whatever the run does meanwhile.
pub replies-handle_session :
    (es : List Event) (st : Channel) → replies (handle_session es st).1 ≡ wanted es
unfolding handle_session replies wanted
replies-handle_session [] st = refl
replies-handle_session (e ∷ es) st =
    let rest = handle_session es (react e st).0 in
    omega (
      arith,
      replies-append (react e st).1 rest.1,
      (react-Fair e st).answered,
      replies-handle_session es (react e st).0,
    )

-- A channel starts a session once: the runs, with one for a channel that had started before, are as
-- many as the mark says, so at most one.
pub runs-handle_session :
    (es : List Event) (st : Channel)
    → bit st.started + runs (handle_session es st).1 ≡ bit (handle_session es st).0.started
unfolding handle_session runs
runs-handle_session [] st = omega arith
runs-handle_session (e ∷ es) st =
    let rest = handle_session es (react e st).0 in
    omega (
      arith,
      runs-append (react e st).1 rest.1,
      (react-Fair e st).started_once,
      runs-handle_session es (react e st).0,
    )

-- A request of the backend, with another size of the terminal.
abbrev pub with_size : ℕ → ℕ → OpenRequest → OpenRequest
with_size rows cols req = record req { connect = record req.connect { rows = rows; cols = cols } }

module _ (login : Login) (remote_addr client_version key_fingerprint command name : String) where
  abbrev pub of_channel : Channel → OpenRequest
  of_channel st = open_request login remote_addr client_version key_fingerprint command name st

  open_request-react :
      (e : Event) (st : Channel)
      → st.started ≡ true
      → of_channel (react e st).0
        ≡ with_size (react e st).0.rows (react e st).0.cols (of_channel st)
  unfolding open_request forwarded_env environment_hint
  open_request-react e st h = let f = (react-Fair e st).frozen h in rw (f.1, f.2, f.3, f.4) refl

  -- On a channel that has started, run asks the backend for the same session whenever it reads the
  -- channel, but for the size of the terminal: no later request of the client changes the rest.
  pub open_request-handle_session :
      (es : List Event) (st : Channel)
      → st.started ≡ true
      → of_channel (handle_session es st).0
        ≡ with_size (handle_session es st).0.rows (handle_session es st).0.cols (of_channel st)
  unfolding handle_session open_request
  open_request-handle_session [] st h = refl
  open_request-handle_session (e ∷ es) st h =
      open_request-handle_session es (react e st).0 ((react-Fair e st).frozen h).0
      ∙ ap (with_size _ _) (open_request-react e st h)
