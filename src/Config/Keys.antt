-- ===== src/Config/Keys.antt =====
-- core/config/load.go, the body of the loop over the top-level keys: what it makes of a configuration.
use codespace_ssh_gateway.Shared.{
  String, false, Option, none, some, ◌==◌, string_eq, eq_iff, if◌then◌else◌, ◌≡◌, refl, sym, subst,
  arith, inl, inr, Bool-cases,
}
use codespace_ssh_gateway.Shared.Map.{get, get-put}
use codespace_ssh_gateway.Providers.Errors.{Result, ok}
use codespace_ssh_gateway.Config.{Config}
use codespace_ssh_gateway.Config.Load.{Yaml, core_key, decode_core, decode_key}

-- The value after a key that may be there has been decoded into it.
abbrev pub field : {N V : Type 0} → (N → V → Result V) → Option N → V → Result V
field f none v = ok v
field f (some n) v = f n v

abbrev pub either : {A : Type 0} → Option A → Option A → Option A
either none o = o
either (some a) o = some a

module _ {Node : Type 0} (yaml : Yaml Node) where
  -- What the keys that `at` finds make of a configuration.
  pub record Decoded (at : String → Option Node) (c c' : Config Node) : Type 0 where
    pub provider : field yaml.text (at "provider") c.provider ≡ ok c'.provider
    pub state_dir : field yaml.text (at "state_dir") c.state_dir ≡ ok c'.state_dir
    pub ssh : field yaml.ssh (at "ssh") c.ssh ≡ ok c'.ssh
    pub lifecycle : field yaml.lifecycle (at "lifecycle") c.lifecycle ≡ ok c'.lifecycle
    pub log : field yaml.log (at "log") c.log ≡ ok c'.log
    pub control : field yaml.control (at "control") c.control ≡ ok c'.control
    pub sections :
        (k : String)
        → get c'.sections k
          ≡ (if core_key k then get c.sections k else either (at k) (get c.sections k))
    pub path : c'.path ≡ c.path
    pub warnings : c'.warnings ≡ c.warnings

  abbrev pub single : String → Node → String → Option Node
  single key n k = if key == k then some n else none

  module _ (n : Node) (c c' : Config Node) where
    provider-Decoded : decode_key yaml "provider" n c ≡ ok c' → Decoded (single "provider" n) c c'
    unfolding decode_key decode_core core_key
    provider-Decoded h = record {
      provider = ground (arith, h);
      state_dir = ground (arith, h);
      ssh = ground (arith, h);
      lifecycle = ground (arith, h);
      log = ground (arith, h);
      control = ground (arith, h);
      sections = λ k. ground (arith, h, eq_iff "provider" k);
      path = ground (arith, h);
      warnings = ground (arith, h);
    }

    state_dir-Decoded :
        decode_key yaml "state_dir" n c ≡ ok c' → Decoded (single "state_dir" n) c c'
    unfolding decode_key decode_core core_key
    state_dir-Decoded h = record {
      provider = ground (arith, h);
      state_dir = ground (arith, h);
      ssh = ground (arith, h);
      lifecycle = ground (arith, h);
      log = ground (arith, h);
      control = ground (arith, h);
      sections = λ k. ground (arith, h, eq_iff "state_dir" k);
      path = ground (arith, h);
      warnings = ground (arith, h);
    }

    ssh-Decoded : decode_key yaml "ssh" n c ≡ ok c' → Decoded (single "ssh" n) c c'
    unfolding decode_key decode_core core_key
    ssh-Decoded h = record {
      provider = ground (arith, h);
      state_dir = ground (arith, h);
      ssh = ground (arith, h);
      lifecycle = ground (arith, h);
      log = ground (arith, h);
      control = ground (arith, h);
      sections = λ k. ground (arith, h, eq_iff "ssh" k);
      path = ground (arith, h);
      warnings = ground (arith, h);
    }

    lifecycle-Decoded :
        decode_key yaml "lifecycle" n c ≡ ok c' → Decoded (single "lifecycle" n) c c'
    unfolding decode_key decode_core core_key
    lifecycle-Decoded h = record {
      provider = ground (arith, h);
      state_dir = ground (arith, h);
      ssh = ground (arith, h);
      lifecycle = ground (arith, h);
      log = ground (arith, h);
      control = ground (arith, h);
      sections = λ k. ground (arith, h, eq_iff "lifecycle" k);
      path = ground (arith, h);
      warnings = ground (arith, h);
    }

    log-Decoded : decode_key yaml "log" n c ≡ ok c' → Decoded (single "log" n) c c'
    unfolding decode_key decode_core core_key
    log-Decoded h = record {
      provider = ground (arith, h);
      state_dir = ground (arith, h);
      ssh = ground (arith, h);
      lifecycle = ground (arith, h);
      log = ground (arith, h);
      control = ground (arith, h);
      sections = λ k. ground (arith, h, eq_iff "log" k);
      path = ground (arith, h);
      warnings = ground (arith, h);
    }

    control-Decoded : decode_key yaml "control" n c ≡ ok c' → Decoded (single "control" n) c c'
    unfolding decode_key decode_core core_key
    control-Decoded h = record {
      provider = ground (arith, h);
      state_dir = ground (arith, h);
      ssh = ground (arith, h);
      lifecycle = ground (arith, h);
      log = ground (arith, h);
      control = ground (arith, h);
      sections = λ k. ground (arith, h, eq_iff "control" k);
      path = ground (arith, h);
      warnings = ground (arith, h);
    }

    section-Decoded :
        (key : String)
        → core_key key ≡ false
        → decode_key yaml key n c ≡ ok c'
        → Decoded (single key n) c c'
    unfolding decode_key core_key
    section-Decoded key o h = record {
      provider = ground (arith, h, o);
      state_dir = ground (arith, h, o);
      ssh = ground (arith, h, o);
      lifecycle = ground (arith, h, o);
      log = ground (arith, h, o);
      control = ground (arith, h, o);
      sections = λ k. ground (arith, h, o, eq_iff key k, get-put c.sections key n k);
      path = ground (arith, h, o);
      warnings = ground (arith, h, o);
    }

    abbrev pub AtKey : String → Type 0
    AtKey key = decode_key yaml key n c ≡ ok c' → Decoded (single key n) c c'

    or_case :
        (key literal : String) → AtKey literal → ((key == literal) ≡ false → AtKey key) → AtKey key
    or_case key literal here other = elim (Bool-cases (key == literal)) [
      | inl e ↦ subst AtKey (sym ((eq_iff key literal).0 e)) here
      | inr e ↦ other e
    ]

    pub decode_key-Decoded : (key : String) → AtKey key
    unfolding core_key
    decode_key-Decoded key = or_case key "provider" provider-Decoded (λ p.
        or_case key "state_dir" state_dir-Decoded (λ d. or_case key "ssh" ssh-Decoded (λ s.
          or_case key "lifecycle" lifecycle-Decoded (λ f. or_case key "log" log-Decoded (λ l.
            or_case key "control" control-Decoded
              (λ o. section-Decoded key (rw (p, d, s, f, l, o) refl)))))))
