-- ===== src/Config/Order.antt =====
-- core/config/load.go, the loop over the top-level keys: what it decodes does not depend on the order
-- in which a Go map gives them.
use codespace_ssh_gateway.Shared.{
  String, Bool, true, false, Option, none, some, [], ◌∷◌, ◌==◌, string_eq, eq_iff, if◌then◌else◌,
  ◌≡◌, refl, sym, ◌∙◌, ap, subst, arith,
}
use codespace_ssh_gateway.Shared.Map.{Map, get, Unique}
use codespace_ssh_gateway.Providers.Errors.{Result, ok, err}
use codespace_ssh_gateway.Config.{Config}
use codespace_ssh_gateway.Config.Load.{Yaml, decode_key, placed, and_then, decode_keys}
use codespace_ssh_gateway.Config.Keys.{field, Decoded, single, decode_key-Decoded}

module _ {Node : Type 0} (yaml : Yaml Node) where
  module _ {V : Type 0} (f : Node → V → Result V) where
    field_next :
        (b : Bool) (n : Node) (r : Option Node) (v v₁ v' : V)
        → (b ≡ true → r ≡ none)
        → field f (if b then some n else none) v ≡ ok v₁
        → field f r v₁ ≡ ok v'
        → field f (if b then some n else r) v ≡ ok v'
    field_next true n r v v₁ v' fresh h₁ h₂ = h₁ ∙ rw (fresh refl) at h₂
    field_next false n r v v₁ v' fresh h₁ h₂ =
        let e : v₁ ≡ v = ground (arith, h₁) in subst (λ z. field f r z ≡ ok v') e h₂

  both-Decoded :
      (key : String) (n : Node) (top : Map Node) (c c₁ c' : Config Node)
      → get top key ≡ none
      → Decoded yaml (single yaml key n) c c₁
      → Decoded yaml (get top) c₁ c'
      → Decoded yaml (λ k. if key == k then some n else get top k) c c'
  both-Decoded key n top c c₁ c' u d r =
      let fresh : (k : String) → (key == k) ≡ true → get top k ≡ none =
        λ k e. subst (λ z. get top z ≡ none) ((eq_iff key k).0 e) u in
      record {
        provider =
            field_next yaml.text (key == "provider") n (get top "provider") c.provider c₁.provider
              c'.provider (fresh "provider") d.provider r.provider;
        state_dir =
            field_next yaml.text (key == "state_dir") n (get top "state_dir") c.state_dir
              c₁.state_dir c'.state_dir (fresh "state_dir") d.state_dir r.state_dir;
        ssh =
            field_next yaml.ssh (key == "ssh") n (get top "ssh") c.ssh c₁.ssh c'.ssh (fresh "ssh")
              d.ssh r.ssh;
        lifecycle =
            field_next yaml.lifecycle (key == "lifecycle") n (get top "lifecycle") c.lifecycle
              c₁.lifecycle c'.lifecycle (fresh "lifecycle") d.lifecycle r.lifecycle;
        log =
            field_next yaml.log (key == "log") n (get top "log") c.log c₁.log c'.log (fresh "log")
              d.log r.log;
        control =
            field_next yaml.control (key == "control") n (get top "control") c.control c₁.control
              c'.control (fresh "control") d.control r.control;
        sections = λ k. ground (arith, d.sections k, r.sections k, fresh k);
        path = r.path ∙ d.path;
        warnings = r.warnings ∙ d.warnings;
      }

  and_then_lem :
      (path key : String) (r : Result (Config Node)) (f : Config Node → Result (Config Node))
      (c' : Config Node)
      → and_then yaml (placed yaml path key r) f ≡ ok c'
      → (c₁ : Config Node) × (r ≡ ok c₁) × (f c₁ ≡ ok c')
  and_then_lem path key (ok c₁) f c' h = (c₁, refl, h)
  and_then_lem path key (err e) f c' h = absurd (ground (arith, h))

  same-Decoded : (c : Config Node) → Decoded yaml (get []) c c
  unfolding get
  same-Decoded c = record {
    provider = refl;
    state_dir = refl;
    ssh = refl;
    lifecycle = refl;
    log = refl;
    control = refl;
    sections = λ k. ground arith;
    path = refl;
    warnings = refl;
  }

  -- Whatever the order of the keys, the loop makes of each section what its own decoder makes of it,
  -- and keeps the keys that are no core keys for the providers.
  pub decode_keys-Decoded :
      (path : String) (top : Map Node) (c c' : Config Node)
      → Unique top
      → decode_keys yaml path top c ≡ ok c'
      → Decoded yaml (get top) c c'
  unfolding decode_keys get
  decode_keys-Decoded path [] c c' u h =
      subst (Decoded yaml (get []) c) (ground (arith, h)) (same-Decoded c)
  decode_keys-Decoded path ((key, n) ∷ top) c c' u h =
      let a = and_then_lem path key (decode_key yaml key n c) (decode_keys yaml path top) c' h in
      both-Decoded key n top c a.0 c' u.0 (decode_key-Decoded yaml n c a.0 key a.1)
        (decode_keys-Decoded path top a.0 c' u.1 a.2)

  -- Two results of one value of a section are one.
  one_result :
      {V : Type 0} (f : Node → V → Result V) (o₁ o₂ : Option Node) (v v₁ v₂ : V)
      → o₁ ≡ o₂
      → field f o₁ v ≡ ok v₁
      → field f o₂ v ≡ ok v₂
      → v₁ ≡ v₂
  one_result f o₁ o₂ v v₁ v₂ same h₁ h₂ =
      let e : ok v₁ ≡ ok v₂ = sym h₁ ∙ ap (λ o. field f o v) same ∙ h₂ in ground (arith, e)

  -- Two configurations with the same settings, and with the same section under each key.
  abbrev pub SameConfig : Config Node → Config Node → Type 0
  SameConfig c c' =
      (c.provider ≡ c'.provider)
      × (c.state_dir ≡ c'.state_dir)
      × (c.ssh ≡ c'.ssh)
      × (c.lifecycle ≡ c'.lifecycle)
      × (c.log ≡ c'.log)
      × (c.control ≡ c'.control)
      × ((k : String) → get c.sections k ≡ get c'.sections k)

  -- The order in which Go goes through the keys does not matter: if two orders of the same keys are
  -- both decoded without an error, the settings are the same, and each provider's section is.
  pub decode_keys_order :
      (path : String) (top₁ top₂ : Map Node) (c c₁ c₂ : Config Node)
      → Unique top₁
      → Unique top₂
      → ((k : String) → get top₁ k ≡ get top₂ k)
      → decode_keys yaml path top₁ c ≡ ok c₁
      → decode_keys yaml path top₂ c ≡ ok c₂
      → SameConfig c₁ c₂
  decode_keys_order path top₁ top₂ c c₁ c₂ u₁ u₂ same h₁ h₂ =
      let d = decode_keys-Decoded path top₁ c c₁ u₁ h₁ in
      let e = decode_keys-Decoded path top₂ c c₂ u₂ h₂ in
      (
        one_result yaml.text _ _ c.provider _ _ (same "provider") d.provider e.provider,
        one_result yaml.text _ _ c.state_dir _ _ (same "state_dir") d.state_dir e.state_dir,
        one_result yaml.ssh _ _ c.ssh _ _ (same "ssh") d.ssh e.ssh,
        one_result yaml.lifecycle _ _ c.lifecycle _ _ (same "lifecycle") d.lifecycle e.lifecycle,
        one_result yaml.log _ _ c.log _ _ (same "log") d.log e.log,
        one_result yaml.control _ _ c.control _ _ (same "control") d.control e.control,
        λ k. d.sections k ∙ rw (same k) refl ∙ sym (e.sections k),
      )
