-- ===== src/Github/Ready.antt =====
-- providers/github/config.go: what applyDefaults leaves.
use text.Mathlib.TextEquality.{Char-path}
use text.Mathlib.TextLemmas.{cons-append, nil-append}
use codespace_ssh_gateway.Shared.{
  String, ◌⁺◌, code, ap, eq_iff, ◌⊎◌, Bool, true, false, not, ◌&&◌, ◌||◌, Option, none, some, ◌==◌,
  nat_eq, string_eq, if◌then◌else◌, ◌≡◌, refl, subst, arith, inl, inr, Bool-cases,
}
use codespace_ssh_gateway.Shared.Integers.{positive, below}
use codespace_ssh_gateway.Providers.Errors.{ok}
use codespace_ssh_gateway.Github.Creating.{slashes}
use codespace_ssh_gateway.Github.Settings.{
  Section, has_prefix, clean_url, connector_of, policy_of, is_zero, idle_out_of_range, check_create,
  with_timeout, with_policy, with_connector, apply_defaults,
}

-- A text of two parts around its one slash; either part may be empty.
abbrev pub HasOneSlash : String → Type 0
HasOneSlash s =
    (owner : String) × (name : String) × (s ≡ owner ⁺ ("/" ⁺ name))
    × (slashes owner ≡ 0)
    × (slashes name ≡ 0)

-- What the provider relies on in its section.
pub record Ready (c : Section) : Type 0 where
  pub api_url : (has_prefix c.api_url "https://" || has_prefix c.api_url "http://") ≡ true
  pub connector :
      ((c.connector == "auto") || ((c.connector == "stdio") || (c.connector == "exec"))) ≡ true
  pub host_key_policy :
      ((c.host_key_policy == "tofu")
        || ((c.host_key_policy == "strict") || (c.host_key_policy == "insecure")))
      ≡ true
  pub request_timeout : positive c.request_timeout ≡ true
  pub idle :
      (is_zero c.create.idle_timeout_minutes
        || (not (below c.create.idle_timeout_minutes 5) && below c.create.idle_timeout_minutes 241))
      ≡ true
  pub repository : (c.create.repository ≡ "") ⊎ HasOneSlash c.create.repository

one_slash : (s : String) → slashes s ≡ 1 → HasOneSlash s
unfolding slashes
one_slash String.[] h = absurd (ground (arith, h))
one_slash (String.◌∷◌ c s) h = elim (Bool-cases (code c == b'/')) [
  | inl here ↦
      let e : code c ≡ code "/" = ground (arith, here) in
      (
        "",
        s,
        rw (nil-append ("/" ⁺ s), cons-append "/" String.[] s, nil-append s)
            (ap (λ d. String.◌∷◌ d s) (Char-path c "/" e)),
        refl,
        ground (arith, h, here),
      )
  | inr later ↦
      let r = one_slash s (rw later at h) in
      (
        String.◌∷◌ c r.0,
        r.1,
        rw (cons-append c r.0 ("/" ⁺ r.1)) (ap (String.◌∷◌ c) r.2),
        rw later r.3,
        r.4,
      )
]

repository_lem :
    (s : String) → (not (s == "") && not (slashes s == 1)) ≡ false → (s ≡ "") ⊎ HasOneSlash s
repository_lem s h = elim (Bool-cases (s == "")) [
  | inl unset ↦ inl (ground (arith, unset, eq_iff s ""))
  | inr set ↦ inr (one_slash s (ground (arith, h, set)))
]

module _ (c c' : Section) where
  create_lem :
      check_create c ≡ ok c'
      → (c ≡ c')
        × (idle_out_of_range c.create.idle_timeout_minutes ≡ false)
        × ((not (c.create.repository == "") && not (slashes c.create.repository == 1)) ≡ false)
  unfolding check_create
  create_lem h = ground (arith, h)

  policy_lem :
      (o : Option String)
      → with_policy c o ≡ ok c'
      → (policy : String) × (o ≡ some policy)
        × (check_create (with_timeout (record c { host_key_policy = policy })) ≡ ok c')
  unfolding with_policy
  policy_lem none h = absurd (ground (arith, h))
  policy_lem (some policy) h = (policy, refl, h)

  connector_lem :
      (o : Option String)
      → with_connector c o ≡ ok c'
      → (name : String) × (o ≡ some name)
        × (with_policy (record c { connector = name }) (policy_of c.host_key_policy) ≡ ok c')
  unfolding with_connector
  connector_lem none h = absurd (ground (arith, h))
  connector_lem (some name) h = (name, refl, h)

-- A switch that lets the values of `P` through and puts `d` for the empty text.
switch_lem :
    (P : String → Bool) (b : Bool) (d s t : String)
    → P d ≡ true
    → (if b then some d else if P s then some s else none) ≡ some t
    → P t ≡ true
switch_lem P true d s t p h = subst (λ z. P z ≡ true) (ground (arith, h)) p
switch_lem P false d s t p h = elim (Bool-cases (P s)) [
  | inl e ↦ subst (λ z. P z ≡ true) (ground (arith, rw e at h)) e
  | inr e ↦ absurd (ground (arith, rw e at h))
]

connector_of_lem :
    (s t : String)
    → connector_of s ≡ some t
    → ((t == "auto") || ((t == "stdio") || (t == "exec"))) ≡ true
unfolding connector_of
connector_of_lem s t h =
    switch_lem (λ z. (z == "auto") || ((z == "stdio") || (z == "exec"))) (s == "") "auto" s t refl h

policy_of_lem :
    (s t : String)
    → policy_of s ≡ some t
    → ((t == "tofu") || ((t == "strict") || (t == "insecure"))) ≡ true
unfolding policy_of
policy_of_lem s t h =
    switch_lem (λ z. (z == "tofu") || ((z == "strict") || (z == "insecure"))) (s == "") "tofu" s t
      refl h

-- applyDefaults accepts a section only with an http(s) address, one of the connectors and one of the
-- policies for host keys, a positive timeout, an idle timeout that is 0 or within GitHub's limits, and
-- no repository or one of two parts around exactly one slash, where the parts may be empty.
pub apply_defaults-Ready : (c c' : Section) → apply_defaults c ≡ ok c' → Ready c'
unfolding apply_defaults with_timeout idle_out_of_range
apply_defaults-Ready c c' h =
    let url = clean_url c.api_url in
    let good : (not (has_prefix url "https://") && not (has_prefix url "http://")) ≡ false =
      ground (arith, h) in
    let n = connector_lem _ c' (connector_of c.connector) (rw good at h) in
    let p = policy_lem _ c' (policy_of c.host_key_policy) n.2 in
    let k = create_lem _ c' p.2 in
    subst Ready k.0 (record {
      api_url = ground (arith, good);
      connector = connector_of_lem c.connector n.0 n.1;
      host_key_policy = policy_of_lem c.host_key_policy p.0 p.1;
      request_timeout = ground arith;
      idle = ground (arith, k.1);
      repository = repository_lem _ k.2;
    })
