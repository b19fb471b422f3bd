-- ===== src/Github/Recall.antt =====
-- providers/github/source.go and cache.go: what is remembered is found again.
use codespace_ssh_gateway.Shared.{
  String, Bool, true, false, not, ◌&&◌, ◌||◌, some, List, [], ◌∷◌, ◌≡◌, refl, inl, inr, arith,
  Bool-cases, ◌==◌, nat_eq, string_eq, eq_iff, if◌then◌else◌,
}
use codespace_ssh_gateway.Shared.Map.{Map, get, get-put}
use codespace_ssh_gateway.Github.Sources.{
  EnvSource, no_source, same_source, or_source, remember_name, remember_names, remember, usable,
  lookup, any_from, any,
}

unfoldable pub listed : String → List String → Bool
listed name [] = false
listed name (n ∷ names) = n == name || listed name names

same_source→eq : (s t : EnvSource) → same_source s t ≡ true → s ≡ t
unfolding same_source
same_source→eq s t h = ground (
  arith,
  h,
  eq_iff s.repository t.repository,
  eq_iff s.branch t.branch,
  eq_iff s.machine t.machine,
  eq_iff s.location t.location,
  eq_iff s.devcontainer_path t.devcontainer_path,
)

-- One round writes its own name, and no other.
remember_name_lem :
    (src : EnvSource) (name j : String) (st : Map EnvSource × Bool)
    → or_source (get (remember_name src name st).0 j)
      ≡ (if name == j && not (name == "") then src else or_source (get st.0 j))
unfolding remember_name
remember_name_lem src name j (entries, changed) = elim (Bool-cases (name == "")) [
  | inl empty ↦ rw empty (ground arith)
  | inr named ↦ elim (Bool-cases (same_source (or_source (get entries name)) src)) [
    | inl old ↦
        simp (named, old)
          (ground
            (arith, named, eq_iff name j, same_source→eq (or_source (get entries name)) src old))
    | inr new ↦ simp (named, new) (ground (arith, named, get-put entries name src j))
  ]
]

remember_names_lem :
    (src : EnvSource) (names : List String) (j : String) (st : Map EnvSource × Bool)
    → (j == "") ≡ false
    → or_source (get (remember_names src names st).0 j)
      ≡ (if listed j names then src else or_source (get st.0 j))
unfolding remember_names listed
remember_names_lem src [] j st h = refl
remember_names_lem src (n ∷ names) j st h = ground (
  arith,
  h,
  eq_iff n j,
  remember_names_lem src names j (remember_name src n st) h,
  remember_name_lem src n j st,
)

-- A source that names a repository is found again under each of the names that it was remembered
-- under, except the empty one; what is found under other names is as before.
pub lookup-remember :
    (src : EnvSource) (names : List String) (entries : Map EnvSource) (name : String)
    → (src.repository == "") ≡ false
    → (name == "") ≡ false
    → lookup name (remember src names entries).0
      ≡ (if listed name names then some src else lookup name entries)
unfolding lookup remember
lookup-remember src names entries name usable named =
    rw usable (ground (arith, usable, remember_names_lem src names name (entries, false) named))

-- Whether every entry that names a repository names this one.
unfoldable pub agree : String → Map EnvSource → Bool
agree repository [] = true
agree repository ((name, src) ∷ entries) =
    (src.repository == "" || src.repository == repository) && agree repository entries

any_from_lem :
    (found : EnvSource) (entries : Map EnvSource) (src : EnvSource)
    → any_from found entries ≡ some src
    → ((src.repository == "") ≡ false)
      × ((found.repository == "" || found.repository == src.repository) ≡ true)
      × (agree src.repository entries ≡ true)
unfolding any_from agree
any_from_lem found [] src h = ground (arith, h, eq_iff found.repository src.repository)
any_from_lem found ((name, s) ∷ entries) src h = elim (Bool-cases (s.repository == "")) [
  | inl empty ↦ ground (arith, h, empty, any_from_lem found entries src)
  | inr named ↦ ground (
    arith,
    h,
    named,
    any_from_lem s entries src,
    eq_iff found.repository s.repository,
    eq_iff s.repository src.repository,
    eq_iff found.repository src.repository,
  )
]

-- What any returns names a repository, and no remembered source names another one.
pub any_lem :
    (entries : Map EnvSource) (src : EnvSource)
    → any entries ≡ some src
    → ((src.repository == "") ≡ false) × (agree src.repository entries ≡ true)
unfolding any
any_lem entries src h = let r = any_from_lem no_source entries src h in (r.0, r.2)
