-- ===== src/Github/Creating.antt =====
-- providers/github/lifecycle.go, Create, for a spec without options, as the lifecycle asks for it;
-- and what Get and Create remember.
use codespace_ssh_gateway.Shared.{
  ℕ, suc, String, ◌⁺◌, Char, code, false, not, ◌&&◌, ◌||◌, Option, none, some, List, [], ◌∷◌, ◌≡◌,
  refl, arith, inl, inr, Bool-cases, ◌==◌, nat_eq, string_eq, eq_iff, if◌then◌else◌,
}
use codespace_ssh_gateway.Shared.Map.{Map}
use codespace_ssh_gateway.Providers.Environment.{Environment}
use codespace_ssh_gateway.Providers.Errors.{Failure, Sentinel, Result, ok, err, is, quoted}
use codespace_ssh_gateway.Github.Sources.{
  remember, EnvSource, CreateConfig, lookup, recall_source, merge, first_text,
}
use codespace_ssh_gateway.Github.Recall.{listed, lookup-remember}
use codespace_ssh_gateway.Github.Client.{Contact, Http, Net, Answer, perform}
use codespace_ssh_gateway.Github.Codespaces.{
  Codespace, Codec, no_codespace, source_of, remember_source, environment, request, Known, known,
  matched, searched, match, found, list_codespaces, get_codespace, get,
}

-- strings.Count(s, "/")
unfoldable pub slashes : String → ℕ
slashes String.[] = 0
slashes (String.◌∷◌ c s) = if code c == b'/' then suc (slashes s) else slashes s

abbrev pub cut_cons : Char → Option (String × String) → Option (String × String)
cut_cons c none = none
cut_cons c (some (before, after)) = some (String.◌∷◌ c before, after)

-- strings.Cut(s, "/")
unfoldable pub cut_slash : String → Option (String × String)
cut_slash String.[] = none
cut_slash (String.◌∷◌ c s) =
    let rest = cut_slash s in if code c == b'/' then some ("", s) else cut_cons c rest

abbrev pub merged : CreateConfig → Option EnvSource → CreateConfig
merged cfg none = cfg
merged cfg (some src) = merge src cfg

module _ (h : Http) (codec : Codec) where
  abbrev pub not_a_name : String → Failure
  not_a_name nwo = Failure.text ("repository " ⁺ (quoted nwo ⁺ " must be owner/name"))

  -- getRepository, from the cut of its name
  unfoldable pub get_repository_at : String → Option (String × String) → Net (Result (ℕ × String))
  get_repository_at nwo none es = (err (not_a_name nwo), es)
  get_repository_at nwo (some (owner, name)) es =
      if owner == "" || name == ""
      then (err (not_a_name nwo), es)
      else (let r =
            perform h codec.message_of codec.repository_of (0, "")
              (request "GET"
                ("/repos/" ⁺ (codec.path_escape owner ⁺ ("/" ⁺ codec.path_escape name))))
              es in
          (r.0.1, r.1))

  unfoldable pub get_repository : String → Net (Result (ℕ × String))
  get_repository nwo = get_repository_at nwo (cut_slash nwo)

  -- createCodespace, and what Create makes of its answer
  unfoldable pub created :
      String → Map EnvSource → Answer Codespace × List Contact → Known h codec × List Contact
  created handle sources ((status, err e), es) = ((err e, sources), es)
  created handle sources ((status, ok cs), es) =
      if cs.name == ""
      then (
        (
          err (Failure.text "github did not return a codespace name for the created codespace"),
          sources,
        ),
        es,
      )
      else (known h codec handle cs sources, es)

  unfoldable pub create_from :
      String
      → Map EnvSource
      → CreateConfig
      → Result (ℕ × String) × List Contact
      → Known h codec × List Contact
  create_from handle sources cfg (err e, es) =
      ((err (Failure.wrap ("look up repository " ⁺ (cfg.repository ⁺ ": ")) "" e), sources), es)
  create_from handle sources cfg (ok (id, full_name), es) = created handle sources (
      perform h codec.message_of codec.codespace_of no_codespace
        (record {
          method = "POST";
          path = "/user/codespaces";
          body = codec.create_body id cfg (first_text cfg.display_name handle);
        })
        es)

  unfoldable pub create_with : String → Map EnvSource → CreateConfig → Net (Known h codec)
  create_with handle sources cfg es =
      if cfg.repository == ""
      then (
        (
          err (
              Failure.text (
                "这个 codespace 不存在，也没有可用来创建的仓库：请在配置文件里设置 "
                ⁺ ("github.create.repository（owner/name），或先在 github.com/codespaces 建一个 "
                    ⁺ "codespace（之后 gateway 会记住它的仓库，删掉再连时自动重建）"))),
          sources,
        ),
        es,
      )
      else create_from handle sources cfg (get_repository cfg.repository es)

  -- Create, with the provider's own create options
  unfoldable pub create : CreateConfig → String → Map EnvSource → Net (Known h codec)
  create cfg handle sources es =
      if not (cfg.repository == "") && not (slashes cfg.repository == 1)
      then ((err (not_a_name cfg.repository), sources), es)
      else if cfg.repository == ""
      then create_with handle sources (merged cfg (recall_source handle sources)) es
      else create_with handle sources cfg es

-- An error leaves the cache alone. Else the environment is that of a codespace, whose source is
-- found again under the handle, if GitHub reports its repository.
abbrev pub Recalled : Codec → String → Map EnvSource → Result Environment × Map EnvSource → Type 0
Recalled codec handle sources (err e, sources') = sources' ≡ sources
Recalled codec handle sources (ok env, sources') =
    (cs : Codespace) × (env ≡ environment codec.parse_time cs)
    × (lookup handle sources'
        ≡ (if cs.repository == "" then lookup handle sources else some (source_of cs)))

module _ (h : Http) (codec : Codec) (handle : String) (sources : Map EnvSource)
    (named : (handle == "") ≡ false) where
  known-Recalled :
      (cs : Codespace) → Recalled codec handle sources (known h codec handle cs sources)
  unfolding remember_source remember listed
  known-Recalled cs = (
    cs,
    refl,
    elim (Bool-cases (cs.repository == "")) [
      | inl silent ↦ rw silent refl
      | inr reported ↦ ground (
        arith,
        reported,
        eq_iff handle handle,
        lookup-remember (source_of cs) (cs.name ∷ cs.display_name ∷ handle ∷ []) sources handle
            reported named,
      )
    ],
  )

  matched-Recalled :
      (r : Option Codespace) → Recalled codec handle sources (matched h codec handle sources r)
  matched-Recalled none = refl
  matched-Recalled (some cs) = known-Recalled cs

  searched-Recalled :
      (r : Result (List Codespace) × List Contact)
      → Recalled codec handle sources (searched h codec handle sources r).0
  searched-Recalled (err e, es) = refl
  searched-Recalled (ok list, es) = matched-Recalled (match h codec handle list)

  found-Recalled :
      (r : Result Codespace × List Contact)
      → Recalled codec handle sources (found h codec handle sources r).0
  unfolding found
  found-Recalled (ok cs, es) = known-Recalled cs
  found-Recalled (err e, es) = elim (Bool-cases (is e Sentinel.not_found)) [
    | inl missing ↦ rw missing (searched-Recalled (list_codespaces h codec es))
    | inr other ↦ rw other refl
  ]

  created-Recalled :
      (r : Answer Codespace × List Contact)
      → Recalled codec handle sources (created h codec handle sources r).0
  unfolding created
  created-Recalled ((status, err e), es) = refl
  created-Recalled ((status, ok cs), es) = elim (Bool-cases (cs.name == "")) [
    | inl nameless ↦ rw nameless refl
    | inr given ↦ rw given (known-Recalled cs)
  ]

  create_from-Recalled :
      (cfg : CreateConfig) (r : Result (ℕ × String) × List Contact)
      → Recalled codec handle sources (create_from h codec handle sources cfg r).0
  unfolding create_from
  create_from-Recalled cfg (err e, es) = refl
  create_from-Recalled cfg (ok (id, full_name), es) = created-Recalled _

  create_with-Recalled :
      (cfg : CreateConfig) (es : List Contact)
      → Recalled codec handle sources (create_with h codec handle sources cfg es).0
  unfolding create_with
  create_with-Recalled cfg es = elim (Bool-cases (cfg.repository == "")) [
    | inl unknown ↦ rw unknown refl
    | inr known_repo ↦
        rw known_repo (create_from-Recalled cfg (get_repository h codec cfg.repository es))
  ]

-- What Get finds under a handle, directly or by its display name, it remembers: if GitHub reports
-- the repository of that codespace, its source is found again under the handle; if not, what is
-- found there is as before. An error leaves the remembered sources as they were.
pub get-Recalled :
    (h : Http) (codec : Codec) (handle : String) (sources : Map EnvSource) (es : List Contact)
    → (handle == "") ≡ false
    → Recalled codec handle sources (get h codec handle sources es).0
unfolding get
get-Recalled h codec handle sources es named =
    rw named (found-Recalled h codec handle sources named (get_codespace h codec handle es))

-- What Create makes for a handle, it remembers: if GitHub reports the repository of the codespace,
-- its source is found again under the handle; if not, what is found there is as before. An error
-- leaves the remembered sources as they were.
pub create-Recalled :
    (h : Http) (codec : Codec) (cfg : CreateConfig) (handle : String) (sources : Map EnvSource)
    (es : List Contact)
    → (handle == "") ≡ false
    → Recalled codec handle sources (create h codec cfg handle sources es).0
unfolding create
create-Recalled h codec cfg handle sources es named =
    elim (Bool-cases (not (cfg.repository == "") && not (slashes cfg.repository == 1))) [
      | inl bad ↦ rw bad refl
      | inr fine ↦ elim (Bool-cases (cfg.repository == "")) [
        | inl unset ↦ rw (fine, unset) (create_with-Recalled h codec handle sources named _ es)
        | inr set ↦ rw (fine, set) (create_with-Recalled h codec handle sources named cfg es)
      ]
    ]
