-- ===== src/Github/Sources.antt =====
-- providers/github/source.go. `entries` is what load read and what was set since; the
-- flag beside it says whether flush writes it.
use codespace_ssh_gateway.Shared.Integers.{ℤ}
use codespace_ssh_gateway.Shared.{
  String, Bool, true, false, not, ◌&&◌, Option, none, some, List, [], ◌∷◌, ◌==◌, nat_eq, string_eq,
  if◌then◌else◌,
}
use codespace_ssh_gateway.Shared.Map.{Map, get, put}

pub record EnvSource : Type 0 where
  pub repository : String
  pub branch : String
  pub machine : String
  pub location : String
  pub devcontainer_path : String

pub record CreateConfig : Type 0 where
  pub repository : String
  pub branch : String
  pub machine : String
  pub location : String
  pub devcontainer_path : String
  pub idle_timeout_minutes : ℤ
  pub retention_period_minutes : ℤ
  pub display_name : String

-- `envSource{}`
abbrev pub no_source : EnvSource
no_source = record {
  repository = "";
  branch = "";
  machine = "";
  location = "";
  devcontainer_path = "";
}

-- ==, on the struct
unfoldable pub same_source : EnvSource → EnvSource → Bool
same_source s t =
    s.repository == t.repository
    && (s.branch == t.branch
        && (s.machine == t.machine
            && (s.location == t.location && s.devcontainer_path == t.devcontainer_path)))

abbrev pub or_source : Option EnvSource → EnvSource
or_source none = no_source
or_source (some src) = src

-- One round of remember's loop.
unfoldable pub remember_name : EnvSource → String → Map EnvSource × Bool → Map EnvSource × Bool
remember_name src name (entries, changed) =
    if name == ""
    then (entries, changed)
    else if same_source (or_source (get entries name)) src
    then (entries, changed)
    else (put entries name src, true)

unfoldable pub remember_names :
    EnvSource → List String → Map EnvSource × Bool → Map EnvSource × Bool
remember_names src [] st = st
remember_names src (name ∷ names) st = remember_names src names (remember_name src name st)

-- remember
unfoldable pub remember : EnvSource → List String → Map EnvSource → Map EnvSource × Bool
remember src names entries =
    if src.repository == "" then (entries, false) else remember_names src names (entries, false)

-- A source, if it names a repository.
abbrev pub usable : EnvSource → Option EnvSource
usable src = if src.repository == "" then none else some src

-- lookup
unfoldable pub lookup : String → Map EnvSource → Option EnvSource
lookup name entries = usable (or_source (get entries name))

-- The rounds of any's loop, in whatever order the map is read.
unfoldable pub any_from : EnvSource → Map EnvSource → Option EnvSource
any_from found [] = usable found
any_from found ((name, src) ∷ entries) =
    let kept = any_from found entries in
    let next = any_from src entries in
    if src.repository == ""
    then kept
    else if not (found.repository == "") && not (found.repository == src.repository)
    then none
    else next

-- any
unfoldable pub any : Map EnvSource → Option EnvSource
any entries = any_from no_source entries

abbrev pub or_else : Option EnvSource → Option EnvSource → Option EnvSource
or_else none other = other
or_else (some src) other = some src

-- recallSource
unfoldable pub recall_source : String → Map EnvSource → Option EnvSource
recall_source handle entries = or_else (lookup handle entries) (any entries)

abbrev pub first_text : String → String → String
first_text s t = if s == "" then t else s

-- merge
unfoldable pub merge : EnvSource → CreateConfig → CreateConfig
merge src cfg = record cfg {
  repository = first_text cfg.repository src.repository;
  branch = first_text cfg.branch src.branch;
  machine = first_text cfg.machine src.machine;
  location = first_text cfg.location src.location;
  devcontainer_path = first_text cfg.devcontainer_path src.devcontainer_path;
}
