-- ===== src/Session/Listed.antt =====
-- core/session/session.go, List: its answer in every order of the registry's map.
use codespace_ssh_gateway.Shared.{
  ℕ, String, Option, none, some, List, [], ◌∷◌, ◌==◌, nat_eq, string_eq, if◌then◌else◌, ◌≡◌,
}
use codespace_ssh_gateway.Shared.Map.{Map, get}
use codespace_ssh_gateway.Session.Manager.{Info, Session, Manager}

-- The entries of a list of sessions that have an id, in their order.
unfoldable pub with_id : String → List Info → List Info
with_id k [] = []
with_id k (a ∷ l) = if a.id == k then a ∷ with_id k l else with_id k l

abbrev pub info_of : Option Session → List Info
info_of none = []
info_of (some s) = s.info ∷ []

abbrev pub info_at : (ℕ → Option Session) → Option ℕ → List Info
info_at cells none = []
info_at cells (some p) = info_of (cells p)

-- The data of the session that the registry holds under an id, if it holds one.
abbrev pub registered_as : Manager → String → List Info
registered_as m k = info_at m.cells (get m.by_id k)

-- An entry of the registry's map leads to a session with the entry's key as its id.
abbrev Named : (ℕ → Option Session) → String × ℕ → Type 0
Named cells e = (s : Session) × (cells e.1 ≡ some s) × (s.info.id ≡ e.0)
