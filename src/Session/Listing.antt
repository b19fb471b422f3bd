-- ===== src/Session/Listing.antt =====
-- core/session/session.go: List. Go goes through the map in any order, and sort.Slice gives a sorted
-- list; texts are compared by their characters, which is the order of their bytes in UTF-8.
use codespace_ssh_gateway.Shared.{
  ℕ, String, code, Bool, true, false, Option, none, some, List, [], ◌∷◌, ◌==◌, nat_eq, ltb,
  if◌then◌else◌,
}
use codespace_ssh_gateway.Shared.Map.{Map}
use codespace_ssh_gateway.Session.Manager.{Info, Session, Manager}

-- `a < b`, of texts
unfoldable pub text_before : String → String → Bool
text_before String.[] String.[] = false
text_before String.[] (String.◌∷◌ d t) = true
text_before (String.◌∷◌ c s) String.[] = false
text_before (String.◌∷◌ c s) (String.◌∷◌ d t) =
    let rest = text_before s t in if code c == code d then rest else ltb (code c) (code d)

-- The order of List.
unfoldable pub before : Info → Info → Bool
before a b =
    if a.started_at == b.started_at then text_before a.id b.id else ltb a.started_at b.started_at

-- sort.Slice
unfoldable pub insert : Info → List Info → List Info
insert a [] = a ∷ []
insert a (b ∷ l) = let rest = insert a l in if before b a then b ∷ rest else a ∷ b ∷ l

unfoldable pub sort : List Info → List Info
sort [] = []
sort (a ∷ l) = insert a (sort l)

-- The sessions of the registry, in an order of its map.
abbrev pub with_info : Option Session → List Info → List Info
with_info none l = l
with_info (some s) l = s.info ∷ l

unfoldable pub infos : (ℕ → Option Session) → Map ℕ → List Info
infos cells [] = []
infos cells ((id, p) ∷ by_id) = with_info (cells p) (infos cells by_id)

-- List, with the order in which it finds the map
unfoldable pub list_from : Manager → Map ℕ → List Info
list_from m order = sort (infos m.cells order)
