-- ===== src/Github/Users.antt =====
-- providers/github/cache.go: the remote login name of each codespace. The flag says whether flush
-- writes the entries.
use codespace_ssh_gateway.Shared.{
  String, Bool, true, false, ◌||◌, Option, none, some, ◌≡◌, refl, subst, inl, inr, arith,
  Bool-cases, Option-cases, ◌==◌, string_eq, eq_iff, if◌then◌else◌,
}
use codespace_ssh_gateway.Shared.Map.{Map, get, put, del, get-put, get-del}

abbrev pub or_text : Option String → String
or_text none = ""
or_text (some user) = user

abbrev pub if_text : String → Option String
if_text user = if user == "" then none else some user

-- get
unfoldable pub find : String → Map String → Option String
find name users = if_text (or_text (get users name))

-- set
unfoldable pub set : String → String → Map String → Map String × Bool
set name user users =
    if name == "" || user == ""
    then (users, false)
    else if or_text (get users name) == user
    then (users, false)
    else (put users name user, true)

abbrev pub forgotten : String → Map String → Option String → Map String × Bool
forgotten name users none = (users, false)
forgotten name users (some user) = (del users name, true)

-- forget
unfoldable pub forget : String → Map String → Map String × Bool
forget name users = forgotten name users (get users name)

-- A user that was set is found for its codespace, and the others are found as before.
pub find-set :
    (name user : String) (users : Map String) (j : String)
    → (name == "") ≡ false
    → (user == "") ≡ false
    → find j (set name user users).0 ≡ (if name == j then some user else find j users)
unfolding find set
find-set name user users j n u = elim (Bool-cases (or_text (get users name) == user)) [
  | inl old ↦
      simp (n, u, old)
        (ground (arith, u, eq_iff name j, eq_iff (or_text (get users name)) user, old))
  | inr new ↦ simp (n, u, new) (ground (arith, u, get-put users name user j))
]

-- After forget a codespace has no user, and the others are found as before.
pub find-forget :
    (name : String) (users : Map String) (j : String)
    → find j (forget name users).0 ≡ (if name == j then none else find j users)
unfolding find forget
find-forget name users j = elim (Option-cases (get users name)) [
  | inl none_there ↦ rw none_there (elim (Bool-cases (name == j)) [
    | inl hit ↦
        let here : get users j ≡ none =
          subst (λ k. get users k ≡ none) ((eq_iff name j).0 hit) none_there in
        rw (hit, here) refl
    | inr miss ↦ rw miss refl
  ])
  | inr (user, there) ↦
      rw (there, get-del users name j)
        (elim (Bool-cases (name == j)) [ inl hit ↦ rw hit refl | inr miss ↦ rw miss refl ])
]
