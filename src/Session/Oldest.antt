-- ===== src/Session/Oldest.antt =====
-- core/session/session.go, the order in which List sorts, and the orders of a Go map.
use text.Mathlib.TextEquality.{Char-path}
use codespace_ssh_gateway.Shared.{
  ℕ, suc, String, code, true, false, some, List, [], ◌∷◌, ◌==◌, nat_eq, string_eq, eq_iff,
  if◌then◌else◌, ◌≡◌, refl, sym, ◌∙◌, ap, ap₂, arith, inl, inr, Bool-cases, All, length,
}
use codespace_ssh_gateway.Shared.Map.{Map, get, Unique}
use codespace_ssh_gateway.Session.Manager.{Info}
use codespace_ssh_gateway.Session.Listing.{text_before, before, insert, sort}

text_before_asym : (s t : String) → text_before s t ≡ true → text_before t s ≡ false
unfolding text_before
text_before_asym String.[] String.[] h = refl
text_before_asym String.[] (String.◌∷◌ d t) h = refl
text_before_asym (String.◌∷◌ c s) String.[] h = absurd (ground (arith, h))
text_before_asym (String.◌∷◌ c s) (String.◌∷◌ d t) h = ground (arith, h, text_before_asym s t)

text_before_trans :
    (s t u : String) → text_before s t ≡ true → text_before t u ≡ true → text_before s u ≡ true
unfolding text_before
text_before_trans s String.[] String.[] h k = absurd (ground (arith, k))
text_before_trans s (String.◌∷◌ d t) String.[] h k = absurd (ground (arith, k))
text_before_trans String.[] t (String.◌∷◌ e u) h k = refl
text_before_trans (String.◌∷◌ c s) String.[] (String.◌∷◌ e u) h k = absurd (ground (arith, h))
text_before_trans (String.◌∷◌ c s) (String.◌∷◌ d t) (String.◌∷◌ e u) h k =
    ground (arith, h, k, text_before_trans s t u)

text_before_total : (s t : String) → text_before s t ≡ false → text_before t s ≡ false → s ≡ t
unfolding text_before
text_before_total String.[] String.[] h k = refl
text_before_total String.[] (String.◌∷◌ d t) h k = absurd (ground (arith, h))
text_before_total (String.◌∷◌ c s) String.[] h k = absurd (ground (arith, k))
text_before_total (String.◌∷◌ c s) (String.◌∷◌ d t) h k =
    let e : code c ≡ code d = ground (arith, h, k) in
    ap₂ String.◌∷◌ (Char-path c d e)
      (text_before_total s t (ground (arith, h, e)) (ground (arith, k, e)))

before_asym : (a b : Info) → before a b ≡ true → before b a ≡ false
unfolding before
before_asym a b h = ground (arith, h, text_before_asym a.id b.id)

before_trans : (a b c : Info) → before a b ≡ true → before b c ≡ true → before a c ≡ true
unfolding before
before_trans a b c h k = ground (arith, h, k, text_before_trans a.id b.id c.id)

before_total : (a b : Info) → before a b ≡ false → before b a ≡ false → a.id ≡ b.id
unfolding before
before_total a b h k = ground (arith, h, k, text_before_total a.id b.id)

-- Two sessions go into a sorted list in either order.
insert_ahead :
    (a b : Info) (l : List Info) → before a b ≡ true → insert a (insert b l) ≡ insert b (insert a l)
unfolding insert
insert_ahead a b [] h = ground (arith, h, before_asym a b)
insert_ahead a b (c ∷ l) h =
    ground (arith, h, before_asym a b, before_trans c a b, insert_ahead a b l h)

pub insert_comm :
    (a b : Info) (l : List Info)
    → (a.id == b.id) ≡ false
    → insert a (insert b l) ≡ insert b (insert a l)
insert_comm a b l apart = elim (Bool-cases (before a b)) [
  | inl h ↦ insert_ahead a b l h
  | inr h ↦ elim (Bool-cases (before b a)) [
    | inl k ↦ sym (insert_ahead b a l k)
    | inr k ↦ absurd (ground (arith, apart, eq_iff a.id b.id, before_total a b h k))
  ]
]

-- Oldest first: no session stands before an older one.
unfoldable pub Sorted : List Info → Type 0
Sorted [] = Unit
Sorted (a ∷ []) = Unit
Sorted (a ∷ b ∷ l) = (before b a ≡ false) × Sorted (b ∷ l)

insert-Sorted : (a : Info) (l : List Info) → Sorted l → Sorted (insert a l)
unfolding insert Sorted
insert-Sorted a [] s = tt
insert-Sorted a (b ∷ []) s = elim (Bool-cases (before b a)) [
  | inl h ↦ rw h (before_asym b a h, tt)
  | inr h ↦ rw h (h, tt)
]
insert-Sorted a (b ∷ c ∷ l) s = elim (Bool-cases (before b a)) [
  | inl h ↦ elim (Bool-cases (before c a)) [
    | inl k ↦ rw (h, k) (s.0, rw k at (insert-Sorted a (c ∷ l) s.1))
    | inr k ↦ rw (h, k) (before_asym b a h, (k, s.1))
  ]
  | inr h ↦ rw h (h, s)
]

pub sort-Sorted : (l : List Info) → Sorted (sort l)
unfolding sort Sorted
sort-Sorted [] = tt
sort-Sorted (a ∷ l) = insert-Sorted a (sort l) (sort-Sorted l)

length-insert : (a : Info) (l : List Info) → length (insert a l) ≡ suc (length l)
unfolding insert
length-insert a [] = refl
length-insert a (b ∷ l) = ground (arith, length-insert a l)

pub length-sort : (l : List Info) → length (sort l) ≡ length l
unfolding sort
length-sort [] = refl
length-sort (a ∷ l) = omega (arith, length-insert a (sort l), length-sort l)

-- The orders in which Go may go through a map.
pub data Reorder {A : Type 0} : List A → List A → Type 0 where
  same : (l : List A) → Reorder l l
  keep : (a : A) (l l' : List A) → Reorder l l' → Reorder (a ∷ l) (a ∷ l')
  swap : (a b : A) (l : List A) → Reorder (a ∷ b ∷ l) (b ∷ a ∷ l)
  chain : (l l' l'' : List A) → Reorder l l' → Reorder l' l'' → Reorder l l''

pub length-Reorder : {A : Type 0} (l l' : List A) → Reorder l l' → length l ≡ length l'
length-Reorder _ _ (same l) = refl
length-Reorder _ _ (keep a l l' r) = omega (arith, length-Reorder l l' r)
length-Reorder _ _ (swap a b l) = refl
length-Reorder _ _ (chain l l' l'' r q) = length-Reorder l l' r ∙ length-Reorder l' l'' q

pub All-Reorder : {A : Type 0} (P : A → Type 0) (l l' : List A) → Reorder l l' → All P l → All P l'
All-Reorder P _ _ (same l) p = p
All-Reorder P _ _ (keep a l l' r) p = (p.0, All-Reorder P l l' r p.1)
All-Reorder P _ _ (swap a b l) p = (p.1.0, (p.0, p.1.1))
All-Reorder P _ _ (chain l l' l'' r q) p = All-Reorder P l' l'' q (All-Reorder P l l' r p)

pub get-Reorder :
    (l l' : Map ℕ) → Reorder l l' → Unique l → ((k : String) → get l' k ≡ get l k) × Unique l'
unfolding get
get-Reorder _ _ (same l) u = (λ k. refl, u)
get-Reorder _ _ (keep (i, p) l l' r) u =
    let g = get-Reorder l l' r u.1 in
    (λ k. ap (λ o. if i == k then some p else o) (g.0 k), (g.0 i ∙ u.0, g.1))
get-Reorder _ _ (swap (i, p) (j, q) l) u = (
  λ k. ground (arith, u.0, u.1.0, eq_iff i k, eq_iff j k, eq_iff j i),
  ground (arith, u.0, u.1, eq_iff i j, eq_iff j i),
)
get-Reorder _ _ (chain l l' l'' r q) u =
    let g = get-Reorder l l' r u in let h = get-Reorder l' l'' q g.1 in (λ k. h.0 k ∙ g.0 k, h.1)
