-- ===== src/Session/Counting.antt =====
-- How many entries of the table stand for sessions of one environment.
use codespace_ssh_gateway.Shared.{
  ℕ, ◌+◌, String, Option, none, some, [], ◌∷◌, ◌≡◌, refl, ◌==◌, string_eq, eq_iff, arith,
  if◌then◌else◌,
}
use codespace_ssh_gateway.Shared.Map.{Map, get, put, del, Unique, del_absent}
use codespace_ssh_gateway.Session.Manager.{Session}

abbrev pub in_env : String → Option Session → ℕ
in_env env none = 0
in_env env (some s) = if s.info.environment == env then 1 else 0

pub count_env : (ℕ → Option Session) → String → Map ℕ → ℕ
count_env cells env [] = 0
count_env cells env ((id, p) ∷ m) = in_env env (cells p) + count_env cells env m

pub count_env-nil : (cells : ℕ → Option Session) (env : String) → count_env cells env [] ≡ 0
unfolding count_env
count_env-nil cells env = refl

pub count_env-put :
    (cells : ℕ → Option Session) (env : String) (m : Map ℕ) (k : String) (p : ℕ)
    → get m k ≡ none
    → count_env cells env (put m k p) ≡ in_env env (cells p) + count_env cells env m
unfolding count_env get put
count_env-put cells env [] k p e = refl
count_env-put cells env ((j, q) ∷ m) k p e = ground (arith, count_env-put cells env m k p)

pub count_env-del :
    (cells : ℕ → Option Session) (env : String) (m : Map ℕ) (k : String) (p : ℕ)
    → Unique m
    → get m k ≡ some p
    → count_env cells env m ≡ in_env env (cells p) + count_env cells env (del m k)
unfolding count_env get del
count_env-del cells env [] k p u e = ground arith
count_env-del cells env ((j, q) ∷ m) k p u e =
    ground (arith, count_env-del cells env m k p u.1, del_absent m k, eq_iff j k)

get_tail :
    (j : String) (q : ℕ) (m : Map ℕ) (id : String) (r : ℕ)
    → get m j ≡ none
    → get m id ≡ some r
    → get ((j, q) ∷ m) id ≡ some r
unfolding get
get_tail j q m id r n e = ground (arith, eq_iff j id)

-- The count reads the heap only at the addresses of the table.
pub count_env-cells :
    (c d : ℕ → Option Session) (env : String) (m : Map ℕ)
    → Unique m
    → ((id : String) (p : ℕ) → get m id ≡ some p → in_env env (c p) ≡ in_env env (d p))
    → count_env c env m ≡ count_env d env m
unfolding count_env
count_env-cells c d env [] u h = refl
count_env-cells c d env ((j, q) ∷ m) u h =
    let rest = count_env-cells c d env m u.1 (λ id p e. h id p (get_tail j q m id p u.0 e)) in
    let here = h j q (unfold get in ground (arith, eq_iff j j)) in omega arith
