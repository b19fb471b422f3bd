-- ===== src/Lifecycle/Wp.antt =====
-- What a run guarantees if it ends within its rounds.
use codespace_ssh_gateway.Shared.{Bool, true, false, Option, none, some, ◌≡◌, refl, if◌then◌else◌}
use codespace_ssh_gateway.Lifecycle.World.{World, M, ◌>>=◌, continue}

abbrev pub Holds {ℓ} : {A : Type 0} → (A → World → Type ℓ) → Option (A × World) → Type ℓ
Holds P none = Unit
Holds P (some (a, w)) = P a w

-- Every answer of `m`, whatever the world at its start, satisfies `P`.
pub record Ends {ℓ} {A : Type 0} (m : M A) (P : A → World → Type ℓ) : Type ℓ where
  pub run : (w : World) → Holds P (m w)

module _ {ℓ} {A B : Type 0} (P : A → World → Type ℓ) (Q : B → World → Type ℓ) where
  continue-Holds :
      (r : Option (A × World)) (f : A → M B)
      → Holds P r
      → ((a : A) (w : World) → P a w → Holds Q (f a w))
      → Holds Q (continue r f)
  continue-Holds none f h k = tt
  continue-Holds (some (a, w)) f h k = k a w h

module _ {ℓ} {A B : Type 0} (Q : B → World → Type ℓ) where
  continue-Ends :
      (r : Option (A × World)) (f : A → M B) → ((a : A) → Ends (f a) Q) → Holds Q (continue r f)
  continue-Ends none f k = tt
  continue-Ends (some (a, w)) f k = (k a).run w

module _ {ℓ} {A B : Type 0} {P : A → World → Type ℓ} {Q : B → World → Type ℓ} where
  -- The rest of a block may use what its first part guarantees.
  pub Ends-bind :
      (m : M A) (f : A → M B)
      → Ends m P
      → ((a : A) (w : World) → P a w → Holds Q (f a w))
      → Ends (m >>= f) Q
  unfolding ◌>>=◌
  Ends-bind m f e k = record { run = λ w. continue-Holds P Q (m w) f (e.run w) k }

module _ {ℓ} {A B : Type 0} {Q : B → World → Type ℓ} where
  -- What the rest of a block guarantees, the block guarantees.
  pub Ends-after : (m : M A) (f : A → M B) → ((a : A) → Ends (f a) Q) → Ends (m >>= f) Q
  unfolding ◌>>=◌
  Ends-after m f k = record { run = λ w. continue-Ends Q (m w) f k }

module _ {ℓ} {B : Type 0} {Q : B → World → Type ℓ} where
  pub Ends-if :
      (b : Bool) (m n : M B)
      → (b ≡ true → Ends m Q)
      → (b ≡ false → Ends n Q)
      → Ends (if b then m else n) Q
  Ends-if true m n km kn = km refl
  Ends-if false m n km kn = kn refl

pub ruleset ends_rules = (Ends-after, Ends-if)
