-- ===== src/Request/Keeps.antt =====
-- A property of every value that a chain of steps goes on with, one rule for each kind of step.
use datacomm_chat_server.Prelude.{
  Flow, next, ℤ, fault, Bool, ◌≡◌, subst, exits, if◌then◌else◌, ap, true, refl, false,
}
use datacomm_chat_server.Prelude.Ends.{◌>>=◌}

pub record Keeps {ℓ} {A : Type ℓ} (P : A → Type 0) (m : Flow A) : Type ℓ where
  pub at : (a : A) → m ≡ next a → P a

value_of {ℓ} : {A : Type ℓ} → A → Flow A → A
value_of d (next a) = a
value_of d m = d

module _ {ℓ} {A : Type ℓ} {P : A → Type 0} where
  pub Keeps-next : (a : A) → P a → Keeps P (next a)
  unfolding value_of
  Keeps-next a h = record { at = λ b e. subst P (ap (value_of a) e) h }

  pub Keeps-exits : (code : ℤ) → Keeps P (exits code)
  Keeps-exits code = record { at = λ b e. absurd (cc) }

  pub Keeps-fault : Keeps P fault
  Keeps-fault = record { at = λ b e. absurd (cc) }

  pub Keeps-if : (b : Bool) (m n : Flow A) → Keeps P m → Keeps P n → Keeps P (if b then m else n)
  Keeps-if true m n hm hn = hm
  Keeps-if false m n hm hn = hn

module _ {ℓ κ} {A : Type ℓ} {B : Type κ} {P : B → Type 0} where
  -- The rest keeps the property whatever it is handed.
  pub Keeps-bind : (m : Flow A) (f : A → Flow B) → ((a : A) → Keeps P (f a)) → Keeps P (m >>= f)
  Keeps-bind fault f h = record { at = λ b e. absurd (cc) }
  Keeps-bind (exits code) f h = record { at = λ b e. absurd (cc) }
  Keeps-bind (next a) f h = h a

  -- The rest uses what the first step keeps.
  pub Keeps-then :
      (Q : A → Type 0) (m : Flow A) (f : A → Flow B)
      → Keeps Q m
      → ((a : A) → Q a → Keeps P (f a))
      → Keeps P (m >>= f)
  Keeps-then Q fault f k h = record { at = λ b e. absurd (cc) }
  Keeps-then Q (exits code) f k h = record { at = λ b e. absurd (cc) }
  Keeps-then Q (next a) f k h = h a (k.at a refl)

pub ruleset keeps_rules = (Keeps-next, Keeps-exits, Keeps-fault, Keeps-if, Keeps-bind)
