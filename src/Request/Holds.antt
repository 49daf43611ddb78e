-- ===== src/Request/Holds.antt =====
-- A property of the result of a call that may end the process.
use datacomm_chat_server.Prelude.{Option, none, some, Bool, true, false, if◌then◌else◌}
use datacomm_chat_server.Prelude.Partial.{◌>>=◌}

unfoldable pub Holds {ℓ} : {A : Type ℓ} → (A → Type 0) → Option A → Type 0
Holds P none = Unit {0}
Holds P (some a) = P a

module _ {ℓ} {A : Type ℓ} (P : A → Type 0) where
  pub Holds-some : (a : A) → P a → Holds P (some a)
  unfolding Holds
  Holds-some a h = h

  pub Holds-none : Holds P none
  unfolding Holds
  Holds-none = tt

  pub Holds-if : (b : Bool) (m n : Option A) → Holds P m → Holds P n → Holds P (if b then m else n)
  Holds-if true m n hm hn = hm
  Holds-if false m n hm hn = hn

  pub Holds-then {κ} :
      {B : Type κ} (Q : B → Type 0) (o : Option B) (f : B → Option A)
      → Holds Q o
      → ((b : B) → Q b → Holds P (f b))
      → Holds P (o >>= f)
  unfolding Holds
  Holds-then Q none f h k = tt
  Holds-then Q (some b) f h k = k b h

  pub Holds-bind {κ} :
      {B : Type κ} (o : Option B) (f : B → Option A) → ((b : B) → Holds P (f b)) → Holds P (o >>= f)
  unfolding Holds
  Holds-bind none f k = tt
  Holds-bind (some b) f k = k b
