-- ===== src/Prelude/Ends.antt =====
-- How the part of a handler that may return a status early can end.
use datacomm_chat_server.Prelude.Int.{ℤ}

-- `fault`: a failed `assert` or undefined behaviour. `exits c`: `return c`. `next a`: it goes on.
pub data Flow {ℓ} (A : Type ℓ) : Type ℓ where
  fault : Flow A
  exits : ℤ → Flow A
  next : A → Flow A

infixl 5 ◌>>=◌ ◌>>◌
abbrev pub ◌>>=◌ {ℓ κ} : {A : Type ℓ} {B : Type κ} → Flow A → (A → Flow B) → Flow B
fault >>= f = fault
exits c >>= f = exits c
next a >>= f = f a

abbrev pub ◌>>◌ {ℓ} : {B : Type ℓ} → Flow (Unit {0}) → Flow B → Flow B
m >> k = m >>= λ _. k
