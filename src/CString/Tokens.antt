-- ===== src/CString/Tokens.antt =====
-- `strcmp` decides equality, and `strtok` reads back the fields of a body that a client joins
-- with ETX.
use datacomm_chat_server.Prelude.{
  ◌≡◌, ◌≢◌, ◌↔◌, refl, true, false, some, [], ◌∷◌, ◌++◌, arith, All, Bool, not, ◌==◌, ◌&&◌,
}
use datacomm_chat_server.CString.{Str, etx, is_empty, streq, split_etx, strtok}

pub streq_refl : (a : Str) → streq a a ≡ true
unfolding streq
streq_refl [] = refl
streq_refl (x ∷ xs) = ground (arith, streq_refl xs)

pub eq_of_streq : (a b : Str) → streq a b ≡ true → a ≡ b
unfolding streq
eq_of_streq [] [] h = refl
eq_of_streq [] (y ∷ ys) h = cc
eq_of_streq (x ∷ xs) [] h = cc
eq_of_streq (x ∷ xs) (y ∷ ys) h = ground (arith, eq_of_streq xs ys)

pub streq_iff : (a b : Str) → (streq a b ≡ true) ↔ (a ≡ b)
streq_iff a b = (eq_of_streq a b, λ e. cc (e, streq_refl a))

-- A field of a request: not empty, and free of the delimiter and of NUL.
abbrev pub IsClean : Str → Type 0
IsClean = All (λ c. (c ≢ 3) × (c ≢ 0))

abbrev pub IsField : Str → Type 0
IsField f = (is_empty f ≡ false) × IsClean f

split_etx-append : (f s : Str) → IsClean f → split_etx (f ++ etx ∷ s) ≡ (f, s)
unfolding split_etx
split_etx-append [] s h = refl
split_etx-append (c ∷ f) s h = ground (arith, split_etx-append f s h.1)

split_etx_clean : (f : Str) → IsClean f → split_etx f ≡ (f, [])
unfolding split_etx
split_etx_clean [] h = refl
split_etx_clean (c ∷ f) h = ground (arith, split_etx_clean f h.1)

-- The field before a delimiter is the next token.
pub strtok-field : (f s : Str) → IsField f → strtok (f ++ etx ∷ s) ≡ some (f, s)
unfolding strtok
strtok-field [] s h = cc
strtok-field (c ∷ f) s h = ground (arith, split_etx-append f s h.1.1)

-- A last field needs no delimiter behind it.
pub strtok_last : (f : Str) → IsField f → strtok f ≡ some (f, [])
unfolding strtok
strtok_last [] h = cc
strtok_last (c ∷ f) h = ground (arith, split_etx_clean f h.1.1)

-- The test of a concrete field computes.
abbrev pub is_clean : Str → Bool
is_clean [] = true
is_clean (c ∷ f) = not (c == 3) && not (c == 0) && is_clean f

IsClean-of : (f : Str) → is_clean f ≡ true → IsClean f
IsClean-of [] h = tt
IsClean-of (c ∷ f) h = ((ground (arith, h), ground (arith, h)), IsClean-of f (ground (arith, h)))

pub IsField-of : (f : Str) → (not (is_empty f) && is_clean f) ≡ true → IsField f
IsField-of f h = (ground (arith, h), IsClean-of f (ground (arith, h)))
