-- ===== src/Util/Spaces.antt =====
-- `compare_strings` compares what is left of two texts without their white space.
use datacomm_chat_server.Prelude.{
  ℕ, zero, suc, ◌+◌, ◌≤◌, ◌≡◌, refl, sym, ◌∙◌, ◌↔◌, true, [], ◌∷◌, arith, if◌then◌else◌, length,
}
use datacomm_chat_server.CString.{Str, streq, is_empty, isspace, skip_spaces}
use datacomm_chat_server.CString.Tokens.{streq_iff}
use datacomm_chat_server.Util.{compare_from, compare_strings}

-- The text without its white space: what `compare_strings` is meant to compare.
unfoldable pub squeeze : Str → Str
squeeze [] = []
squeeze (c ∷ s) = let rest = squeeze s in if isspace c then rest else c ∷ rest

skip_spaces-squeeze : (s : Str) → is_empty (skip_spaces s) ≡ is_empty (squeeze s)
unfolding skip_spaces squeeze
skip_spaces-squeeze [] = refl
skip_spaces-squeeze (c ∷ s) = ground (arith, skip_spaces-squeeze s)

streq-nil : (t : Str) → streq [] t ≡ is_empty t
unfolding streq
streq-nil [] = refl
streq-nil (c ∷ t) = refl

nil-streq : (t : Str) → streq t [] ≡ is_empty t
unfolding streq
nil-streq [] = refl
nil-streq (c ∷ t) = refl

compare_from-squeeze :
    (fuel : ℕ) (s t : Str)
    → length s + length t ≤ fuel
    → compare_from fuel s t ≡ streq (squeeze s) (squeeze t)
unfolding compare_from squeeze streq skip_spaces
compare_from-squeeze zero [] [] h = refl
compare_from-squeeze zero [] (b ∷ t) h = absurd (omega arith)
compare_from-squeeze zero (a ∷ s) t h = absurd (omega arith)
compare_from-squeeze (suc fuel) [] t h = skip_spaces-squeeze t ∙ sym (streq-nil (squeeze t))
compare_from-squeeze (suc fuel) (a ∷ s) [] h =
    skip_spaces-squeeze (a ∷ s) ∙ sym (nil-streq (squeeze (a ∷ s)))
compare_from-squeeze (suc fuel) (a ∷ s) (b ∷ t) h = ground (
  arith,
  compare_from-squeeze fuel s (b ∷ t) (omega arith),
  compare_from-squeeze fuel (a ∷ s) t (omega arith),
  compare_from-squeeze fuel s t (omega arith),
)

-- Two texts compare equal exactly when they are equal once the white space of both is left out: the
-- fuel is enough for every pair of texts.
pub compare_strings-squeeze : (s t : Str) → (compare_strings s t ≡ true) ↔ (squeeze s ≡ squeeze t)
unfolding compare_strings
compare_strings-squeeze s t =
    rw (compare_from-squeeze (length s + length t) s t (omega arith))
      (streq_iff (squeeze s) (squeeze t))

pub compare_strings_refl : (s : Str) → compare_strings s s ≡ true
compare_strings_refl s = (compare_strings-squeeze s s).1 refl
