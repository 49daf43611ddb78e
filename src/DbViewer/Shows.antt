-- ===== src/DbViewer/Shows.antt =====
-- What the database viewer of src/db_viewer.c shows.
use datacomm_chat_server.Prelude.{
  ◌≡◌, ◌∙◌, refl, ap, sym, true, some, List, [], ◌∷◌, ◌++◌, arith, Bool-cases, Option-cases, inl,
  inr, subst, append_assoc,
}
use datacomm_chat_server.CString.{Str, streq, member}
use datacomm_chat_server.CString.Tokens.{eq_of_streq}
use datacomm_chat_server.Ndbm.{Ndbm}
use datacomm_chat_server.DbViewer.{print_keys}

-- A text is a part of another.
pub record PartOf (text whole : Str) : Type 0 where
  pub front : Str
  pub back : Str
  pub joined : whole ≡ front ++ (text ++ back)

pub PartOf-front : (text a b : Str) → PartOf text b → PartOf text (a ++ b)
PartOf-front text a b p = record {
  front = a ++ p.front;
  back = p.back;
  joined = ap (λ t. a ++ t) p.joined ∙ sym (append_assoc a p.front (text ++ p.back));
}

pub PartOf-back : (text a b : Str) → PartOf text a → PartOf text (a ++ b)
PartOf-back text a b p = record {
  front = p.front;
  back = p.back ++ b;
  joined =
      ap (λ t. t ++ b) p.joined
      ∙ append_assoc p.front (text ++ p.back) b
      ∙ ap (λ t. p.front ++ t) (append_assoc text p.back b);
}

PartOf-self : (text b : Str) → PartOf text (text ++ b)
PartOf-self text b = record { front = []; back = b; joined = refl }

some_inj {ℓ} : {A : Type ℓ} (a b : A) → some a ≡ some b → a ≡ b
some_inj a b e = cc e

module _ ⦃N : Ndbm⦄ where
  open N use {File, dbm_open, dbm_fetch, dbm_keys, keys-fetch, fetch-open}

  -- Where each record has a line, all keys are printed, and the line of each record among them is
  -- part of what is printed.
  pub print_keys-shows :
      {V : Type 0} (db : File V) (line : Str → V → Str) (key : Str) (value : V) (keys : List Str)
      → dbm_fetch db key ≡ some value
      → (out : Str) × (print_keys db (λ k v. some (line k v)) keys ≡ some out)
        × (member key keys ≡ true → PartOf (line key value) out)
  unfolding print_keys member
  print_keys-shows db line key value [] found = ([], refl, λ m. absurd (cc m))
  print_keys-shows db line key value (k ∷ keys) found =
      let (out, printed, shown) = print_keys-shows db line key value keys found in
      elim (Option-cases (dbm_fetch db k)) [
        | inl missing ↦
            let other : streq k key ≡ true → ⊥ =
              λ same. cc (eq_of_streq k key same, missing, found) in
            (out, rw (print_keys, missing) printed, λ m. shown (ground (arith, m, other)))
        | inr (v, there) ↦ (
          line k v ++ out,
          rw (print_keys, there) (rw printed refl),
          λ m. elim (Bool-cases (streq k key)) [
            | inl same ↦
                let key_same = eq_of_streq k key same in
                let value_same : v ≡ value =
                  some_inj v value (sym there ∙ ap (dbm_fetch db) key_same ∙ found) in
                let text_same : line k v ≡ line key value = cc (key_same, value_same) in
                subst (λ t. PartOf (line key value) (t ++ out)) (sym text_same)
                  (PartOf-self (line key value) out)
            | inr other ↦
                PartOf-front (line key value) (line k v) out (shown (ground (arith, m, other)))
          ],
        )
      ]
