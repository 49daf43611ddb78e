-- ===== src/Menu.antt =====
-- src/ncurses_ui.c: `navigate_menu`, on the keys that are pressed, and what `print_menu` and
-- `print_db_paths` draw.
pub mod Drawing
use datacomm_chat_server.Prelude.{
  ℕ, ◌≡◌, ◌≤◌, ◌+◌, ◌-◌, Option, none, some, List, [], ◌∷◌, ltb, if◌then◌else◌, arith, subst, All,
  ◌++◌, ◌≢◌, ◌%◌, ap, ◌∙◌, refl,
}

pub data Key : Type 0 where
  key_up key_down enter other_key : Key

-- The choice after `choice--` or `choice++` and its wrap around.
unfoldable pub move : ℕ → Key → ℕ
move choice key_up = if ltb (choice - 1) 1 then 4 else choice - 1
move choice key_down = if ltb 4 (choice + 1) then 1 else choice + 1
move choice other = choice

-- `none` where the keys end before Enter.
unfoldable pub navigate : ℕ → List Key → Option ℕ
unfolding move
navigate choice [] = none
navigate choice (enter ∷ keys) = some choice
navigate choice (key ∷ keys) = navigate (move choice key) keys

unfoldable pub navigate_menu : List Key → Option ℕ
unfolding navigate
navigate_menu keys = navigate 1 keys

IsChoice : ℕ → Type 0
IsChoice c = (1 ≤ c) × (c ≤ 4)

move-IsChoice : (c : ℕ) (k : Key) → IsChoice c → IsChoice (move c k)
unfolding move IsChoice
move-IsChoice c key_up h = ground (arith, h.0, h.1)
move-IsChoice c key_down h = ground (arith, h.0, h.1)
move-IsChoice c enter h = h
move-IsChoice c other_key h = h

navigate-IsChoice :
    (c : ℕ) (keys : List Key) (choice : ℕ)
    → IsChoice c
    → navigate c keys ≡ some choice
    → IsChoice choice
unfolding navigate
navigate-IsChoice c [] choice h e = absurd (cc)
navigate-IsChoice c (key_up ∷ keys) choice h e =
    navigate-IsChoice (move c key_up) keys choice (move-IsChoice c key_up h) e
navigate-IsChoice c (key_down ∷ keys) choice h e =
    navigate-IsChoice (move c key_down) keys choice (move-IsChoice c key_down h) e
navigate-IsChoice c (enter ∷ keys) choice h e =
    let same : c ≡ choice = cc e in subst IsChoice same h
navigate-IsChoice c (other_key ∷ keys) choice h e =
    navigate-IsChoice (move c other_key) keys choice (move-IsChoice c other_key h) e

-- Whatever keys are pressed, a menu that returns yields one of its four entries.
pub navigate_menu-bounds :
    (keys : List Key) (choice : ℕ) → navigate_menu keys ≡ some choice → (1 ≤ choice) × (choice ≤ 4)
unfolding navigate_menu IsChoice
navigate_menu-bounds keys choice e = navigate-IsChoice 1 keys choice (omega arith, omega arith) e

-- How many places down the list the keys move; one up is three down.
unfoldable pub downwards : List Key → ℕ
downwards [] = 0
downwards (key_up ∷ keys) = downwards keys + 3
downwards (key_down ∷ keys) = downwards keys + 1
downwards (other ∷ keys) = downwards keys

-- Enter is not among the keys.
abbrev pub NoEnter : List Key → Type 0
NoEnter = All (λ k. k ≢ enter)

navigate-downwards :
    (c : ℕ) (keys rest : List Key)
    → IsChoice c
    → NoEnter keys
    → navigate c (keys ++ enter ∷ rest) ≡ some (1 + (c - 1 + downwards keys) % 4)
unfolding navigate IsChoice downwards
navigate-downwards c [] rest ok h = ap some (omega (arith, ok.0, ok.1))
navigate-downwards c (key_up ∷ keys) rest ok h =
    navigate-downwards (move c key_up) keys rest (move-IsChoice c key_up ok) h.1
    ∙ ap some (unfold move in ground (arith, ok.0, ok.1))
navigate-downwards c (key_down ∷ keys) rest ok h =
    navigate-downwards (move c key_down) keys rest (move-IsChoice c key_down ok) h.1
    ∙ ap some (unfold move in ground (arith, ok.0, ok.1))
navigate-downwards c (enter ∷ keys) rest ok h = absurd (h.0 refl)
navigate-downwards c (other_key ∷ keys) rest ok h = navigate-downwards c keys rest ok h.1

navigate_waits : (c : ℕ) (keys : List Key) → NoEnter keys → navigate c keys ≡ none
unfolding navigate
navigate_waits c [] h = refl
navigate_waits c (key_up ∷ keys) h = navigate_waits (move c key_up) keys h.1
navigate_waits c (key_down ∷ keys) h = navigate_waits (move c key_down) keys h.1
navigate_waits c (enter ∷ keys) h = absurd (h.0 refl)
navigate_waits c (other_key ∷ keys) h = navigate_waits (move c other_key) keys h.1

-- The menu returns at the first Enter, and not before, with the entry that the arrow keys lead to
-- from the first of the four entries, around in both directions; other keys change nothing.
pub navigate_menu-returns :
    (keys rest : List Key)
    → NoEnter keys
    → (navigate_menu (keys ++ enter ∷ rest) ≡ some (1 + downwards keys % 4))
      × (navigate_menu keys ≡ none)
unfolding navigate_menu IsChoice
navigate_menu-returns keys rest h = (
  navigate-downwards 1 keys rest (omega arith, omega arith) h ∙ ap some (omega arith),
  navigate_waits 1 keys h,
)
