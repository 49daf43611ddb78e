-- ===== src/Menu/Drawing.antt =====
-- What `print_menu` and `print_db_paths` of src/ncurses_ui.c draw.
use datacomm_chat_server.Prelude.{
  ℕ, ◌+◌, ◌≡◌, Bool, true, false, List, [], ◌∷◌, ◌++◌, ◌==◌, some, get_elem?, suc, zero, ap,
}
use datacomm_chat_server.CString.{Str, codes}
use datacomm_chat_server.Process.Paths.{DbPaths}

-- A text that `mvwprintw` puts into a row and column of a window, in reverse video or not.
pub record Line : Type 0 where
  pub y : ℕ
  pub x : ℕ
  pub reversed : Bool
  pub text : Str

abbrev pub choices : List Str
choices =
    codes "1. Run server"
    ∷ codes "2. View database"
    ∷ codes "3. View Active Users"
    ∷ codes "4. Quit"
    ∷ []

-- The loop over the choices, from choice `i` on in row `y`, and the line under them.
unfoldable pub print_choices : ℕ → ℕ → ℕ → List Str → List Line
print_choices y i highlight [] =
    record {
      y = y + 1;
      x = 3;
      reversed = false;
      text = codes "Created by Shik Hur, Benny Chao, David Lee (BCIT CST COMP4985 Project)";
    }
    ∷ []
print_choices y i highlight (choice ∷ rest) =
    record { y = y; x = 3; reversed = highlight == i + 1; text = choice }
    ∷ print_choices (y + 1) (i + 1) highlight rest

unfoldable pub print_menu : ℕ → List Line
unfolding print_choices
print_menu highlight = print_choices 3 0 highlight choices

abbrev path_line : ℕ → ℕ → Str → Str → Line
path_line y startx name path = record {
  y = y;
  x = startx;
  reversed = false;
  text = name ++ codes ": " ++ path;
}

unfoldable pub print_db_paths : DbPaths → ℕ → List Line
print_db_paths paths startx =
    record { y = 1; x = startx; reversed = false; text = codes "DB paths" }
    ∷ path_line 3 startx (codes "User Login info") paths.login_info
    ∷ path_line 4 startx (codes "Display names") paths.display_names
    ∷ path_line 5 startx (codes "User account") paths.user_account
    ∷ path_line 6 startx (codes "Channel info") paths.channel_info
    ∷ path_line 7 startx (codes "Message info") paths.message_info
    ∷ []

-- The texts in reverse video.
pub highlighted : List Line → List Str
highlighted [] = []
highlighted (line ∷ lines) = elim line.reversed [
  | true ↦ line.text ∷ highlighted lines
  | false ↦ highlighted lines
]

-- Exactly the entry of the current choice is shown in reverse video.
pub print_menu-highlighted :
    (choice : ℕ) (entry : Str)
    → get_elem? choices choice ≡ some entry
    → highlighted (print_menu (suc choice)) ≡ entry ∷ []
unfolding highlighted print_menu print_choices
print_menu-highlighted zero entry e = ap (λ t. t ∷ []) (cc e)
print_menu-highlighted (suc zero) entry e = ap (λ t. t ∷ []) (cc e)
print_menu-highlighted (suc (suc zero)) entry e = ap (λ t. t ∷ []) (cc e)
print_menu-highlighted (suc (suc (suc zero))) entry e = ap (λ t. t ∷ []) (cc e)
print_menu-highlighted (suc (suc (suc (suc n)))) entry e = absurd (cc)
