-- ===== src/DbViewer/Standalone/Program.antt =====
-- `main` and `identify_os` of db_viewer/main.c: the choice of the paths, and the three sections.
use datacomm_chat_server.DbViewer.Shows.{PartOf, print_keys-shows, PartOf-front, PartOf-back}
use datacomm_chat_server.Prelude.{
  ℕ, ◌≡◌, refl, Option, none, some, List, [], ◌∷◌, ◌++◌, length, drop, if◌then◌else◌, Option-cases,
  inl, inr, false,
}
use datacomm_chat_server.Prelude.Partial.{◌>>=◌}
use datacomm_chat_server.CString.{Str, codes, c_str, streq}
use datacomm_chat_server.Ndbm.{Ndbm}
use datacomm_chat_server.Records.{UserAccount, UserLogin}
use datacomm_chat_server.DbViewer.{print_keys, newline, name_line}
use datacomm_chat_server.DbViewer.Standalone.{
  standalone_display_names, standalone_login_infos, standalone_login_line, login_bytes,
}
use datacomm_chat_server.DbViewer.Standalone.Accounts.{
  standalone_user_accounts, standalone_account_line, account_bytes,
}

-- What the program finds when it starts: the answer of `uname`, `none` where it fails, and what the
-- variable `unameData` and the arrays of the three paths hold before they are written.
pub record Host : Type 0 where
  pub uname : Option Str
  pub stale_name : Str
  pub stale_acc : Str
  pub stale_dsply_nm : Str
  pub stale_log_info : Str

-- What is printed, and the name of the system.
unfoldable pub standalone_identify_os : Host → Str × Str
standalone_identify_os host = elim host.uname [
  | none ↦ (codes "Error getting uname information" ++ newline, host.stale_name)
  | some name ↦ (newline ++ codes "Server is running on: " ++ name ++ newline, name)
]

-- The text in an array of which the first bytes are written.
unfoldable pub written_over : Str → Str → Str
unfolding c_str
written_over bytes stale = c_str (bytes ++ drop (length bytes) stale)

pub record ViewerPaths : Type 0 where
  pub user_acc : Str
  pub user_dsply_nm : Str
  pub user_log_info : Str

abbrev with_nul : Str → Str
with_nul text = text ++ 0 ∷ []

abbrev pub linux_paths : ViewerPaths
linux_paths = record {
  user_acc = codes "../src/user_account_info";
  user_dsply_nm = codes "../src/display_names";
  user_log_info = codes "../src/user_login_info";
}

-- On Darwin the first path is copied without its NUL; on another system nothing is copied.
unfoldable pub viewer_paths : Str → Host → ViewerPaths
unfolding written_over
viewer_paths my_os host =
    if streq my_os (codes "Darwin")
    then record {
      user_acc = written_over (codes "../user_account_info") host.stale_acc;
      user_dsply_nm = written_over (with_nul (codes "../display_names")) host.stale_dsply_nm;
      user_log_info = written_over (with_nul (codes "../user_login_info")) host.stale_log_info;
    }
    else if streq my_os (codes "Linux")
    then record {
      user_acc = written_over (with_nul linux_paths.user_acc) host.stale_acc;
      user_dsply_nm = written_over (with_nul linux_paths.user_dsply_nm) host.stale_dsply_nm;
      user_log_info = written_over (with_nul linux_paths.user_log_info) host.stale_log_info;
    }
    else record {
      user_acc = c_str host.stale_acc;
      user_dsply_nm = c_str host.stale_dsply_nm;
      user_log_info = c_str host.stale_log_info;
    }

viewer_paths-linux : (host : Host) → viewer_paths (codes "Linux") host ≡ linux_paths
unfolding viewer_paths written_over streq c_str
viewer_paths-linux host = refl

-- The path of the accounts on Darwin goes on with what the array held.
viewer_paths-darwin :
    (host : Host)
    → (viewer_paths (codes "Darwin") host).user_acc
      ≡ codes "../user_account_info" ++ c_str (drop 20 host.stale_acc)
unfolding viewer_paths written_over streq c_str
viewer_paths-darwin host = refl

module _ ⦃N : Ndbm⦄ where
  open N use {File, dbm_open, dbm_fetch, dbm_keys, keys-fetch}

  -- A heading, the records of a database, and an empty line. A database that does not open is a null
  -- pointer, which `dbm_firstkey` reads.
  unfoldable pub standalone_section :
      {V : Type 0} → Str → File V → (File V → Option Str) → Option Str
  standalone_section heading file print = do
    db ← dbm_open false file
    text ← print db
    some (heading ++ newline ++ text ++ newline)

  -- The databases by their paths.
  pub record Disk : Type 0 where
    pub accounts : Str → File UserAccount
    pub names : Str → File Str
    pub logins : Str → File UserLogin

  -- The three sections.
  unfoldable pub standalone_sections :
      ViewerPaths → Disk → (Str → ℕ) → (Str → Str) → Str → Option Str
  unfolding standalone_section standalone_user_accounts standalone_display_names
      standalone_login_infos
  standalone_sections paths disk padding behind residue = do
    accounts ←
        standalone_section (codes "UserAccounts DB") (disk.accounts paths.user_acc)
          (standalone_user_accounts padding behind residue)
    names ←
        standalone_section (codes "DisplayNames DB") (disk.names paths.user_dsply_nm)
          standalone_display_names
    logins ←
        standalone_section (codes "UserLoginInfo DB") (disk.logins paths.user_log_info)
          standalone_login_infos
    some (accounts ++ (names ++ logins))

  unfoldable pub standalone_main : Host → Disk → (Str → ℕ) → (Str → Str) → Str → Option Str
  unfolding standalone_sections viewer_paths standalone_identify_os
  standalone_main host disk padding behind residue = do
    let (printed, my_os) = standalone_identify_os host
    text ← standalone_sections (viewer_paths my_os host) disk padding behind residue
    some (printed ++ text)

  -- Where each record has a line, the loop over the keys ends.
  print_keys-returns :
      {V : Type 0} (db : File V) (line : Str → V → Str) (keys : List Str)
      → (out : Str) × (print_keys db (λ k v. some (line k v)) keys ≡ some out)
  unfolding print_keys
  print_keys-returns db line [] = ([], refl)
  print_keys-returns db line (k ∷ keys) =
      let (out, printed) = print_keys-returns db line keys in
      elim (Option-cases (dbm_fetch db k)) [
        | inl missing ↦ (out, rw (print_keys, missing) printed)
        | inr (v, there) ↦ (line k v ++ out, rw (print_keys, there) (rw printed refl))
      ]

  section-returns :
      {V : Type 0} (heading : Str) (file db : File V) (print : File V → Option Str) (text : Str)
      → dbm_open false file ≡ some db
      → print db ≡ some text
      → standalone_section heading file print ≡ some (heading ++ newline ++ text ++ newline)
  unfolding standalone_section
  section-returns heading file db print text opens printed = rw opens (rw printed refl)

  -- On Linux, where the three databases open under ../src, the stand-alone viewer runs to its end,
  -- whatever its arrays held before, and what it prints contains a line for a stored account.
  pub standalone_main-shows :
      (host : Host) (disk : Disk) (padding : Str → ℕ) (behind : Str → Str) (residue : Str)
      (key : Str) (user : UserAccount) (accounts : File UserAccount) (names : File Str)
      (logins : File UserLogin)
      → host.uname ≡ some (codes "Linux")
      → dbm_open false (disk.accounts (codes "../src/user_account_info")) ≡ some accounts
      → dbm_open false (disk.names (codes "../src/display_names")) ≡ some names
      → dbm_open false (disk.logins (codes "../src/user_login_info")) ≡ some logins
      → dbm_fetch accounts key ≡ some user
      → (out : Str) × (standalone_main host disk padding behind residue ≡ some out)
        × PartOf
            (standalone_account_line (account_bytes user (padding key) ++ behind key) residue)
            out
  unfolding standalone_main standalone_identify_os standalone_sections standalone_user_accounts
      standalone_display_names standalone_login_infos
  standalone_main-shows host disk padding behind residue key user accounts names logins linux oa on
        ol found =
      let line : Str → UserAccount → Str =
        λ k u. standalone_account_line (account_bytes u (padding k) ++ behind k) residue in
      let (text, printed, shown) =
        print_keys-shows accounts line key user (dbm_keys accounts) found in
      let (name_text, names_printed) = print_keys-returns names name_line (dbm_keys names) in
      let (login_text, logins_printed) =
        print_keys-returns logins (λ k u. standalone_login_line (login_bytes u))
          (dbm_keys logins) in
      let heading = codes "UserAccounts DB" in
      let first = heading ++ newline ++ text ++ newline in
      let second = codes "DisplayNames DB" ++ newline ++ name_text ++ newline in
      let third = codes "UserLoginInfo DB" ++ newline ++ login_text ++ newline in
      let started : Str = newline ++ codes "Server is running on: " ++ codes "Linux" ++ newline in
      let paths = viewer_paths-linux host in
      let sa =
        section-returns heading (disk.accounts linux_paths.user_acc) accounts
          (standalone_user_accounts padding behind residue) text oa printed in
      let sn =
        section-returns (codes "DisplayNames DB") (disk.names linux_paths.user_dsply_nm) names
          standalone_display_names name_text on names_printed in
      let sl =
        section-returns (codes "UserLoginInfo DB") (disk.logins linux_paths.user_log_info) logins
          standalone_login_infos login_text ol logins_printed in
      (
        started ++ (first ++ (second ++ third)),
        rw linux (rw paths (rw sa (rw sn (rw sl refl)))),
        PartOf-front _ started (first ++ (second ++ third)) (
            PartOf-back _ first (second ++ third) (
              PartOf-back _ (heading ++ newline ++ text) newline (
                PartOf-front _ (heading ++ newline) text
                  (shown (keys-fetch accounts key user found))))),
      )
