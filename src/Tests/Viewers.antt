-- ===== src/Tests/Viewers.antt =====
-- The stand-alone viewer on the records of a concrete server.
use datacomm_chat_server.Prelude.{◌≡◌, refl, some, [], ◌∷◌, ◌++◌, arith, drop}
use datacomm_chat_server.CString.{codes, Str, decimal, streq}
use datacomm_chat_server.Ndbm.Assoc.{table_ndbm, lookup}
use datacomm_chat_server.DbViewer.{newline}
use datacomm_chat_server.DbViewer.Shows.{PartOf}
use datacomm_chat_server.DbViewer.Standalone.Accounts.{
  standalone_account_line, account_bytes, standalone_account_line-shifted, IsStorable, int_at,
}
use datacomm_chat_server.DbViewer.Standalone.Program.{
  Host, Disk, standalone_main, standalone_main-shows,
}
use datacomm_chat_server.Tests.Data.{quiet, alice, alice_account, alice_login}

alice_account-IsStorable : IsStorable alice_account
alice_account-IsStorable = record {
  id_clean = ground arith;
  name_clean = ground arith;
  ip_clean = ground arith;
  id_fits = omega arith;
  name_fits = omega arith;
  ip_fits = omega arith;
}

-- What lies behind a record.
abbrev others : Str
others = 7 ∷ 0 ∷ 0 ∷ 0 ∷ []

standalone_account_line-shifted_example :
    standalone_account_line (account_bytes alice_account 9 ++ others) []
    ≡ codes "id-alice"
      ++ codes ", "
      ++ alice
      ++ codes ", "
      ++ drop 2 (codes "0")
      ++ codes ", "
      ++ decimal 0
      ++ codes ", "
      ++ int_at 0 others
      ++ newline
standalone_account_line-shifted_example =
    standalone_account_line-shifted alice_account 9 others [] alice_account-IsStorable (omega arith)

abbrev host : Host
host = record {
  uname = some (codes "Linux");
  stale_name = [];
  stale_acc = codes "xyz";
  stale_dsply_nm = [];
  stale_log_info = codes "abc";
}

abbrev disk : Disk
disk = record {
  accounts = λ path. quiet.accounts;
  names = λ path. quiet.names;
  logins = λ path. quiet.logins;
}

standalone_main-shows_example :
    (out : Str) × (standalone_main host disk (λ key. 9) (λ key. others) [] ≡ some out)
    × PartOf (standalone_account_line (account_bytes alice_account 9 ++ others) []) out
unfolding streq lookup
standalone_main-shows_example =
    standalone_main-shows host disk (λ key. 9) (λ key. others) [] (codes "id-alice") alice_account
      (some ((codes "id-alice", alice_account) ∷ [])) (some ((alice, codes "id-alice") ∷ []))
      (some ((codes "al1", alice_login) ∷ [])) refl refl refl refl refl
