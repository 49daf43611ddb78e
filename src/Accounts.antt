-- ===== src/Accounts.antt =====
-- src/server.c: the functions that build and change the records of users.
use datacomm_chat_server.Prelude.{ℕ, true, false, if◌then◌else◌}
use datacomm_chat_server.CString.{Str, codes, streq}
use datacomm_chat_server.Records.{
  UserLogin, UserAccount, token_name_length, pswd_max_length, clnt_ip_addr_length,
}
use datacomm_chat_server.Request.{strncpy}

abbrev pub uuid_len : ℕ
uuid_len = 37

abbrev pub admin_name : Str
admin_name = codes "admin"

abbrev pub no_address : Str
no_address = codes "0"

unfoldable pub generate_user_login : Str → Str → Str → UserLogin
generate_user_login login_token password user_id = record {
  login_token = strncpy token_name_length login_token;
  password = strncpy pswd_max_length password;
  uuid = strncpy uuid_len user_id;
}

unfoldable pub generate_user_account : Str → Str → UserAccount
generate_user_account uuid display_name = record {
  user_id = strncpy uuid_len uuid;
  display_name = strncpy token_name_length display_name;
  ip_addr = no_address;
  online_status = false;
  privilege_level = if streq (strncpy token_name_length display_name) admin_name then 1 else 0;
}

unfoldable pub login_user_account : UserAccount → Str → UserAccount
login_user_account account clnt_addr = record account {
  ip_addr = strncpy clnt_ip_addr_length clnt_addr;
  online_status = true;
  privilege_level = if streq account.display_name admin_name then 1 else account.privilege_level;
}

unfoldable pub logout_user_account : UserAccount → UserAccount
logout_user_account account = record account { ip_addr = no_address; online_status = false }
