-- ===== src/Database.antt =====
-- The connections to the database: connect_db of dns/src/dns_route.cc and the constructor of
-- report/src/store_report.cc. MySQL's own calls are arguments.
use rins.Prelude.{
  ℕ, ◌+◌, ◌-◌, ◌%◌, ◌^◌, ◌<◌, ◌≡◌, ◌↔◌, leb, if◌then◌else◌, [], ◌∷◌, Option, Bool, Result, ok,
  exited, check, ◌>>=◌, ◌>>◌, arith,
}
use rins.Reactor.Text.{Text}
use rins.Reactor.ConfigFile.{StrMap, config_instance, get_string, get_number}

-- What `mysql_real_connect` is given.
pub record DbParams : Type 0 where
  pub host : Text
  pub user : Text
  pub passwd : Text
  pub name : Text
  pub port : ℕ

abbrev mysql : Text
mysql = b'm' ∷ b'y' ∷ b's' ∷ b'q' ∷ b'l' ∷ []

abbrev db_host : Text
db_host = b'd' ∷ b'b' ∷ b'_' ∷ b'h' ∷ b'o' ∷ b's' ∷ b't' ∷ []

abbrev db_port : Text
db_port = b'd' ∷ b'b' ∷ b'_' ∷ b'p' ∷ b'o' ∷ b'r' ∷ b't' ∷ []

abbrev db_user : Text
db_user = b'd' ∷ b'b' ∷ b'_' ∷ b'u' ∷ b's' ∷ b'e' ∷ b'r' ∷ []

abbrev db_passwd : Text
db_passwd = b'd' ∷ b'b' ∷ b'_' ∷ b'p' ∷ b'a' ∷ b's' ∷ b's' ∷ b'w' ∷ b'd' ∷ []

abbrev db_name : Text
db_name = b'd' ∷ b'b' ∷ b'_' ∷ b'n' ∷ b'a' ∷ b'm' ∷ b'e' ∷ []

abbrev root : Text
root = b'r' ∷ b'o' ∷ b'o' ∷ b't' ∷ []

abbrev default_name : Text
default_name = b'r' ∷ b'i' ∷ b'n' ∷ b's' ∷ []

abbrev dns_host : Text
dns_host = b'1' ∷ b'7' ∷ b'2' ∷ b'.' ∷ b'1' ∷ b'7' ∷ b'.' ∷ b'0' ∷ b'.' ∷ b'1' ∷ []

abbrev pub report_host : Text
report_host = b'1' ∷ b'2' ∷ b'7' ∷ b'.' ∷ b'0' ∷ b'.' ∷ b'0' ∷ b'.' ∷ b'1' ∷ []

-- A `short` that is made from an `unsigned`, and passed on as one: the sign is extended.
unfoldable pub short_arg : ℕ → ℕ
short_arg n = let port = n % 2 ^ 16 in if leb (2 ^ 15) port then port + (2 ^ 32 - 2 ^ 16) else port

-- The parameters of a configuration, with the host that stands for a missing one.
unfoldable pub db_params : Text → StrMap → DbParams
db_params default_host m = record {
  host = get_string mysql db_host default_host m;
  user = get_string mysql db_user root m;
  passwd = get_string mysql db_passwd root m;
  name = get_string mysql db_name default_name m;
  port = short_arg (get_number mysql db_port 3306 m);
}

module _ (mysql_real_connect : DbParams → Bool) where
  -- `route::connect_db`
  unfoldable pub connect_db : Option StrMap → Result DbParams
  connect_db config = do
    m ← config_instance config
    check (mysql_real_connect (db_params dns_host m)) exited
    ok (db_params dns_host m)

  -- `store_report::store_report`
  unfoldable pub store_report : Option StrMap → Result DbParams
  store_report config = do
    m ← config_instance config
    check (mysql_real_connect (db_params report_host m)) exited
    ok (db_params report_host m)

-- A port of 16 bits arrives as it is just if it is below 2^15.
short_arg_iff : (port : ℕ) → port < 2 ^ 16 → (short_arg port ≡ port) ↔ (port < 2 ^ 15)
unfolding short_arg
short_arg_iff port h = ground arith
