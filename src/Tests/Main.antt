-- ===== src/Tests/Main.antt =====
-- The start of the process, on the environments of main_test.go.
use native.Mathlib.Decide.{ℕ_discrete}
use nfsbroker.Base.{
  String, List, map, ◌≡◌, refl, none, some, [], ◌∷◌, inl, inr, ◌⊎◌, ◌==◌, if◌then◌else◌, string_dec,
}
use nfsbroker.Base.Dict.{lookup}
use nfsbroker.Base.Text.{split, join}
use nfsbroker.Base.FilePath.{file_path_join}
use nfsbroker.Api.{
  Value, text, float, array, object, end, item, Fields, close, field, message, ok, panic,
}
use nfsbroker.Store.File.{Ioutil}
use nfsbroker.Sql.Mysql as Mysql
use nfsbroker.Sql.Mysql.{Driver, MysqlVariant, new_mysql_variant, Connected, connect-Connected}
use nfsbroker.Sql.Postgres.{Host}
use nfsbroker.Store.Sql.Database.{IsDatabase}
use nfsbroker.Store.Choice.{marks, Platform, DbParams, NewStoreEnds, new_store, new_store-ends}
use nfsbroker.Main.{System, Flags, get_field, parse_vcap_services}
use nfsbroker.Main.Vcap.{Provides, parse_vcap_services-ends}
use nfsbroker.Main.Run.{Ifrit, run_main}
use nfsbroker.Main.Run.Ends.{MainEnds, run_main-MainEnds}
use nfsbroker.Tests.Samples.{externals, codec}
use nfsbroker.Tests.Database.{
  Json, Tables, database, details_codec, rows, details_codec-IsCodec, database-IsDatabase,
}

-- A driver that reads no connection string, a host that refuses no call, and files that stay empty.
abbrev driver : Driver Tables
driver = record {
  parse_dsn = λ dsn. inl (message "invalid DSN");
  format_dsn = λ cfg. cfg.others;
  append_certs = λ cert. cert == "CERT";
  register_tls_config = λ key cert w. (none, w);
  open_sql = λ name dsn w. (none, w);
}

abbrev host : Host Tables
host = record {
  append_certs = λ cert. cert == "CERT";
  temp_file = λ w. (inr "/tmp/ca", w);
  write_file = λ name cert w. (none, w);
  close_file = λ name w. (none, w);
  open_sql = λ name dsn w. (none, w);
  remove = λ name w. (none, w);
}

abbrev ioutil : Ioutil Tables
ioutil = record {
  read_file = λ name w. inl (message "no such file");
  write_file = λ name text w. (none, w);
}

abbrev platform : Platform Json Tables
platform = record {
  driver = driver;
  host = host;
  database = database;
  details_codec = details_codec;
  state_codec = codec;
  ioutil = ioutil;
}

-- `VCAP_SERVICES` of main_test.go, with a port.
abbrev credentials : Value → Fields
credentials port = field "username" (text "user") (
    field "password" (text "secret")
      (field "hostname" (text "db.example") (field "port" port (field "name" (text "db") close))))

abbrev system : Value → System
system port = record {
  lookup_env = λ name. if name == "VCAP_SERVICES" then some "{...}" else none;
  decode_services = λ services. inr (
      ("postgresql", item (object (field "credentials" (object (credentials port)) close)) end)
      ∷ []);
  whole_text = λ bits. "9999";
}

abbrev flags : Flags
flags = record {
  data_dir = "";
  at_address = "0.0.0.0:8999";
  service_name = "nfsvolume";
  service_id = "service-guid";
  db_driver = "mysql";
  db_hostname = "";
  db_port = "";
  db_name = "";
  db_ca_cert = "";
  cf_service_name = "postgresql";
  allowed_options = "auto_cache,uid,gid";
  default_options = "auto_cache:true";
}

abbrev params : DbParams
params = record {
  db_driver = "mysql";
  db_username = "";
  db_password = "";
  db_hostname = "";
  db_port = "";
  db_name = "";
  db_ca_cert = "";
}

abbrev found : DbParams
found = record params {
  db_username = "user";
  db_password = "secret";
  db_hostname = "db.example";
  db_port = "9999";
  db_name = "db";
}

port_is_text : parse_vcap_services (system (text "9999")) "postgresql" params ≡ ok found
unfolding parse_vcap_services string_dec lookup get_field
port_is_text = refl

port_is_number : parse_vcap_services (system (float 64 9999)) "postgresql" params ≡ ok found
unfolding parse_vcap_services string_dec lookup get_field ℕ_discrete
port_is_number = refl

port_is_array :
    parse_vcap_services (system (array (item (float 64 9999) end))) "postgresql" params ≡ panic
unfolding parse_vcap_services string_dec lookup get_field
port_is_array = refl

state_file_example :
    file_path_join "/var/data" "nfsvolume-services.json" ≡ "/var/data/nfsvolume-services.json"
unfolding file_path_join string_dec split join ℕ_discrete
state_file_example = refl

parse_vcap_services-ends_example :
    ((p' : DbParams) × (parse_vcap_services (system (text "9999")) "postgresql" params ≡ ok p')
      × Provides (system (text "9999")) "postgresql" params p')
    ⊎ ((parse_vcap_services (system (text "9999")) "postgresql" params ≡ panic)
        × ((p' : DbParams) → ¬ Provides (system (text "9999")) "postgresql" params p'))
parse_vcap_services-ends_example =
    parse_vcap_services-ends (system (text "9999")) "postgresql" params

new_store-ends_example :
    NewStoreEnds platform externals params rows "services.json"
      (λ t k. none)
      (new_store platform externals params "services.json" (λ t k. none))
unfolding string_dec
new_store-ends_example =
    new_store-ends platform externals params rows database-IsDatabase details_codec-IsCodec
      "services.json" (λ t k. none)

reads_marks : IsDatabase rows (marks flags.db_driver) database
unfolding string_dec
reads_marks = database-IsDatabase

-- Servers that end with an error once they run; a runner is told by the names of its members.
abbrev ifrit : Ifrit (List String) Tables
ifrit = record {
  http_server = λ server. server.at_address ∷ [];
  debug_server = λ dbg_addr. dbg_addr ∷ [];
  in_order = λ members. map (λ m. m.name) members;
  invoke = λ runner w. (some (message "stopped"), w);
}

run_main-MainEnds_example :
    MainEnds ifrit
      (system (text "9999"))
      platform
      externals
      rows
      flags
      reads_marks
      details_codec-IsCodec
      none
      "127.0.0.1:17017"
      (λ t k. none)
      (run_main ifrit
        (system (text "9999"))
        platform
        externals
        none
        flags
        "127.0.0.1:17017"
        (λ t k. none))
run_main-MainEnds_example =
    run_main-MainEnds ifrit (system (text "9999")) platform externals rows flags reads_marks
      details_codec-IsCodec none "127.0.0.1:17017" (λ t k. none)

-- A driver that keeps the other settings in its strings.
abbrev tls_driver : Driver Tables
tls_driver = record driver {
  parse_dsn = λ dsn. inr (
      Mysql.with_tls (record {
        tls_config = "";
        timeout = 0;
        read_timeout = 0;
        write_timeout = 0;
        others = dsn;
      }));
}

abbrev variant : MysqlVariant
variant = new_mysql_variant "user" "secret" "db.example" "3306" "db" "CERT"

connect-Connected_example : Connected tls_driver variant (λ t k. none)
unfolding Mysql.connect string_dec new_mysql_variant
connect-Connected_example = connect-Connected tls_driver variant (λ t k. none) refl
