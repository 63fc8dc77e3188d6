-- ===== src/Lib.antt =====
-- nfsbroker: a service broker that hands out NFS volumes. A model of its Go code and the theorems
-- about it.
--
-- The program. The platform calls the handlers of nfsbroker/nfsbroker.go: `Provision` records a
-- share under an instance identifier, `Bind` records a binding of an application to it and answers
-- the mount configuration of the volume, `Unbind` and `Deprovision` remove the records. The records
-- are kept by a `Store` (nfsbroker/store.go), in a file (nfsbroker/store_file.go) or a database
-- (nfsbroker/store_sql.go). The mount configuration is computed by nfsbroker/nfsbroker_config.go
-- from the operator's flags, the share's query and the request.
--
-- The model.
--   Base       names of the library, texts, maps as association lists, `strings.Split` and
--              `SplitN`, decimal numbers, `filepath.Join`.
--   Api        the types of brokerapi that the code uses: JSON values, service instances, bind
--              details, errors, and the outcome of a call: a value, an error or a panic.
--   Exec       a call that reads and changes a state: explicit state passing, with the deferred
--              `Save` of the handlers (`deferring`) and `fmt.Errorf` replacements (`replacing`).
--   Externals  what the code calls and does not contain: `json.Marshal`, bcrypt, md5, the decoder
--              of the raw parameters, `strconv.FormatFloat`.
--   Config     nfsbroker/nfsbroker_config.go. Read is `ReadConf` and its helpers, Entries is
--              `SetEntries` and its helpers. Map, Query, Mount, Refusal, Order, Force, Defaults,
--              Print, Copying hold the proofs, Accept the description of what a request gives.
--   Store      nfsbroker/store.go. Laws is the interface: what a client relies on. Redact has the
--              theorems on redaction and conflicts, Forged is a request that breaks the check. File
--              is nfsbroker/store_file.go; File/Writes and File/Lawful show that it has the laws,
--              File/Calls says what a call answers where it is known what the maps hold.
--              Sql is nfsbroker/store_sql.go over a database; Sql/Database says what it relies on
--              there, Sql/Rows what its statements do, and Sql/Lawful shows that it has the laws, Sql/Inserts that
--              it replaces no row;
--              Sql/Working is a database whose statements fail only where they must.
--   Sql        nfsbroker/sql.go, and `Flavorify` of nfsbroker/sql_mysql.go and sql_postgres.go;
--              Flavor has the theorem on placeholders. Postgres and Mysql are the rest of the two
--              files, Variant is the choice between them; Connection is every method of a
--              connection. Store/Choice is `NewSqlStore` and `NewStore`.
--   Broker     nfsbroker/nfsbroker.go. Types are its types, Check is what `Bind` checks, Volume is
--              the part of `Bind` that computes the answer. Instances, Bindings, Unbinding,
--              Mounting hold the proofs, over any lawful store; ContainerPath is about the default
--              path. Requests makes sequences of the handlers; Sound and Lifetimes are what stays
--              true over them. Simulation is about two stores of which one does what the other does.
--              Restart is a new process over the disk of a file store; OverSql is where the two
--              stores make the broker differ. Programs has the handlers call by call; Server lets
--              goroutines run them under the mutex, and Serial and Calls are about that. Between
--              is what the calls of a handler keep. Atomic is about what the goroutines leave in
--              the store when the process ends, for the SQL store in Atomic/Sql, and Durable about
--              what they leave on the disk of a file store. Healthy and Cycle are the broker over
--              a file store whose disk takes every write. Reference has stores that are only
--              functions, and its File and Sql compare the broker over them to the broker over the
--              two stores.
--   Main       main.go. Credentials and Vcap are about `parseVcapServices`, Start is about
--              `createServer`, Run and its child about `main` and utils/utils.go.
--   Fakes      nfsbrokerfakes. A method of a fake is a generic double; Store and Sql are the fakes.
--              History is about the uses of a double. Trace and Spy run the broker over the fake
--              store, and show which calls it makes of a store.
--   Tests      runs of the code's own test cases, and the theorems at concrete inputs.
--
-- State and operations. A handler is a function from the store's state to an outcome and a new
-- state. In Server a handler is a program whose every store call is a step, and any number of
-- goroutines take steps in any order; the mutex is one field; a call, and so the write of the state
-- file, is one step. The other modules take a handler as one step, and Serial compares the two. A
-- map of Go is an association list, whose order is one of the orders in which Go may range over the
-- map; the theorems ask for distinct names where they need them. An interface value of JSON is the
-- type `Value`; a failed type assertion without `ok`, and an index out of range, are the outcome
-- `panic`. Loops are structural recursion on the list that they range over. Only the decimal text
-- of a number runs on fuel: each round takes a digit off, so that n + 1 rounds are enough for n
-- (see Base/Decimal/Laws).
--
-- Not modelled: log calls, contexts, signals, and what the servers of main.go do once they run.
-- `keyValueInTable` of nfsbroker/store_sql.go, and `ConvertPostgresError` and `ConvertMySqlError` of
-- main.go, are called by nothing.
pub mod Base
pub mod Api
pub mod Config
pub mod Exec
pub mod Externals
pub mod Store
pub mod Sql
pub mod Broker
pub mod Main
pub mod Fakes
mod Tests
