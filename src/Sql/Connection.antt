-- ===== src/Sql/Connection.antt =====
-- nfsbroker/sql.go: a connection as a `sqlshim.SqlDB`. Each of its methods is a call of the database
-- that it holds, which is a parameter, as is what the database replies.
use nfsbroker.Base.{String, ◌≡◌, refl, ap, ◌∙◌, false, Option, none, some, List, ◌⊎◌, inl, inr}
use mathlib.Core.Path.{subst}
use nfsbroker.Base.Text.{has_char}
use nfsbroker.Base.Decimal.{ℤ}
use nfsbroker.Api.{Outcome, ok, panic}
use nfsbroker.Sql.{Arg, SqlVariant, flavorify_postgres}
use nfsbroker.Sql.Flavor.{
  placeholders, flavorify_postgres-eq-placeholders, flavorify_postgres-has_char,
}

-- A call of a method of `sqlshim.SqlDB`.
pub data Call (J : Type 0) : Type 0 where
  ping close begin driver stats : Call J
  set_max_idle_conns set_max_open_conns set_conn_max_lifetime : ℤ → Call J
  prepare : String → Call J
  exec query query_row : String → List (Arg J) → Call J

-- `NewSqlConnection`
unfoldable pub new_sql_connection : {W : Type 0} → Option (SqlVariant W) → Outcome (SqlVariant W)
new_sql_connection none = panic
new_sql_connection (some variant) = ok variant

module _ {J W R : Type 0} (sql_db : Call J → W → R × W) (flavorify : String → String)
    (close_leaf : W → W) where
  -- The methods of `sqlConnection`. `Close` closes the variant behind the database, and drops its error.
  unfoldable pub connection_call : Call J → W → R × W
  connection_call ping w = sql_db ping w
  connection_call close w = let (reply, w') = sql_db close w in (reply, close_leaf w')
  connection_call (set_max_idle_conns n) w = sql_db (set_max_idle_conns n) w
  connection_call (set_max_open_conns n) w = sql_db (set_max_open_conns n) w
  connection_call (set_conn_max_lifetime d) w = sql_db (set_conn_max_lifetime d) w
  connection_call stats w = sql_db stats w
  connection_call (prepare q) w = sql_db (prepare (flavorify q)) w
  connection_call (exec q args) w = sql_db (exec (flavorify q) args) w
  connection_call (query q args) w = sql_db (query (flavorify q) args) w
  connection_call (query_row q args) w = sql_db (query_row (flavorify q) args) w
  connection_call begin w = sql_db begin w
  connection_call driver w = sql_db driver w

-- The text of a call, if it has one.
abbrev pub text_of : {J : Type 0} → Call J → Option String
text_of (prepare q) = some q
text_of (exec q args) = some q
text_of (query q args) = some q
text_of (query_row q args) = some q
text_of _ = none

-- Two calls of one method with the same arguments but the text.
abbrev pub SameMethod : {J : Type 0} → Call J → Call J → Type 0
SameMethod (prepare q) (prepare r) = Unit
SameMethod (exec q args) (exec r args') = args ≡ args'
SameMethod (query q args) (query r args') = args ≡ args'
SameMethod (query_row q args) (query_row r args') = args ≡ args'
SameMethod c d = c ≡ d

-- What PostgreSQL is asked in place of a call: the same method and arguments, with the placeholders
-- numbered, and no question mark.
pub record Asks {J : Type 0} (c : Call J) (d : Call J) : Type 0 where
  pub method : SameMethod c d
  pub numbered : (q : String) → text_of c ≡ some q → text_of d ≡ some (placeholders 1 q)
  pub free : (q : String) → text_of d ≡ some q → has_char b'?' q ≡ false

flavored-Asks :
    {J : Type 0} (c d : Call J) (q : String)
    → SameMethod c d
    → text_of c ≡ some q
    → text_of d ≡ some (flavorify_postgres q)
    → Asks c d
flavored-Asks c d q same e e' = record {
  method = same;
  numbered = λ r h.
      let t : q ≡ r = cc in
      e' ∙ ap some (flavorify_postgres-eq-placeholders q ∙ ap (placeholders 1) t);
  free = λ r h.
      let t : flavorify_postgres q ≡ r = cc in
      subst (λ s. has_char b'?' s ≡ false) t (flavorify_postgres-has_char q);
}

plain-Asks : {J : Type 0} (c : Call J) → SameMethod c c → text_of c ≡ none → Asks c c
plain-Asks c same e = record {
  method = same;
  numbered = λ q h. absurd (cc);
  free = λ q h. absurd (cc);
}

module _ {J W R : Type 0} (sql_db : Call J → W → R × W) (close_leaf : W → W) where
  -- The database replies to one call, and the variant is closed behind `Close`.
  abbrev pub Forwards : Call J → W → R × W → Type 0
  Forwards c w r =
      (d : Call J) × Asks c d
      × (r.0 ≡ (sql_db d w).0)
      × (((c ≡ close) × (r.1 ≡ close_leaf (sql_db d w).1)) ⊎ (r.1 ≡ (sql_db d w).1))

  -- Each method of a connection to PostgreSQL asks the database once, by the same method and with the
  -- same arguments, where the placeholders of the text are numbered in their order and no question
  -- mark is left, and returns its reply; `Close` also closes the variant, after the database, and
  -- whatever that gives.
  connection_call-Forwards :
      (c : Call J) (w : W) → Forwards c w (connection_call sql_db flavorify_postgres close_leaf c w)
  unfolding connection_call
  connection_call-Forwards close w = (close, plain-Asks close refl refl, refl, inl (refl, refl))
  connection_call-Forwards (prepare q) w =
      (prepare (flavorify_postgres q), flavored-Asks _ _ q tt refl refl, refl, inr refl)
  connection_call-Forwards (exec q args) w =
      (exec (flavorify_postgres q) args, flavored-Asks _ _ q refl refl refl, refl, inr refl)
  connection_call-Forwards (query q args) w =
      (query (flavorify_postgres q) args, flavored-Asks _ _ q refl refl refl, refl, inr refl)
  connection_call-Forwards (query_row q args) w =
      (query_row (flavorify_postgres q) args, flavored-Asks _ _ q refl refl refl, refl, inr refl)
  connection_call-Forwards ping w = (ping, plain-Asks ping refl refl, refl, inr refl)
  connection_call-Forwards begin w = (begin, plain-Asks begin refl refl, refl, inr refl)
  connection_call-Forwards driver w = (driver, plain-Asks driver refl refl, refl, inr refl)
  connection_call-Forwards stats w = (stats, plain-Asks stats refl refl, refl, inr refl)
  connection_call-Forwards (set_max_idle_conns n) w =
      (set_max_idle_conns n, plain-Asks (set_max_idle_conns n) refl refl, refl, inr refl)
  connection_call-Forwards (set_max_open_conns n) w =
      (set_max_open_conns n, plain-Asks (set_max_open_conns n) refl refl, refl, inr refl)
  connection_call-Forwards (set_conn_max_lifetime d) w =
      (set_conn_max_lifetime d, plain-Asks (set_conn_max_lifetime d) refl refl, refl, inr refl)
