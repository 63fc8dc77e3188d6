-- ===== src/Tests/Database.antt =====
-- A database in memory with the two tables, which satisfies what the SQL store relies on.
use nfsbroker.Base.{
  sym, ap, ◌∙◌, String, ◌≡◌, refl, Option, none, some, List, [], ◌∷◌, ◌⊎◌, inl, inr, ◌==◌, ◌&&◌,
  if◌then◌else◌, string_dec,
}
use nfsbroker.Api.{Error, message, ServiceInstance, BindDetails}
use mathlib.Core.Path.{subst}
use nfsbroker.Exec.{pure}
use nfsbroker.Sql.{
  Arg, id_arg, json_arg, Row, scanned, no_rows, row_error, SqlDb, SqlVariant, flavorify_mysql,
  flavorify_postgres,
}
use nfsbroker.Store.Sql.{DetailsCodec}
use nfsbroker.Store.Sql.Database.{
  Table, service_instances, service_bindings, same_table, insert_text, select_text, delete_text,
  question, IsDatabase, RowSet, SameRows,
}
use nfsbroker.Store.Sql.Rows.{IsCodec}
use nfsbroker.Store.Sql.Working.{refusal_over, row_of, IsWorking}

abbrev pub Json : Type 0
Json = ServiceInstance ⊎ BindDetails

-- The two tables.
abbrev pub Tables : Type 0
Tables = Table → String → Option Json

abbrev set_row : Table → String → Option Json → Tables → Tables
set_row t id v s t' k = if same_table t t' && id == k then v else s t' k

-- An insert where the row held `o`.
abbrev insert_over : Option Json → Table → String → Json → Tables → Option Error × Tables
insert_over none t id v s = (none, set_row t id (some v) s)
insert_over (some _) t id v s = (some (message "duplicate key"), s)

abbrev insert_row : Table → String → Json → Tables → Option Error × Tables
insert_row t id v s = insert_over (s t id) t id v s

abbrev run : String → List (Arg Json) → Tables → Option Error × Tables
run q (id_arg id ∷ json_arg v ∷ []) s =
    if q == insert_text question service_instances
    then insert_row service_instances id v s
    else if q == insert_text question service_bindings
    then insert_row service_bindings id v s
    else (some (message "syntax"), s)
run q (id_arg id ∷ []) s =
    if q == delete_text question service_instances
    then (none, set_row service_instances id none s)
    else if q == delete_text question service_bindings
    then (none, set_row service_bindings id none s)
    else (some (message "syntax"), s)
run q _ s = (none, s)

abbrev found : Option Json → String → Row Json
found none id = no_rows
found (some v) id = scanned id v

abbrev look : String → String → Tables → Row Json × Tables
look q id s =
    if q == select_text question service_instances
    then (found (s service_instances id) id, s)
    else if q == select_text question service_bindings
    then (found (s service_bindings id) id, s)
    else (no_rows, s)

abbrev pub database : SqlDb Json Tables
database = record { ping = pure tt; exec = run; query_row = look }

abbrev pub mysql : SqlVariant Tables
mysql = record { open_db = pure tt; flavorify = flavorify_mysql }

abbrev pub postgres : SqlVariant Tables
postgres = record { open_db = pure tt; flavorify = flavorify_postgres }

abbrev pub details_codec : DetailsCodec Json
details_codec = record {
  marshal_instance = λ d. inr (inl d);
  unmarshal_instance = λ v. elim v [ inl d ↦ inr d | inr _ ↦ inl (message "no instance") ];
  marshal_binding = λ d. inr (inr d);
  unmarshal_binding = λ v. elim v [ inl _ ↦ inl (message "no binding") | inr d ↦ inr d ];
}

instance_again :
    (d : ServiceInstance) (v : Json)
    → details_codec.marshal_instance d ≡ inr v
    → details_codec.unmarshal_instance v ≡ inr d
instance_again d (inl d') e = cc
instance_again d (inr d') e = cc

binding_again :
    (d : BindDetails) (v : Json)
    → details_codec.marshal_binding d ≡ inr v
    → details_codec.unmarshal_binding v ≡ inr d
binding_again d (inl d') e = cc
binding_again d (inr d') e = cc

pub details_codec-IsCodec : IsCodec details_codec
details_codec-IsCodec = record {
  instance_back = instance_again;
  binding_back = λ d v e _ _. binding_again d v e;
  binding_hides = λ d v e hidden. (d, binding_again d v e, hidden);
}

abbrev pub rows : Tables → Table → String → Option Json
rows s = s

abbrev Inserted : Table → String → Json → Tables → Option Error × Tables → Type 0
Inserted t id v s r =
    ((r.0 ≡ none) × (s t id ≡ none) × RowSet rows t id (some v) s r.1)
    ⊎ ((e : Error) × (r.0 ≡ some e) × SameRows rows s r.1)

insert_over-Inserted :
    (o : Option Json) (t : Table) (id : String) (v : Json) (s : Tables)
    → s t id ≡ o
    → Inserted t id v s (insert_over o t id v s)
insert_over-Inserted none t id v s e = inl (refl, e, λ t' k. refl)
insert_over-Inserted (some w) t id v s e = inr (message "duplicate key", refl, λ t' k. refl)

database_inserts :
    (t : Table) (id : String) (v : Json) (s : Tables)
    → Inserted t id v s (run (insert_text question t) (id_arg id ∷ json_arg v ∷ []) s)
unfolding string_dec
database_inserts service_instances id v s = insert_over-Inserted _ service_instances id v s refl
database_inserts service_bindings id v s = insert_over-Inserted _ service_bindings id v s refl

found_cases :
    (o : Option Json) (id : String)
    → ((v : Json) × (found o id ≡ scanned id v) × (o ≡ some v))
      ⊎ ((found o id ≡ no_rows) × (o ≡ none))
      ⊎ ((e : Error) × (found o id ≡ row_error e))
found_cases none id = inr (inl (refl, refl))
found_cases (some v) id = inl (v, refl, refl)

database_selects :
    (t : Table) (id : String) (s : Tables)
    → look (select_text question t) id s ≡ (found (s t id) id, s)
unfolding string_dec
database_selects service_instances id s = refl
database_selects service_bindings id s = refl

database_deletes :
    (t : Table) (id : String) (s : Tables)
    → run (delete_text question t) (id_arg id ∷ []) s ≡ (none, set_row t id none s)
unfolding string_dec
database_deletes service_instances id s = refl
database_deletes service_bindings id s = refl

pub database-IsDatabase : IsDatabase rows question database
database-IsDatabase = record {
  inserts = database_inserts;
  selects = λ t id s.
      let e = database_selects t id s in
      subst
        (λ (r : Row Json × Tables).
          SameRows rows s r.1
          × (((v : Json) × (r.0 ≡ scanned id v) × (s t id ≡ some v))
              ⊎ ((r.0 ≡ no_rows) × (s t id ≡ none))
              ⊎ ((e : Error) × (r.0 ≡ row_error e))))
        (sym e) ((λ t' k. refl), found_cases (s t id) id);
  deletes = λ t id s.
      subst
        (λ (r : Option Error × Tables).
          ((r.0 ≡ none) × RowSet rows t id none s r.1)
          ⊎ ((e : Error) × (r.0 ≡ some e) × SameRows rows s r.1))
        (sym (database_deletes t id s)) (inl (refl, λ t' k. refl));
}

abbrev pub duplicate : Table → String → Error
duplicate t id = message "duplicate key"

insert_over-refusal_over :
    (o : Option Json) (t : Table) (id : String) (v : Json) (s : Tables)
    → (insert_over o t id v s).0 ≡ refusal_over (duplicate t id) o
insert_over-refusal_over none t id v s = refl
insert_over-refusal_over (some w) t id v s = refl

insert_refusal :
    (t : Table) (id : String) (v : Json) (s : Tables)
    → (run (insert_text question t) (id_arg id ∷ json_arg v ∷ []) s).0
      ≡ refusal_over (duplicate t id) (s t id)
unfolding string_dec
insert_refusal service_instances id v s = insert_over-refusal_over _ service_instances id v s
insert_refusal service_bindings id v s = insert_over-refusal_over _ service_bindings id v s

found-row_of : (o : Option Json) (id : String) → found o id ≡ row_of id o
found-row_of none id = refl
found-row_of (some v) id = refl

pub database-IsWorking : IsWorking rows question duplicate database
database-IsWorking = record {
  inserts = insert_refusal;
  selects = λ t id s. ap (λ r. r.0) (database_selects t id s) ∙ found-row_of (s t id) id;
  deletes = λ t id s. ap (λ r. r.0) (database_deletes t id s);
}
