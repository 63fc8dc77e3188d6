-- ===== src/Broker/Atomic/Sql.antt =====
-- What callers see of a restart of the broker over nfsbroker/store_sql.go, whenever the old process
-- ended.
use nfsbroker.Base.{ℕ, String, ◌≡◌, refl, sym, ◌∙◌, Option, List}
use nfsbroker.Api.{Error, ok}
use nfsbroker.Externals.{Externals}
use nfsbroker.Store.{Store, is_binding_conflict}
use nfsbroker.Sql.{SqlDb, SqlVariant}
use nfsbroker.Store.Sql.{
  DetailsCodec, retrieve_instance_details, retrieve_binding_details, is_instance_conflict, restore,
  save, sql_store,
}
use nfsbroker.Store.Sql.Database.{
  Table, service_instances, service_bindings, Speaks, SameRows, IsDatabase,
}
use nfsbroker.Store.Sql.Rows.{select_ends}
use nfsbroker.Store.Sql.Working.{IsWorking}
use nfsbroker.Broker.Types.{Broker}
use nfsbroker.Broker.{new}
use nfsbroker.Broker.Requests.{Request}
use nfsbroker.Broker.Server.{Server, init, Reach}
use nfsbroker.Broker.Serial.{Log, Serial}
use nfsbroker.Broker.Simulation.Sequences.{serve_all}
use nfsbroker.Broker.Reference.Sql.{serve_all-row_store}
use nfsbroker.Broker.Durable.Crash.{Answered}
use nfsbroker.Broker.Atomic.{IsReading}
use nfsbroker.Broker.Atomic.Reached.{reach-Whole}

module _ {J W : Type 0} (db : SqlDb J W) (leaf : SqlVariant W) (codec : DetailsCodec J)
    (rows : W → Table → String → Option J) (mark : ℕ → String) (D : IsDatabase rows mark db)
    (P : Speaks mark leaf) (E : Externals) where
  abbrev st : Store W
  st = sql_store db leaf codec E

  retrieve_instance-SameRows :
      (id : String) (s : W) → SameRows rows s (retrieve_instance_details db leaf codec id s).1
  unfolding retrieve_instance_details
  retrieve_instance-SameRows id s =
      (select_ends db leaf codec rows mark D P codec.unmarshal_instance service_instances id s).0

  retrieve_binding-SameRows :
      (id : String) (s : W) → SameRows rows s (retrieve_binding_details db leaf codec id s).1
  unfolding retrieve_binding_details
  retrieve_binding-SameRows id s =
      (select_ends db leaf codec rows mark D P codec.unmarshal_binding service_bindings id s).0

  sql_store-IsReading : IsReading (SameRows rows) st
  unfolding is_instance_conflict is_binding_conflict save
  sql_store-IsReading = record {
    same = λ s t k. refl;
    back = λ s u same t k. sym (same t k);
    after = λ s u w first second t k. second t k ∙ first t k;
    retrieve_instance = retrieve_instance-SameRows;
    retrieve_binding = retrieve_binding-SameRows;
    instance_conflict = λ id d s. retrieve_instance-SameRows id s;
    binding_conflict = λ id d s. retrieve_binding-SameRows id s;
    save = λ s t k. refl;
  }

  module _ (duplicate : Table → String → Error) (F : IsWorking rows mark duplicate db) (b : Broker)
      (requests : ℕ → Request) where
    -- `New` over the database gives a broker that answers as one over `t`.
    abbrev pub Resumes : W → W → Type 0
    Resumes t w =
        let r = new E st b.static.service_name b.static.service_id b.config w in
        (r.0 ≡ ok b)
        × ((qs : List Request) → (serve_all E st b qs r.1).0 ≡ (serve_all E st b qs t).0)

    SameRows-Resumes : (t w : W) → SameRows rows t w → Resumes t w
    unfolding new restore
    SameRows-Resumes t w same = (
      refl,
      λ qs.
          (serve_all-row_store db leaf codec rows mark D P duplicate F E b qs w (rows t) same).0
          ∙ sym
              (serve_all-row_store db leaf codec rows mark D P duplicate F E b qs t (rows t)
                (λ u k. refl)).0,
    )

    -- What an end of the process at this point leaves, if a new one finds the database `w`.
    abbrev pub Recovers : W → Server W → W → Type 0
    Recovers s v w =
        (log : Log) × (t : W) × Serial E st b requests s log t
        × Answered E st b requests log v
        × Resumes t w

    -- Whenever the process ends, between two calls of its handlers too, but not within one, a broker
    -- that is made anew over a database with the rows that are left gives any sequence of requests
    -- the answers that a broker would give that had run whole handlers only, one after the other,
    -- among them that of every goroutine that was answered and not refused: if the database has the
    -- two tables, reads the placeholders that the variant writes, and fails only where an identifier
    -- is there already.
    pub reach-Recovers :
        {s : W} {v : Server W} (w : W)
        → Reach E st b requests (init s) v
        → SameRows rows v.store w
        → Recovers s v w
    reach-Recovers {v} w r same' =
        let (log, t, serial, same, answers) =
          reach-Whole E st (SameRows rows) sql_store-IsReading b requests r in
        (log, t, serial, answers, SameRows-Resumes t w (λ u k. same' u k ∙ same u k))
