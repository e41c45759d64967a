-- ===== src/Tests/Migration.antt =====
-- Tests of the migration, on a text CRDT whose documents are their texts.
use zodia.Prelude.{
  ℕ, ◌≡◌, refl, sym, ap, ◌∙◌, Bool, true, false, Option, none, some, [], ◌∷◌, ◌++◌, Bytes, codes,
  length, bytes_eq, arith,
}
use zodia.Store.{Db, new_db}
use zodia.Store.Docs.{doc_load}
use zodia.Store.Interps.WellFormed.{run, from_op}
use zodia.Store.Seed.{empty_baseline}
use zodia.Doc.LocalEdits.{TextCrdt, IsTextCrdt}
use zodia.App.Migration.{migrate_interps_to_docs}
use zodia.App.Migration.Texts.{IsMigrated, migrate_interps_to_docs_lem}
use zodia.Tests.{toy, sig, hello, appending}

abbrev texts : TextCrdt Bytes
texts = record {
  get_text = λ d. d;
  len_unicode = λ d. length d;
  delete = λ d from len. some [];
  insert = λ d at text. some (text ++ d);
  commit = λ d. d;
  export_updates = λ d. some d;
}

inserted-empty : (d new : Bytes) → length d ≡ 0 → new ++ d ≡ new
inserted-empty [] [] h = refl
inserted-empty [] (x ∷ new) h = ap (λ ys. x ∷ ys) (inserted-empty [] new refl)
inserted-empty (y ∷ d) new h = ground arith

law : IsTextCrdt appending texts
law = record {
  new_empty = λ peer. refl;
  inserted = λ d new h. (new ++ d, (refl, inserted-empty d new h));
  updates = λ d. (d, refl);
  restored = λ d peer. (d, (refl, (d, (refl, refl))));
}

abbrev db : Db
unfolding run
db = run toy new_db (from_op sig hello 5 100 ∷ from_op sig (codes "there") 6 101 ∷ [])

abbrev migrated : Db
unfolding db migrate_interps_to_docs
migrated = migrate_interps_to_docs appending texts empty_baseline 5 db 200

joined : doc_load migrated sig ≡ some (codes "hello\n\nthere")
unfolding doc_load migrated zodia.Store.Interps.insert_from_op zodia.Prelude.select
    zodia.Store.Interps.Queries.authored_rows_for_key zodia.Sql.order_by bytes_eq
    zodia.Core.Interp.parse_interp_sig
joined = refl

migrate_interps_to_docs_lem_example :
    IsMigrated appending texts empty_baseline 5 db migrated sig
    × (migrate_interps_to_docs appending texts empty_baseline 5 migrated 300 ≡ migrated)
unfolding migrated zodia.Store.Interps.insert_from_op
migrate_interps_to_docs_lem_example =
    migrate_interps_to_docs_lem appending texts empty_baseline 5 law db 200 300 sig refl refl
