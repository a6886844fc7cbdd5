-- ===== src/Migrate.antt =====
-- internal/migrate/migrate.go, on a database of its own: the tables that the scripts make, of a type
-- that is a parameter, and the versions in `schema_migrations`, if that table is there. What a
-- script does is a parameter, and so is the embedded file system. Each call takes a turn, as in
-- World; the advisory lock is taken while no other process holds it.
pub mod Calls
pub mod Runs
pub mod Versions
pub mod Laws
pub mod Settled
pub mod Again
use goprofile.Prelude.{
  ◌^◌, ◌-◌, Bool, true, false, ◌&&◌, Bytes, text, List, [], ◌∷◌, ◌++◌, Option, none, some, any,
  if◌then◌else◌, ◌==◌, nat_eq, not, order_by,
}
use goprofile.Prelude.Int.{ℤ, pos, negsuc, leb_ℤ}
use goprofile.Text.{split, has_suffix, trim_suffix, text_leb}
use goprofile.Text.Path.{base}
use goprofile.Text.Number.{parse_int}
use goprofile.Domain.Errors.{Err, message, external, wrapped}
use goprofile.Result.{
  Result, ok, err, Exec, naming, named_error, return, lift, ignore, follow, ◌>>=◌, ◌>>◌,
}
use goprofile.World.{Turn, take_turn, settle}

-- An entry of a directory.
pub record Entry : Type 0 where
  pub name : Bytes
  pub is_dir : Bool

-- migrations.FS, which is generated from the files *.sql.
pub record Files : Type 0 where
  pub read_dir : Result (List Entry)
  pub read_file : Bytes → Result Bytes

-- What a transaction may write.
pub record Contents (Schema : Type 0) : Type 0 where
  pub schema : Schema
  pub versions : Option (List ℤ)

pub record Store (Schema : Type 0) : Type 0 where
  pub contents : Contents Schema
  pub locked : Bool
  pub turns : List Turn

abbrev pub same_int : ℤ → ℤ → Bool
same_int a b = leb_ℤ a b && leb_ℤ b a

-- The values of PostgreSQL's INTEGER; any other is refused on its way into a statement.
abbrev pub is_int4 : ℤ → Bool
is_int4 v = leb_ℤ (negsuc (2 ^ 31 - 1)) v && leb_ℤ v (pos (2 ^ 31 - 1))

abbrev first_part : List Bytes → Bytes
first_part [] = []
first_part (p ∷ parts) = p

abbrev version_or : Bytes → Option ℤ → Result ℤ
version_or name (some v) = ok v
version_or name none = err (message (text "invalid migration name " ++ name))

-- The part before the first '_', or all of it, as a number.
unfoldable pub version_of : Bytes → Result ℤ
version_of name =
    version_or name (parse_int (first_part (split (trim_suffix (base name) (text ".sql")) b'_')))

-- SELECT EXISTS (… WHERE version = $1)
abbrev pub recorded : ℤ → Option (List ℤ) → Result Bool
recorded v none = err (external 2)
recorded v (some versions) = if is_int4 v then ok (any (same_int v) versions) else err (external 3)

-- INSERT INTO schema_migrations (version) VALUES ($1), where the version is the primary key.
abbrev pub insert_version : ℤ → Option (List ℤ) → Result (Option (List ℤ))
insert_version v none = err (external 2)
insert_version v (some versions) =
    if is_int4 v && not (any (same_int v) versions)
    then ok (some (versions ++ v ∷ []))
    else err (external 3)

-- CREATE TABLE IF NOT EXISTS schema_migrations
abbrev pub with_table : {Schema : Type 0} → Contents Schema → Contents Schema
with_table {Schema} d = record d {
  versions = elim d.versions [ none ↦ some [] | some vs ↦ some vs ];
}

-- The names of the files that end in .sql.
unfoldable pub sql_names : List Entry → List Bytes
sql_names [] = []
sql_names (e ∷ entries) =
    let rest = sql_names entries in
    if e.is_dir then rest else if has_suffix e.name (text ".sql") then e.name ∷ rest else rest

abbrev pub sorted_names : List Entry → List Bytes
sorted_names entries = order_by text_leb (sql_names entries)

module _ {Schema : Type 0} where
  -- One call to the database, which changes what a transaction may write.
  unfoldable pub call :
      {A : Type 0} → (Contents Schema → Result A × Contents Schema) → Exec (Store Schema) A
  call effect s =
      let (t, ts) = take_turn s.turns in
      let before = record s { turns = ts } in
      let (r, d) = effect s.contents in settle t.outcome (r, record before { contents = d }) before

  abbrev pub hold : Bool → Exec (Store Schema) (Unit {0})
  hold on s =
      let (t, ts) = take_turn s.turns in
      let before = record s { turns = ts } in
      settle t.outcome (ok tt, record before { locked = on }) before

  abbrev pub with_schema : Contents Schema → Result Schema → Result (Unit {0}) × Contents Schema
  with_schema d (ok schema) = (ok tt, record d { schema = schema })
  with_schema d (err e) = (err e, d)

  abbrev pub with_versions :
      Contents Schema → Result (Option (List ℤ)) → Result (Unit {0}) × Contents Schema
  with_versions d (ok versions) = (ok tt, record d { versions = versions })
  with_versions d (err e) = (err e, d)

  -- Behind the statements of a transaction: the deferred rollback, or the commit.
  unfoldable pub finish :
      Bytes → Contents Schema → Result (Unit {0}) → Exec (Store Schema) (Unit {0})
  unfolding call
  finish name saved (err e) s = (err e, record s { contents = saved })
  finish name saved (ok _) s =
      naming (text "commit " ++ name) (call (λ d. (ok tt, s.contents)))
        (record s { contents = saved })

  abbrev pub record_version : ℤ → Contents Schema → Result (Unit {0}) × Contents Schema
  record_version version d = with_versions d (insert_version version d.versions)

  module _ (exec_sql : Bytes → Schema → Result Schema) where
    abbrev pub run_script : Bytes → Contents Schema → Result (Unit {0}) × Contents Schema
    run_script sql d = with_schema d (exec_sql sql d.schema)

    unfoldable pub statements : Bytes → ℤ → Bytes → Exec (Store Schema) (Unit {0})
    unfolding call
    statements name version sql = do
      naming (text "apply " ++ name) (call (run_script sql))
      naming (text "record " ++ name) (call (record_version version))

    unfoldable pub apply_file : Bytes → ℤ → Bytes → Exec (Store Schema) (Unit {0})
    unfolding call statements finish
    apply_file name version sql = do
      naming (text "begin " ++ name) (call (λ d. (ok tt, d)))
      λ s. let (r, s') = statements name version sql s in finish name s.contents r s'

    module _ (files : Files) where
      -- The error of the query is named here without the number of the version.
      unfoldable pub apply_names : List Bytes → Exec (Store Schema) (Unit {0})
      unfolding version_of call apply_file
      apply_names [] = return tt
      apply_names (name ∷ names) =
          let rest = apply_names names in
          (do
            version ← lift (version_of name)
            exists ← naming (text "check migration") (call (λ d. (recorded version d.versions, d)))
            if exists then rest else (do
              sql ← lift (named_error (text "read " ++ name) (files.read_file name))
              apply_file name version sql
              rest))

      -- Under the lock.
      unfoldable pub migrate : Exec (Store Schema) (Unit {0})
      unfolding call sql_names apply_names
      migrate = do
        naming (text "create schema_migrations") (call (λ d. (ok tt, with_table d)))
        entries ← lift (named_error (text "read migrations") files.read_dir)
        apply_names (sorted_names entries)

      unfoldable pub up : Exec (Store Schema) (Unit {0})
      unfolding call migrate
      up = do
        naming (text "acquire conn") (call (λ d. (ok tt, d)))
        naming (text "advisory lock") (hold true)
        λ s. let (r, s') = migrate s in (r, (hold false s').1)
