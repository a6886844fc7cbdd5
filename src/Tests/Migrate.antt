-- ===== src/Tests/Migrate.antt =====
-- A migration of an empty database, over two scripts, a text and a directory.
use goprofile.Prelude.{
  true, false, Bytes, text, text_beq, List, [], ◌∷◌, ◌++◌, none, ◌≡◌, refl, any, order_by,
  insert_sorted,
}
use goprofile.Result.{Result, ok}
use goprofile.Text.{split, split_on, has_prefix, has_suffix, trim_suffix, text_leb, trim_byte}
use goprofile.Text.Path.{base, until_slash}
use goprofile.Text.Number.{parse_int, unsigned, digits_value}
use goprofile.World.{works, breaks, lost_reply}
use goprofile.Migrate.{
  Files, Store, up, migrate, apply_names, apply_file, statements, finish, call, sql_names,
  version_of,
}
use goprofile.Migrate.Laws.{IsLeft, up-IsLeft}
use goprofile.Migrate.Settled.{IsMigrated, up-IsMigrated}
use goprofile.Migrate.Again.{up_again}

-- The database notes the scripts that ran.
abbrev note_script : Bytes → List Bytes → Result (List Bytes)
note_script sql ran = ok (ran ++ sql ∷ [])

abbrev scripts : Files
scripts = record {
  read_dir = ok (
      record { name = text "0002_outbox.sql"; is_dir = false }
      ∷ record { name = text "fs.go"; is_dir = false }
      ∷ record { name = text "old.sql"; is_dir = true }
      ∷ record { name = text "0001_init.sql"; is_dir = false }
      ∷ []);
  read_file = λ name. ok name;
}

abbrev empty : Store (List Bytes)
empty = record { contents = record { schema = []; versions = none }; locked = false; turns = [] }

abbrev migrated : Result (Unit {0}) × Store (List Bytes)
migrated = up note_script scripts empty

-- The reply of the first script is lost.
abbrev interrupted : Store (List Bytes)
interrupted = record empty {
  turns =
      record { outcome = works; elapsed = 0 }
      ∷ record { outcome = works; elapsed = 0 }
      ∷ record { outcome = works; elapsed = 0 }
      ∷ record { outcome = works; elapsed = 0 }
      ∷ record { outcome = works; elapsed = 0 }
      ∷ record { outcome = lost_reply; elapsed = 0 }
      ∷ [];
}

migrated_lem : migrated ≡ (ok tt, migrated.1)
unfolding up migrate apply_names apply_file statements finish call sql_names version_of split
    split_on has_prefix has_suffix trim_suffix text_leb trim_byte base until_slash parse_int
    unsigned digits_value text_beq any order_by insert_sorted
migrated_lem = refl

scripts_lem : migrated.1.contents.schema ≡ text "0001_init.sql" ∷ text "0002_outbox.sql" ∷ []
unfolding up migrate apply_names apply_file statements finish call sql_names version_of split
    split_on has_prefix has_suffix trim_suffix text_leb trim_byte base until_slash parse_int
    unsigned digits_value text_beq any order_by insert_sorted
scripts_lem = refl

up-IsLeft_example :
    IsLeft note_script scripts interrupted.contents (up note_script scripts interrupted).1.contents
up-IsLeft_example = up-IsLeft note_script scripts interrupted

up-IsMigrated_example : IsMigrated note_script scripts migrated.1.contents
up-IsMigrated_example = up-IsMigrated note_script scripts empty migrated.1 migrated_lem

up_again_example :
    (up note_script scripts
      (record migrated.1 { turns = record { outcome = breaks; elapsed = 0 } ∷ [] })).1.contents
    ≡ migrated.1.contents
up_again_example =
    up_again note_script scripts empty migrated.1 (record { outcome = breaks; elapsed = 0 } ∷ [])
      migrated_lem
