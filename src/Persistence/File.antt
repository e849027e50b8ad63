-- ===== src/Persistence/File.antt =====
-- persistence.rs: loading and saving the state file.
pub mod Laws
pub mod Default
use cryptosweep.Base.{
  String, Bool, true, false, Option, none, some, List, [], ◌∷◌, ◌++◌, map, string_eq,
}
use cryptosweep.Base.FilePath.{has_parent, with_extension}
use cryptosweep.Base.Dict
use cryptosweep.Base.Dict.{Dict}
use cryptosweep.Types.Error.{
  IoError, not_found, other, AppError, io, json, Result, ok, err, map_err,
}
use cryptosweep.Types.State.{PersistedState, empty_state}

-- The files of the disk, by path.
abbrev pub Disk : Type 0
Disk = Dict String String

-- The serializer is a library's: its texts, and its errors.
pub record Serde (D : Type 0) : Type 0 where
  pub from_str : String → Result (PersistedState D) String
  pub to_string_pretty : PersistedState D → Result String String

-- `path.with_extension("json.tmp")`
abbrev pub temp_path : String → String
temp_path = with_extension "json.tmp"

-- How the operating system answers to the operations of one save. A write passes through torn
-- texts; where it fails, the last of them stays.
pub record SaveAnswers : Type 0 where
  pub create_dir_all : Result (Unit {0}) IoError
  pub torn : List String
  pub write : Result (Unit {0}) IoError
  pub rename : Result (Unit {0}) IoError

-- A save's result, the disk behind it and the disks on the way, up to the rename or the error that
-- ends it.
pub record Saved : Type 0 where
  pub result : Result (Unit {0}) AppError
  pub disk : Disk
  pub before_rename : List Disk

-- The disks that a save passes through until it returns: behind the rename the new disk stands, also
-- before the return. A process that is killed during the save leaves one of these.
abbrev pub behind_rename : Disk → Result (Unit {0}) AppError → List Disk
behind_rename disk (ok _) = disk ∷ []
behind_rename disk (err _) = []

abbrev pub passed : Saved → List Disk
passed s = s.before_rename ++ behind_rename s.disk s.result

-- `fs::read_to_string`; `denied` is an error other than a missing file.
abbrev pub read_to_string : Option String → String → Disk → Result String IoError
read_to_string (some denied) path disk = err (other denied)
read_to_string none path disk = elim (Dict.get path disk) [
  | none ↦ err (not_found "No such file or directory (os error 2)")
  | some contents ↦ ok contents
]

-- The arms of `load_state`, on what reading the file gave.
unfoldable pub load_state :
    {D : Type 0} → Serde D → Result String IoError → Result (PersistedState D) AppError
load_state serde (ok contents) = map_err json (serde.from_str contents)
load_state serde (err (not_found _)) = ok empty_state
load_state serde (err (other m)) = err (io (other m))

-- `if let Some(parent) = path.parent()`
abbrev made : Bool → Result (Unit {0}) IoError → Result (Unit {0}) IoError
made false answer = ok tt
made true answer = answer

-- The disks of a write to `tmp` that has written each of the texts in turn.
unfoldable pub torn_disks : String → List String → Disk → List Disk
torn_disks tmp [] disk = []
torn_disks tmp (t ∷ ts) disk = let next = Dict.insert tmp t disk in next ∷ torn_disks tmp ts next

-- The last of these.
unfoldable pub after_torn : String → List String → Disk → Disk
after_torn tmp [] disk = disk
after_torn tmp (t ∷ ts) disk = after_torn tmp ts (Dict.insert tmp t disk)

-- A rename replaces the target in one step.
abbrev pub rename_to : String → String → String → Disk → Disk
rename_to tmp path contents disk = Dict.insert path contents (Dict.remove tmp disk)

module _ {D : Type 0} (serde : Serde D) (answers : SaveAnswers) (path : String) where
  abbrev pub written : String → Disk → Disk
  written text disk =
      Dict.insert (temp_path path) text (after_torn (temp_path path) answers.torn disk)

  unfoldable pub save_state : PersistedState D → Disk → Saved
  unfolding torn_disks after_torn
  save_state state disk = elim (made (has_parent path) answers.create_dir_all) [
    | err e ↦ record { result = err (io e); disk = disk; before_rename = disk ∷ [] }
    | ok _ ↦ elim (serde.to_string_pretty state) [
      | err e ↦ record { result = err (json e); disk = disk; before_rename = disk ∷ [] }
      | ok text ↦ elim answers.write [
        | err e ↦ record {
          result = err (io e);
          disk = after_torn (temp_path path) answers.torn disk;
          before_rename = disk ∷ torn_disks (temp_path path) answers.torn disk;
        }
        | ok _ ↦ elim answers.rename [
          | err e ↦ record {
            result = err (io e);
            disk = written text disk;
            before_rename =
                (disk ∷ torn_disks (temp_path path) answers.torn disk) ++ (written text disk ∷ []);
          }
          | ok _ ↦ record {
            result = ok tt;
            disk = rename_to (temp_path path) path text (written text disk);
            before_rename =
                (disk ∷ torn_disks (temp_path path) answers.torn disk) ++ (written text disk ∷ []);
          }
        ]
      ]
    ]
  ]
