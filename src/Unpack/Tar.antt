-- ===== src/Unpack/Tar.antt =====
-- The entries of a layer, and what the extractor asks of the image's root (os.Root). What the root
-- answers depends on all that was asked of it before.
use hull.Prelude.{ℕ, Bool, Option, List, Bytes}
use hull.Unpack.Path.{NameError}

pub data TypeFlag : Type 0 where
  dir reg symlink link unsupported : TypeFlag

-- `tar.Header`, with the bytes of the entry.
pub record Header : Type 0 where
  pub name : Bytes
  pub linkname : Bytes
  pub kind : TypeFlag
  pub mode : ℕ
  pub uid : ℕ
  pub gid : ℕ
  pub body : Bytes

-- What the reader of the archive gives: an entry, or an error.
pub data Item : Type 0 where
  entry : Header → Item
  broken : Item

-- Paths are relative to the root; `chmod_target` and `record_attr` take the path on the host that
-- `filepath.Join(rootfsDir, name)` makes of the name. `symlink` and `link` take the old name first.
pub data Op : Type 0 where
  remove remove_all mkdir_all create stat lstat read_file open_dir read_names : Bytes → Op
  write_bytes write_file : Bytes → Bytes → Op
  makes_symlink makes_link : Bytes → Bytes → Op
  chmod chmod_target : Bytes → ℕ → Op
  record_attr : Bytes → Header → Bool → Op

pub data Error : Type 0 where
  not_exist permission other_error : Error

pub record Answer : Type 0 where
  pub error : Option Error
  pub mode : ℕ
  pub is_symlink : Bool
  pub data_read : Bytes
  pub names : List Bytes

-- The operations so far, the last one first, and the next one.
abbrev pub Root : Type 0
Root = List Op → Op → Answer

pub data Failure : Type 0 where
  not_opened : Error → Failure
  broken_archive : Failure
  too_many_entries : Bytes → Failure
  bad_name : Bytes → NameError → Failure
  bad_link : Bytes → NameError → Failure
  names_no_target : Bytes → Failure
  source_is_symlink : Bytes → Failure
  layer_bomb : Failure
  failed : Op → Error → Failure
