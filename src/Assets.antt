-- ===== src/Assets.antt =====
-- assets/assets.go and assets/assetutil.go: where the web assets are read from.
use proxyreverse.Prelude.{
  Bool, true, false, Option, none, some, [], ◌++◌, Text, codes, if◌then◌else◌, Result, ok, err,
}

-- The directory of the file system, or the files embedded in the program.
pub data Provider : Type 0 where
  dir_fs : Text → Provider
  embedded : Provider

-- `useFileSystem`, a variable of the package.
pub record AssetState : Type 0 where
  pub use_file_system : Bool

abbrev pub initial : AssetState
initial = record { use_file_system = false }

-- `Assets`
unfoldable pub assets : AssetState → Provider
assets s = if s.use_file_system then dir_fs (codes "assets") else embedded

-- `UseFilesystem`
unfoldable pub use_filesystem : Bool → AssetState → AssetState
use_filesystem val s = record { use_file_system = val }

-- What opening a file gives, and what is read of an open file, in full or up to an error.
pub record Files (File : Type 0) : Type 0 where
  pub open_file : Provider → Text → Result Text File
  pub read_all : File → Text × Option Text

-- The print of a `bool`, and a message before the message of an error.
abbrev bool_text : Bool → Text
bool_text true = codes "true"
bool_text false = codes "false"

wrapped : Text → AssetState → Text → Text
wrapped what s e =
    what ++ (codes " (use-filesystem: " ++ (bool_text s.use_file_system ++ (codes "): " ++ e)))

-- `errors.Wrapf`, which keeps the absence of an error.
wrap_if : Text → AssetState → Option Text → Option Text
unfolding wrapped
wrap_if what s none = none
wrap_if what s (some e) = some (wrapped what s e)

module _ {File : Type 0} (files : Files File) where
  -- `ReadFile`: the content, also next to an error.
  unfoldable pub read_file : Text → AssetState → Text × Option Text
  unfolding assets wrapped wrap_if
  read_file name s = elim (files.open_file (assets s) name) [
    | err e ↦ ([], some (wrapped (codes "assets.ReadFile Open Error") s e))
    | ok f ↦
        let (content, failed) = files.read_all f in
        (content, wrap_if (codes "assets.ReadFile ReadAll Error") s failed)
  ]

-- `Config`, the options that the command line has for the assets.
pub record AssetConfig : Type 0 where
  pub from_filesystem : Bool
  pub debug_templates : Bool
