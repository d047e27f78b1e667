-- ===== src/Node/Disk.antt =====
-- A directory of files, as a storage node uses it: names and contents.
use air_store.Prelude.{
  Text, text_eq, text_eq_iff, Bytes, ◌≡◌, refl, Option, none, some, List, [], ◌∷◌, arith,
  if◌then◌else◌,
}

abbrev pub Disk : Type 0
Disk = List (Text × Bytes)

-- `open(path, "rb").read()`; `none` where `path.exists()` is false.
unfoldable pub read_file : Text → Disk → Option Bytes
read_file name [] = none
read_file name ((n, content) ∷ disk) = if text_eq n name then some content else read_file name disk

-- `open(path, "wb").write(data)`
unfoldable pub write_file : Text → Bytes → Disk → Disk
write_file name content [] = (name, content) ∷ []
write_file name content ((n, c) ∷ disk) =
    if text_eq n name then (n, content) ∷ disk else (n, c) ∷ write_file name content disk

-- `os.remove(path)`
unfoldable pub remove_file : Text → Disk → Disk
remove_file name [] = []
remove_file name ((n, c) ∷ disk) =
    let rest = remove_file name disk in if text_eq n name then rest else (n, c) ∷ rest

-- `os.rename(old, new)`, where `new` does not exist.
unfoldable pub rename_file : Text → Text → Disk → Disk
rename_file old new disk = elim (read_file old disk) [
  | none ↦ disk
  | some content ↦ write_file new content (remove_file old disk)
]

pub read-write :
    (name other : Text) (content : Bytes) (disk : Disk)
    → read_file other (write_file name content disk)
      ≡ (if text_eq name other then some content else read_file other disk)
unfolding read_file write_file
read-write name other content [] = refl
read-write name other content ((n, c) ∷ disk) = ground (
  arith,
  text_eq_iff n name,
  text_eq_iff n other,
  text_eq_iff name other,
  read-write name other content disk,
)

pub read-remove :
    (name other : Text) (disk : Disk)
    → read_file other (remove_file name disk)
      ≡ (if text_eq name other then none else read_file other disk)
unfolding read_file remove_file
read-remove name other [] = ground arith
read-remove name other ((n, c) ∷ disk) = ground (
  arith,
  text_eq_iff n name,
  text_eq_iff n other,
  text_eq_iff name other,
  read-remove name other disk,
)

pub ruleset disk_laws = (read-write, read-remove)
