-- ===== src/Session/Disk.antt =====
-- Files as a crash leaves them, for the crash-safe writes of packages/runner/src: names lead to
-- files through a directory. A crash keeps the content of a file that was synchronized and leaves
-- any content in another, and it brings back the directory of any moment since the last
-- synchronization of the directory.
use soa_harness_impl.Base.{
  ℕ, zero, suc, String, Bool, true, false, Option, none, some, List, [], ◌∷◌, nat_key, string_key,
  if◌then◌else◌,
}
use soa_harness_impl.Base.Dict
use soa_harness_impl.Base.Dict.{Dict}

pub record File : Type 0 where
  pub content : String
  pub synced : Bool

abbrev pub Directory : Type 0
Directory = Dict String ℕ

-- The directory, those that a crash can bring back, the latest first, the files, and the number
-- that the next file gets.
pub record Disk : Type 0 where
  pub names : Directory
  pub earlier : List Directory
  pub files : Dict ℕ File
  pub next : ℕ

-- The operations on files.
pub data FileStep : Type 0 where
  make_dir : FileStep
  open_truncated : String → FileStep
  write_file : (path content : String) → FileStep
  sync_file : String → FileStep
  rename : (from to : String) → FileStep
  sync_dir : FileStep

unfoldable pub put_file : Disk → ℕ → String → Bool → Disk
put_file d i content synced = record d {
  files = Dict.set d.files i (record { content = content; synced = synced });
}

unfoldable pub open_at : Disk → String → Option ℕ → Disk
unfolding put_file
open_at d path (some i) = put_file d i "" false
open_at d path none = record (put_file d d.next "" false) {
  names = Dict.set d.names path d.next;
  earlier = d.names ∷ d.earlier;
  next = suc d.next;
}

unfoldable pub write_at : Disk → String → Option ℕ → Disk
unfolding put_file
write_at d content none = d
write_at d content (some i) = put_file d i content false

unfoldable pub sync_content : Disk → ℕ → Option File → Disk
unfolding put_file
sync_content d i none = d
sync_content d i (some file) = put_file d i file.content true

unfoldable pub sync_at : Disk → Option ℕ → Disk
unfolding sync_content
sync_at d none = d
sync_at d (some i) = sync_content d i (Dict.get d.files i)

unfoldable pub rename_at : Disk → String → String → Option ℕ → Disk
rename_at d from to none = d
rename_at d from to (some i) = record d {
  names = Dict.set (Dict.delete d.names from) to i;
  earlier = d.names ∷ d.earlier;
}

unfoldable pub do_step : Disk → FileStep → Disk
unfolding open_at write_at sync_at rename_at
do_step d make_dir = d
do_step d (open_truncated path) = open_at d path (Dict.get d.names path)
do_step d (write_file path content) = write_at d content (Dict.get d.names path)
do_step d (sync_file path) = sync_at d (Dict.get d.names path)
do_step d (rename from to) = rename_at d from to (Dict.get d.names from)
do_step d sync_dir = record d { earlier = [] }

unfoldable pub do_steps : Disk → List FileStep → Disk
unfolding do_step
do_steps d [] = d
do_steps d (s ∷ ss) = do_steps (do_step d s) ss

unfoldable pub content_of : Option File → Option String
content_of none = none
content_of (some file) = some file.content

unfoldable pub file_at : Dict ℕ File → Option ℕ → Option File
file_at files none = none
file_at files (some i) = Dict.get files i

-- readFile
unfoldable pub read : Disk → String → Option String
unfolding content_of file_at
read d path = content_of (file_at d.files (Dict.get d.names path))

-- What a crash does: which directory comes back, and what is in the files that are not synchronized.
pub record Crash : Type 0 where
  pub back : ℕ
  pub left : ℕ → String

unfoldable pub directory : ℕ → Directory → List Directory → Directory
directory zero names earlier = names
directory (suc n) names [] = names
directory (suc n) names (older ∷ earlier) = directory n older earlier

unfoldable pub left_in : String → Option File → Option String
left_in text none = none
left_in text (some file) = some (if file.synced then file.content else text)

unfoldable pub left_at : (ℕ → String) → Dict ℕ File → Option ℕ → Option String
unfolding left_in
left_at left files none = none
left_at left files (some i) = left_in (left i) (Dict.get files i)

-- What the file of a name holds after a crash.
unfoldable pub after_crash : Disk → Crash → String → Option String
unfolding directory left_at
after_crash d crash path =
    left_at crash.left d.files (Dict.get (directory crash.back d.names d.earlier) path)
