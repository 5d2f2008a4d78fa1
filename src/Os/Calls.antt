-- ===== src/Os/Calls.antt =====
-- More calls of package os. Only `stat` follows a link at the end of its path: a file that is read or
-- written through one is an error here. Numbers of errors are those of Linux.
use nsbox.Base.{
  ℕ, Text, List, [], ◌∷◌, ◌++◌, codes, Bool, true, false, not, ◌&&◌, ◌||◌, is_empty, drop, length,
  Option, none, some, str_eq, has_prefix, if◌then◌else◌, Result, Errno, enoent, eexist, other, ok,
  err, errno,
}
use nsbox.Os.{file, dir, link, Inode, World, Sys, syscall, put}

-- The path itself and what lies below it.
unfoldable pub below : Text → Text → Bool
below path q = str_eq q path || has_prefix q (path ++ codes "/")

abbrev pub is_dir : Inode → Bool
is_dir i = elim i.node [ file s ↦ false | dir ↦ true | link t ↦ false ]

-- A link at the path is followed once.
abbrev pub target_of : Option Inode → Text → Text
target_of none path = path
target_of (some i) path = elim i.node [ file s ↦ path | dir ↦ path | link t ↦ t ]

unfoldable pub resolve : World → Text → Text
resolve w path = target_of (w.at path) path

-- os.Stat and os.Lstat
abbrev pub found : Option Inode → World → Result Inode × World
found none w = (err (errno enoent), w)
found (some i) w = (ok i, w)

unfoldable pub stat : Text → Sys Inode
unfolding syscall
stat path = syscall (λ w. found (w.at (resolve w path)) w)

unfoldable pub lstat : Text → Sys Inode
unfolding syscall
lstat path = syscall (λ w. found (w.at path) w)

-- os.Readlink
abbrev pub read_link : Option Inode → World → Result Text × World
read_link none w = (err (errno enoent), w)
read_link (some i) w = elim i.node [
  | file s ↦ (err (errno (other 22)), w)
  | dir ↦ (err (errno (other 22)), w)
  | link t ↦ (ok t, w)
]

unfoldable pub readlink : Text → Sys Text
unfolding syscall
readlink path = syscall (λ w. read_link (w.at path) w)

-- os.Open and a read to the end
abbrev pub content : Option Inode → World → Result Text × World
content none w = (err (errno enoent), w)
content (some i) w = elim i.node [
  | file s ↦ (ok s, w)
  | dir ↦ (err (errno (other 21)), w)
  | link t ↦ (err (errno (other 40)), w)
]

unfoldable pub read_file : Text → Sys Text
unfolding syscall
read_file path = syscall (λ w. content (w.at path) w)

-- os.Remove
abbrev pub remove_at : Option Inode → Text → World → Result (Unit {0}) × World
remove_at none path w = (err (errno enoent), w)
remove_at (some i) path w = (ok tt, put w path none)

unfoldable pub remove : Text → Sys (Unit {0})
unfolding syscall
remove path = syscall (λ w. remove_at (w.at path) path w)

-- os.RemoveAll. It is no error if nothing is there; one that fails is taken to remove nothing.
unfoldable pub remove_all : Text → Sys (Unit {0})
unfolding syscall
remove_all path =
    syscall (λ w. (ok tt, record w { at = λ q. if below path q then none else w.at q }))

-- os.MkdirAll
abbrev pub or_dir : Option Inode → Bool → ℕ → Option Inode
or_dir (some i) on_the_way perm = some i
or_dir none true perm = some (record { node = dir; uid = 0; gid = 0; mode = perm })
or_dir none false perm = none

abbrev pub mkdir_all_at : Option Inode → Text → ℕ → World → Result (Unit {0}) × World
mkdir_all_at (some i) path perm w = if is_dir i then (ok tt, w) else (err (errno (other 20)), w)
mkdir_all_at none path perm w =
    (ok tt, record w { at = λ q. or_dir (w.at q) (not (is_empty q) && below q path) perm })

unfoldable pub mkdir_all : Text → ℕ → Sys (Unit {0})
unfolding syscall
mkdir_all path perm = syscall (λ w. mkdir_all_at (w.at path) path perm w)

-- os.Create and os.OpenFile with the flags of ioutil.WriteFile: the file is empty afterwards.
abbrev pub create_at : Option Inode → Text → ℕ → World → Result (Unit {0}) × World
create_at none path perm w =
    (ok tt, put w path (some (record { node = file []; uid = 0; gid = 0; mode = perm })))
create_at (some i) path perm w = elim i.node [
  | file s ↦ (ok tt, put w path (some (record i { node = file [] })))
  | dir ↦ (err (errno (other 21)), w)
  | link t ↦ (err (errno (other 40)), w)
]

unfoldable pub create : Text → ℕ → Sys (Unit {0})
unfolding syscall
create path perm = syscall (λ w. create_at (w.at path) path perm w)

-- A write at the end of an open file.
abbrev pub write_at : Option Inode → Text → Text → World → Result (Unit {0}) × World
write_at none path text w = (ok tt, w)
write_at (some i) path text w = elim i.node [
  | file s ↦ (ok tt, put w path (some (record i { node = file (s ++ text) })))
  | dir ↦ (err (errno (other 9)), w)
  | link t ↦ (err (errno (other 9)), w)
]

-- A write may fail after a part of the text: each of its characters takes a fault. The part that is
-- written, the fault that ends it, and the faults to come.
unfoldable pub cut : List (Option Errno) → Text → Text × Option Errno × List (Option Errno)
cut [] text = (text, none, [])
cut (f ∷ faults) [] = ([], none, f ∷ faults)
cut (none ∷ faults) (c ∷ text) = let (part, end, later) = cut faults text in (c ∷ part, end, later)
cut (some e ∷ faults) (c ∷ text) = ([], some e, faults)

abbrev pub ended_by : Option Errno → Result (Unit {0}) × World → Result (Unit {0}) × World
ended_by none r = r
ended_by (some e) (r, w) = (err (errno e), w)

abbrev pub write_part :
    Text × Option Errno × List (Option Errno) → Text → World → Result (Unit {0}) × World
write_part (part, end, later) path w =
    ended_by end (write_at (w.at path) path part (record w { faults = later }))

unfoldable pub write : Text → Text → Sys (Unit {0})
unfolding cut
write path text w = write_part (cut w.faults text) path w

-- os.Chmod, and the method of an open file
abbrev pub chmod_at : Option Inode → Text → ℕ → World → Result (Unit {0}) × World
chmod_at none path mode w = (err (errno enoent), w)
chmod_at (some i) path mode w = (ok tt, put w path (some (record i { mode = mode })))

unfoldable pub chmod : Text → ℕ → Sys (Unit {0})
unfolding syscall
chmod path mode = syscall (λ w. chmod_at (w.at path) path mode w)

-- os.Symlink
abbrev pub symlink_at : Option Inode → Text → Text → World → Result (Unit {0}) × World
symlink_at (some i) target path w = (err (errno eexist), w)
symlink_at none target path w =
    (ok tt, put w path (some (record { node = link target; uid = 0; gid = 0; mode = 511 })))

unfoldable pub symlink : Text → Text → Sys (Unit {0})
unfolding syscall
symlink target path = syscall (λ w. symlink_at (w.at path) target path w)

-- What a rename leaves: the old tree at the new path.
abbrev pub moved : Text → Text → World → World
moved old new w = record w {
  at = λ q.
      if below new q
      then w.at (old ++ drop (length new) q)
      else if below old q
      then none
      else w.at q;
}

-- os.Rename: onto a directory it fails with EEXIST, a directory onto anything else with ENOTDIR.
abbrev pub rename_at : Option Inode → Option Inode → Text → Text → World → Result (Unit {0}) × World
rename_at none there old new w = (err (errno enoent), w)
rename_at (some i) none old new w = (ok tt, moved old new w)
rename_at (some i) (some j) old new w =
    if is_dir j
    then (err (errno eexist), w)
    else if is_dir i
    then (err (errno (other 20)), w)
    else (ok tt, moved old new w)

unfoldable pub rename : Text → Text → Sys (Unit {0})
unfolding syscall
rename old new = syscall (λ w. rename_at (w.at old) (w.at new) old new w)
