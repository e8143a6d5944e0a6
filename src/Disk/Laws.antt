-- ===== src/Disk/Laws.antt =====
-- What is found on the disk after each operation, and when the operations succeed.
use file_syncer.Prelude.{
  ◌≡◌, refl, true, false, none, some, [], ◌∷◌, arith, if◌then◌else◌, Option-cases, inl, inr,
}
use file_syncer.Prelude.Text.{Text, text_eq, text_eq_iff}
use file_syncer.Prelude.Map.{find, erase, text_key}
use file_syncer.Prelude.Map.Laws.{find-emplace, find-erase}
use file_syncer.Disk.{
  Disk, Node, file, put, remove, rename, write_file, is_directory, has_parent, cut_last_slash,
  read_file,
}

pub find-put :
    (p q : Text) (n : Node) (d : Disk)
    → find q (put p n d) ≡ (if text_eq p q then some n else find q d)
unfolding put
find-put p q n d = ground (
  arith,
  text_eq_iff p q,
  text_eq_iff p p,
  find-emplace p q n (erase p d),
  find-erase p q d,
  find-erase p p d,
)

erase-absent : (p : Text) (d : Disk) → find p d ≡ none → erase p d ≡ d
unfolding find erase
erase-absent p [] h = refl
erase-absent p ((q, n) ∷ d) h = ground (arith, erase-absent p d)

-- A stream opens on a new path of a directory.
pub write_file_lem :
    (p content : Text) (d : Disk)
    → has_parent d p ≡ true
    → is_directory d p ≡ false
    → write_file p content d ≡ put p (file content) d
unfolding write_file
write_file_lem p content d h k = rw (h, k)

pub remove_lem : (p : Text) (d : Disk) → is_directory d p ≡ false → remove p d ≡ some (erase p d)
unfolding remove is_directory
remove_lem p d h = ground (arith, erase-absent p d)

pub rename_lem :
    (a b content : Text) (d : Disk)
    → find a d ≡ some (file content)
    → is_directory d b ≡ false
    → has_parent d b ≡ true
    → rename a b d ≡ some (put b (file content) (erase a d))
unfolding rename is_directory
rename_lem a b content d h k l = ground arith

-- A directory stays where something else is written or erased.
pub has_parent-put :
    (p q content : Text) (d : Disk)
    → has_parent d p ≡ true
    → is_directory d q ≡ false
    → has_parent (put q (file content) d) p ≡ true
unfolding has_parent is_directory
has_parent-put p q content d h k = elim (Option-cases (cut_last_slash p)) [
  | inl e ↦ rw (e, has_parent)
  | inr (r, e) ↦ ground (arith, e, find-put q r (file content) d, text_eq_iff q r)
]

pub has_parent-erase :
    (p q : Text) (d : Disk)
    → has_parent d p ≡ true
    → is_directory d q ≡ false
    → has_parent (erase q d) p ≡ true
unfolding has_parent is_directory
has_parent-erase p q d h k = elim (Option-cases (cut_last_slash p)) [
  | inl e ↦ rw (e, has_parent)
  | inr (r, e) ↦ ground (arith, e, find-erase q r d, text_eq_iff q r)
]

pub is_directory-put :
    (p q content : Text) (d : Disk)
    → is_directory d q ≡ false
    → is_directory (put p (file content) d) q ≡ false
unfolding is_directory
is_directory-put p q content d h = ground (arith, find-put p q (file content) d)

pub is_directory-erase :
    (p q : Text) (d : Disk) → is_directory d q ≡ false → is_directory (erase p d) q ≡ false
unfolding is_directory
is_directory-erase p q d h = ground (arith, find-erase p q d)

pub read_file-put :
    (p content : Text) (d : Disk) → read_file (put p (file content) d) p ≡ some content
unfolding read_file
read_file-put p content d = ground (arith, find-put p p (file content) d, text_eq_iff p p)

pub ruleset disk_laws = (
  find-put, find-erase, has_parent-put, has_parent-erase, is_directory-put, is_directory-erase,
  read_file-put,
)
