-- ===== src/Disk.antt =====
-- `std::filesystem` and the file streams, as far as the server uses them, over a table of paths.
-- `none` stands for the exception of an operation. A stream that cannot open writes nothing.
-- A path is kept without a slash at its end; links, permissions and a full disk are left out.
pub mod Paths
pub mod Laws
pub mod Replace
pub mod Moved
use file_syncer.Prelude.{
  Bool, true, false, not, ◌&&◌, Option, none, some, List, [], ◌∷◌, ◌++◌, length, drop,
  if◌then◌else◌, is_some, ◌==◌,
}
use file_syncer.Prelude.Text.{Text, text_eq}
use file_syncer.Prelude.Map.{Map, find, emplace, erase, text_key}

pub data Node : Type 0 where
  file : Text → Node
  directory : Node

abbrev pub Disk : Type 0
Disk = Map Text Node

-- What stands before the last slash of a path.
unfoldable pub cut_last_slash : Text → Option Text
cut_last_slash [] = none
cut_last_slash (c ∷ p) = elim (cut_last_slash p) [
  | some q ↦ some (c ∷ q)
  | none ↦ if c == b'/' then some [] else none
]

unfoldable pub strip_slash : Text → Text
strip_slash [] = []
strip_slash (c ∷ p) =
    let q = strip_slash p in elim p [ [] ↦ if c == b'/' then [] else c ∷ [] | _ ∷ _ ↦ c ∷ q ]

unfoldable pub starts_with : Text → Text → Bool
starts_with [] p = true
starts_with (a ∷ q) [] = false
starts_with (a ∷ q) (b ∷ p) = a == b && starts_with q p

module _ (d : Disk) where
  unfoldable pub exists : Text → Bool
  exists p = is_some (find p d)

  unfoldable pub is_directory : Text → Bool
  is_directory p = elim (find p d) [ some (file c) ↦ false | some directory ↦ true | none ↦ false ]

  -- A path with no slash lies in the working directory, which is there.
  unfoldable pub has_parent : Text → Bool
  unfolding is_directory cut_last_slash
  has_parent p = elim (cut_last_slash p) [ none ↦ true | some q ↦ is_directory q ]

  -- `open` and `read`: a directory opens, and gives no bytes.
  unfoldable pub read_file : Text → Option Text
  read_file p = elim (find p d) [ some (file c) ↦ some c | some directory ↦ some [] | none ↦ none ]

unfoldable pub lies_below : Text → Text → Bool
unfolding starts_with
lies_below p q = starts_with (p ++ b'/' ∷ []) q

unfoldable pub has_children : Text → Disk → Bool
unfolding lies_below
has_children p [] = false
has_children p ((q, n) ∷ d) = if lies_below p q then true else has_children p d

unfoldable pub put : Text → Node → Disk → Disk
put p n d = emplace p n (erase p d)

-- `std::ofstream(p)`, one write of the content and the close.
unfoldable pub write_file : Text → Text → Disk → Disk
unfolding has_parent is_directory put
write_file p content d =
    if has_parent d p && not (is_directory d p) then put p (file content) d else d

unfoldable pub create_directory : Text → Disk → Option Disk
unfolding strip_slash has_parent
create_directory p d =
    let q = strip_slash p in
    elim (find q d) [
      | some directory ↦ some d
      | some (file c) ↦ none
      | none ↦ if has_parent d q then some (emplace q directory d) else none
    ]

unfoldable pub remove : Text → Disk → Option Disk
unfolding has_children
remove p d = elim (find p d) [
  | none ↦ some d
  | some (file c) ↦ some (erase p d)
  | some directory ↦ if has_children p d then none else some (erase p d)
]

unfoldable pub remove_all : Text → Disk → Disk
unfolding lies_below
remove_all p [] = []
remove_all p ((q, n) ∷ d) =
    let rest = remove_all p d in
    if text_eq p q then rest else if lies_below p q then rest else (q, n) ∷ rest

-- The entries of `a` and below it, with `b` in place of `a`, put into another disk.
unfoldable pub graft : Text → Text → Disk → Disk → Disk
unfolding lies_below put
graft a b [] d = d
graft a b ((q, n) ∷ src) d =
    let rest = graft a b src d in
    if text_eq a q
    then put b n rest
    else if lies_below a q
    then put (b ++ drop (length a) q) n rest
    else rest

-- `rename` of a file replaces a file; `rename` of a directory replaces an empty directory.
unfoldable pub rename : Text → Text → Disk → Option Disk
unfolding has_parent has_children put remove_all graft
rename a b d = elim (find a d) [
  | none ↦ none
  | some (file c) ↦ elim (find b d) [
    | some directory ↦ none
    | _ ↦ if has_parent d b then some (put b (file c) (erase a d)) else none
  ]
  | some directory ↦ if text_eq a b then some d else elim (find b d) [
    | some (file c) ↦ none
    | _ ↦
        if has_children b d
        then none
        else if has_parent d b
        then some (graft a b d (erase b (remove_all a d)))
        else none
  ]
]
