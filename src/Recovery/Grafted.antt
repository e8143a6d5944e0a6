-- ===== src/Recovery/Grafted.antt =====
-- A disk on which a directory was renamed, as a start reads it.
use file_syncer.Prelude.{
  ◌≡◌, refl, sym, ap, ◌∙◌, true, false, none, [], ◌∷◌, ◌++◌, ◌||◌, arith, length, drop,
  append_assoc, if◌then◌else◌, Bool-cases, inl, inr,
}
use file_syncer.Prelude.Text.{Text, text_eq, text_eq_iff}
use file_syncer.Prelude.Map.{find, erase, text_key}
use file_syncer.Prelude.Map.Order.{IsSorted, Above, emplace-IsSorted, erase-IsSorted}
use file_syncer.Disk.{Disk, Node, file, directory, is_directory, put, graft, lies_below, remove_all}
use file_syncer.Disk.Laws.{find-put}
use file_syncer.Disk.Moved.{starts_with-drop, drop-append, lies_below-entry_path}
use file_syncer.ServerState.Startup.{is_temp}
use file_syncer.ServerState.Startup.Entries.{is_temp-append}
use file_syncer.ServerState.Startup.Sweep.{NoTempDirectory}

pub put-IsSorted : (p : Text) (n : Node) (d : Disk) → IsSorted d → IsSorted (put p n d)
unfolding put
put-IsSorted p n d h = emplace-IsSorted p n (erase p d) (erase-IsSorted p d h)

pub graft-IsSorted : (a b : Text) (src d : Disk) → IsSorted d → IsSorted (graft a b src d)
unfolding graft
graft-IsSorted a b [] d h = h
graft-IsSorted a b ((q, n) ∷ src) d h =
    let rest = graft-IsSorted a b src d h in
    elim (Bool-cases (text_eq a q)) [
      | inl top ↦ rw top (put-IsSorted b n (graft a b src d) rest)
      | inr other ↦ elim (Bool-cases (lies_below a q)) [
        | inl below ↦
            rw (other, below) (put-IsSorted (b ++ drop (length a) q) n (graft a b src d) rest)
        | inr apart ↦ rw (other, apart) rest
      ]
    ]

remove_all-Above : (a y : Text) (d : Disk) → Above y d → Above y (remove_all a d)
unfolding remove_all
remove_all-Above a y [] h = tt
remove_all-Above a y ((q, n) ∷ d) h = ground (arith, remove_all-Above a y d h.1)

pub remove_all-IsSorted : (a : Text) (d : Disk) → IsSorted d → IsSorted (remove_all a d)
unfolding remove_all
remove_all-IsSorted a [] h = tt
remove_all-IsSorted a ((q, n) ∷ d) h =
    ground (arith, remove_all-Above a q d h.0, remove_all-IsSorted a d h.1)

pub find-remove_all :
    (a q : Text) (d : Disk)
    → find q (remove_all a d) ≡ (if text_eq a q || lies_below a q then none else find q d)
unfolding find remove_all
find-remove_all a q [] = ground arith
find-remove_all a q ((p, n) ∷ d) = ground (arith, text_eq_iff p q, find-remove_all a q d)

-- What lies below a directory, from the slash on.
below_from :
    (a q : Text)
    → lies_below a q ≡ true
    → (t : Text) × (drop (length a) q ≡ b'/' ∷ t) × (q ≡ a ++ (b'/' ∷ t))
unfolding lies_below
below_from a q h =
    let rest = drop (length (a ++ b'/' ∷ [])) q in
    let e = starts_with-drop (a ++ b'/' ∷ []) q h ∙ append_assoc a (b'/' ∷ []) rest in
    (rest, ap (drop (length a)) e ∙ drop-append a (b'/' ∷ rest), e)

-- A path that is neither the new name nor below it is found as before.
pub find-graft_apart :
    (a b p : Text) (src d : Disk)
    → text_eq b p ≡ false
    → lies_below b p ≡ false
    → find p (graft a b src d) ≡ find p d
unfolding graft
find-graft_apart a b p [] d h k = refl
find-graft_apart a b p ((q, n) ∷ src) d h k = elim (Bool-cases (text_eq a q)) [
  | inl top ↦
      ground (arith, top, h, find-put b p n (graft a b src d), find-graft_apart a b p src d h k)
  | inr other ↦ elim (Bool-cases (lies_below a q)) [
    | inl below ↦
        let (t, e, _) = below_from a q below in
        ground (
          arith,
          other,
          below,
          k,
          e,
          lies_below-entry_path b t,
          text_eq_iff (b ++ drop (length a) q) p,
          find-put (b ++ drop (length a) q) p n (graft a b src d),
          find-graft_apart a b p src d h k,
        )
    | inr apart ↦ ground (arith, other, apart, find-graft_apart a b p src d h k)
  ]
]

-- No directory but `a` has a temporary name, entry by entry.
abbrev pub OnlyTemp : Text → Disk → Type 0
OnlyTemp a [] = Unit
OnlyTemp a ((q, file x) ∷ d) = OnlyTemp a d
OnlyTemp a ((q, directory) ∷ d) = (text_eq a q || is_temp q ≡ text_eq a q) × OnlyTemp a d

put-NoTempDirectory :
    (p : Text) (n : Node) (d : Disk)
    → is_temp p ≡ false
    → NoTempDirectory d
    → NoTempDirectory (put p n d)
unfolding is_directory
put-NoTempDirectory p n d h k q t = ground (arith, h, t, text_eq_iff p q, find-put p q n d, k q t)

put_file-NoTempDirectory :
    (p x : Text) (d : Disk) → NoTempDirectory d → NoTempDirectory (put p (file x) d)
unfolding is_directory
put_file-NoTempDirectory p x d k q t = ground (arith, find-put p q (file x) d, k q t)

pub graft-NoTempDirectory :
    (a b : Text) (src d : Disk)
    → is_temp b ≡ false
    → OnlyTemp a src
    → NoTempDirectory d
    → NoTempDirectory (graft a b src d)
unfolding graft
graft-NoTempDirectory a b [] d h o k = k
graft-NoTempDirectory a b ((q, file x) ∷ src) d h o k =
    let rest = graft-NoTempDirectory a b src d h o k in
    elim (Bool-cases (text_eq a q)) [
      | inl top ↦ rw top (put_file-NoTempDirectory b x (graft a b src d) rest)
      | inr other ↦ elim (Bool-cases (lies_below a q)) [
        | inl below ↦
            rw (other, below)
              (put_file-NoTempDirectory (b ++ drop (length a) q) x (graft a b src d) rest)
        | inr apart ↦ rw (other, apart) rest
      ]
    ]
graft-NoTempDirectory a b ((q, directory) ∷ src) d h o k =
    let rest = graft-NoTempDirectory a b src d h o.1 k in
    elim (Bool-cases (text_eq a q)) [
      | inl top ↦ rw top (put-NoTempDirectory b directory (graft a b src d) h rest)
      | inr other ↦ elim (Bool-cases (lies_below a q)) [
        | inl below ↦
            let (t, e, at) = below_from a q below in
            let plain : is_temp (b ++ drop (length a) q) ≡ false =
              ap (λ x. is_temp (b ++ x)) e
              ∙ is_temp-append b b'/' t
              ∙ sym (is_temp-append a b'/' t)
              ∙ ap is_temp (sym at)
              ∙ ground (arith, o.0, other) in
            rw (other, below)
              (put-NoTempDirectory (b ++ drop (length a) q) directory (graft a b src d) plain rest)
        | inr apart ↦ rw (other, apart) rest
      ]
    ]
