-- ===== src/ServerState/Startup/Entries.antt =====
-- The entries of a directory are what the disk has at the paths of their names.
use file_syncer.Prelude.{
  ℕ, ◌≡◌, ◌≢◌, refl, sym, ◌∙◌, ap, suc, false, none, some, List, [], ◌∷◌, ◌++◌, arith, length, drop,
  Option-cases, Bool-cases, inl, inr, append_assoc, sym, ◌∙◌, ap,
}
use mathlib.Core.List.{append_cancel_left}
use file_syncer.Prelude.Text.{Text, text_eq, text_eq_iff, text_eq_refl, text_lt_irrefl}
use file_syncer.Prelude.Map.{find, text_key}
use file_syncer.Prelude.Map.Order.{IsSorted, Above}
use file_syncer.Disk.{Disk, Node, cut_last_slash}
use file_syncer.Disk.Paths.{NoSlash}
use file_syncer.ServerState.Startup.{entries, is_temp}

-- The path of an entry.
abbrev pub entry_path : Text → Text → Text
entry_path dir name = dir ++ (b'/' ∷ name)

cut_last_slash-NoSlash : (f : Text) → NoSlash f → cut_last_slash f ≡ none
unfolding cut_last_slash
cut_last_slash-NoSlash [] n = refl
cut_last_slash-NoSlash (b ∷ f) n = ground (arith, cut_last_slash-NoSlash f n.1)

pub cut_last_slash-entry_path :
    (dir f : Text) → NoSlash f → cut_last_slash (entry_path dir f) ≡ some dir
unfolding cut_last_slash
cut_last_slash-entry_path [] f n = ground (arith, cut_last_slash-NoSlash f n)
cut_last_slash-entry_path (b ∷ dir) f n = ground (arith, cut_last_slash-entry_path dir f n)

-- What is cut at the last slash is put together again.
entry_path-cut :
    (p q : Text) → cut_last_slash p ≡ some q → p ≡ entry_path q (drop (suc (length q)) p)
unfolding cut_last_slash
entry_path-cut [] q h = ground arith
entry_path-cut (b ∷ p) [] h = elim (Option-cases (cut_last_slash p)) [
  | inl e ↦ ground (arith, e)
  | inr (r, e) ↦ ground (arith, e)
]
entry_path-cut (b ∷ p) (a ∷ q) h = ground (arith, entry_path-cut p q)

pub is_temp-append : (p : Text) (b : ℕ) (f : Text) → is_temp (p ++ (b ∷ f)) ≡ is_temp (b ∷ f)
unfolding is_temp
is_temp-append [] b f = refl
is_temp-append (a ∷ []) b f = refl
is_temp-append (a ∷ e ∷ p) b f = is_temp-append (e ∷ p) b f

pub is_temp-entry_path : (dir f : Text) → is_temp (entry_path dir f) ≡ is_temp f
unfolding is_temp
is_temp-entry_path [] [] = refl
is_temp-entry_path [] (b ∷ f) = refl
is_temp-entry_path (b ∷ []) f = is_temp-entry_path [] f
is_temp-entry_path (b ∷ a ∷ dir) f = is_temp-entry_path (a ∷ dir) f

text_eq-entry_path : (dir f g : Text) → text_eq (entry_path dir f) (entry_path dir g) ≡ text_eq f g
unfolding text_eq
text_eq-entry_path [] f g = ground arith
text_eq-entry_path (b ∷ dir) f g = ground (arith, text_eq-entry_path dir f g)

-- A path is that of one name in one directory.
pub entry_path-inj :
    (a b f g : Text) → NoSlash f → NoSlash g → entry_path a f ≡ entry_path b g → (a ≡ b) × (f ≡ g)
entry_path-inj a b f g n k e =
    let same : a ≡ b =
      ground (arith, cut_last_slash-entry_path a f n, cut_last_slash-entry_path b g k, e) in
    (
      same,
      append_cancel_left (b ++ (b'/' ∷ [])) f g (
          append_assoc b (b'/' ∷ []) f
          ∙ sym (ap (λ x. entry_path x f) same)
          ∙ e
          ∙ sym (append_assoc b (b'/' ∷ []) g)),
    )

-- A path of another directory is not that of an entry.
other_directory :
    (dir f p : Text)
    → NoSlash f
    → cut_last_slash p ≢ some dir
    → text_eq p (entry_path dir f) ≡ false
other_directory dir f p n h =
    ground (arith, text_eq_iff p (entry_path dir f), cut_last_slash-entry_path dir f n)

-- A name is found among the entries as its path is on the disk.
pub find-entries :
    (dir f : Text) (d : Disk) → NoSlash f → find f (entries dir d) ≡ find (entry_path dir f) d
unfolding find entries
find-entries dir f [] n = refl
find-entries dir f ((p, w) ∷ d) n = elim (Option-cases (cut_last_slash p)) [
  | inl e ↦ ground (arith, e, other_directory dir f p n, find-entries dir f d n)
  | inr (q, e) ↦ elim (Bool-cases (text_eq q dir)) [
    | inl same ↦
        let at : q ≡ dir = (text_eq_iff q dir).0 same in
        let joined : p ≡ entry_path dir (drop (suc (length dir)) p) =
          ground (arith, at, entry_path-cut p q e) in
        ground (
          arith,
          e,
          same,
          joined,
          text_eq-entry_path dir (drop (suc (length dir)) p) f,
          find-entries dir f d n,
        )
    | inr other ↦
        ground
          (arith, e, other, text_eq_iff q dir, other_directory dir f p n, find-entries dir f d n)
  ]
]

module _ (d : Disk) where
  -- Every entry of a table is what is found at its path.
  abbrev pub AreFound : Disk → Type 0
  AreFound [] = Unit
  AreFound ((p, w) ∷ m) = (find p d ≡ some w) × AreFound m

  -- Every entry of a directory is what is found at the path of its name.
  abbrev pub AreListed : Text → List (Text × Node) → Type 0
  AreListed dir [] = Unit
  AreListed dir ((name, w) ∷ es) = (find (entry_path dir name) d ≡ some w) × AreListed dir es

  AreFound-AreListed : (dir : Text) (m : Disk) → AreFound m → AreListed dir (entries dir m)
  unfolding entries
  AreFound-AreListed dir [] a = tt
  AreFound-AreListed dir ((p, w) ∷ m) (here, a) = elim (Option-cases (cut_last_slash p)) [
    | inl e ↦ rw (entries, e) (AreFound-AreListed dir m a)
    | inr (q, e) ↦ elim (Bool-cases (text_eq q dir)) [
      | inl same ↦
          let at : q ≡ dir = (text_eq_iff q dir).0 same in
          let joined : p ≡ entry_path dir (drop (suc (length dir)) p) =
            ground (arith, at, entry_path-cut p q e) in
          rw (entries, e, same) (ground (arith, here, joined), AreFound-AreListed dir m a)
      | inr other ↦ rw (entries, e, other) (AreFound-AreListed dir m a)
    ]
  ]

AreFound-cons :
    (p : Text) (w : Node) (d m : Disk) → Above p m → AreFound d m → AreFound ((p, w) ∷ d) m
unfolding find
AreFound-cons p w d [] b a = tt
AreFound-cons p w d ((q, v) ∷ m) (b, bs) (here, a) =
    (ground (arith, text_lt_irrefl p, text_eq_iff p q), AreFound-cons p w d m bs a)

pub sorted-AreFound : (d : Disk) → IsSorted d → AreFound d d
unfolding find
sorted-AreFound [] s = tt
sorted-AreFound ((p, w) ∷ d) (b, s) =
    (ground (arith, text_eq_refl p), AreFound-cons p w d d b (sorted-AreFound d s))

pub entries-AreListed : (dir : Text) (d : Disk) → IsSorted d → AreListed d dir (entries dir d)
entries-AreListed dir d s = AreFound-AreListed d dir d (sorted-AreFound d s)
