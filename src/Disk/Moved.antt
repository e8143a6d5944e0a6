-- ===== src/Disk/Moved.antt =====
-- What is found below a directory after it was renamed.
use file_syncer.Prelude.{
  ◌≡◌, refl, sym, ap, ◌∙◌, true, false, none, some, [], ◌∷◌, ◌++◌, arith, length, drop,
  append_assoc, ◌⊎◌, inl, inr, Bool-cases,
}
use file_syncer.Prelude.Text.{Text, text_eq, text_eq_iff}
use file_syncer.Prelude.Map.{find, erase, emplace, insert_sorted, text_key}
use file_syncer.Disk.Paths.{NoSlash}
use file_syncer.Config.Apart.{slash-ne}
use file_syncer.Disk.{
  Disk, Node, directory, put, graft, lies_below, starts_with, remove_all, rename, has_children,
  has_parent,
}
use file_syncer.Disk.Laws.{find-put}

-- A path below another is that path, a slash and more.
pub starts_with-drop : (p q : Text) → starts_with p q ≡ true → q ≡ p ++ drop (length p) q
unfolding starts_with
starts_with-drop [] q h = refl
starts_with-drop (a ∷ p) [] h = ground arith
starts_with-drop (a ∷ p) (b ∷ q) h = ground (arith, starts_with-drop p q)

pub drop-append : (p t : Text) → drop (length p) (p ++ t) ≡ t
drop-append [] t = refl
drop-append (a ∷ p) t = drop-append p t

text_eq-append : (p s t : Text) → text_eq (p ++ s) (p ++ t) ≡ text_eq s t
unfolding text_eq
text_eq-append [] s t = refl
text_eq-append (a ∷ p) s t = ground (arith, text_eq-append p s t)

text_eq-append_nil : (p t : Text) → text_eq p (p ++ t) ≡ text_eq [] t
unfolding text_eq
text_eq-append_nil [] t = refl
text_eq-append_nil (a ∷ p) t = ground (arith, text_eq-append_nil p t)

pub lies_below-drop : (p q : Text) → lies_below p q ≡ true → q ≡ p ++ drop (length p) q
unfolding lies_below
lies_below-drop p q h =
    let e = starts_with-drop (p ++ b'/' ∷ []) q h ∙ append_assoc p (b'/' ∷ []) _ in
    e ∙ ap (λ t. p ++ t) (sym (drop-append p _) ∙ ap (drop (length p)) (sym e))

module _ (a b x : Text) (n : Node) (d : Disk) where
  -- What lies at `a ++ x` is found at `b ++ x`, where that is `a` itself or below it.
  pub find-graft :
      (src : Disk)
      → find (a ++ x) src ≡ some n
      → (text_eq a (a ++ x) ≡ true) ⊎ (lies_below a (a ++ x) ≡ true)
      → find (b ++ x) (graft a b src d) ≡ some n
  unfolding find graft
  find-graft [] h k = ground arith
  find-graft ((q, w) ∷ src) h k = elim (Bool-cases (text_eq a q)) [
    | inl top ↦ ground (
      arith,
      top,
      text_eq_iff a q,
      text_eq-append_nil a x,
      text_eq-append_nil b x,
      find-put b (b ++ x) w (graft a b src d),
      find-graft src,
    )
    | inr other ↦ elim (Bool-cases (lies_below a q)) [
      | inl below ↦
          let e = lies_below-drop a q below in
          let same : text_eq (b ++ drop (length a) q) (b ++ x) ≡ text_eq q (a ++ x) =
            text_eq-append b (drop (length a) q) x
            ∙ sym (text_eq-append a (drop (length a) q) x)
            ∙ ap (λ r. text_eq r (a ++ x)) (sym e) in
          ground (
            arith,
            other,
            below,
            same,
            find-put (b ++ drop (length a) q) (b ++ x) w (graft a b src d),
            find-graft src,
          )
      | inr apart ↦ ground (arith, other, apart, text_eq_iff q (a ++ x), find-graft src)
    ]
  ]

-- A directory is moved onto a name that is free, with all that is in it.
pub rename_directory :
    (a b : Text) (d : Disk)
    → find a d ≡ some directory
    → text_eq a b ≡ false
    → find b d ≡ none
    → has_children b d ≡ false
    → has_parent d b ≡ true
    → rename a b d ≡ some (graft a b d (erase b (remove_all a d)))
unfolding rename
rename_directory a b d h e f n p = ground arith

pub has_children-erase :
    (p q : Text) (d : Disk) → has_children p d ≡ false → has_children p (erase q d) ≡ false
unfolding has_children erase
has_children-erase p q [] h = refl
has_children-erase p q ((r, w) ∷ d) h = ground (arith, has_children-erase p q d)

has_children-insert_sorted :
    (p q : Text) (n : Node) (d : Disk)
    → lies_below p q ≡ false
    → has_children p d ≡ false
    → has_children p (insert_sorted q n d) ≡ false
unfolding has_children insert_sorted
has_children-insert_sorted p q n [] b h = ground arith
has_children-insert_sorted p q n ((r, w) ∷ d) b h =
    ground (arith, has_children-insert_sorted p q n d)

-- A directory stays empty where nothing is written below it.
pub has_children-emplace :
    (p q : Text) (n : Node) (d : Disk)
    → lies_below p q ≡ false
    → has_children p d ≡ false
    → has_children p (emplace q n d) ≡ false
unfolding emplace
has_children-emplace p q n d b h = ground (arith, has_children-insert_sorted p q n d)

pub has_children-put :
    (p q : Text) (n : Node) (d : Disk)
    → lies_below p q ≡ false
    → has_children p d ≡ false
    → has_children p (put q n d) ≡ false
unfolding put
has_children-put p q n d b h = has_children-emplace p q n (erase q d) b (has_children-erase p q d h)

starts_with-append : (p s t : Text) → starts_with (p ++ s) (p ++ t) ≡ starts_with s t
unfolding starts_with
starts_with-append [] s t = refl
starts_with-append (a ∷ p) s t = ground (arith, starts_with-append p s t)

-- What begins with another byte than a slash behind a path is not below it.
pub lies_below-append :
    (p t : Text) → starts_with (b'/' ∷ []) t ≡ false → lies_below p (p ++ t) ≡ false
unfolding lies_below
lies_below-append p t h = starts_with-append p (b'/' ∷ []) t ∙ h

-- Nor is a name without a slash below another name of the same directory.
pub lies_below-NoSlash : (dir u t : Text) → NoSlash t → lies_below (dir ++ u) (dir ++ t) ≡ false
unfolding lies_below
lies_below-NoSlash dir u t n =
    ap (λ x. starts_with x (dir ++ t)) (append_assoc dir u (b'/' ∷ []))
    ∙ starts_with-append dir (u ++ b'/' ∷ []) t
    ∙ elim (Bool-cases (starts_with (u ++ b'/' ∷ []) t)) [
      | inr e ↦ e
      | inl e ↦ absurd (
          slash-ne u (drop (length (u ++ b'/' ∷ [])) t) t n
            (sym (starts_with-drop (u ++ b'/' ∷ []) t e ∙ append_assoc u (b'/' ∷ []) _)))
    ]

starts_with_self : (p t : Text) → starts_with p (p ++ t) ≡ true
unfolding starts_with
starts_with_self [] t = refl
starts_with_self (b ∷ p) t = ground (arith, starts_with_self p t)

pub lies_below-entry_path : (p f : Text) → lies_below p (p ++ (b'/' ∷ f)) ≡ true
unfolding lies_below
lies_below-entry_path p f =
    ap (starts_with (p ++ b'/' ∷ [])) (sym (append_assoc p (b'/' ∷ []) f))
    ∙ starts_with_self (p ++ b'/' ∷ []) f
