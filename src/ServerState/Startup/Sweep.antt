-- ===== src/ServerState/Startup/Sweep.antt =====
-- The temporary files that a scan of a directory removes.
use file_syncer.Prelude.{
  ◌≡◌, refl, ◌∙◌, Bool, true, false, some, List, [], ◌∷◌, arith, if◌then◌else◌, Bool-cases, inl,
  inr,
}
use file_syncer.Prelude.Text.{Text, text_eq_iff}
use file_syncer.Prelude.Map.{find, erase, text_key}
use file_syncer.Prelude.Map.Laws.{find-erase}
use file_syncer.Prelude.Map.Order.{IsSorted, erase-IsSorted}
use file_syncer.Disk.{Disk, Node, file, directory, is_directory, remove}
use file_syncer.Disk.Laws.{remove_lem, is_directory-erase}
use file_syncer.ServerState.Startup.{is_temp, entries}
use file_syncer.ServerState.Startup.Entries.{entry_path, is_temp-entry_path}

-- No temporary name is that of a directory.
abbrev pub NoTempDirectory : Disk → Type 0
NoTempDirectory d = (q : Text) → is_temp q ≡ true → is_directory d q ≡ false

-- Two disks that differ at temporary names only.
abbrev pub AgreeButTemp : Disk → Disk → Type 0
AgreeButTemp d e = (q : Text) → is_temp q ≡ false → find q e ≡ find q d

pub erase-NoTempDirectory : (p : Text) (d : Disk) → NoTempDirectory d → NoTempDirectory (erase p d)
erase-NoTempDirectory p d n q k = is_directory-erase p q d (n q k)

-- The disk without the temporary files among the entries.
unfoldable pub swept : Text → List (Text × Node) → Disk → Disk
unfolding is_temp
swept dir [] d = d
swept dir ((f, directory) ∷ es) d = swept dir es d
swept dir ((f, file x) ∷ es) d = swept dir es (if is_temp f then erase (entry_path dir f) d else d)

module _ (dir : Text) where
  -- One temporary file less.
  module _ (f : Text) (d : Disk) (t : is_temp f ≡ true) where
    pub erase-AgreeButTemp : AgreeButTemp d (erase (entry_path dir f) d)
    erase-AgreeButTemp q k = ground (
      arith,
      find-erase (entry_path dir f) q d,
      text_eq_iff (entry_path dir f) q,
      is_temp-entry_path dir f,
    )

    pub remove-temp :
        NoTempDirectory d → remove (entry_path dir f) d ≡ some (erase (entry_path dir f) d)
    remove-temp n =
        remove_lem (entry_path dir f) d (n (entry_path dir f) (is_temp-entry_path dir f ∙ t))

  swept-step :
      (P : Disk → Type 0) (f : Text) (d : Disk) (b : Bool)
      → P (erase (entry_path dir f) d)
      → P d
      → P (if b then erase (entry_path dir f) d else d)
  swept-step P f d true x y = x
  swept-step P f d false x y = y

  swept-NoTempDirectory :
      (es : List (Text × Node)) (d : Disk) → NoTempDirectory d → NoTempDirectory (swept dir es d)
  unfolding swept
  swept-NoTempDirectory [] d n = n
  swept-NoTempDirectory ((f, directory) ∷ es) d n = swept-NoTempDirectory es d n
  swept-NoTempDirectory ((f, file x) ∷ es) d n =
      swept-NoTempDirectory es _ (
        swept-step NoTempDirectory f d (is_temp f) (erase-NoTempDirectory (entry_path dir f) d n) n)

  swept-IsSorted : (es : List (Text × Node)) (d : Disk) → IsSorted d → IsSorted (swept dir es d)
  unfolding swept
  swept-IsSorted [] d s = s
  swept-IsSorted ((f, directory) ∷ es) d s = swept-IsSorted es d s
  swept-IsSorted ((f, file x) ∷ es) d s = swept-IsSorted es _ (
      swept-step (λ (e : Disk). IsSorted e) f d (is_temp f) (erase-IsSorted (entry_path dir f) d s)
        s)

  swept-AgreeButTemp : (es : List (Text × Node)) (d : Disk) → AgreeButTemp d (swept dir es d)
  unfolding swept
  swept-AgreeButTemp [] d q k = refl
  swept-AgreeButTemp ((f, directory) ∷ es) d q k = swept-AgreeButTemp es d q k
  swept-AgreeButTemp ((f, file x) ∷ es) d q k = elim (Bool-cases (is_temp f)) [
    | inl t ↦
        rw t (swept-AgreeButTemp es (erase (entry_path dir f) d) q k ∙ erase-AgreeButTemp f d t q k)
    | inr t ↦ rw t (swept-AgreeButTemp es d q k)
  ]

-- The disk after one entry of the server's directory.
module _ (dir : Text) where
  unfoldable pub entry_swept : Text → Node → Disk → Disk
  unfolding is_temp swept entries
  entry_swept u (file x) d = if is_temp u then erase (entry_path dir u) d else d
  entry_swept u directory d =
      if is_temp u
      then erase (entry_path dir u) d
      else swept (entry_path dir u) (entries (entry_path dir u) d) d

  unfoldable pub all_swept : List (Text × Node) → Disk → Disk
  unfolding entry_swept
  all_swept [] d = d
  all_swept ((u, n) ∷ es) d = all_swept es (entry_swept u n d)

  -- The entry is removed, or its own entries are, or nothing.
  entry_swept-cases :
      (P : Disk → Type 0) (u : Text) (n : Node) (d : Disk)
      → (is_temp u ≡ true → P (erase (entry_path dir u) d))
      → P (swept (entry_path dir u) (entries (entry_path dir u) d) d)
      → P d
      → P (entry_swept u n d)
  unfolding entry_swept
  entry_swept-cases P u n d removed below kept = elim (Bool-cases (is_temp u)) [
    | inl t ↦ elim n as (λ x. P (entry_swept u x d)) [
      | directory ↦ rw (entry_swept, t) (removed t)
      | file x ↦ rw (entry_swept, t) (removed t)
    ]
    | inr t ↦ elim n as (λ x. P (entry_swept u x d)) [
      | directory ↦ rw (entry_swept, t) below
      | file x ↦ rw (entry_swept, t) kept
    ]
  ]

  pub entry_swept-NoTempDirectory :
      (u : Text) (n : Node) (d : Disk) → NoTempDirectory d → NoTempDirectory (entry_swept u n d)
  entry_swept-NoTempDirectory u n d h =
      entry_swept-cases NoTempDirectory u n d (λ t. erase-NoTempDirectory (entry_path dir u) d h)
        (swept-NoTempDirectory (entry_path dir u) (entries (entry_path dir u) d) d h) h

  pub entry_swept-IsSorted :
      (u : Text) (n : Node) (d : Disk) → IsSorted d → IsSorted (entry_swept u n d)
  entry_swept-IsSorted u n d h =
      entry_swept-cases (λ (e : Disk). IsSorted e) u n d
        (λ t. erase-IsSorted (entry_path dir u) d h)
        (swept-IsSorted (entry_path dir u) (entries (entry_path dir u) d) d h) h

  pub entry_swept-AgreeButTemp :
      (u : Text) (n : Node) (d : Disk) → AgreeButTemp d (entry_swept u n d)
  entry_swept-AgreeButTemp u n d =
      entry_swept-cases (AgreeButTemp d) u n d (erase-AgreeButTemp dir u d)
        (swept-AgreeButTemp (entry_path dir u) (entries (entry_path dir u) d) d) (λ q k. refl)

  pub all_swept-AgreeButTemp :
      (es : List (Text × Node)) (d : Disk) → AgreeButTemp d (all_swept es d)
  unfolding all_swept
  all_swept-AgreeButTemp [] d q k = refl
  all_swept-AgreeButTemp ((u, n) ∷ es) d q k =
      all_swept-AgreeButTemp es (entry_swept u n d) q k ∙ entry_swept-AgreeButTemp u n d q k
