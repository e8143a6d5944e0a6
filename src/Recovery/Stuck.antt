-- ===== src/Recovery/Stuck.antt =====
-- A start after a stop in the creation of a user: the temporary directory of the user, with the
-- password file in it, cannot be removed.
use file_syncer.Prelude.{
  ◌≡◌, refl, sym, ap, ◌∙◌, true, false, none, some, List, [], ◌∷◌, ◌++◌, arith, is_some, Bool-cases,
  Option-cases, inl, inr,
}
use file_syncer.Prelude.Int.{ℤ}
use file_syncer.Prelude.Text.{Text, text_eq, text_eq_iff}
use file_syncer.Prelude.Map.{find, text_key}
use file_syncer.Prelude.Map.Laws.{find-erase}
use file_syncer.Config.{Config, get_servers_dir}
use file_syncer.Disk.{
  Disk, Node, file, directory, is_directory, strip_slash, create_directory, remove, has_children,
  lies_below,
}
use file_syncer.Disk.Paths.{NoSlash}
use file_syncer.Disk.Moved.{lies_below-entry_path}
use file_syncer.Transaction.Verdict.{TidReady}
use file_syncer.Transaction.NewUser.{IsFresh, with_user}
use file_syncer.ServerState.{ServerState, empty_state}
use file_syncer.ServerState.Startup.{
  is_temp, entries, init_file, init_files, init_entry, init_entries, init,
}
use file_syncer.ServerState.Startup.Entries.{entry_path, is_temp-entry_path, find-entries}

has_children-found :
    (p q : Text) (n : Node) (d : Disk)
    → lies_below p q ≡ true
    → find q d ≡ some n
    → has_children p d ≡ true
unfolding has_children find
has_children-found p q n [] b h = ground arith
has_children-found p q n ((r, w) ∷ d) b h =
    ground (arith, text_eq_iff r q, has_children-found p q n d b)

-- A directory of a temporary name with a file in it that has no temporary name.
abbrev IsStuck : Text → Text → Node → Disk → Type 0
IsStuck p f n d = (find p d ≡ some directory) × (find (entry_path p f) d ≡ some n)

module _ (p f : Text) (n : Node) (t : is_temp p ≡ true) (k : is_temp f ≡ false) where
  remove-stuck : (d : Disk) → IsStuck p f n d → remove p d ≡ none
  unfolding remove
  remove-stuck d h =
      ground (arith, h.0, has_children-found p (entry_path p f) n d (lies_below-entry_path p f) h.1)

  -- It stays through the removals of a start.
  remove-IsStuck :
      (q : Text) (d e : Disk)
      → is_temp q ≡ true
      → IsStuck p f n d
      → remove q d ≡ some e
      → IsStuck p f n e
  unfolding remove
  remove-IsStuck q d e tq h r =
      let kept = is_temp-entry_path p f in
      let stuck = remove-stuck d h in
      (
        ground (arith, h.0, r, text_eq_iff q p, find-erase q p d, stuck),
        ground
            (arith, h.1, r, kept, text_eq_iff q (entry_path p f), find-erase q (entry_path p f) d),
      )

  module _ (c : Config) where
    init_file-IsStuck :
        (username dir g : Text) (w : Node) (d e : Disk) (s s' : ServerState)
        → IsStuck p f n d
        → init_file c username dir g w d s ≡ some (e, s')
        → IsStuck p f n e
    unfolding init_file
    init_file-IsStuck username dir g directory d e s s' h r = ground (arith, h.0, h.1, r)
    init_file-IsStuck username dir g (file x) d e s s' h r = elim (Bool-cases (is_temp g)) [
      | inl y ↦
          remove-IsStuck (entry_path dir g) d e (is_temp-entry_path dir g ∙ y) h
            (ground (arith, y, r))
      | inr y ↦ ground (arith, y, h.0, h.1, r)
    ]

    init_files-IsStuck :
        (username dir : Text) (es : List (Text × Node)) (d e : Disk) (s s' : ServerState)
        → IsStuck p f n d
        → init_files c username dir es d s ≡ some (e, s')
        → IsStuck p f n e
    unfolding init_files
    init_files-IsStuck username dir [] d e s s' h r = ground (arith, h.0, h.1, r)
    init_files-IsStuck username dir ((g, w) ∷ es) d e s s' h r =
        elim (Option-cases (init_file c username dir g w d s)) [
          | inl y ↦ ground (arith, y, r)
          | inr ((d1, s1), y) ↦
              init_files-IsStuck username dir es d1 e s1 s'
                (init_file-IsStuck username dir g w d d1 s s1 h y) (ground (arith, y, r))
        ]

    init_entry-IsStuck :
        (dir v : Text) (w : Node) (d e : Disk) (s s' : ServerState)
        → IsStuck p f n d
        → init_entry c dir v w d s ≡ some (e, s')
        → IsStuck p f n e
    unfolding init_entry
    init_entry-IsStuck dir v w d e s s' h r = elim (Bool-cases (is_temp v)) [
      | inl y ↦
          remove-IsStuck (entry_path dir v) d e (is_temp-entry_path dir v ∙ y) h
            (ground (arith, y, r))
      | inr y ↦ init_kept w r y
    ]
      where
        init_kept :
            (x : Node)
            → init_entry c dir v x d s ≡ some (e, s')
            → is_temp v ≡ false
            → IsStuck p f n e
        init_kept directory q y =
            init_files-IsStuck v (entry_path dir v) (entries (entry_path dir v) d) d e s s' h
              (ground (arith, y, q))
        init_kept (file x) q y = ground (arith, h.0, h.1, q, y)

    -- The scan ends in an exception where the directory is among its entries.
    init_entries-stuck :
        (dir u : Text) (es : List (Text × Node)) (d : Disk) (s : ServerState)
        → p ≡ entry_path dir u
        → is_some (find u es) ≡ true
        → IsStuck p f n d
        → init_entries c dir es d s ≡ none
    unfolding init_entries find
    init_entries-stuck dir u [] d s e m h = ground arith
    init_entries-stuck dir u ((v, w) ∷ es) d s e m h = elim (Bool-cases (text_eq v u)) [
      | inl same ↦
          let at : v ≡ u = (text_eq_iff v u).0 same in
          let temp_v : is_temp v ≡ true =
            ap is_temp at ∙ sym (is_temp-entry_path dir u) ∙ ap is_temp (sym e) ∙ t in
          let none_left : remove (entry_path dir v) d ≡ none =
            ap (λ x. remove (entry_path dir x) d) at
            ∙ ap (λ x. remove x d) (sym e)
            ∙ remove-stuck d h in
          ground (arith, temp_v, none_left)
      | inr other ↦ elim (Option-cases (init_entry c dir v w d s)) [
        | inl y ↦ ground (arith, y)
        | inr ((d1, s1), y) ↦
            let later =
              init_entries-stuck dir u es d1 s1 e (ground (arith, m, other))
                (init_entry-IsStuck dir v w d d1 s s1 h y) in
            ground (arith, y, later)
      ]
    ]

-- A start ends in an exception where a directory of a temporary name in the server's directory has a
-- file in it that has no temporary name.
pub init-stuck :
    (c : Config) (u f : Text) (n : Node) (d : Disk)
    → NoSlash u
    → is_temp u ≡ true
    → is_temp f ≡ false
    → is_directory d (strip_slash (get_servers_dir c)) ≡ true
    → find (entry_path (strip_slash (get_servers_dir c)) u) d ≡ some directory
    → find (entry_path (entry_path (strip_slash (get_servers_dir c)) u) f) d ≡ some n
    → init c d ≡ none
unfolding init create_directory is_directory
init-stuck c u f n d nu tu tf there folder inside =
    let dir = strip_slash (get_servers_dir c) in
    let listed : is_some (find u (entries dir d)) ≡ true =
      ap is_some (find-entries dir u d nu ∙ folder) in
    let stuck =
      init_entries-stuck (entry_path dir u) f n (is_temp-entry_path dir u ∙ tu) tf c dir u
        (entries dir d) d empty_state refl listed (folder, inside) in
    ground (arith, there, stuck)

module _ (c : Config) (u password : Text) (tid : ℤ) (d : Disk) (s : ServerState) (r : TidReady c d)
    (h : IsFresh c u password tid d s)
    (slash : strip_slash (get_servers_dir c) ++ b'/' ∷ [] ≡ get_servers_dir c)
    (there : is_directory d (strip_slash (get_servers_dir c)) ≡ true) where
  abbrev dir : Text
  dir = strip_slash (get_servers_dir c)

  abbrev after : Disk
  after = with_user c u password tid d s
