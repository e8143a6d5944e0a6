-- ===== src/Recovery/Ready.antt =====
-- A disk on which a server can start, and on which a file can be changed, stays one through the
-- writes and the removals of the change.
use file_syncer.Prelude.{◌≡◌, refl, true, false, [], ◌∷◌, arith}
use file_syncer.Prelude.Text.{Text, text_eq_iff}
use file_syncer.Prelude.Map.{erase, text_key}
use file_syncer.Prelude.Map.Laws.{find-erase}
use file_syncer.Prelude.Map.Order.{emplace-IsSorted, erase-IsSorted}
use file_syncer.Config.{Config, get_servers_dir}
use file_syncer.Disk.{Disk, file, put, is_directory, strip_slash}
use file_syncer.Disk.Paths.{temp}
use file_syncer.Disk.Laws.{find-put, is_directory-put, is_directory-erase}
use file_syncer.ServerState.Startup.{is_temp}
use file_syncer.ServerState.Startup.Restored.{CanStart}

pub is_temp-temp : (p : Text) → is_temp (temp p) ≡ true
unfolding is_temp
is_temp-temp [] = refl
is_temp-temp (b ∷ []) = refl
is_temp-temp (b ∷ a ∷ p) = is_temp-temp (a ∷ p)

-- A directory stays one where something else is written or removed.
pub is_directory-kept_put :
    (p q content : Text) (d : Disk)
    → is_directory d p ≡ false
    → is_directory d q ≡ true
    → is_directory (put p (file content) d) q ≡ true
unfolding is_directory
is_directory-kept_put p q content d h k =
    ground (arith, find-put p q (file content) d, text_eq_iff p q)

pub is_directory-kept_erase :
    (p q : Text) (d : Disk)
    → is_directory d p ≡ false
    → is_directory d q ≡ true
    → is_directory (erase p d) q ≡ true
unfolding is_directory
is_directory-kept_erase p q d h k = ground (arith, find-erase p q d, text_eq_iff p q)

module _ (c : Config) (p : Text) (d : Disk) (r : CanStart c d)
    (free : is_directory d p ≡ false) where
  pub put-CanStart : (content : Text) → CanStart c (put p (file content) d)
  unfolding put
  put-CanStart content = record {
    ends_in_slash = r.ends_in_slash;
    is_there = is_directory-kept_put p (strip_slash (get_servers_dir c)) content d free r.is_there;
    sorted = emplace-IsSorted p (file content) (erase p d) (erase-IsSorted p d r.sorted);
    no_temp_directory = λ q t. is_directory-put p q content d (r.no_temp_directory q t);
  }

  pub erase-CanStart : CanStart c (erase p d)
  erase-CanStart = record {
    ends_in_slash = r.ends_in_slash;
    is_there = is_directory-kept_erase p (strip_slash (get_servers_dir c)) d free r.is_there;
    sorted = erase-IsSorted p d r.sorted;
    no_temp_directory = λ q t. is_directory-erase p q d (r.no_temp_directory q t);
  }
