-- ===== src/Config/Apart.antt =====
-- The paths of a user's file, of the tid file and of their temporary copies are all different.
use file_syncer.Prelude.{◌≡◌, ◌≢◌, sym, ◌∙◌, [], ◌∷◌, ◌++◌, arith, append_assoc}
use mathlib.Core.List.{append_cancel_left}
use file_syncer.Prelude.Text.{Text, bytes}
use file_syncer.Config.{Config, get_servers_dir, get_user_dir, get_file_path, get_tid_path}
use file_syncer.Disk.Paths.{temp, temp-ne, NoSlash}

pub slash-ne : (u f t : Text) → NoSlash t → u ++ (b'/' ∷ f) ≢ t
slash-ne [] f [] n e = cc
slash-ne [] f (b ∷ t) n e = ground arith
slash-ne (a ∷ u) f [] n e = cc
slash-ne (a ∷ u) f (b ∷ t) n e = ground (arith, slash-ne u f t n.1)

module _ (c : Config) (u f : Text) where
  temp-file_path : temp (get_file_path c u f) ≡ get_file_path c u (temp f)
  unfolding get_file_path get_user_dir
  temp-file_path = append_assoc (get_servers_dir c ++ u) (b'/' ∷ f) (b'~' ∷ [])

  file_path-ne : (t : Text) → NoSlash t → get_file_path c u f ≢ get_servers_dir c ++ t
  unfolding get_file_path get_user_dir
  file_path-ne t n e = slash-ne u f t n (
      append_cancel_left (get_servers_dir c) (u ++ (b'/' ∷ f)) t
        (sym (append_assoc (get_servers_dir c) u (b'/' ∷ f)) ∙ e))

-- The four paths that a change of a file touches: no two are the same.
pub record AreApart (t p : Text) : Type 0 where
  pub p-ne-t : p ≢ t
  pub p-ne-temp_t : p ≢ temp t
  pub temp_p-ne-t : temp p ≢ t
  pub temp_p-ne-temp_t : temp p ≢ temp t
  pub temp_p-ne-p : temp p ≢ p
  pub temp_t-ne-t : temp t ≢ t

temp-tid_path : (c : Config) → temp (get_tid_path c) ≡ get_servers_dir c ++ bytes "tid~"
unfolding get_tid_path
temp-tid_path c = append_assoc (get_servers_dir c) (bytes "tid") (b'~' ∷ [])

pub paths-AreApart : (c : Config) (u f : Text) → AreApart (get_tid_path c) (get_file_path c u f)
unfolding get_tid_path
paths-AreApart c u f = record {
  p-ne-t = file_path-ne c u f (bytes "tid") (omega arith);
  p-ne-temp_t = λ e. file_path-ne c u f (bytes "tid~") (omega arith) (e ∙ temp-tid_path c);
  temp_p-ne-t =
      λ e. file_path-ne c u (temp f) (bytes "tid") (omega arith) (sym (temp-file_path c u f) ∙ e);
  temp_p-ne-temp_t = λ e.
      file_path-ne c u (temp f) (bytes "tid~") (omega arith)
        (sym (temp-file_path c u f) ∙ e ∙ temp-tid_path c);
  temp_p-ne-p = temp-ne (get_file_path c u f);
  temp_t-ne-t = temp-ne (get_tid_path c);
}
