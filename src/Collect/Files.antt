-- ===== src/Collect/Files.antt =====
-- The file helpers of cc_mqtt_monitor/collect.py (`_latest_subdir`, `_safe_mtime`, `_newest_log`)
-- and the collectors that read ages and counts of files: `collect_capture`, `collect_detection`,
-- `collect_data_access`, `collect_upload` and `collect_disk`.
-- The file system is an input; times are in milliseconds.
use mathlib.Core.Option
use cc_rms_mqtt_monitor.Base.{
  ℕ, ◌+◌, ◌*◌, ◌/◌, String, Bool, true, false, not, Option, none, some, List, [], ◌∷◌, ◌++◌, map,
  ltb, ◌==◌, if◌then◌else◌, codes, length, filter, basename, join_path, is_some, or_else, ◌≡◌, refl,
  arith,
}
use cc_rms_mqtt_monitor.Base.{ℤ, pos, negsuc, sub_ℕ, ltb_ℤ}

-- `os.listdir`, none where it raises, with whether the reason is a permission; `os.path.isdir`;
-- `os.path.getmtime`, `os.path.getsize` and `os.path.isfile`; `glob.glob`
pub record FileSystem : Type 0 where
  pub listdir : String → Option (List String)
  pub is_denied : String → Bool
  pub is_dir : String → Bool
  pub mtime : String → Option ℕ
  pub size : String → Option ℕ
  pub is_file : String → Bool
  pub glob : String → String → List String
  pub lines : String → Option (List String)
  -- free and total bytes
  pub disk_usage : String → Option (ℕ × ℕ)

codes_lt : List ℕ → List ℕ → Bool
codes_lt [] [] = false
codes_lt [] (y ∷ ys) = true
codes_lt (x ∷ xs) [] = false
codes_lt (x ∷ xs) (y ∷ ys) =
    let rest = codes_lt xs ys in if ltb x y then true else if x == y then rest else false

-- `a < b` on texts
unfoldable pub name_lt : String → String → Bool
unfolding codes_lt
name_lt a b = codes_lt (codes a) (codes b)

not_lt_trans :
    (xs ys zs : List ℕ) → codes_lt xs ys ≡ false → codes_lt ys zs ≡ false → codes_lt xs zs ≡ false
unfolding codes_lt
not_lt_trans [] [] zs h k = k
not_lt_trans [] (y ∷ ys) zs h k = cc h
not_lt_trans (x ∷ xs) [] [] h k = refl
not_lt_trans (x ∷ xs) [] (z ∷ zs) h k = cc k
not_lt_trans (x ∷ xs) (y ∷ ys) [] h k = refl
not_lt_trans (x ∷ xs) (y ∷ ys) (z ∷ zs) h k = ground (arith, h, k, not_lt_trans xs ys zs)

lt_asym : (xs ys : List ℕ) → codes_lt xs ys ≡ true → codes_lt ys xs ≡ false
unfolding codes_lt
lt_asym [] [] h = refl
lt_asym [] (y ∷ ys) h = refl
lt_asym (x ∷ xs) [] h = cc h
lt_asym (x ∷ xs) (y ∷ ys) h = ground (arith, h, lt_asym xs ys)

pub name_lt_trans :
    (a b c : String) → name_lt a b ≡ false → name_lt b c ≡ false → name_lt a c ≡ false
unfolding name_lt
name_lt_trans a b c = not_lt_trans (codes a) (codes b) (codes c)

lt_irrefl : (xs : List ℕ) → codes_lt xs xs ≡ false
unfolding codes_lt
lt_irrefl [] = refl
lt_irrefl (x ∷ xs) = ground (arith, lt_irrefl xs)

pub name_lt_irrefl : (a : String) → name_lt a a ≡ false
unfolding name_lt
name_lt_irrefl a = lt_irrefl (codes a)

pub name_lt_asym : (a b : String) → name_lt a b ≡ true → name_lt b a ≡ false
unfolding name_lt
name_lt_asym a b = lt_asym (codes a) (codes b)

-- `max` of a list that is not empty, by a first element
unfoldable pub greatest : String → List String → String
greatest best [] = best
greatest best (x ∷ xs) = greatest (if name_lt best x then x else best) xs

-- `max(names) if names else None`
unfoldable pub max_name : List String → Option String
max_name [] = none
max_name (x ∷ xs) = some (greatest x xs)

-- `min` of a list that is not empty
unfoldable pub least : String → List String → String
least best [] = best
least best (x ∷ xs) = least (if name_lt x best then x else best) xs

unfoldable pub min_name : List String → Option String
min_name [] = none
min_name (x ∷ xs) = some (least x xs)

unfoldable pub latest_subdir : FileSystem → String → Option String
latest_subdir fs path = elim (fs.listdir path) [
  | none ↦ none
  | some names ↦
      Option.map (join_path path)
        (max_name (filter (λ name. fs.is_dir (join_path path name)) names))
]

unfoldable pub safe_mtime : FileSystem → String → ℕ
safe_mtime fs path = or_else (fs.mtime path) 0

-- `round(x, 1)` of seconds, in milliseconds
unfoldable pub round_age : ℤ → ℤ
round_age (pos n) = pos ((n + 50) / 100 * 100)
round_age (negsuc n) = sub_ℕ 0 ((n + 1 + 50) / 100 * 100)

-- `round(now - _safe_mtime(path), 1)`
unfoldable pub age_of : FileSystem → ℕ → String → ℤ
age_of fs now path = round_age (sub_ℕ now (safe_mtime fs path))

pub record CaptureFiles : Type 0 where
  pub captured_dir : Option String
  pub fits_count : ℕ
  pub newest_fits_age_s : Option ℤ
  pub capture_session_age_s : Option ℤ

unfoldable pub collect_capture : FileSystem → ℕ → String → CaptureFiles
collect_capture fs now captured_path = elim (latest_subdir fs captured_path) [
  | none ↦ record {
    captured_dir = none;
    fits_count = 0;
    newest_fits_age_s = none;
    capture_session_age_s = none;
  }
  | some latest ↦
      let fits = fs.glob latest "FF_*.fits" in
      record {
        captured_dir = some (basename latest);
        fits_count = length fits;
        newest_fits_age_s = Option.map (age_of fs now) (max_name fits);
        capture_session_age_s = some (age_of fs now latest);
      }
]

pub record DetectionFiles : Type 0 where
  pub ftpdetect_present : Bool
  pub calstars_present : Bool
  pub detection_output_age_s : Option ℤ

unfoldable pub is_nonempty {ℓ} : {A : Type ℓ} → List A → Bool
is_nonempty [] = false
is_nonempty (x ∷ xs) = true

min_ℤ : ℤ → List ℤ → ℤ
min_ℤ best [] = best
min_ℤ best (x ∷ xs) = min_ℤ (if ltb_ℤ x best then x else best) xs

-- `round(min(ages), 1) if ages`
unfoldable pub youngest : List ℤ → Option ℤ
unfolding min_ℤ
youngest [] = none
youngest (a ∷ as') = some (round_age (min_ℤ a as'))

unfoldable pub collect_detection : FileSystem → ℕ → String → DetectionFiles
collect_detection fs now captured_path = elim (latest_subdir fs captured_path) [
  | none ↦ record {
    ftpdetect_present = false;
    calstars_present = false;
    detection_output_age_s = none;
  }
  | some latest ↦
      let ftp = fs.glob latest "FTPdetectinfo_*.txt" in
      let cal = fs.glob latest "CALSTARS_*.txt" in
      record {
        ftpdetect_present = is_nonempty ftp;
        calstars_present = is_nonempty cal;
        detection_output_age_s = youngest (map (λ f. sub_ℕ now (safe_mtime fs f)) (ftp ++ cal));
      }
]

-- `data_dir_readable`
unfoldable pub collect_data_access : FileSystem → String → Option Bool
collect_data_access fs data_dir =
    if is_some (fs.listdir data_dir)
    then some true
    else if fs.is_denied data_dir
    then some false
    else none

-- `_newest_log`, over the three patterns in turn
unfoldable pub newest_log : FileSystem → String → String → Option String
newest_log fs log_path own_pattern =
    let own = fs.glob log_path own_pattern in
    let any_capture = fs.glob log_path "log_*.log" in
    let any_log = fs.glob log_path "*.log" in
    max_name
      (if is_nonempty own then own else if is_nonempty any_capture then any_capture else any_log)

-- `upload_queue_len` and `upload_queue_age_s`; `is_blank` is `not ln.strip()`
unfoldable pub collect_upload : FileSystem → (String → Bool) → ℕ → String → ℕ × Option ℤ
collect_upload fs is_blank now path =
    if not (fs.is_file path) then (0, none) else elim (fs.lines path) [
      | none ↦ (0, none)
      | some lns ↦ (length (filter (λ ln. not (is_blank ln)) lns), some (age_of fs now path))
    ]

-- `round(bytes / 1e9, 1)`, in thousandths of a gigabyte
unfoldable pub to_gb : ℕ → ℕ
to_gb bytes = (bytes + 50000000) / 100000000 * 100

-- `disk_free_gb` and `disk_total_gb`
unfoldable pub collect_disk : FileSystem → String → Option ℕ × Option ℕ
collect_disk fs data_dir = elim (fs.disk_usage (if fs.is_dir data_dir then data_dir else "/")) [
  | none ↦ (none, none)
  | some (free, total) ↦ (some (to_gb free), some (to_gb total))
]
