-- ===== src/Collect/Outputs.antt =====
-- `collect_frames` and `collect_timelapse` of cc_mqtt_monitor/collect.py.
use mathlib.Core.Option
use cc_rms_mqtt_monitor.Base.{
  ℕ, suc, zero, String, Bool, not, ◌&&◌, ◌||◌, Option, none, some, List, ◌++◌, map, ltb,
  if◌then◌else◌, filter, basename, join_path, append, has_suffix, some_and,
}
use cc_rms_mqtt_monitor.Base.{ℤ}
use cc_rms_mqtt_monitor.Health.Metrics.{FrameMode, night, day}
use cc_rms_mqtt_monitor.Collect.Files.{
  FileSystem, latest_subdir, max_name, min_name, age_of, is_nonempty,
}

-- the newest directory the given number of levels down
unfoldable pub descend : FileSystem → ℕ → String → Option String
descend fs zero dir = some dir
descend fs (suc n) dir = elim (latest_subdir fs dir) [ none ↦ none | some next ↦ descend fs n next ]

-- `frame_mode`, by the name without its extension
unfoldable pub mode_of : String → Option FrameMode
mode_of base =
    if has_suffix "_d" base then some day else if has_suffix "_n" base then some night else none

-- The texts `lower_name` and `stem` are `name.lower()` and `os.path.splitext(name)[0]`.
unfoldable pub newest_frame :
    FileSystem → (String → String) → (String → String) → ℕ → String → Option ℤ × Option FrameMode
newest_frame fs lower_name stem now hour_dir = elim (fs.listdir hour_dir) [
  | none ↦ (none, none)
  | some names ↦
      elim (max_name (
        map (join_path hour_dir) (
          filter (λ n. has_suffix ".jpg" (lower_name n) || has_suffix ".png" (lower_name n))
            names))) [
              | none ↦ (none, none)
              | some newest ↦ (some (age_of fs now newest), mode_of (stem (basename newest)))
            ]
]

-- `newest_frame_age_s` and `frame_mode`; where the listing of the hour raises, the source does too
unfoldable pub collect_frames :
    FileSystem
    → (String → String)
    → (String → String)
    → ℕ
    → Bool
    → String
    → Option ℤ × Option FrameMode
collect_frames fs lower_name stem now save_frames frames_path =
    if not save_frames then (none, none) else elim (descend fs 3 frames_path) [
      | none ↦ (none, none)
      | some hour_dir ↦ newest_frame fs lower_name stem now hour_dir
    ]

abbrev pub min_timelapse_bytes : ℕ
min_timelapse_bytes = 1024

pub record Timelapse : Type 0 where
  pub timelapse_mp4_present : Option Bool
  pub timelapse_session_age_s : Option ℤ
  pub newest_timelapse_age_s : Option ℤ
  pub frames_data_age_s : Option ℤ

-- a loose video that is no stub, or the archive; a size that cannot be read counts as none
unfoldable pub has_timelapse : FileSystem → String → List String → Bool
has_timelapse fs mp4 tars =
    is_nonempty tars || fs.is_file mp4 && some_and (fs.size mp4) (λ n. ltb min_timelapse_bytes n)

-- `prefix_of` cuts the suffix of a session's marker
unfoldable pub session_present : FileSystem → (String → String) → String → String → Bool
session_present fs prefix_of frames_path marker =
    let p = prefix_of (basename marker) in
    has_timelapse fs (join_path frames_path (append p "_frames_timelapse.mp4"))
      (fs.glob frames_path (append p "_frames_timelapse.tar*"))

unfoldable pub collect_timelapse :
    FileSystem → (String → String) → ℕ → Bool → Bool → String → Timelapse
collect_timelapse fs prefix_of now save_frames generate frames_path =
    if not (save_frames && generate)
    then record {
      timelapse_mp4_present = none;
      timelapse_session_age_s = none;
      newest_timelapse_age_s = none;
      frames_data_age_s = none;
    }
    else let newest = max_name (fs.glob frames_path "*_frametimes.json") in
      record {
        timelapse_mp4_present = Option.map (session_present fs prefix_of frames_path) newest;
        timelapse_session_age_s = Option.map (age_of fs now) newest;
        newest_timelapse_age_s = Option.map (age_of fs now) (
            max_name (
              fs.glob frames_path "*_frames_timelapse.mp4"
              ++ fs.glob frames_path "*_frames_timelapse.tar*"));
        frames_data_age_s =
            Option.map (age_of fs now)
              (min_name (filter fs.is_dir (fs.glob frames_path "[0-9][0-9][0-9][0-9]/*")));
      }
