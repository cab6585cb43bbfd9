-- ===== src/Collect/Platepar.antt =====
-- `collect_platepar` of cc_mqtt_monitor/collect.py: the platepar against the station's config.
-- Numbers of the platepar and the configured field of view are in thousandths.
use cc_rms_mqtt_monitor.Base.{
  ℕ, ◌+◌, ◌*◌, ◌/◌, Bool, false, not, ◌&&◌, ◌||◌, Option, none, some, ltb, ◌==◌, if◌then◌else◌, ℤ,
  pos, negsuc, sub_ℕ, leb_ℤ,
}

-- the keys that are numbers
pub record PlateFile : Type 0 where
  pub x_res : Option ℤ
  pub y_res : Option ℤ
  pub fov_h : Option ℤ

pub record PlateConfig : Type 0 where
  pub width : ℕ
  pub height : ℕ
  pub fov_w : ℕ

-- `int(x)`
unfoldable pub trunc : ℤ → ℤ
trunc (pos n) = pos (n / 1000)
trunc (negsuc n) = sub_ℕ 0 ((n + 1) / 1000)

unfoldable pub is_number : ℤ → ℕ → Bool
is_number (pos n) k = n == k
is_number (negsuc n) k = false

-- `platepar_x_res`, `platepar_y_res`, and whether they differ from the configured size
pub record Resolution : Type 0 where
  pub x_res : ℤ
  pub y_res : ℤ
  pub mismatch : Option Bool

unfoldable pub resolution : PlateConfig → Option ℤ → Option ℤ → Option Resolution
resolution c none y = none
resolution c (some x) none = none
resolution c (some x) (some y) = some (record {
  x_res = trunc x;
  y_res = trunc y;
  mismatch =
      if ltb 0 c.width && ltb 0 c.height
      then some (not (is_number (trunc x) c.width) || not (is_number (trunc y) c.height))
      else none;
})

-- `k * x`
unfoldable pub times : ℕ → ℤ → ℤ
times k (pos n) = pos (k * n)
times k (negsuc n) = sub_ℕ 0 (k * (n + 1))

-- `not (0.75 * fov_w <= fov_h <= 1.5 * fov_w)`
unfoldable pub fov_differs : ℕ → ℤ → Bool
fov_differs w h = not (leb_ℤ (pos (3 * w)) (times 4 h) && leb_ℤ (times 2 h) (pos (3 * w)))

unfoldable pub fov_mismatch : PlateConfig → Option ℤ → Option Bool
fov_mismatch c none = none
fov_mismatch c (some h) = if ltb 0 c.fov_w then some (fov_differs c.fov_w h) else none

pub record Platepar : Type 0 where
  pub res : Option Resolution
  pub config_fov_mismatch : Option Bool
  pub platepar_fov_h : Option ℤ

-- of a platepar that can be read
unfoldable pub collect_platepar : PlateConfig → Option PlateFile → Platepar
collect_platepar c none = record { res = none; config_fov_mismatch = none; platepar_fov_h = none }
collect_platepar c (some f) = record {
  res = resolution c f.x_res f.y_res;
  config_fov_mismatch = fov_mismatch c f.fov_h;
  platepar_fov_h = if ltb 0 c.fov_w then f.fov_h else none;
}
