-- ===== src/Geo.antt =====
-- go-core/internal/geo/bounds.go, over float64 operations that are a parameter.
use tinder_like_back.Base.{ℕ, Bool, ◌||◌, if◌then◌else◌}
use tinder_like_back.Base.Int.{ℤ}
use tinder_like_back.Models.{Float64}
use tinder_like_back.Errors.{Result, ok, err, invalid_coordinates, invalid_radius}

-- float64 and the functions of package math that the program calls.
pub record FloatOps : Type 0 where
  pub lt : Float64 → Float64 → Bool
  -- Go's <=, and the order of BETWEEN on double precision.
  pub le : Float64 → Float64 → Bool
  pub add : Float64 → Float64 → Float64
  pub sub : Float64 → Float64 → Float64
  pub mul : Float64 → Float64 → Float64
  pub div : Float64 → Float64 → Float64
  pub max : Float64 → Float64 → Float64
  pub min : Float64 → Float64 → Float64
  pub abs : Float64 → Float64
  pub sin : Float64 → Float64
  pub cos : Float64 → Float64
  pub sqrt : Float64 → Float64
  pub atan2 : Float64 → Float64 → Float64
  -- int(x), and float64 of an integer.
  pub to_int : Float64 → ℤ
  pub of_int : ℤ → Float64
  -- The constant that the literal `n * 10 ^ -k` denotes, its negation, and math.Pi.
  pub literal : ℕ → ℕ → Float64
  pub minus : ℕ → Float64
  pub pi : Float64

pub record Bounds : Type 0 where
  pub min_latitude : Float64
  pub max_latitude : Float64
  pub min_longitude : Float64
  pub max_longitude : Float64

module _ (fl : FloatOps) where
  open fl use {lt, add, sub, mul, div, max, min, abs, sin, cos, sqrt, atan2, literal, minus, pi}

  abbrev pub earth_radius_km : Float64
  earth_radius_km = literal 63710088 4

  abbrev pub kilometers_per_latitude_deg : Float64
  kilometers_per_latitude_deg = literal 11132 2

  abbrev pub degrees_to_radians : Float64
  degrees_to_radians = div pi (literal 180 0)

  unfoldable pub out_of_range : Float64 → Float64 → Bool
  out_of_range latitude longitude =
      ((lt latitude (minus 90) || lt (literal 90 0) latitude) || lt longitude (minus 180))
      || lt (literal 180 0) longitude

  unfoldable pub rectangle : Float64 → Float64 → Float64 → Bounds
  rectangle latitude longitude radius_km =
      let latitude_delta = div radius_km kilometers_per_latitude_deg in
      let longitude_kilometers_per_degree =
        mul kilometers_per_latitude_deg (cos (mul latitude degrees_to_radians)) in
      let longitude_delta = div radius_km longitude_kilometers_per_degree in
      let at_pole = lt (abs longitude_kilometers_per_degree) (literal 1 12) in
      record {
        min_latitude = max (minus 90) (sub latitude latitude_delta);
        max_latitude = min (literal 90 0) (add latitude latitude_delta);
        min_longitude =
            if at_pole then minus 180 else max (minus 180) (sub longitude longitude_delta);
        max_longitude =
            if at_pole then literal 180 0 else min (literal 180 0) (add longitude longitude_delta);
      }

  unfoldable pub new_bounds : Float64 → Float64 → Float64 → Result Bounds
  unfolding out_of_range rectangle
  new_bounds latitude longitude radius_km =
      if out_of_range latitude longitude
      then err invalid_coordinates
      else if fl.le radius_km (literal 0 0)
      then err invalid_radius
      else ok (rectangle latitude longitude radius_km)

  -- The Haversine formula.
  unfoldable pub distance_km : Float64 → Float64 → Float64 → Float64 → Float64
  distance_km latitude1 longitude1 latitude2 longitude2 =
      let lat1 = mul latitude1 degrees_to_radians in
      let lat2 = mul latitude2 degrees_to_radians in
      let delta_lat = mul (sub latitude2 latitude1) degrees_to_radians in
      let delta_lon = mul (sub longitude2 longitude1) degrees_to_radians in
      let half_lat = sin (div delta_lat (literal 2 0)) in
      let half_lon = sin (div delta_lon (literal 2 0)) in
      let a =
        add (mul half_lat half_lat) (mul (mul (mul (cos lat1) (cos lat2)) half_lon) half_lon) in
      mul (mul earth_radius_km (literal 2 0)) (atan2 (sqrt a) (sqrt (sub (literal 1 0) a)))
