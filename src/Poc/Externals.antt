-- ===== src/Poc/Externals.antt =====
-- What iot_verifier/src/poc.rs calls and does not implement: the h3 cells, the floating-point
-- numbers, the beacon crate, the truncation of times and the signed deny list.
use oracles.Prelude.{ℕ, Bool, Option, Reply}
use oracles.Prelude.Int.{ℤ}
use oracles.Poc.Types.{PublicKey, Bytes}

-- `h3o`: an index may be no cell, a cell may have no parent at resolution 11, and the grid distance
-- of two cells may not be computable. `distance_m` is the rounded distance of their centres.
pub record Cells (Cell : Type 0) : Type 0 where
  pub try_from : ℕ → Option Cell
  pub parent : Cell → Option Cell
  pub grid_distance : Cell → Cell → Option ℕ
  pub distance_m : Cell → Cell → ℕ

-- `f64`, with the two constants that the module names.
pub record Floats (F : Type 0) : Type 0 where
  pub of_ℤ : ℤ → F
  pub add : F → F → F
  pub sub : F → F → F
  pub mul : F → F → F
  pub div : F → F → F
  pub log10 : F → F
  pub gt : F → F → Bool
  pub pi : F
  pub light_speed : F

-- The beacon crate's `Entropy` and `RegionParams`.
pub record Entropy : Type 0 where
  pub timestamp : ℕ
  pub bytes : Bytes
  pub version : ℕ

-- `gain` counts tenths.
pub record RegionParams (Params : Type 0) : Type 0 where
  pub region : ℕ
  pub params : Params
  pub gain : ℤ
  pub timestamp : ℕ

pub record Beacon : Type 0 where
  pub packet : Bytes
  pub frequency : ℕ
  pub datarate : ℕ
  pub remote_entropy : Entropy
  pub local_entropy : Entropy
  pub conducted_power : ℕ

-- `Beacon::new` and `Beacon::verify`.
pub record Beacons (Params E : Type 0) : Type 0 where
  pub new : Entropy → Entropy → RegionParams Params → Reply E Beacon
  pub verify : Beacon → Beacon → Bool

-- The filter of a deny list (denylist/src/denylist.rs), which is none until it has been fetched.
pub record Filter : Type 0 where
  pub contains : PublicKey → Bool
  pub contains_edge : PublicKey → PublicKey → Bool

pub record DenyList : Type 0 where
  pub tag_name : ℕ
  pub filter : Option Filter
