-- ===== src/Terminal/Viewport.antt =====
-- The viewports of the clients and the dimensions that they agree on
-- (packages/virtual_terminal/src/lib.rs).
use crabcity.Shared.{Bool, List, Option, Text, [], map, min, none, retain, some, values, ℕ, ◌∷◌}

pub data ClientType : Type 0 where
  web terminal : ClientType

pub record ClientViewport : Type 0 where
  pub rows : ℕ
  pub cols : ℕ
  pub client_type : ClientType
  pub is_active : Bool

abbrev pub Viewports : Type 0
Viewports = List (Text × ClientViewport)

abbrev pub Dims : Type 0
Dims = ℕ × ℕ

-- `iter().min()` of the numbers behind the first one.
unfoldable pub min_of : ℕ → List ℕ → ℕ
min_of n [] = n
min_of n (m ∷ ms) = min_of (min n m) ms

abbrev pub active_of : Viewports → List ClientViewport
active_of viewports = retain (λ v. v.is_active) (values viewports)

unfoldable pub min_dims : List ClientViewport → Option Dims
unfolding min_of
min_dims [] = none
min_dims (v ∷ vs) =
    some (min_of v.rows (map (λ w. w.rows) vs), min_of v.cols (map (λ w. w.cols) vs))

unfoldable pub calculate_effective_dims : Viewports → Option Dims
unfolding min_dims
calculate_effective_dims viewports = min_dims (active_of viewports)
