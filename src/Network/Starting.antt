-- ===== src/Network/Starting.antt =====
-- What BootServer (src/Source/ServerBase.cpp) leaves open.
use ancestral_property_serve.Prelude.{
  ℕ, suc, Option, none, some, List, [], ◌∷◌, ◌==◌, if◌then◌else◌,
}
use ancestral_property_serve.Network.Boot.{System, Stage}

-- How often a descriptor is closed.
abbrev pub closings : ℕ → List (Option ℕ) → ℕ
closings fd [] = 0
closings fd (none ∷ closed) = closings fd closed
closings fd (some g ∷ closed) = let n = closings fd closed in if fd == g then suc n else n

-- The closings that each stage comes to.
abbrev pub closings_of : Stage → System → ℕ
closings_of Stage.not_listening y = if y.reuse_address_ok then 2 else 1
closings_of Stage.no_epoll y = 1
closings_of Stage.not_watched y = 1
closings_of Stage.refused y = 1
closings_of _ y = 0
