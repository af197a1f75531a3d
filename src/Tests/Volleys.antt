-- ===== src/Tests/Volleys.antt =====
-- The serial log of two ranks, whose turns are mixed.
use ipm_nci.Base.{
  ℕ, ◌≤◌, ◌<◌, ◌≡◌, refl, List, [], ◌∷◌, map, length, arith, ◌⊎◌, Option, none, some,
}
use ipm_nci.Layout.{identity}
use ipm_nci.Log.Volley.Order.{volley-order}
use ipm_nci.Log.Volley.{Copy, closed, Net, start, turn, turns}
use ipm_nci.Log.Write.{Written}

abbrev profile_of : ℕ → Written
profile_of rank = record {
  flags = 0;
  mpi_rank = rank;
  mpi_size = 2;
  call_mask = [];
  region_nregion = 0;
  hpm_eventset = 0;
  hpm_count = [];
  call_mcount = [];
  call_mtime = [];
  hash = [];
}

abbrev own_copy : ℕ → Copy
own_copy rank = record { ntasks = 2; task = profile_of rank; txt = rank ∷ [] }

abbrev mixed : List ℕ
mixed = 0 ∷ 1 ∷ 1 ∷ 0 ∷ 1 ∷ 0 ∷ 1 ∷ 0 ∷ []

abbrev or_start : Option Net → Net
or_start none = start own_copy
or_start (some s) = s

abbrev after_mixed : Net
after_mixed = or_start (turns own_copy mixed (start own_copy))

mixed_run : turns own_copy mixed (start own_copy) ≡ some after_mixed
unfolding turns start
mixed_run = refl

volley-order_example :
    ((i : ℕ) × (i ≤ 2) × (after_mixed.root.file ≡ map own_copy (identity i)))
    × (((length mixed < 8)
          × ((r : ℕ) × (r < 2) × ((u : Net) × (turn own_copy r after_mixed ≡ some u))))
        ⊎ ((length mixed ≡ 8)
            × (after_mixed.root.at ≡ closed)
            × (after_mixed.root.file ≡ map own_copy (identity 2))))
volley-order_example = volley-order 2 own_copy mixed after_mixed (omega arith) (λ i. refl) mixed_run
