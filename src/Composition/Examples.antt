-- ===== src/Composition/Examples.antt =====
-- The theorem on entrypoint paths, applied to a path with dots in its names.
use universal_launcher.Prelude.{◌≡◌, refl, ◌↔◌, true, false, codes}
use universal_launcher.View.{at}
use universal_launcher.Composition.{relative_path_valid}
use universal_launcher.Composition.Paths.{IsInside, relative_path_valid_iff}

relative_path_valid_iff_example :
    (relative_path_valid (at (codes "bin/..run/game.exe")) ≡ true)
    ↔ IsInside (at (codes "bin/..run/game.exe"))
relative_path_valid_iff_example = relative_path_valid_iff (at (codes "bin/..run/game.exe"))

is_accepted : relative_path_valid (at (codes "bin/..run/game.exe")) ≡ true
unfolding relative_path_valid
is_accepted = refl

is_refused : relative_path_valid (at (codes "bin/../../etc")) ≡ false
unfolding relative_path_valid
is_refused = refl
