-- ===== src/Examples/Releases.antt =====
-- A catalogue of one release.
use mathlib.Core.Logic.{◌↔◌}
use tamoss.Base.{◌≡◌, refl, List, [], ◌∷◌}
use tamoss.Effect.{ok}
use tamoss.Releases.{select}
use tamoss.Releases.Load.{load}
use tamoss.Releases.Select.{IsSelectable, select_iff}
use tamoss.Releases.Catalogue.{IsCatalogueOf, load-IsCatalogueOf}
use tamoss.Examples.Cluster.{release, catalogue}

select_iff_example :
    (select catalogue "1.0" "" "1.0" ≡ ok release) ↔ IsSelectable catalogue "1.0" "" "1.0" release
select_iff_example = select_iff catalogue "1.0" "" "1.0" release

load-IsCatalogueOf_example : IsCatalogueOf (release ∷ []) catalogue
unfolding load tamoss.Base.Text.trim_space tamoss.Base.Assoc.find tamoss.Releases.validate_version
    tamoss.Base.Assoc.put
load-IsCatalogueOf_example = load-IsCatalogueOf (release ∷ []) catalogue refl
