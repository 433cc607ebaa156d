-- ===== src/Examples/Requests.antt =====
-- A deletion request, and warnings of one object.
use mathlib.Core.Logic.{◌↔◌}
use tamoss.Base.{String, String-discrete, ◌≡◌, refl, true, List, [], ◌∷◌, arith}
use tamoss.Kube.{Time, ObjectMeta}
use tamoss.Effect.{Result, ok}
use tamoss.Examples.Cluster.{named}
use tamoss.DeleteProtection.{
  Request, Operation, new_handler, handle, is_allowed, confirmation_annotation,
}
use tamoss.DeleteProtection.Decision.{IsPermitted, handle_iff}
use tamoss.Warnings.{WarningEventKey, emitted, IsTimed, IsSpaced, emitted-IsSpaced}

abbrev confirmed : String → Result ObjectMeta
confirmed raw =
    ok (record (named "tv" "t1") { annotations = (confirmation_annotation, " TRUE") ∷ [] })

abbrev deletion : Request
deletion = record {
  operation = Operation.delete;
  kind = "Tamoss";
  name = "tv";
  username = "jane";
  old_object = "{}";
  object = "";
}

handle_iff_example :
    (is_allowed
        (handle String-discrete (λ raw. ok raw) confirmed (new_handler "Tamoss" []) deletion)
      ≡ true)
    ↔ IsPermitted String-discrete (λ raw. ok raw) confirmed (new_handler "Tamoss" []) deletion
handle_iff_example =
    handle_iff String-discrete (λ raw. ok raw) confirmed (new_handler "Tamoss" []) deletion

-- The annotation confirms the deletion in any case of letters.
allowed-handle :
    is_allowed (handle String-discrete (λ raw. ok raw) confirmed (new_handler "Tamoss" []) deletion)
    ≡ true
unfolding handle new_handler
allowed-handle = refl

abbrev warning : WarningEventKey
warning = record { namespace = "media"; name = "tv"; reason = "NotReady"; message = "down" }

abbrev warnings : List (WarningEventKey × Time)
warnings = (warning, 100) ∷ (warning, 130) ∷ (warning, 160) ∷ []

emitted-IsSpaced_example : IsSpaced 60 (emitted 60 (λ key. 0) warnings)
unfolding IsTimed
emitted-IsSpaced_example =
    emitted-IsSpaced 60 refl warnings (λ key. 0) (omega arith, (omega arith, (omega arith, tt)))
