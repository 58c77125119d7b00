-- ===== src/Feeds/Errors/Tests.antt =====
-- Failures classified, and the theorems about them at concrete inputs.
use Prim.Native.String.{String}
use quantstack_terminal.Common.{ℕ, ◌≡◌, refl, Option, none, some, codes, read, contains_ci}
use quantstack_terminal.Feeds.Errors.{
  auth, transient, not_found, internal, code_for_status, Thrown, other, classify, status_prefix,
}

abbrev thrown : String → String → Option ℕ → Thrown
thrown name message status = other (record {
  name = some (codes name);
  message = some (codes message);
  status = status;
  shown = none;
})

classified :
    ((classify (thrown "Error" "request timed out" (some 504)) (codes "nubra")).code ≡ transient)
    × ((classify (thrown "TimeoutError" "401: late" none) (codes "nubra")).code ≡ transient)
    × ((classify (thrown "TypeError" "Fetch Failed" none) (codes "nubra")).code ≡ transient)
    × ((classify (thrown "NubraDataError" "404: no data" none) (codes "nubra")).code ≡ not_found)
    × ((classify (thrown "Error" "Session expired" none) (codes "nubra")).code ≡ auth)
    × ((classify (thrown "Error" "what" none) (codes "nubra")).code ≡ internal)
unfolding classify code_for_status status_prefix contains_ci read
classified = (refl, refl, refl, refl, refl, refl)
