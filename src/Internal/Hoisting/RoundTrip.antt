-- ===== src/Internal/Hoisting/RoundTrip.antt =====
-- pkg/apis/apiextensions/v1/conversion.go: a v1 spec to the internal type and back.
use apiextensions_apiserver.Internal.{InternalSpec}
use apiextensions_apiserver.Internal.Hoisting.{spec_out, Peer}
use apiextensions_apiserver.Internal.Hoisting.Versions.{version_without_nulls, Sound, SameVersions}
use apiextensions_apiserver.Crd.{Version, CrdSpec}
use apiextensions_apiserver.Prelude.{map, ok, List, ◌≡◌}

-- The same spec, up to nil and empty slices in its versions.
pub record SameSpec (a b : CrdSpec) : Type 0 where
  pub versions : SameVersions a.versions b.versions
  pub rest : record a { versions = b.versions } ≡ b

module _ (p : Peer) (sound : Sound p) where
  abbrev Returns : CrdSpec → List Version → InternalSpec → Type 0
  Returns spec vs internal =
      (back : CrdSpec) × (spec_out p internal ≡ ok back)
      × SameVersions (map version_without_nulls vs) (back.versions)
      × (record spec { versions = back.versions } ≡ back)
