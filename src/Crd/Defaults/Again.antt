-- ===== src/Crd/Defaults/Again.antt =====
-- pkg/apis/apiextensions/v1/defaults.go: what defaulting sets, and defaulting a CRD that is defaulted.
use Prim.Native.String
use Prim.Native.String.{String}
use apiextensions_apiserver.Crd.Defaults.{
  to_store, service_defaults, webhook_defaults, or_port, or_none_converter, set_defaults_spec,
  conversion_defaults, set_defaults, at_target, set_object_defaults, names_defaults,
  set_defaults_service_reference,
}
use apiextensions_apiserver.Prelude.{
  List, pos, take, is_empty, inr, ◌∙◌, [], ◌∷◌, join, not, ◌&&◌, refl, none, false, inl, ◌==◌, some,
  ap₂, true, Bool-cases, ap, if◌then◌else◌, ℤ, Option, ◌≡◌, Bool, String,
}
use apiextensions_apiserver.Crd.{Version, ServiceReference, Names, Crd, Conversion}

same : {A : Type 0} (b : Bool) (x : A) → (if b then x else x) ≡ x
same true x = refl
same false x = refl

-- A field that is set if a test finds it lacking is set once.
again :
    {A : Type 0} (test : A → Bool) (fresh current : A)
    → (if test (if test current then fresh else current)
        then fresh
        else (if test current then fresh else current))
      ≡ (if test current then fresh else current)
again test fresh current = elim (Bool-cases (test current)) [
  | inl t ↦ rw t (same (test fresh) fresh)
  | inr f ↦ rw (f, f) refl
]

target_again :
    {A : Type 0} (f : A → A)
    → ((x : A) → f (f x) ≡ f x)
    → (o : Option A) → at_target f (at_target f o) ≡ at_target f o
target_again f h none = refl
target_again f h (some x) = ap some (h x)

or_port_again : (port : Option ℤ) → or_port (or_port port) ≡ or_port port
or_port_again none = refl
or_port_again (some port) = refl

port_again :
    (service : ServiceReference)
    → set_defaults_service_reference (set_defaults_service_reference service)
      ≡ set_defaults_service_reference service
unfolding set_defaults_service_reference
port_again service = ap (λ p. record service { port = p }) (or_port_again (service.port))

conversion_again :
    (conversion : Conversion)
    → conversion_defaults (conversion_defaults conversion) ≡ conversion_defaults conversion
unfolding set_defaults_service_reference
conversion_again conversion =
    ap (λ w. record conversion { webhook = w })
      (target_again webhook_defaults
        (λ webhook.
          ap (λ c. record webhook { client_config = c })
            (target_again service_defaults
              (λ config.
                ap (λ s. record config { service = s })
                  (target_again set_defaults_service_reference port_again (config.service)))
              (webhook.client_config)))
        (conversion.webhook))

pointer_again :
    (conversion : Option Conversion)
    → at_target conversion_defaults (
        or_none_converter (
          or_none_converter
            (at_target conversion_defaults (or_none_converter (or_none_converter conversion)))))
      ≡ at_target conversion_defaults (or_none_converter (or_none_converter conversion))
pointer_again none = refl
pointer_again (some conversion) = ap some (conversion_again conversion)

-- A service has the port 443 if it had none.
abbrev pub with_port : Conversion → Conversion
with_port conversion = record conversion {
  webhook = elim conversion.webhook [
    | none ↦ none
    | some w ↦ some (record w {
      client_config = elim w.client_config [
        | none ↦ none
        | some c ↦ some (record c {
          service = elim c.service [
            | none ↦ none
            | some s ↦
                some (record s { port = elim s.port [ none ↦ some (pos 443) | some p ↦ some p ] })
          ];
        })
      ];
    })
  ];
}

-- A conversion that is missing is that without a webhook.
abbrev pub conversion_after : Option Conversion → Conversion
conversion_after none = record { strategy = "None"; webhook = none }
conversion_after (some conversion) = with_port conversion

joined : (kind : String) → join (kind ∷ "List" ∷ []) ≡ String.◌++◌ kind "List"
unfolding join
joined kind = refl

-- The names of the versions for storage.
abbrev pub storage_names : List Version → List String
storage_names [] = []
storage_names (v ∷ vs) = if v.storage then v.name ∷ storage_names vs else storage_names vs

service_after :
    (s : ServiceReference)
    → set_defaults_service_reference s
      ≡ record s { port = elim s.port [ none ↦ some (pos 443) | some p ↦ some p ] }
unfolding set_defaults_service_reference
service_after s = ap (λ port. record s { port = port }) (port_after s.port)
  where
    port_after :
        (port : Option ℤ) → or_port port ≡ (elim port [ none ↦ some (pos 443) | some p ↦ some p ])
    port_after none = refl
    port_after (some p) = refl

-- A function on what a pointer points to, by its description.
target_after :
    {A : Type 0} (f g : A → A)
    → ((x : A) → f x ≡ g x)
    → (o : Option A) → at_target f o ≡ (elim o [ none ↦ none | some x ↦ some (g x) ])
target_after f g h none = refl
target_after f g h (some x) = ap some (h x)

conversion_defaults-eq :
    (conversion : Conversion) → conversion_defaults conversion ≡ with_port conversion
conversion_defaults-eq conversion =
    ap (λ w. record conversion { webhook = w })
      (target_after _ _
        (λ w.
          ap (λ c. record w { client_config = c })
            (target_after _ _
              (λ c. ap (λ s. record c { service = s }) (target_after _ _ service_after c.service))
              w.client_config))
        conversion.webhook)

conversion_after-eq :
    (conversion : Option Conversion)
    → at_target conversion_defaults (or_none_converter (or_none_converter conversion))
      ≡ some (conversion_after conversion)
conversion_after-eq none = refl
conversion_after-eq (some conversion) = ap some (conversion_defaults-eq conversion)

to_store-eq : (vs : List Version) → to_store vs ≡ take 1 (storage_names vs)
unfolding to_store
to_store-eq [] = refl
to_store-eq (v ∷ vs) = elim (Bool-cases v.storage) [
  | inl e ↦ rw e refl
  | inr e ↦ rw e (to_store-eq vs)
]

module _ (to_lower : String → String) where
  names_again :
      (names : Names)
      → names_defaults to_lower (names_defaults to_lower names) ≡ names_defaults to_lower names
  unfolding names_defaults
  names_again names =
      ap₂ (λ s l. record names { singular = s; list_kind = l })
        (again (λ s. s == "") (to_lower (names.kind)) (names.singular))
        (again (λ l. l == "" && not (names.kind == "")) (join (names.kind ∷ "List" ∷ []))
          (names.list_kind))

  set_again :
      (crd : Crd)
      → set_object_defaults to_lower (set_object_defaults to_lower crd)
        ≡ set_object_defaults to_lower crd
  unfolding set_object_defaults set_defaults set_defaults_spec
  set_again crd =
      let once = names_defaults to_lower (crd.spec.names) in
      let p = names_again (names_defaults to_lower once) ∙ names_again once in
      let q = pointer_again (crd.spec.conversion) in
      let r = again is_empty (to_store (crd.spec.versions)) (crd.status.stored_versions) in
      λ i. record crd {
        spec = record crd.spec { names = p i; conversion = q i };
        status = record crd.status { stored_versions = r i };
      }

  -- What defaulting sets in a CRD, and that it sets nothing else.
  pub record HasDefaults (crd after : Crd) : Type 0 where
    pub singular : after.spec.names.singular ≡ (
        if crd.spec.names.singular == ""
        then to_lower crd.spec.names.kind
        else crd.spec.names.singular)
    pub list_kind : after.spec.names.list_kind ≡ (
        if crd.spec.names.list_kind == "" && not (crd.spec.names.kind == "")
        then String.◌++◌ crd.spec.names.kind "List"
        else crd.spec.names.list_kind)
    pub conversion : after.spec.conversion ≡ some (conversion_after crd.spec.conversion)
    pub stored_versions : after.status.stored_versions ≡ (
        if is_empty crd.status.stored_versions
        then take 1 (storage_names crd.spec.versions)
        else crd.status.stored_versions)
    pub rest :
        record crd {
          spec = record crd.spec {
            names = record crd.spec.names {
              singular = after.spec.names.singular;
              list_kind = after.spec.names.list_kind;
            };
            conversion = after.spec.conversion;
          };
          status = record crd.status { stored_versions = after.status.stored_versions };
        }
        ≡ after

  set_object_defaults-HasDefaults : (crd : Crd) → HasDefaults crd (set_object_defaults to_lower crd)
  unfolding set_object_defaults set_defaults set_defaults_spec names_defaults
  set_object_defaults-HasDefaults crd = record {
    singular = again (λ s. s == "") (to_lower crd.spec.names.kind) crd.spec.names.singular;
    list_kind =
        again (λ l. l == "" && not (crd.spec.names.kind == ""))
          (join (crd.spec.names.kind ∷ "List" ∷ [])) crd.spec.names.list_kind
        ∙ ap
            (λ l.
              if crd.spec.names.list_kind == "" && not (crd.spec.names.kind == "")
              then l
              else crd.spec.names.list_kind)
            (joined crd.spec.names.kind);
    conversion = conversion_after-eq crd.spec.conversion;
    stored_versions =
        ap
          (λ fresh.
            if is_empty crd.status.stored_versions then fresh else crd.status.stored_versions)
          (to_store-eq crd.spec.versions);
    rest = refl;
  }

  -- Defaulting a CRD sets exactly this: a singular name that is empty becomes the kind in lower case,
  -- and a list kind that is empty the kind with List behind it, if there is a kind; a missing
  -- conversion becomes that of the strategy None; a service of the webhook without a port gets 443; and
  -- if there are no stored versions, the first version for storage is one. And defaulting what is
  -- defaulted changes nothing.
  pub set_object_defaults_idem :
      (crd : Crd)
      → HasDefaults crd (set_object_defaults to_lower crd)
        × (set_object_defaults to_lower (set_object_defaults to_lower crd)
            ≡ set_object_defaults to_lower crd)
  set_object_defaults_idem crd = (set_object_defaults-HasDefaults crd, set_again crd)
