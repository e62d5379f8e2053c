-- ===== src/Conversion/Review/Accepted.antt =====
-- pkg/apiserver/conversion/webhook_converter.go: the request that is made and the responses that are
-- accepted.
use apiextensions_apiserver.Conversion.{gvk_eq, RawExtension, Gvk}
use mathlib.Core.Path.{subst}
use apiextensions_apiserver.Conversion.Review.{
  conversion_request, ConversionResponse, v1_request, v1beta1_request, v1_review, v1beta1_review,
  other_review, successful, get_converted_objects_from_response, create_conversion_review_objects,
  Review, ReviewRequest, review_gvk,
}
use apiextensions_apiserver.Prelude.{
  ok_injective, inr, ap, inl, ◌==◌, Bool-cases, eq_iff, arith, contains, ◌≡◌, String, List, refl,
  [], ◌∷◌, some, none, true, ok,
}

-- A response to the request with the UID: of v1, or of v1beta1, where neither the kind nor the UID is
-- looked at.
abbrev pub Accepted : String → Review → List RawExtension → Type 0
Accepted uid (v1_review gvk (some response)) objects =
    (gvk ≡ review_gvk)
    × (response.uid ≡ uid)
    × (response.status ≡ "Success")
    × (response.converted_objects ≡ objects)
Accepted uid (v1beta1_review (some response)) objects =
    (response.status ≡ "Success") × (response.converted_objects ≡ objects)
Accepted uid review objects = ⊥

ok-successful :
    (response : ConversionResponse) (objects : List RawExtension)
    → successful response ≡ ok objects
    → (response.status ≡ "Success") × (response.converted_objects ≡ objects)
unfolding successful
ok-successful response objects h = elim (Bool-cases (response.status == "Success")) [
  | inl e ↦ (
    ground (arith, e, eq_iff (response.status) "Success"),
    ok_injective (rw (successful, e) at h),
  )
  | inr e ↦ elim (Bool-cases (response.message == "")) [
    | inl e₁ ↦ cc (rw (successful, e, e₁) at h)
    | inr e₁ ↦ cc (rw (successful, e, e₁) at h)
  ]
]

gvk_eq-eq : (a b : Gvk) → gvk_eq a b ≡ true → a ≡ b
gvk_eq-eq a b h =
    ground (
      arith,
      h,
      eq_iff (a.group) (b.group),
      eq_iff (a.version) (b.version),
      eq_iff (a.kind) (b.kind),
    )

pub Accepted-get_converted_objects_from_response :
    (uid : String) (review : Review) (objects : List RawExtension)
    → get_converted_objects_from_response uid review ≡ ok objects
    → Accepted uid review objects
unfolding get_converted_objects_from_response
Accepted-get_converted_objects_from_response uid (v1_review gvk none) objects h =
    elim (Bool-cases (gvk_eq gvk review_gvk)) [
      | inl e ↦ cc (rw (get_converted_objects_from_response, e) at h)
      | inr e ↦ cc (rw (get_converted_objects_from_response, e) at h)
    ]
Accepted-get_converted_objects_from_response uid (v1_review gvk (some response)) objects h =
    elim (Bool-cases (gvk_eq gvk review_gvk)) [
      | inr e ↦ cc (rw (get_converted_objects_from_response, e) at h)
      | inl e ↦ elim (Bool-cases (response.uid == uid)) [
        | inr e₁ ↦ cc (rw (get_converted_objects_from_response, e, e₁) at h)
        | inl e₁ ↦
            let (status, same) =
              ok-successful response objects
                (rw (get_converted_objects_from_response, e, e₁) at h) in
            (
              gvk_eq-eq gvk review_gvk e,
              ground (arith, e₁, eq_iff (response.uid) uid),
              status,
              same,
            )
      ]
    ]
Accepted-get_converted_objects_from_response uid (v1beta1_review none) objects h = cc
Accepted-get_converted_objects_from_response uid (v1beta1_review (some response)) objects h =
    ok-successful response objects h
Accepted-get_converted_objects_from_response uid other_review objects h = cc

-- The request of one of the versions, for the objects.
abbrev pub Requests : List String → List RawExtension → String → String → ReviewRequest → Type 0
Requests versions objects api_version uid (v1_request r) =
    (contains versions "v1" ≡ true)
    × (r.objects ≡ objects)
    × (r.desired_api_version ≡ api_version)
    × (r.uid ≡ uid)
Requests versions objects api_version uid (v1beta1_request r) =
    (contains versions "v1beta1" ≡ true)
    × (r.objects ≡ objects)
    × (r.desired_api_version ≡ api_version)
    × (r.uid ≡ uid)

later_version :
    (v : String) (vs : List String) (objects : List RawExtension) (api_version uid : String)
    (request : ReviewRequest)
    → Requests vs objects api_version uid request
    → Requests (v ∷ vs) objects api_version uid request
later_version v vs objects api_version uid (v1_request r) (c, o, a, u) =
    (ground (arith, c), o, a, u)
later_version v vs objects api_version uid (v1beta1_request r) (c, o, a, u) =
    (ground (arith, c), o, a, u)

pub Requests-create_conversion_review_objects :
    (versions : List String) (objects : List RawExtension) (api_version uid : String)
    (request : ReviewRequest) (review : Review)
    → create_conversion_review_objects versions objects api_version uid ≡ ok (request, review)
    → Requests versions objects api_version uid request
unfolding create_conversion_review_objects conversion_request
Requests-create_conversion_review_objects [] objects api_version uid request review h = cc
Requests-create_conversion_review_objects (v ∷ vs) objects api_version uid request review h =
    elim (Bool-cases (v == "v1beta1")) [
      | inl e ↦
          subst (Requests (v ∷ vs) objects api_version uid)
            (ap (λ r. r.0) (ok_injective (rw (create_conversion_review_objects, e) at h)))
            (ground (arith, e), refl, refl, refl)
      | inr e ↦ elim (Bool-cases (v == "v1")) [
        | inl e₁ ↦
            subst (Requests (v ∷ vs) objects api_version uid)
              (ap (λ r. r.0) (ok_injective (rw (create_conversion_review_objects, e, e₁) at h)))
              (ground (arith, e₁), refl, refl, refl)
        | inr e₁ ↦ later_version v vs objects api_version uid request (
            Requests-create_conversion_review_objects vs objects api_version uid request review
              (rw (create_conversion_review_objects, e, e₁) at h))
      ]
    ]
