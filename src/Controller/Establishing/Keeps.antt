-- ===== src/Controller/Establishing/Keeps.antt =====
-- What the establishing controller writes.
use apiextensions_apiserver.Crd.Helpers.{set_crd_condition, is_crd_condition_true}
use apiextensions_apiserver.Controller.Client.{idle, All-after_update, got, UpdateResult, Got}
use apiextensions_apiserver.Prelude.{
  inl, inr, Bool-cases, All, false, true, ◌≡◌, String, Bool, ℕ, List,
}
use apiextensions_apiserver.Controller.Establishing.{verdict, establish}
use apiextensions_apiserver.Crd.{established, names_accepted, Crd}

pub establish-sent :
    (valid : List ℕ → Bool) (now : ℕ) (get : String → Got) (update : Crd → UpdateResult)
    (key : String) (P : Crd → Type 0) (c : Crd)
    → get key ≡ got c
    → (is_crd_condition_true c names_accepted ≡ true
        → is_crd_condition_true c established ≡ false
        → P (set_crd_condition now c (verdict valid c)))
    → All P (establish valid now get update key).sent
unfolding establish
establish-sent valid now get update key P c g p =
    elim (Bool-cases (is_crd_condition_true c names_accepted)) [
      | inr n ↦ rw (establish, g, n) tt
      | inl n ↦ elim (Bool-cases (is_crd_condition_true c established)) [
        | inl e ↦ rw (establish, g, n, e) tt
        | inr e ↦
            rw (establish, g, n, e)
              (All-after_update P (update (set_crd_condition now c (verdict valid c)))
                (set_crd_condition now c (verdict valid c)) (λ _. idle) (p n e) (λ stored _. tt))
      ]
    ]
