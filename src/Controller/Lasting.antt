-- ===== src/Controller/Lasting.antt =====
-- What the four controllers together make of the Established condition.
use apiextensions_apiserver.Controller.Approval.{approve, LastSeen}
use apiextensions_apiserver.Controller.Naming.Sync.{sync}
use apiextensions_apiserver.Controller.Finalizing.Keeps.{finalize-keeps}
use apiextensions_apiserver.Controller.Establishing.Keeps.{establish-sent}
use apiextensions_apiserver.Controller.Approval.Keeps.{approve-keeps}
use apiextensions_apiserver.Controller.Finalizing.{finalize, CrClient, Answer, Poll}
use apiextensions_apiserver.Controller.Establishing.{establish, has_bad_ca_bundle, verdict}
use apiextensions_apiserver.Controller.Naming.Keeps.{sync-keeps}
use apiextensions_apiserver.Crd.Helpers.{Url, set_crd_condition, is_crd_condition_true}
use apiextensions_apiserver.Crd.Helpers.Truth.{true-set, EstablishedIs-same, EstablishedIs}
use apiextensions_apiserver.Controller.Client.{KeepsConditions, got, UpdateResult, Got, Run}
use apiextensions_apiserver.Prelude.{
  refl, inl, inr, All, Bool-cases, ◌∙◌, sym, Option, All-found, String, true, Any, false, Bool, ℕ,
  List, ◌≡◌,
}
use mathlib.Core.Bool.{false≢true}
use apiextensions_apiserver.Crd.{names_accepted, Crd, established}

-- What the controllers call of other libraries.
pub record Libraries : Type 0 where
  pub aggregate : List String → String
  pub parse_request_uri : String → Option Url
  pub valid_ca_bundle : List ℕ → Bool
  pub poll : (ℕ → Poll) → Option String
  pub clients : Crd → Answer CrClient

abbrev pub IsSent : Crd → Run → Type 0
IsSent o run = Any (λ x. x ≡ o) run.sent

abbrev pub Ready : (List ℕ → Bool) → Crd → Type 0
Ready valid_ca_bundle c =
    (is_crd_condition_true c names_accepted ≡ true)
    × (has_bad_ca_bundle valid_ca_bundle c.spec.conversion ≡ false)

module _ (lib : Libraries) where
  -- A controller whose sync has read `c` sends `o`.
  pub data Write (c o : Crd) : Type 0 where
    by_naming :
        (now : ℕ) (cache : String → Option Crd) (list : List Crd) (get : String → Got)
        (update : Crd → UpdateResult) (key : String)
        → get key ≡ got c
        → IsSent o (sync lib.aggregate now cache list get update key)
        → Write c o
    by_establishing :
        (now : ℕ) (get : String → Got) (update : Crd → UpdateResult) (key : String)
        → get key ≡ got c
        → IsSent o (establish lib.valid_ca_bundle now get update key)
        → Write c o
    by_approval :
        (now : ℕ) (get : String → Got) (update : Crd → UpdateResult) (key : String)
        (seen : LastSeen)
        → get key ≡ got c
        → IsSent o (approve lib.parse_request_uri now get update key seen).0
        → Write c o
    by_finalizing :
        (now later : ℕ) (get : String → Got) (update_first update_last : Crd → UpdateResult)
        (key : String)
        → get key ≡ got c
        → KeepsConditions update_first
        → IsSent o
            (finalize lib.aggregate lib.poll lib.clients now later get update_first update_last
              key).run
        → Write c o

  -- The states of one CRD after `c`: a controller writes, or somebody else changes something but
  -- the conditions.
  pub data After (c : Crd) : Crd → Type 0 where
    at_first : After c c
    written : {d o : Crd} → After c d → Write d o → After c o
    changed : {d e : Crd} → After c d → e.status.conditions ≡ d.status.conditions → After c e

  establish-keeps :
      (now : ℕ) (get : String → Got) (update : Crd → UpdateResult) (key : String) (c : Crd)
      → get key ≡ got c
      → EstablishedIs true c
      → All (EstablishedIs true) (establish lib.valid_ca_bundle now get update key).sent
  establish-keeps now get update key c g e =
      establish-sent lib.valid_ca_bundle now get update key (EstablishedIs true) c g
        (λ n f. absurd (false≢true (sym f ∙ e)))

  Write-keeps : {c o : Crd} → Write c o → EstablishedIs true c → EstablishedIs true o
  Write-keeps {c} {o} (by_naming now cache list get update key g sent) e =
      All-found (EstablishedIs true) _ o
        (sync-keeps lib.aggregate true now cache list get update key c g e) sent
  Write-keeps {c} {o} (by_establishing now get update key g sent) e =
      All-found (EstablishedIs true) _ o (establish-keeps now get update key c g e) sent
  Write-keeps {c} {o} (by_approval now get update key seen g sent) e =
      All-found (EstablishedIs true) _ o
        (approve-keeps true lib.parse_request_uri now get update key seen c g e) sent
  Write-keeps {c} {o} (by_finalizing now later get update_first update_last key g keeps sent) e =
      All-found (EstablishedIs true) _ o
        (finalize-keeps true lib.aggregate lib.poll lib.clients now later get update_first
          update_last key c g keeps e)
        sent

  -- A CRD that is established at one time is so at every later one, whatever the four controllers
  -- write, as long as nobody else changes its conditions
  -- and the server stores the conditions that the finalizer sends.
  pub established_lasts : {c d : Crd} → After c d → EstablishedIs true c → EstablishedIs true d
  established_lasts at_first e = e
  established_lasts (written past w) e = Write-keeps w (established_lasts past e)
  established_lasts {d = e} (changed {d = d} past same) h =
      EstablishedIs-same true d e same (established_lasts past h)

  good_ca_bundle :
      (now : ℕ) (c : Crd)
      → EstablishedIs true (set_crd_condition now c (verdict lib.valid_ca_bundle c))
      → has_bad_ca_bundle lib.valid_ca_bundle c.spec.conversion ≡ false
  good_ca_bundle now c t =
      elim (Bool-cases (has_bad_ca_bundle lib.valid_ca_bundle c.spec.conversion)) [
        | inr b ↦ b
        | inl b ↦ absurd (
            false≢true
              (sym (true-set now c (verdict lib.valid_ca_bundle c) established ∙ rw b refl) ∙ t))
      ]

  -- The writer of a write is the establishing controller.
  abbrev pub IsByEstablishing : {c o : Crd} → Write c o → Type 0
  IsByEstablishing (by_naming now cache list get update key g sent) = ⊥
  IsByEstablishing (by_establishing now get update key g sent) = Unit
  IsByEstablishing (by_approval now get update key seen g sent) = ⊥
  IsByEstablishing (by_finalizing now later get update_first update_last key g keeps sent) = ⊥

  -- A write by one of the four controllers that makes a CRD established is that of the establishing
  -- controller, as long as the server stores the conditions that the finalizer sends, and it is to a
  -- CRD whose NamesAccepted is true and whose conversion webhook has no bad CA bundle.
  pub becomes_established :
      {c o : Crd} (w : Write c o)
      → EstablishedIs false c
      → EstablishedIs true o
      → IsByEstablishing w × Ready lib.valid_ca_bundle c
  becomes_established {c} {o} (by_naming now cache list get update key g sent) f e = absurd (
      false≢true (
        sym (
          All-found (EstablishedIs false) _ o
            (sync-keeps lib.aggregate false now cache list get update key c g f) sent)
        ∙ e))
  becomes_established {c} {o} (by_establishing now get update key g sent) f e = (
    tt,
    All-found (λ x. EstablishedIs true x → Ready lib.valid_ca_bundle c) _ o
        (establish-sent lib.valid_ca_bundle now get update key
          (λ x. EstablishedIs true x → Ready lib.valid_ca_bundle c) c g
          (λ n _ t. (n, good_ca_bundle now c t)))
        sent e,
  )
  becomes_established {c} {o} (by_approval now get update key seen g sent) f e = absurd (
      false≢true (
        sym (
          All-found (EstablishedIs false) _ o
            (approve-keeps false lib.parse_request_uri now get update key seen c g f) sent)
        ∙ e))
  becomes_established {c} {o}
        (by_finalizing now later get update_first update_last key g keeps sent) f e =
      absurd (
        false≢true (
          sym (
            All-found (EstablishedIs false) _ o
              (finalize-keeps false lib.aggregate lib.poll lib.clients now later get update_first
                update_last key c g keeps f)
              sent)
          ∙ e))
