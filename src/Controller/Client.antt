-- ===== src/Controller/Client.antt =====
-- What a run of a controller's sync reads and writes: the informer's lister, the API client, and
-- the work queue. These are client-go's; a run takes their answers as arguments.
use apiextensions_apiserver.Prelude.{refl, All, ◌≡◌, ◌∷◌, List, [], String}
use apiextensions_apiserver.Crd.{Crd}

-- crdLister.Get(key)
pub data Got : Type 0 where
  got : Crd → Got
  missing : Got
  get_failed : String → Got

-- UpdateStatus(ctx, crd, ...): the object that the server stored, or an error.
pub data UpdateResult : Type 0 where
  updated : Crd → UpdateResult
  not_found conflict : UpdateResult
  update_failed : String → UpdateResult

pub data Outcome : Type 0 where
  done : Outcome
  failed : String → Outcome
  panicked : Outcome

-- What one run of sync did: the objects that it sent to UpdateStatus, in order, and the keys that
-- it added to its queue, and the objects that it gave to the mutation cache.
pub record Run : Type 0 where
  pub sent : List Crd
  pub queued : List String
  pub mutated : List Crd
  pub outcome : Outcome

abbrev pub idle : Run
idle = record { sent = []; queued = []; mutated = []; outcome = done }

abbrev pub fails : String → Run
fails e = record { sent = []; queued = []; mutated = []; outcome = failed e }

-- `if IsNotFound(err) || IsConflict(err) { return nil }; if err != nil { return err }`, and what
-- follows a successful update
abbrev pub after_update : UpdateResult → Crd → (Crd → Run) → Run
after_update (updated stored) crd next = let r = next stored in record r { sent = crd ∷ r.sent }
after_update not_found crd next = record {
  sent = crd ∷ [];
  queued = [];
  mutated = [];
  outcome = done;
}
after_update conflict crd next = record {
  sent = crd ∷ [];
  queued = [];
  mutated = [];
  outcome = done;
}
after_update (update_failed e) crd next = record {
  sent = crd ∷ [];
  queued = [];
  mutated = [];
  outcome = failed e;
}

-- The objects that are sent are the one that is sent first, and those that follow its success.
pub All-after_update {ℓ} :
    (P : Crd → Type ℓ) (u : UpdateResult) (crd : Crd) (next : Crd → Run)
    → P crd
    → ((stored : Crd) → u ≡ updated stored → All P (next stored).sent)
    → All P (after_update u crd next).sent
All-after_update P (updated stored) crd next p h = (p, h stored refl)
All-after_update P not_found crd next p h = (p, tt)
All-after_update P conflict crd next p h = (p, tt)
All-after_update P (update_failed e) crd next p h = (p, tt)

-- The server stores the conditions that it is sent.
abbrev pub KeepsConditions : (Crd → UpdateResult) → Type 0
KeepsConditions update =
    (c s : Crd) → update c ≡ updated s → s.status.conditions ≡ c.status.conditions
