-- ===== src/Inventory/Stages.antt =====
-- The inventory of inventory.rs against a machine of each submit: an abstract event says which submit
-- an operation is about, and the machine what becomes of the status under every id.
pub mod Refines
use polyrust.Prelude.{◌≡◌, ◌⊎◌, Bool, Option, none, some, List, [], ◌∷◌, if◌then◌else◌}
use polyrust.Prelude.Text.{text_eq}
use polyrust.Prelude.Map.{lookup, map_option}
use polyrust.Inventory.{
  Inventory, SubmitId, PendingSubmit, SubmitStatus, UserTrade, submit_id, next_id, terminal,
}
use polyrust.Inventory.SubmitStatus.{pending, accepted, unknown, expired_unknown}
use polyrust.Inventory.Trades.{matched_id}
use polyrust.Inventory.Steps.{Step, Reach}

-- What an operation is to the machine. A binding says whether the trade is final.
pub data Event : Type 0 where
  claims accepts loses releases : SubmitId → Event
  binds : SubmitId → Bool → Event
  gives_up drops_claims leaves_scope nothing : Event

-- No submit under an id is none.
abbrev pub Stage : Type 0
Stage = Option SubmitStatus

abbrev pub set_stage : SubmitId → SubmitId → SubmitStatus → Stage → Stage
set_stage id k s a = if text_eq id k then map_option (λ _. s) a else a

-- The stage under k before and after an event. Ids are claimed only while free; only a submit that
-- is there is bound; only a lost one is given up, and only a pending one dropped for its age.
abbrev pub Moves : SubmitId → Event → Stage → Stage → Type 0
Moves k (Event.claims id) a b = if text_eq id k then (a ≡ none) × (b ≡ some pending) else b ≡ a
Moves k (Event.accepts id) a b = b ≡ set_stage id k accepted a
Moves k (Event.loses id) a b = b ≡ set_stage id k unknown a
Moves k (Event.releases id) a b = b ≡ (if text_eq id k then none else a)
Moves k (Event.binds id final) a b =
    if text_eq id k
    then ((s : SubmitStatus) × (a ≡ some s) × (b ≡ (if final then none else some accepted)))
    else b ≡ a
Moves k Event.gives_up a b = (b ≡ a) ⊎ ((a ≡ some unknown) × (b ≡ some expired_unknown))
Moves k Event.drops_claims a b = (b ≡ a) ⊎ ((a ≡ some pending) × (b ≡ none))
Moves k Event.leaves_scope a b = (b ≡ a) ⊎ (b ≡ none)
Moves k Event.nothing a b = b ≡ a

-- The runs of the machine under k, the last event first.
abbrev pub Follows : SubmitId → List Event → Stage → Type 0
Follows k [] b = b ≡ none
Follows k (e ∷ es) b = (a : Stage) × Moves k e a b × Follows k es a

abbrev pub stage : Option PendingSubmit → Stage
stage none = none
stage (some p) = some p.status

abbrev pub stage_of : Inventory → SubmitId → Stage
stage_of inv k = stage (lookup k inv.pending)

abbrev pub event_of_trade : Option SubmitId → UserTrade → Event
event_of_trade none t = Event.nothing
event_of_trade (some id) t = Event.binds id (terminal t.status)

abbrev pub event_of : {inv inv' : Inventory} → Step inv inv' → Event
event_of (Step.trust b) = Event.nothing
event_of {inv} (Step.claim token side size now) =
    Event.claims (submit_id (next_id inv.next_submit_id))
event_of (Step.accept id order now) = Event.accepts id
event_of (Step.lose id now) = Event.loses id
event_of (Step.release id) = Event.releases id
event_of (Step.expire_lost older) = Event.gives_up
event_of (Step.expire_claims older) = Event.drops_claims
event_of {inv} (Step.trade t h) = event_of_trade (matched_id inv t) t
event_of (Step.scope active) = Event.leaves_scope
event_of (Step.reorder inv' r) = Event.nothing

abbrev pub events : {inv : Inventory} → Reach inv → List Event
events Reach.start = []
events (Reach.next r s) = event_of s ∷ events r
