-- ===== src/Changes.antt =====
-- Change notification: engine/src/model/changes.h. A listener is a value of any type; what a project
-- hands to its listeners is the list of events, in order.
use onebeat.Prelude.{
  ℕ, ◌+◌, ◌%◌, ◌^◌, List, [], ◌∷◌, ◌++◌, ◌==◌, if◌then◌else◌, length as count, map,
}
use onebeat.Ids.{EntityKind, RawId}

pub data ChangeType : Type 0 where
  added removed modified : ChangeType

pub data ChangeField : Type 0 where
  all name color muted soloed order height collapsed group routing plugin note_defaults notes :
      ChangeField
  length start lane source transforms gain pan output transport meta effects effect_param :
      ChangeField

pub record ChangeEvent : Type 0 where
  pub type : ChangeType
  pub kind : EntityKind
  pub id : RawId
  pub field : ChangeField
  pub related : RawId

pub record ChangeBus (L : Type 0) : Type 0 where
  pub listeners : List (ℕ × L)
  pub next_token : ℕ

module _ {L : Type 0} where
  pub subscribe : ChangeBus L → L → ℕ × ChangeBus L
  subscribe b listener =
      let token = (b.next_token + 1) % 2 ^ 64 in
      (token, record { listeners = b.listeners ++ ((token, listener) ∷ []); next_token = token })

  -- The loop of `unsubscribe`: the first entry with the token goes.
  pub without_token : ℕ → List (ℕ × L) → List (ℕ × L)
  without_token token [] = []
  without_token token ((t, l) ∷ rest) =
      let after = without_token token rest in if t == token then rest else (t, l) ∷ after

  pub unsubscribe : ChangeBus L → ℕ → ChangeBus L
  unsubscribe b token = record b { listeners = without_token token b.listeners }

  -- Who is called for an event, in order.
  pub emit : ChangeBus L → ChangeEvent → List (L × ChangeEvent)
  emit b event = map (λ entry. (entry.1, event)) b.listeners

  pub listener_count : ChangeBus L → ℕ
  listener_count b = count b.listeners
