-- ===== src/Command/Commands/Removal/Regroup.antt =====
-- The loop that puts the lanes of a removed group lane back into it.
use onebeat.Prelude.{
  ◌≡◌, refl, sym, ◌∙◌, ap, inl, inr, arith, true, Option, none, some, List, [], ◌∷◌, if◌then◌else◌,
  Option-cases, Bool-cases,
}
use onebeat.Prelude.Map.{find, find-adjust}
use onebeat.Prelude.Map.Keys.{over, holds}
use onebeat.Prelude.Map.Ordered.{IsOrdered, adjust-IsOrdered}
use onebeat.Ids.{ArrangementLaneId}
use onebeat.Ids.Order.{id_key, id_eq, id_eq_iff}
use onebeat.Changes.{ChangeField}
use onebeat.Entities.{ArrangementLane}
use onebeat.Project.{Project, emit}
use onebeat.Project.Impact.{mem_id}
use onebeat.Project.Delete.{in_group, release_lane}
use onebeat.Project.Modify.{update_lane}
use onebeat.Command.Commands.Clips.{silent}
use onebeat.Command.Commands.Removal.{regroup}

abbrev pub grouped_lane : ArrangementLaneId → ArrangementLane → ArrangementLane
grouped_lane group lane = record lane { group_id = some group }

-- one round of the loop
abbrev joined : Project → ArrangementLaneId → ArrangementLaneId → Project
joined p group id =
    (update_lane p id ChangeField.group (λ lane. record lane { group_id = some group })).0

joined-shape :
    (p : Project) (group id : ArrangementLaneId)
    → silent (joined p group id) ≡ record (silent p) { lanes = (joined p group id).lanes }
unfolding update_lane emit
joined-shape p group id = ground arith

find-joined :
    (p : Project) (group id k : ArrangementLaneId)
    → find k (joined p group id).lanes
      ≡ (if id_eq id k then over (grouped_lane group) (find k p.lanes) else find k p.lanes)
unfolding update_lane emit
find-joined p group id k =
    ground (arith, find-adjust id k (grouped_lane group) p.lanes, id_eq_iff id k)

joined-IsOrdered :
    (p : Project) (group id : ArrangementLaneId)
    → IsOrdered p.lanes
    → IsOrdered (joined p group id).lanes
unfolding update_lane emit
joined-IsOrdered p group id h = ground (arith, adjust-IsOrdered id (grouped_lane group) p.lanes h)

pub regroup-shape :
    (p : Project) (group : ArrangementLaneId) (ids : List ArrangementLaneId)
    → silent (regroup p group ids) ≡ record (silent p) { lanes = (regroup p group ids).lanes }
unfolding regroup
regroup-shape p group [] = refl
regroup-shape p group (id ∷ ids) =
    ground (arith, joined-shape p group id, regroup-shape (joined p group id) group ids)

pub regroup-IsOrdered :
    (p : Project) (group : ArrangementLaneId) (ids : List ArrangementLaneId)
    → IsOrdered p.lanes
    → IsOrdered (regroup p group ids).lanes
unfolding regroup
regroup-IsOrdered p group [] h = h
regroup-IsOrdered p group (id ∷ ids) h =
    regroup-IsOrdered (joined p group id) group ids (joined-IsOrdered p group id h)

grouped_twice :
    (group : ArrangementLaneId) (o : Option ArrangementLane)
    → over (grouped_lane group) (over (grouped_lane group) o) ≡ over (grouped_lane group) o
grouped_twice group none = refl
grouped_twice group (some l) = refl

pub find-regroup :
    (p : Project) (group : ArrangementLaneId) (ids : List ArrangementLaneId) (k : ArrangementLaneId)
    → find k (regroup p group ids).lanes
      ≡ (if mem_id k ids then over (grouped_lane group) (find k p.lanes) else find k p.lanes)
unfolding regroup
find-regroup p group [] k = refl
find-regroup p group (id ∷ ids) k =
    find-regroup (joined p group id) group ids k
    ∙ rw (find-joined p group id k) (ground (arith, grouped_twice group (find k p.lanes)))

member_group :
    (id : ArrangementLaneId) (l : ArrangementLane) → in_group id l ≡ true → some id ≡ l.group_id
member_group id l h = elim (Option-cases l.group_id) [
  | inl n ↦ absurd (ground arith)
  | inr (g, s) ↦
      let same : id_eq g id ≡ true = ground arith in ap some (sym ((id_eq_iff g id).0 same)) ∙ sym s
]

-- a lane of the group that joins it is what it was, also if it was released before
joined_same :
    (id : ArrangementLaneId) (l : ArrangementLane) → in_group id l ≡ true → grouped_lane id l ≡ l
joined_same id l h =
    ap {A = Option ArrangementLaneId} (λ g. record l { group_id = g }) (member_group id l h)

pub released_back :
    (id k : ArrangementLaneId) (o : Option ArrangementLane)
    → (if holds (λ _ l. in_group id l) k o
        then over (grouped_lane id) (over (release_lane id) o)
        else over (release_lane id) o)
      ≡ o
released_back id k none = refl
released_back id k (some l) = elim (Bool-cases (in_group id l)) [
  | inl h ↦ rw h (ap some (joined_same id l h))
  | inr h ↦ rw h refl
]

pub kept_in_group :
    (id k : ArrangementLaneId) (o : Option ArrangementLane)
    → (if holds (λ _ l. in_group id l) k o then over (grouped_lane id) o else o) ≡ o
kept_in_group id k none = refl
kept_in_group id k (some l) = elim (Bool-cases (in_group id l)) [
  | inl h ↦ rw h (ap some (joined_same id l h))
  | inr h ↦ rw h refl
]
