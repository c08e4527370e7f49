-- ===== src/Command/Commands/Removal.antt =====
-- The commands of engine/src/model/commands.cpp that remove a pattern or a lane, with what they
-- capture: the entity, the clips that go with it, and the lanes that leave its group.
pub mod Restored
pub mod Regroup
pub mod Patterns
pub mod Lanes
use onebeat.Prelude.{Bool, true, false, Option, none, some, List, [], ◌∷◌, if◌then◌else◌}
use onebeat.Prelude.Map.{find, keys_where}
use onebeat.Ids.{PatternId, ArrangementLaneId, ClipId}
use onebeat.Ids.Order.{id_key}
use onebeat.Changes.{ChangeField}
use onebeat.Entities.{Pattern, ArrangementLane, Clip}
use onebeat.Project.{Project}
use onebeat.Project.Impact.{clips_using_pattern, clips_on_lane}
use onebeat.Project.Restore.{restore_clip, restore_pattern, restore_lane}
use onebeat.Project.Delete.{delete_pattern, delete_lane, in_group}
use onebeat.Project.Modify.{update_lane}

-- The loop that copies the clips of a list of ids.
pub capture : Project → List ClipId → List Clip
capture p [] = []
capture p (id ∷ ids) =
    let rest = capture p ids in elim (find id p.clips) [ none ↦ rest | some clip ↦ clip ∷ rest ]

-- `for (const Clip& clip : clips_) project.restoreClip(clip);`
pub restore_clips : Project → List Clip → Project
restore_clips p [] = p
restore_clips p (clip ∷ clips) = restore_clips (restore_clip p clip).0 clips

pub record RemovePattern : Type 0 where
  pub id : PatternId
  pub pattern : Pattern
  pub clips : List Clip

pub apply_remove_pattern : RemovePattern → Project → RemovePattern × Project × Bool
apply_remove_pattern c p = elim (find c.id p.patterns) [
  | none ↦ (c, p, false)
  | some pattern ↦
      let captured = record c {
        pattern = pattern;
        clips = capture p (clips_using_pattern p c.id);
      } in
      let (q, ok) = delete_pattern p c.id in (captured, q, ok)
]

pub revert_remove_pattern : RemovePattern → Project → RemovePattern × Project × Bool
revert_remove_pattern c p =
    let (q, ok) = restore_pattern p c.pattern in
    if ok then (c, restore_clips q c.clips, true) else (c, q, false)

pub record RemoveLane : Type 0 where
  pub id : ArrangementLaneId
  pub lane : ArrangementLane
  pub clips : List Clip
  pub grouped : List ArrangementLaneId

pub apply_remove_lane : RemoveLane → Project → RemoveLane × Project × Bool
apply_remove_lane c p = elim (find c.id p.lanes) [
  | none ↦ (c, p, false)
  | some lane ↦
      let captured = record c {
        lane = lane;
        clips = capture p (clips_on_lane p c.id);
        grouped = keys_where (λ _ other. in_group c.id other) p.lanes;
      } in
      let (q, ok) = delete_lane p c.id in (captured, q, ok)
]

-- The loop that puts lanes back into a group.
pub regroup : Project → ArrangementLaneId → List ArrangementLaneId → Project
regroup p group [] = p
regroup p group (id ∷ ids) =
    regroup (update_lane p id ChangeField.group (λ lane. record lane { group_id = some group })).0
      group ids

pub revert_remove_lane : RemoveLane → Project → RemoveLane × Project × Bool
revert_remove_lane c p =
    let (q, ok) = restore_lane p c.lane in
    if ok then (c, restore_clips (regroup q c.id c.grouped) c.clips, true) else (c, q, false)
