-- ===== src/Command/Commands/Removal/Lanes.antt =====
-- Undoing the removal of a lane.
use onebeat.Prelude.{
  ◌≡◌, refl, sym, ◌∙◌, ap, subst, inl, inr, arith, true, false, none, some, List, if◌then◌else◌,
  Bool-cases,
}
use onebeat.Prelude.Map.{find, emplace, has, find-emplace, keys_where}
use onebeat.Prelude.Map.Keys.{over, has-some, mem-keys_where}
use onebeat.Prelude.Map.Ordered.{IsOrdered, emplace-IsOrdered, ordered_ext}
use onebeat.Ids.{ArrangementLaneId, raw_valid}
use onebeat.Ids.Order.{id_key, id_eq, id_eq_iff}
use onebeat.Entities.{ArrangementLane, Clip}
use onebeat.Project.{Project, emit}
use onebeat.Project.Impact.{mem_id, clips_on_lane}
use onebeat.Project.Restore.{restore_lane}
use onebeat.Project.Delete.{delete_lane, in_group, release_lane}
use onebeat.Project.Integrity.DeleteLane.{LaneDeleted, delete_lane_lem}
use onebeat.Command.Commands.Clips.{ClipsFiled, silent}
use onebeat.Command.Commands.Removal.{
  capture, restore_clips, regroup, RemoveLane, apply_remove_lane, revert_remove_lane,
}
use onebeat.Command.Commands.Removal.Restored.{
  restore_clips-shape, restore_clips-IsOrdered, find-restore_clips,
}
use onebeat.Command.Commands.Removal.Regroup.{
  grouped_lane, regroup-shape, regroup-IsOrdered, find-regroup, released_back, kept_in_group,
}

-- The table of lanes is ordered, and each lane is under its own id.
pub record LanesFiled (p : Project) : Type 0 where
  pub ordered : IsOrdered p.lanes
  pub filed : (k : ArrangementLaneId) (l : ArrangementLane) → find k p.lanes ≡ some l → l.id ≡ k
  pub valid :
      (k : ArrangementLaneId) (l : ArrangementLane)
      → find k p.lanes ≡ some l
      → raw_valid k.raw ≡ true

-- what one call leaves, without the events
lane_restored :
    (l : ArrangementLane) (p : Project)
    → raw_valid l.id.raw ≡ true
    → find l.id p.lanes ≡ none
    → ((restore_lane p l).1 ≡ true)
      × (silent (restore_lane p l).0 ≡ record (silent p) { lanes = emplace l.id l p.lanes })
unfolding restore_lane emit
lane_restored l p v h = rw (restore_lane, v, h) (refl, refl)

abbrev group_of : Project → ArrangementLaneId → List ArrangementLaneId
group_of p id = keys_where (λ _ other. in_group id other) p.lanes

module _ (p : Project) (id : ArrangementLaneId) (lanes : LanesFiled p) (clips : ClipsFiled p)
    (q : Project) (d : LaneDeleted p id q) where
  clips_back :
      (q' : Project)
      → q'.clips ≡ q.clips
      → (restore_clips q' (capture p (clips_on_lane p id))).clips ≡ p.clips
  unfolding clips_on_lane
  clips_back q' same =
      ordered_ext _ p.clips
        (restore_clips-IsOrdered q' (capture p (clips_on_lane p id))
          (subst IsOrdered (sym same) d.clips_ordered))
        clips.ordered
        (λ k.
          find-restore_clips p clips (clips_on_lane p id) q' (λ j. ground (arith, d.clips j, same))
            k
          ∙ ground (
            arith,
            d.clips k,
            same,
            mem-keys_where (λ _ (clip : Clip). id_eq clip.lane id) k p.clips clips.ordered,
          ))

  module _ (l : ArrangementLane) (e : find id p.lanes ≡ some l) where
    gone : find l.id q.lanes ≡ none
    gone = ground (arith, d.lanes l.id, lanes.filed id l e, id_eq_iff id l.id)

    lanes_back :
        (q' : Project)
        → q'.lanes ≡ emplace l.id l q.lanes
        → (regroup q' id (group_of p id)).lanes ≡ p.lanes
    lanes_back q' now =
        ordered_ext _ p.lanes
          (regroup-IsOrdered q' id (group_of p id)
            (subst IsOrdered (sym now) (emplace-IsOrdered l.id l q.lanes d.lanes_ordered)))
          lanes.ordered (λ k. find-regroup q' id (group_of p id) k ∙ entry k)
      where
        now_own : (k : ArrangementLaneId) → id_eq id k ≡ true → find k q'.lanes ≡ find k p.lanes
        now_own k h =
            let same = (id_eq_iff id k).0 h in
            ap (find k) now
            ∙ find-emplace l.id k l q.lanes gone
            ∙ ground (arith, lanes.filed id l e, id_eq_iff l.id k, ap (λ j. find j p.lanes) same)

        now_other :
            (k : ArrangementLaneId)
            → id_eq id k ≡ false
            → find k q'.lanes ≡ over (release_lane id) (find k p.lanes)
        now_other k h =
            ap (find k) now
            ∙ find-emplace l.id k l q.lanes gone
            ∙ ground (arith, lanes.filed id l e, id_eq_iff l.id k, d.lanes k)

        entry :
            (k : ArrangementLaneId)
            → (if mem_id k (group_of p id)
                then over (grouped_lane id) (find k q'.lanes)
                else find k q'.lanes)
              ≡ find k p.lanes
        entry k =
            rw (mem-keys_where (λ _ (o : ArrangementLane). in_group id o) k p.lanes lanes.ordered)
              (elim (Bool-cases (id_eq id k)) [
                | inl h ↦ rw (now_own k h) (kept_in_group id k (find k p.lanes))
                | inr h ↦ rw (now_other k h) (released_back id k (find k p.lanes))
              ])

    put_back :
        ((restore_lane q l).1 ≡ true)
        × (silent (
              restore_clips
                (regroup (restore_lane q l).0 id (group_of p id))
                (capture p (clips_on_lane p id)))
            ≡ silent p)
    put_back =
        let valid = ap (λ k. raw_valid k.raw) (lanes.filed id l e) ∙ lanes.valid id l e in
        let (ok, shape) = lane_restored l q valid gone in
        let q1 = (restore_lane q l).0 in
        let q2 = regroup q1 id (group_of p id) in
        let shape2 = regroup-shape q1 id (group_of p id) in
        let table : q2.lanes ≡ p.lanes = lanes_back q1 (ap (λ x. x.lanes) shape) in
        let same : q2.clips ≡ q.clips = ap (λ x. x.clips) shape2 ∙ ap (λ x. x.clips) shape in
        let rest : silent q ≡ record (silent p) { lanes = q.lanes; clips = q.clips } =
          ap silent d.rest in
        (
          ok,
          restore_clips-shape q2 (capture p (clips_on_lane p id))
              ∙ ground (arith, clips_back q2 same, shape, shape2, table, rest),
        )

-- Where lanes and clips are filed under their own valid ids, removing a lane that is there and undoing it
-- succeed, and give back the project but for the events it sent: the lane,
-- every clip on it, and the lanes of its group as its members.
pub revert_remove_lane-apply :
    (c : RemoveLane) (p : Project)
    → LanesFiled p
    → ClipsFiled p
    → has c.id p.lanes ≡ true
    → let (captured, q, ok) = apply_remove_lane c p in
      (ok ≡ true)
      × ((revert_remove_lane captured q).2 ≡ true)
      × (silent (revert_remove_lane captured q).1 ≡ silent p)
unfolding apply_remove_lane revert_remove_lane
revert_remove_lane-apply c p lanes clips h =
    let (l, e) = has-some c.id p.lanes h in
    let (ok, d) = delete_lane_lem p c.id lanes.ordered clips.ordered h in
    let (ok', back) = put_back p c.id lanes clips (delete_lane p c.id).0 d l e in
    rw (apply_remove_lane, e, revert_remove_lane, ok') (ok, refl, back)
