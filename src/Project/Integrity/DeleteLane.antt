-- ===== src/Project/Integrity/DeleteLane.antt =====
-- `deleteLane` of engine/src/model/project.cpp.
use onebeat.Prelude.{
  ◌≡◌, refl, sym, ◌∙◌, ap, subst, inl, inr, true, false, arith, none, some, if◌then◌else◌,
  Bool-cases, Option-cases,
}
use onebeat.Prelude.Map.{find, erase, has, map_entries, find-erase, find-map_entries}
use onebeat.Prelude.Map.Keys.{over, holds, has-some, mem-keys_where}
use onebeat.Prelude.Map.Ordered.{IsOrdered, erase-IsOrdered, map_entries-IsOrdered}
use onebeat.Ids.{ArrangementLaneId, ClipId}
use onebeat.Ids.Order.{id_key, id_eq, id_eq_iff}
use onebeat.Entities.{ArrangementLane, Clip}
use onebeat.Project.{Project, emit}
use onebeat.Project.Impact.{clips_on_lane}
use onebeat.Project.Delete.{delete_lane, delete_clips, release_lane, release_group}
use onebeat.Project.Integrity.{Integrity, ClipOk, LaneOk}
use onebeat.Project.Integrity.Keep.{ClipOk-keep, source_resolves-same}
use onebeat.Project.Integrity.Cascade.{
  delete_clips-ClipsOnly, find-delete_clips, delete_clips-IsOrdered, announce_released-EventsOnly,
}

-- `q` is `p` without the lane and without the clips on it, the lanes of its group released.
pub record LaneDeleted (p : Project) (id : ArrangementLaneId) (q : Project) : Type 0 where
  pub rest : q ≡ record p { lanes = q.lanes; clips = q.clips; emitted = q.emitted }
  pub lanes :
      (k : ArrangementLaneId)
      → find k q.lanes ≡ (if id_eq id k then none else over (release_lane id) (find k p.lanes))
  pub clips :
      (c : ClipId)
      → find c q.clips
        ≡ (if holds (λ _ clip. id_eq clip.lane id) c (find c p.clips) then none else find c p.clips)
  pub lanes_ordered : IsOrdered q.lanes
  pub clips_ordered : IsOrdered q.clips

-- Where the tables are ordered, deleting a lane that is there removes it and every clip on it, releases the lanes of its group, and
-- changes no other table and no other entry.
pub delete_lane_lem :
    (p : Project) (id : ArrangementLaneId)
    → IsOrdered p.lanes
    → IsOrdered p.clips
    → has id p.lanes ≡ true
    → ((delete_lane p id).1 ≡ true) × LaneDeleted p id (delete_lane p id).0
unfolding delete_lane emit clips_on_lane release_group
delete_lane_lem p id ol oc h =
    let ids = clips_on_lane p id in
    let p1 = delete_clips p ids in
    let shape1 = delete_clips-ClipsOnly p ids in
    let same = ap (λ q. q.lanes) shape1 in
    let freed = map_entries (λ _ lane. release_lane id lane) p1.lanes in
    let shape2 = announce_released-EventsOnly (record p1 { lanes = freed }) id p1.lanes in
    let lanes2 = ap (λ q. q.lanes) shape2 in
    let clips2 = ap (λ q. q.clips) shape2 in
    rw (h, delete_lane)
      (
        refl,
        record {
          rest = ground (arith, shape1, shape2);
          lanes = λ k. ground (
            arith,
            ap (λ m. find k (erase id m)) lanes2,
            find-erase id k freed,
            find-map_entries (λ _ lane. release_lane id lane) k p1.lanes,
            ap (find k) same,
          );
          clips = λ c.
              ap (find c) clips2
              ∙ find-delete_clips p ids c
              ∙ ap (λ b. if b then none else find c p.clips)
                  (mem-keys_where (λ _ clip. id_eq clip.lane id) c p.clips oc);
          lanes_ordered =
              rw lanes2 (erase-IsOrdered id freed (map_entries-IsOrdered _ p1.lanes (rw same ol)));
          clips_ordered = rw clips2 (delete_clips-IsOrdered p ids oc);
        },
      )

delete_lane_missing :
    (p : Project) (id : ArrangementLaneId) → has id p.lanes ≡ false → (delete_lane p id).0 ≡ p
unfolding delete_lane
delete_lane_missing p id h = ground arith

module _ (p : Project) (id : ArrangementLaneId) (q : Project) (d : LaneDeleted p id q) where
  lane_there :
      (k : ArrangementLaneId) → id_eq id k ≡ false → has k p.lanes ≡ true → has k q.lanes ≡ true
  lane_there k n h = let (l, e) = has-some k p.lanes h in rw (d.lanes k) (ground arith)

  clip_kept : Integrity p → (k : ClipId) (c : Clip) → find k q.clips ≡ some c → ClipOk q c
  clip_kept v k c e =
      let (was, elsewhere) = there in
      let ok = v.clips k c was in
      ClipOk-keep p q c ok (lane_there c.lane elsewhere ok.lane) (
        source_resolves-same p q c.source (ap (λ r. r.patterns) d.rest)
          (ap (λ r. r.instruments) d.rest) (ap (λ r. r.mixer_tracks) d.rest) ok.source)
    where
      there : (find k p.clips ≡ some c) × (id_eq id c.lane ≡ false)
      there = ground (arith, d.clips k, id_eq_iff id c.lane, id_eq_iff c.lane id)

  -- the entry that a lane of the result was
  lane_was :
      (k : ArrangementLaneId) (l : ArrangementLane)
      → find k q.lanes ≡ some l
      → (m : ArrangementLane) × (find k p.lanes ≡ some m) × (l ≡ release_lane id m)
  lane_was k l e = elim (Option-cases (find k p.lanes)) [
    | inl n ↦ absurd (ground (arith, d.lanes k))
    | inr (m, s) ↦ (m, s, ground (arith, d.lanes k))
  ]

  group_was :
      (g : ArrangementLaneId) (l m : ArrangementLane)
      → l ≡ release_lane id m
      → l.group_id ≡ some g
      → (m.group_id ≡ some g) × (id_eq id g ≡ false)
  group_was g l m change h = ground (arith, id_eq_iff g id, id_eq_iff id g)

  lane_kept :
      Integrity p
      → (k : ArrangementLaneId) (l : ArrangementLane) → find k q.lanes ≡ some l
      → LaneOk q.lanes k l
  lane_kept v k l e =
      let (m, was, change) = lane_was k l e in
      record {
        group = λ g h.
            let (before, other) = group_was g l m change h in
            let (ne, live) = (v.lanes k m was).group g before in (ne, lane_there g other live);
      }

  deleted-Integrity : Integrity p → Integrity q
  deleted-Integrity v = subst Integrity (sym d.rest) (record {
    ordered = record {
      instruments = v.ordered.instruments;
      patterns = v.ordered.patterns;
      lanes = d.lanes_ordered;
      clips = d.clips_ordered;
      mixer_tracks = v.ordered.mixer_tracks;
    };
    instruments = v.instruments;
    patterns = v.patterns;
    lanes = λ k l e. lane_kept v k l e;
    lane_orders = λ j k l m e f o.
        let (l', wl, cl) = lane_was j l e in
        let (m', wm, cm) = lane_was k m f in v.lane_orders j k l' m' wl wm (ground arith);
    clips = λ k c e. subst (λ r. ClipOk r c) d.rest (clip_kept v k c e);
    mixer = v.mixer;
  })

-- Deleting a lane of a sound project, or one that is not there, leaves a sound project.
pub delete_lane-Integrity :
    (p : Project) (id : ArrangementLaneId) → Integrity p → Integrity (delete_lane p id).0
delete_lane-Integrity p id v = elim (Bool-cases (has id p.lanes)) [
  | inl e ↦
      deleted-Integrity p id (delete_lane p id).0
        (delete_lane_lem p id v.ordered.lanes v.ordered.clips e).1 v
  | inr e ↦ subst Integrity (sym (delete_lane_missing p id e)) v
]
