-- ===== src/Project/Integrity/DeletePattern.antt =====
-- `deletePattern` of engine/src/model/project.cpp.
use onebeat.Prelude.{
  ◌≡◌, refl, sym, ◌∙◌, ap, subst, inl, inr, true, false, arith, none, some, if◌then◌else◌,
  Bool-cases,
}
use onebeat.Prelude.Map.{find, has, find-erase}
use onebeat.Prelude.Map.Keys.{holds, mem-keys_where}
use onebeat.Prelude.Map.Ordered.{IsOrdered, erase-IsOrdered}
use onebeat.Ids.{PatternId, ClipId}
use onebeat.Ids.Order.{id_key, id_eq, id_eq_iff}
use onebeat.Entities.{Clip, ClipSource, pattern_source, audio_source, automation_source}
use onebeat.Project.{Project, emit}
use onebeat.Project.Impact.{uses_pattern, clips_using_pattern}
use onebeat.Project.Delete.{delete_pattern}
use onebeat.Project.Create.{source_resolves}
use onebeat.Project.Integrity.{Integrity, ClipOk}
use onebeat.Project.Integrity.Keep.{ClipOk-keep, target_resolves-keep}
use onebeat.Project.Integrity.Cascade.{
  delete_clips-ClipsOnly, find-delete_clips, delete_clips-IsOrdered,
}

-- `q` is `p` without the pattern and without the clips that place it.
pub record PatternDeleted (p : Project) (id : PatternId) (q : Project) : Type 0 where
  pub rest : q ≡ record p { patterns = q.patterns; clips = q.clips; emitted = q.emitted }
  pub patterns :
      (k : PatternId) → find k q.patterns ≡ (if id_eq id k then none else find k p.patterns)
  pub clips :
      (c : ClipId)
      → find c q.clips ≡ (
          if holds (λ _ clip. uses_pattern id clip.source) c (find c p.clips)
          then none
          else find c p.clips)
  pub patterns_ordered : IsOrdered q.patterns
  pub clips_ordered : IsOrdered q.clips

-- Where the tables are ordered, deleting a pattern that is there removes it and every clip that places it, and changes no other
-- table and no other entry.
pub delete_pattern_lem :
    (p : Project) (id : PatternId)
    → IsOrdered p.patterns
    → IsOrdered p.clips
    → has id p.patterns ≡ true
    → ((delete_pattern p id).1 ≡ true) × PatternDeleted p id (delete_pattern p id).0
unfolding delete_pattern emit clips_using_pattern
delete_pattern_lem p id op oc h =
    let ids = clips_using_pattern p id in
    let shape = delete_clips-ClipsOnly p ids in
    let same = ap (λ q. q.patterns) shape in
    rw (h, delete_pattern)
      (
        refl,
        record {
          rest = ground (arith, shape);
          patterns = λ k. rw same (find-erase id k p.patterns);
          clips = λ c.
              find-delete_clips p ids c
              ∙ ap (λ b. if b then none else find c p.clips)
                  (mem-keys_where (λ _ clip. uses_pattern id clip.source) c p.clips oc);
          patterns_ordered = rw same (erase-IsOrdered id p.patterns op);
          clips_ordered = delete_clips-IsOrdered p ids oc;
        },
      )

delete_pattern_missing :
    (p : Project) (id : PatternId) → has id p.patterns ≡ false → (delete_pattern p id).0 ≡ p
unfolding delete_pattern
delete_pattern_missing p id h = ground arith

module _ (p : Project) (id : PatternId) (q : Project) (d : PatternDeleted p id q) where
  source_kept :
      (s : ClipSource)
      → uses_pattern id s ≡ false
      → source_resolves p s ≡ true
      → source_resolves q s ≡ true
  source_kept (pattern_source k) u h =
      rw (d.patterns k) (ground (arith, id_eq_iff k id, id_eq_iff id k))
  source_kept (audio_source a) u h = rw (ap (λ r. r.mixer_tracks) d.rest) h
  source_kept (automation_source a) u h =
      target_resolves-keep p q a a.target_kind (λ _ i. rw (ap (λ r. r.instruments) d.rest) i)
        (λ t e. (t, rw (ap (λ r. r.mixer_tracks) d.rest) e, refl)) h

  clip_kept : Integrity p → (k : ClipId) (c : Clip) → find k q.clips ≡ some c → ClipOk q c
  clip_kept v k c e =
      let (was, unused) = there in
      let ok = v.clips k c was in
      ClipOk-keep p q c ok (rw (ap (λ r. r.lanes) d.rest) ok.lane)
        (source_kept c.source unused ok.source)
    where
      there : (find k p.clips ≡ some c) × (uses_pattern id c.source ≡ false)
      there = ground (arith, d.clips k)

  deleted-Integrity : Integrity p → Integrity q
  deleted-Integrity v = subst Integrity (sym d.rest) (record {
    ordered = record {
      instruments = v.ordered.instruments;
      patterns = d.patterns_ordered;
      lanes = v.ordered.lanes;
      clips = d.clips_ordered;
      mixer_tracks = v.ordered.mixer_tracks;
    };
    instruments = v.instruments;
    patterns = λ k r e. v.patterns k r (ground (arith, d.patterns k));
    lanes = v.lanes;
    lane_orders = v.lane_orders;
    clips = λ k c e. subst (λ r. ClipOk r c) d.rest (clip_kept v k c e);
    mixer = v.mixer;
  })

-- Deleting a pattern of a sound project, or one that is not there, leaves a sound project.
pub delete_pattern-Integrity :
    (p : Project) (id : PatternId) → Integrity p → Integrity (delete_pattern p id).0
delete_pattern-Integrity p id v = elim (Bool-cases (has id p.patterns)) [
  | inl e ↦
      deleted-Integrity p id (delete_pattern p id).0
        (delete_pattern_lem p id v.ordered.patterns v.ordered.clips e).1 v
  | inr e ↦ subst Integrity (sym (delete_pattern_missing p id e)) v
]
