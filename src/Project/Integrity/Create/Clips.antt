-- ===== src/Project/Integrity/Create/Clips.antt =====
-- `createClip` and the integrity of a project.
use onebeat.Prelude.{◌≡◌, refl, sym, subst, ◌⊎◌, inl, inr, none, some, Bool-cases}
use onebeat.Prelude.Int.{pos, ◌≤ℤ◌}
use onebeat.Prelude.Map.{Map, find, emplace, has}
use onebeat.Prelude.Map.Ordered.{emplace-IsOrdered}
use onebeat.Notes.{Ticks}
use onebeat.Ids.{EntityKind, ArrangementLaneId, ClipId, next_id}
use onebeat.Ids.Order.{id_key}
use onebeat.Entities.{Clip, ClipSource}
use onebeat.Project.{Project, emit}
use onebeat.Project.Create.{create_clip, source_resolves}
use onebeat.Project.Integrity.{Integrity, ClipOk, WindowOk}
use onebeat.Project.Integrity.Keep.{ClipOk-keep, source_resolves-same}
use onebeat.Project.Integrity.Create.{emplaced}

abbrev with_clips : Project → Project → Map ClipId Clip → Project
with_clips p q m = record p { generator = q.generator; emitted = q.emitted; clips = m }

module _ (p : Project) (v : Integrity p) where
  -- what is asked of a clip does not depend on the other clips
  ClipOk-clips :
      (q : Project) (m : Map ClipId Clip) (c : Clip) → ClipOk p c → ClipOk (with_clips p q m) c
  ClipOk-clips q m c ok =
      ClipOk-keep p (with_clips p q m) c ok ok.lane
        (source_resolves-same p (with_clips p q m) c.source refl refl refl ok.source)

  pub clip_added :
      (q : Project) (id : ClipId) (clip : Clip)
      → q ≡ with_clips p q (emplace id clip p.clips)
      → find id p.clips ≡ none
      → ClipOk p clip
      → Integrity q
  clip_added q id clip shape fresh good = subst Integrity (sym shape) (record {
    ordered = record {
      instruments = v.ordered.instruments;
      patterns = v.ordered.patterns;
      lanes = v.ordered.lanes;
      clips = emplace-IsOrdered id clip p.clips v.ordered.clips;
      mixer_tracks = v.ordered.mixer_tracks;
    };
    instruments = v.instruments;
    patterns = v.patterns;
    lanes = v.lanes;
    lane_orders = v.lane_orders;
    clips = λ k c e. clip_ok k c (emplaced id clip p.clips fresh k c e);
    mixer = v.mixer;
  })
    where
      clip_ok :
          (k : ClipId) (c : Clip)
          → ((k ≡ id) × (c ≡ clip)) ⊎ (find k p.clips ≡ some c)
          → ClipOk (with_clips p q (emplace id clip p.clips)) c
      clip_ok k c (inl h) = ClipOk-clips q _ c (subst (ClipOk p) (sym h.1) good)
      clip_ok k c (inr e) = ClipOk-clips q _ c (v.clips k c e)

  -- Creating a clip keeps a sound project sound, where the minted id is not taken, its start and
  -- length are not negative, and an audio source has a window that is allowed. It is refused, and then
  -- nothing changes, where the lane or what the source refers to is not there.
  pub create_clip-Integrity :
      (lane : ArrangementLaneId) (source : ClipSource) (start length : Ticks)
      → find (next_id {K = EntityKind.clip} p.generator).0 p.clips ≡ none
      → pos 0 ≤ℤ start
      → pos 0 ≤ℤ length
      → WindowOk length source
      → Integrity (create_clip p lane source start length).0
  unfolding create_clip emit
  create_clip-Integrity lane source start length fresh s l w =
      elim (Bool-cases (has lane p.lanes)) [
        | inr h ↦ rw (create_clip, h) v
        | inl h ↦ elim (Bool-cases (source_resolves p source)) [
          | inr k ↦ rw (create_clip, h, k) v
          | inl k ↦
              rw (create_clip, h, k)
                (clip_added _ _ _ refl fresh
                  (record { lane = h; start = s; length = l; source = k; window = w }))
        ]
      ]
