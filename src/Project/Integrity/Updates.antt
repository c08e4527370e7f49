-- ===== src/Project/Integrity/Updates.antt =====
-- The deletion of a clip, the settings, and the `update` half of engine/src/model/project.h, with what
-- it asks of the mutators.
pub mod Tables
use onebeat.Prelude.{
  ◌≡◌, refl, sym, ◌∙◌, ap, subst, ◌⊎◌, inl, inr, true, false, arith, none, some, List, is_some,
  if◌then◌else◌, Bool-cases, Option-cases,
}
use onebeat.Prelude.Map.{Map, find, adjust, erase, has, find-adjust, find-erase}
use onebeat.Prelude.Map.Ordered.{adjust-IsOrdered, erase-IsOrdered}
use onebeat.Changes.{ChangeEvent, ChangeField}
use onebeat.Ids.{
  EntityKind, TypedId, InstrumentId, PatternId, ArrangementLaneId, ClipId, MixerTrackId,
}
use onebeat.Ids.Order.{id_key, id_eq}
use onebeat.Entities.{
  Instrument, Pattern, ArrangementLane, Clip, MixerTrack, ClipSource, pattern_source, audio_source,
  automation_source, TransportState, ProjectMeta, OutputRoute,
}
use onebeat.Project.{Project, Preferences, emit, set_preferences, mint_id, set_transport, set_meta}
use onebeat.Project.Create.{source_resolves}
use onebeat.Project.Delete.{delete_clip}
use onebeat.Project.Modify.{
  update_instrument, update_pattern, update_lane, update_clip, update_mixer_track,
}
use onebeat.Project.Integrity.{
  Integrity, InstrumentOk, PatternOk, LaneOk, ClipOk, RoutesResolve, SlotsOk,
}
use onebeat.Project.Integrity.Keep.{ClipOk-keep, source_resolves-same, target_resolves-keep}
use onebeat.Project.Integrity.EditSequence.{edited-Integrity}

-- An entry after an adjustment is the entry before, changed or not.
module _ {K : EntityKind} {V : Type 0} (id : TypedId K) (f : V → V) (m : Map (TypedId K) V) where
  pub adjusted :
      (k : TypedId K) (w : V)
      → find k (adjust id f m) ≡ some w
      → (u : V) × (find k m ≡ some u) × ((w ≡ f u) ⊎ (w ≡ u))
  adjusted k w e = elim (Option-cases (find k m)) [
    | inl n ↦ absurd (ground (arith, find-adjust id k f m))
    | inr (u, s) ↦ (
      u,
      s,
      elim (Bool-cases (id_eq id k)) [
        | inl h ↦ inl (ground (arith, find-adjust id k f m))
        | inr h ↦ inr (ground (arith, find-adjust id k f m))
      ],
    )
  ]

  pub has-adjust : (k : TypedId K) → has k m ≡ true → has k (adjust id f m) ≡ true
  has-adjust k h = ground (arith, find-adjust id k f m)

  -- what adjustments keep of every entry
  pub adjusted_keeps :
      (P : V → Type 0)
      → ((u : V) → P u → P (f u))
      → ((k : TypedId K) (u : V) → find k m ≡ some u → P u)
      → (k : TypedId K) (w : V) → find k (adjust id f m) ≡ some w
      → P w
  adjusted_keeps P keep all k w e =
      let (u, s, how) = adjusted k w e in
      elim how [
        | inl h ↦ subst P (sym h) (keep u (all k u s))
        | inr h ↦ subst P (sym h) (all k u s)
      ]

module _ (p : Project) (v : Integrity p) where
  -- Only what the integrity does not look at has changed.
  abbrev resettled : Project → Project
  resettled q = record p {
    emitted = q.emitted;
    generator = q.generator;
    preferences = q.preferences;
    transport = q.transport;
    meta = q.meta;
  }

  resettled-Integrity : (q : Project) → Integrity (resettled q)
  resettled-Integrity q = record {
    ordered = record {
      instruments = v.ordered.instruments;
      patterns = v.ordered.patterns;
      lanes = v.ordered.lanes;
      clips = v.ordered.clips;
      mixer_tracks = v.ordered.mixer_tracks;
    };
    instruments = v.instruments;
    patterns = v.patterns;
    lanes = v.lanes;
    lane_orders = v.lane_orders;
    clips = λ k c e.
        let ok = v.clips k c e in
        ClipOk-keep p (resettled q) c ok ok.lane
          (source_resolves-same p (resettled q) c.source refl refl refl ok.source);
    mixer = v.mixer;
  }

  pub mint_id-Integrity : (K : EntityKind) → Integrity (mint_id K p).1
  unfolding mint_id
  mint_id-Integrity K = resettled-Integrity (mint_id K p).1

  pub set_preferences-Integrity : (s : Preferences) → Integrity (set_preferences p s)
  unfolding set_preferences
  set_preferences-Integrity s = resettled-Integrity (set_preferences p s)

  pub set_transport-Integrity : (s : TransportState) → Integrity (set_transport p s)
  unfolding set_transport emit
  set_transport-Integrity s = resettled-Integrity (set_transport p s)

  pub set_meta-Integrity : (s : ProjectMeta) → Integrity (set_meta p s)
  unfolding set_meta emit
  set_meta-Integrity s = resettled-Integrity (set_meta p s)

  abbrev with_clips : Map ClipId Clip → List ChangeEvent → Project
  with_clips m events = record p { clips = m; emitted = events }

  clips_changed :
      (m : Map ClipId Clip) (events : List ChangeEvent)
      → onebeat.Prelude.Map.Ordered.IsOrdered m
      → ((k : ClipId) (c : Clip) → find k m ≡ some c → ClipOk p c)
      → Integrity (with_clips m events)
  clips_changed m events ordered each = record {
    ordered = record {
      instruments = v.ordered.instruments;
      patterns = v.ordered.patterns;
      lanes = v.ordered.lanes;
      clips = ordered;
      mixer_tracks = v.ordered.mixer_tracks;
    };
    instruments = v.instruments;
    patterns = v.patterns;
    lanes = v.lanes;
    lane_orders = v.lane_orders;
    clips = λ k c e.
        let ok = each k c e in
        ClipOk-keep p (with_clips m events) c ok ok.lane
          (source_resolves-same p (with_clips m events) c.source refl refl refl ok.source);
    mixer = v.mixer;
  }

  pub delete_clip-Integrity : (id : ClipId) → Integrity (delete_clip p id).0
  unfolding delete_clip emit
  delete_clip-Integrity id = elim (Option-cases (find id p.clips)) [
    | inl e ↦ rw (e, delete_clip) v
    | inr (c, e) ↦
        rw (e, delete_clip)
          (clips_changed (erase id p.clips) _ (erase-IsOrdered id p.clips v.ordered.clips)
            (λ k d f. v.clips k d (ground (arith, find-erase id k p.clips))))
  ]

  pub update_clip-Integrity :
      (id : ClipId) (field : ChangeField) (f : Clip → Clip)
      → ((c : Clip) → ClipOk p c → ClipOk p (f c))
      → Integrity (update_clip p id field f).0
  unfolding update_clip emit
  update_clip-Integrity id field f keep = elim (Bool-cases (has id p.clips)) [
    | inr e ↦ rw (e, update_clip) v
    | inl e ↦
        rw (e, update_clip)
          (clips_changed (adjust id f p.clips) _ (adjust-IsOrdered id f p.clips v.ordered.clips)
            (adjusted_keeps id f p.clips (ClipOk p) keep v.clips))
  ]

  pub update_pattern-Integrity :
      (id : PatternId) (field : ChangeField) (f : Pattern → Pattern)
      → ((q : Pattern) → PatternOk p.instruments q → PatternOk p.instruments (f q))
      → Integrity (update_pattern p id field f).0
  unfolding update_pattern emit
  update_pattern-Integrity id field f keep = elim (Bool-cases (has id p.patterns)) [
    | inr e ↦ rw (e, update_pattern) v
    | inl e ↦ rw (e, update_pattern) (edited-Integrity p v id f keep _)
  ]
