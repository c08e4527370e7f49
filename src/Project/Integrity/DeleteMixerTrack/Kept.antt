-- ===== src/Project/Integrity/DeleteMixerTrack/Kept.antt =====
-- Integrity after a mixer track is deleted.
use onebeat.Prelude.{
  ◌≡◌, ◌≢◌, ◌⊎◌, sym, ap, subst, inl, inr, true, false, not, ◌&&◌, arith, some, Bool-cases,
  Option-cases,
}
use onebeat.Prelude.Map.{find, has}
use onebeat.Ids.{InstrumentId, ClipId, MixerTrackId}
use onebeat.Ids.Order.{id_key, id_eq, id_eq_iff}
use onebeat.Entities.{
  Instrument, Pattern, Clip, ClipSource, pattern_source, audio_source, automation_source,
  AutomationSource, TargetKind,
}
use onebeat.Project.{Project}
use onebeat.Project.Impact.{touches_track, is_instrument_target}
use onebeat.Project.Create.{source_resolves, target_resolves}
use onebeat.Project.Delete.{delete_mixer_track, repoint_instrument, repoint_clip, is_audio}
use onebeat.Project.Integrity.{Integrity, PatternOk, InstrumentOk, ClipOk, WindowOk}
use onebeat.Project.Integrity.Keep.{ClipOk-keep, target_resolves-keep}
use onebeat.Project.Integrity.DeleteMixerTrack.Effect.{TrackDeleted, delete_mixer_track_lem}
use onebeat.Project.Integrity.DeleteMixerTrack.Tracks.{
  ports_kept, track_there, master_kept, routes_kept, track_effects, instrument_there, mixer_kept,
}

module _ (p : Project) (id : MixerTrackId) (q : Project) (d : TrackDeleted p id q)
    (ne : id ≢ p.master) where
  target_kept :
      (a : AutomationSource) (kind : TargetKind)
      → not (is_instrument_target kind) && id_eq a.mixer_track id ≡ false
      → target_resolves p a kind ≡ true
      → target_resolves q a kind ≡ true
  target_kept a TargetKind.instrument u h = instrument_there p id q d ne a.instrument h
  target_kept a TargetKind.mixer_track u h =
      track_there p id q d ne a.mixer_track (λ e. ground (arith, id_eq_iff a.mixer_track id)) h
  target_kept a TargetKind.effect u h =
      target_resolves-keep p q a TargetKind.effect
        (λ _ i. instrument_there p id q d ne a.instrument i)
        (λ t e.
          track_effects p id q d ne a.mixer_track t
            (λ f. ground (arith, id_eq_iff a.mixer_track id)) e)
        h

  source_kept :
      (s : ClipSource)
      → touches_track id s ≡ false
      → source_resolves p s ≡ true
      → source_resolves q s ≡ true
  source_kept (pattern_source k) u h = rw (ap (λ r. r.patterns) d.rest) h
  source_kept (audio_source a) u h =
      track_there p id q d ne a.destination (λ e. ground (arith, id_eq_iff a.destination id)) h
  source_kept (automation_source a) u h = target_kept a a.target_kind u h

  lane_there : (c : Clip) → has c.lane p.lanes ≡ true → has c.lane q.lanes ≡ true
  lane_there c h = rw (ap (λ r. r.lanes) d.rest) h

  -- an audio clip that plays into Master from now on
  repointed_ok :
      (c : Clip)
      → has p.master p.mixer_tracks ≡ true
      → is_audio c.source ≡ true
      → ClipOk p c
      → ClipOk q (repoint_clip p.master c)
  repointed_ok c m a h = record {
    lane = lane_there c h.lane;
    start = h.start;
    length = h.length;
    source = resolves c.source a;
    window = window c.source h.window;
  }
    where
      resolves :
          (s : ClipSource)
          → is_audio s ≡ true
          → source_resolves q (repoint_clip p.master (record c { source = s })).source ≡ true
      resolves (pattern_source k) a = absurd (ground arith)
      resolves (audio_source s) a = master_kept p id q d ne m
      resolves (automation_source s) a = absurd (ground arith)

      window :
          (s : ClipSource)
          → WindowOk c.length s
          → WindowOk c.length (repoint_clip p.master (record c { source = s })).source
      window (pattern_source k) w = w
      window (audio_source s) w = w
      window (automation_source s) w = w

  clip_kept :
      has p.master p.mixer_tracks ≡ true
      → ((k : ClipId) (c : Clip) → find k p.clips ≡ some c → ClipOk p c)
      → (k : ClipId) (c : Clip) → find k q.clips ≡ some c
      → ClipOk q c
  clip_kept m v k c e = elim (Option-cases (find k p.clips)) [
    | inl n ↦ absurd (ground (arith, d.clips k))
    | inr (b, s) ↦ ok b s (Bool-cases (touches_track id b.source)) (Bool-cases (is_audio b.source))
  ]
    where
      ok :
          (b : Clip)
          → find k p.clips ≡ some b
          → (touches_track id b.source ≡ true) ⊎ (touches_track id b.source ≡ false)
          → (is_audio b.source ≡ true) ⊎ (is_audio b.source ≡ false)
          → ClipOk q c
      ok b s (inr u) _ = subst (ClipOk q) (ground (arith, d.clips k)) (
          ClipOk-keep p q b (v k b s) (lane_there b (v k b s).lane)
            (source_kept b.source u (v k b s).source))
      ok b s (inl u) (inl a) =
          subst (ClipOk q) (ground (arith, d.clips k)) (repointed_ok b m a (v k b s))
      ok b s (inl u) (inr a) = absurd (ground (arith, d.clips k))

  instrument_kept :
      (before : Instrument)
      → has p.master p.mixer_tracks ≡ true
      → InstrumentOk p.mixer_tracks before
      → InstrumentOk q.mixer_tracks (repoint_instrument id p.master before)
  instrument_kept before m h = record {
    routes = routes_kept p id q d ne before.routing m h.routes;
    ports = ports_kept id p.master before.routing h.ports;
  }

  instrument_was :
      (k : InstrumentId) (i : Instrument)
      → find k q.instruments ≡ some i
      → (before : Instrument) × (find k p.instruments ≡ some before)
        × (repoint_instrument id p.master before ≡ i)
  instrument_was k i e = elim (Option-cases (find k p.instruments)) [
    | inl n ↦ absurd (ground (arith, d.instruments k))
    | inr (b, s) ↦ (b, s, ground (arith, d.instruments k))
  ]

  pattern_kept : (r : Pattern) → PatternOk p.instruments r → PatternOk q.instruments r
  pattern_kept r ok = record {
    ordered = ok.ordered;
    each = λ i s e.
        let good = ok.each i s e in
        record {
          instrument = instrument_there p id q d ne i good.instrument;
          sparse = good.sparse;
          sorted = good.sorted;
          notes = good.notes;
        };
  }

  deleted-Integrity : Integrity p → Integrity q
  deleted-Integrity v =
      let there = v.mixer.master_there in
      subst Integrity (sym d.rest) (record {
        ordered = record {
          instruments = d.instruments_ordered;
          patterns = v.ordered.patterns;
          lanes = v.ordered.lanes;
          clips = d.clips_ordered;
          mixer_tracks = d.mixer_tracks_ordered;
        };
        instruments = λ k i e.
            let (before, was, change) = instrument_was k i e in
            subst (InstrumentOk q.mixer_tracks) change
              (instrument_kept before there (v.instruments k before was));
        patterns = λ k r e. pattern_kept r (v.patterns k r e);
        lanes = v.lanes;
        lane_orders = v.lane_orders;
        clips = λ k c e. subst (λ r. ClipOk r c) d.rest (clip_kept there v.clips k c e);
        mixer = mixer_kept p id q d ne v.mixer;
      })

delete_mixer_track_refused :
    (p : Project) (id : MixerTrackId)
    → (id_eq id p.master ≡ true) ⊎ (has id p.mixer_tracks ≡ false)
    → (delete_mixer_track p id).0 ≡ p
unfolding delete_mixer_track
delete_mixer_track_refused p id h = ground arith

-- Deleting a mixer track of a project with the integrity that checkReferentialIntegrity demands, also
-- Master, which is refused, or one that is not there, leaves such a project: the references that it checks
-- resolve, and no track feeds back. It does not check the curves that patterns own; one on the track or on
-- an effect of its chain is left with no target.
pub delete_mixer_track-Integrity :
    (p : Project) (id : MixerTrackId) → Integrity p → Integrity (delete_mixer_track p id).0
delete_mixer_track-Integrity p id v = elim (Bool-cases (id_eq id p.master)) [
  | inl e ↦ subst Integrity (sym (delete_mixer_track_refused p id (inl e))) v
  | inr e ↦ elim (Bool-cases (has id p.mixer_tracks)) [
    | inr n ↦ subst Integrity (sym (delete_mixer_track_refused p id (inr n))) v
    | inl h ↦
        let ne : id ≢ p.master = λ f. ground (arith, id_eq_iff id p.master) in
        let o = v.ordered in
        deleted-Integrity p id (delete_mixer_track p id).0
          (delete_mixer_track_lem p id o.instruments o.mixer_tracks o.clips ne h).1 ne v
  ]
]
