-- ===== src/Project/Integrity/Updates/Tables.antt =====
-- Mutators on lanes, instruments and mixer tracks: `updateLane`, `updateInstrument` and
-- `updateMixerTrack` of engine/src/model/project.h.
use onebeat.Prelude.{
  ◌≡◌, refl, sym, ◌∙◌, ap, subst, inl, inr, true, some, List, [], ◌∷◌, Bool-cases, is_some,
}
use onebeat.Prelude.Map.{find, adjust, has}
use onebeat.Prelude.Map.Keys.{has-some}
use onebeat.Prelude.Map.Ordered.{adjust-IsOrdered}
use onebeat.Changes.{ChangeEvent, ChangeField}
use onebeat.Ids.{InstrumentId, ArrangementLaneId, MixerTrackId}
use onebeat.Ids.Order.{id_key}
use onebeat.Entities.{
  Instrument, Pattern, ArrangementLane, MixerTrack, OutputRoute, ClipSource, pattern_source,
  audio_source, automation_source,
}
use onebeat.Project.{Project, emit}
use onebeat.Project.Create.{source_resolves}
use onebeat.Project.Modify.{update_instrument, update_lane, update_mixer_track}
use onebeat.Project.Integrity.{Integrity, InstrumentOk, PatternOk, MixerOk, RoutesResolve, SlotsOk}
use onebeat.Project.Integrity.Keep.{ClipOk-keep, source_resolves-same, target_resolves-keep}
use onebeat.Project.Integrity.Updates.{adjusted, has-adjust, adjusted_keeps}

module _ (p : Project) (v : Integrity p) (id : ArrangementLaneId)
    (f : ArrangementLane → ArrangementLane)
    (grouped : (l : ArrangementLane) → (f l).group_id ≡ l.group_id)
    (placed : (l : ArrangementLane) → (f l).order ≡ l.order) where
  abbrev with_lanes : List ChangeEvent → Project
  with_lanes events = record p { lanes = adjust id f p.lanes; emitted = events }

  lane_was :
      (k : ArrangementLaneId) (l : ArrangementLane)
      → find k (adjust id f p.lanes) ≡ some l
      → (m : ArrangementLane) × (find k p.lanes ≡ some m)
        × (l.group_id ≡ m.group_id)
        × (l.order ≡ m.order)
  lane_was k l e =
      let (m, s, how) = adjusted id f p.lanes k l e in
      elim how [
        | inl h ↦ (m, s, ap (λ x. x.group_id) h ∙ grouped m, ap (λ x. x.order) h ∙ placed m)
        | inr h ↦ (m, s, ap (λ x. x.group_id) h, ap (λ x. x.order) h)
      ]

  lanes_changed : (events : List ChangeEvent) → Integrity (with_lanes events)
  lanes_changed events = record {
    ordered = record {
      instruments = v.ordered.instruments;
      patterns = v.ordered.patterns;
      lanes = adjust-IsOrdered id f p.lanes v.ordered.lanes;
      clips = v.ordered.clips;
      mixer_tracks = v.ordered.mixer_tracks;
    };
    instruments = v.instruments;
    patterns = v.patterns;
    lanes = λ k l e.
        let (m, s, same, _) = lane_was k l e in
        record {
          group = λ g h.
              let (other, there) = (v.lanes k m s).group g (sym same ∙ h) in
              (other, has-adjust id f p.lanes g there);
        };
    lane_orders = λ j k l m e g o.
        let (l', s, _, a) = lane_was j l e in
        let (m', t, _, b) = lane_was k m g in v.lane_orders j k l' m' s t (sym a ∙ o ∙ b);
    clips = λ k c e.
        let ok = v.clips k c e in
        ClipOk-keep p (with_lanes events) c ok (has-adjust id f p.lanes c.lane ok.lane)
          (source_resolves-same p (with_lanes events) c.source refl refl refl ok.source);
    mixer = v.mixer;
  }

  pub update_lane-Integrity : (field : ChangeField) → Integrity (update_lane p id field f).0
  unfolding update_lane emit
  update_lane-Integrity field = elim (Bool-cases (has id p.lanes)) [
    | inr e ↦ rw (e, update_lane) v
    | inl e ↦ rw (e, update_lane) (lanes_changed _)
  ]

module _ (p : Project) (v : Integrity p) (id : InstrumentId) (f : Instrument → Instrument)
    (keep : (i : Instrument)
      → InstrumentOk p.mixer_tracks i
      → InstrumentOk p.mixer_tracks (f i)) where
  abbrev with_instruments : List ChangeEvent → Project
  with_instruments events = record p { instruments = adjust id f p.instruments; emitted = events }

  pattern_kept : (q : Pattern) → PatternOk p.instruments q → PatternOk (adjust id f p.instruments) q
  pattern_kept q ok = record {
    ordered = ok.ordered;
    each = λ i s e.
        let good = ok.each i s e in
        record {
          instrument = has-adjust id f p.instruments i good.instrument;
          sparse = good.sparse;
          sorted = good.sorted;
          notes = good.notes;
        };
  }

  source_kept :
      (events : List ChangeEvent) (s : ClipSource)
      → source_resolves p s ≡ true
      → source_resolves (with_instruments events) s ≡ true
  source_kept events (pattern_source k) h = h
  source_kept events (audio_source a) h = h
  source_kept events (automation_source a) h =
      target_resolves-keep p (with_instruments events) a a.target_kind
        (λ _ there. has-adjust id f p.instruments a.instrument there) (λ t e. (t, e, refl)) h

  instruments_changed : (events : List ChangeEvent) → Integrity (with_instruments events)
  instruments_changed events = record {
    ordered = record {
      instruments = adjust-IsOrdered id f p.instruments v.ordered.instruments;
      patterns = v.ordered.patterns;
      lanes = v.ordered.lanes;
      clips = v.ordered.clips;
      mixer_tracks = v.ordered.mixer_tracks;
    };
    instruments =
        adjusted_keeps id f p.instruments (InstrumentOk p.mixer_tracks) keep v.instruments;
    patterns = λ k q e. pattern_kept q (v.patterns k q e);
    lanes = v.lanes;
    lane_orders = v.lane_orders;
    clips = λ k c e.
        let ok = v.clips k c e in
        ClipOk-keep p (with_instruments events) c ok ok.lane
          (source_kept events c.source ok.source);
    mixer = v.mixer;
  }

  pub update_instrument-Integrity :
      (field : ChangeField) → Integrity (update_instrument p id field f).0
  unfolding update_instrument emit
  update_instrument-Integrity field = elim (Bool-cases (has id p.instruments)) [
    | inr e ↦ rw (e, update_instrument) v
    | inl e ↦ rw (e, update_instrument) (instruments_changed _)
  ]

module _ (p : Project) (v : Integrity p) (id : MixerTrackId) (f : MixerTrack → MixerTrack)
    (led : (t : MixerTrack) → (f t).output ≡ t.output)
    (chained : (t : MixerTrack) → (f t).effects ≡ t.effects) where
  abbrev with_tracks : List ChangeEvent → Project
  with_tracks events = record p { mixer_tracks = adjust id f p.mixer_tracks; emitted = events }

  track_was :
      (k : MixerTrackId) (t : MixerTrack)
      → find k (adjust id f p.mixer_tracks) ≡ some t
      → (u : MixerTrack) × (find k p.mixer_tracks ≡ some u)
        × (t.output ≡ u.output)
        × (t.effects ≡ u.effects)
  track_was k t e =
      let (u, s, how) = adjusted id f p.mixer_tracks k t e in
      elim how [
        | inl h ↦ (u, s, ap (λ x. x.output) h ∙ led u, ap (λ x. x.effects) h ∙ chained u)
        | inr h ↦ (u, s, ap (λ x. x.output) h, ap (λ x. x.effects) h)
      ]

  track_is :
      (k : MixerTrackId) (u : MixerTrack)
      → find k p.mixer_tracks ≡ some u
      → (t : MixerTrack) × (find k (adjust id f p.mixer_tracks) ≡ some t) × (t.effects ≡ u.effects)
  track_is k u e =
      let (t, s) =
        has-some k (adjust id f p.mixer_tracks) (has-adjust id f p.mixer_tracks k (ap is_some e)) in
      let (w, was, _, same) = track_was k t s in
      (t, s, same ∙ ap (λ x. x.effects) (some-inj (sym was ∙ e)))
    where
      some-inj : {a b : MixerTrack} → some a ≡ some b → a ≡ b
      some-inj h = cc

  mixer_kept : MixerOk (adjust id f p.mixer_tracks) p.master
  mixer_kept = record {
    master_there = has-adjust id f p.mixer_tracks p.master v.mixer.master_there;
    master_out = λ t e. let (u, s, o, _) = track_was p.master t e in o ∙ v.mixer.master_out u s;
    only_master =
        λ k t e n. let (u, s, o, _) = track_was k t e in v.mixer.only_master k u s (sym o ∙ n);
    outputs = λ k t out e n.
        let (u, s, o, _) = track_was k t e in
        has-adjust id f p.mixer_tracks out (v.mixer.outputs k u out s (sym o ∙ n));
    rank = v.mixer.rank;
    downhill =
        λ k t out e n. let (u, s, o, _) = track_was k t e in v.mixer.downhill k u out s (sym o ∙ n);
    slots = λ k t e.
        let (u, s, _, same) = track_was k t e in subst SlotsOk (sym same) (v.mixer.slots k u s);
  }

  routes_kept :
      (rs : List OutputRoute)
      → RoutesResolve p.mixer_tracks rs
      → RoutesResolve (adjust id f p.mixer_tracks) rs
  routes_kept [] h = tt
  routes_kept (r ∷ rs) h = (has-adjust id f p.mixer_tracks r.track h.0, routes_kept rs h.1)

  target_kept :
      (events : List ChangeEvent) (s : ClipSource)
      → source_resolves p s ≡ true
      → source_resolves (with_tracks events) s ≡ true
  target_kept events (pattern_source k) h = h
  target_kept events (audio_source a) h = has-adjust id f p.mixer_tracks a.destination h
  target_kept events (automation_source a) h =
      target_resolves-keep p (with_tracks events) a a.target_kind (λ _ i. i)
        (track_is a.mixer_track) h

  tracks_changed : (events : List ChangeEvent) → Integrity (with_tracks events)
  tracks_changed events = record {
    ordered = record {
      instruments = v.ordered.instruments;
      patterns = v.ordered.patterns;
      lanes = v.ordered.lanes;
      clips = v.ordered.clips;
      mixer_tracks = adjust-IsOrdered id f p.mixer_tracks v.ordered.mixer_tracks;
    };
    instruments = λ k i e.
        let ok = v.instruments k i e in
        record { routes = routes_kept i.routing ok.routes; ports = ok.ports };
    patterns = v.patterns;
    lanes = v.lanes;
    lane_orders = v.lane_orders;
    clips = λ k c e.
        let ok = v.clips k c e in
        ClipOk-keep p (with_tracks events) c ok ok.lane (target_kept events c.source ok.source);
    mixer = mixer_kept;
  }

  pub update_mixer_track-Integrity :
      (field : ChangeField) → Integrity (update_mixer_track p id field f).0
  unfolding update_mixer_track emit
  update_mixer_track-Integrity field = elim (Bool-cases (has id p.mixer_tracks)) [
    | inr e ↦ rw (e, update_mixer_track) v
    | inl e ↦ rw (e, update_mixer_track) (tracks_changed _)
  ]
