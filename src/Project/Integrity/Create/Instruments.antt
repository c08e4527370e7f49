-- ===== src/Project/Integrity/Create/Instruments.antt =====
-- `createInstrument` and the integrity of a project.
use onebeat.Prelude.{
  ◌≡◌, refl, sym, ◌∙◌, ap, subst, ◌⊎◌, inl, inr, Bool, true, false, arith, none, some, String,
  if◌then◌else◌,
}
use onebeat.Prelude.Map.{Map, find, emplace, has, find-emplace}
use onebeat.Prelude.Map.Ordered.{emplace-IsOrdered}
use onebeat.Ids.{EntityKind, InstrumentId, MixerTrackId, next_id}
use onebeat.Ids.Order.{id_key, id_eq_iff}
use onebeat.Entities.{
  Instrument, PluginRef, Pattern, ClipSource, pattern_source, audio_source, automation_source,
}
use onebeat.Project.{Project, emit, fresh_track}
use onebeat.Project.Create.{
  create_instrument, create_mixer_track, instrument_destination, fresh_instrument, next_order,
  source_resolves,
}
use onebeat.Project.Integrity.{Integrity, PatternOk, InstrumentOk}
use onebeat.Project.Integrity.Keep.{ClipOk-keep, source_resolves-same, target_resolves-keep}
use onebeat.Project.Integrity.Create.{has-emplace, emplaced}
use onebeat.Project.Integrity.Create.Tracks.{create_mixer_track-Integrity}
use onebeat.Ids.{IdGenerator}

abbrev with_instruments : Project → Project → Map InstrumentId Instrument → Project
with_instruments p q m = record p { generator = q.generator; emitted = q.emitted; instruments = m }

module _ (p : Project) (v : Integrity p) (id : InstrumentId) (i : Instrument)
    (fresh : find id p.instruments ≡ none) (routed : InstrumentOk p.mixer_tracks i) where
  abbrev instruments : Map InstrumentId Instrument
  instruments = emplace id i p.instruments

  instrument_ok :
      (k : InstrumentId) (j : Instrument)
      → ((k ≡ id) × (j ≡ i)) ⊎ (find k p.instruments ≡ some j)
      → InstrumentOk p.mixer_tracks j
  instrument_ok k j (inl h) = subst (InstrumentOk p.mixer_tracks) (sym h.1) routed
  instrument_ok k j (inr e) = v.instruments k j e

  pattern_kept : (r : Pattern) → PatternOk p.instruments r → PatternOk instruments r
  pattern_kept r ok = record {
    ordered = ok.ordered;
    each = λ k s e.
        let good = ok.each k s e in
        record {
          instrument = has-emplace id i p.instruments fresh k good.instrument;
          sparse = good.sparse;
          sorted = good.sorted;
          notes = good.notes;
        };
  }

  source_kept :
      (q : Project) (s : ClipSource)
      → source_resolves p s ≡ true
      → source_resolves (with_instruments p q instruments) s ≡ true
  source_kept q (pattern_source k) h = h
  source_kept q (audio_source a) h = h
  source_kept q (automation_source a) h =
      target_resolves-keep p (with_instruments p q instruments) a a.target_kind
        (λ _ there. has-emplace id i p.instruments fresh a.instrument there) (λ t e. (t, e, refl)) h

  pub instrument_added : (q : Project) → q ≡ with_instruments p q instruments → Integrity q
  instrument_added q shape = subst Integrity (sym shape) (record {
    ordered = record {
      instruments = emplace-IsOrdered id i p.instruments v.ordered.instruments;
      patterns = v.ordered.patterns;
      lanes = v.ordered.lanes;
      clips = v.ordered.clips;
      mixer_tracks = v.ordered.mixer_tracks;
    };
    instruments = λ k j e. instrument_ok k j (emplaced id i p.instruments fresh k j e);
    patterns = λ k r e. pattern_kept r (v.patterns k r e);
    lanes = v.lanes;
    lane_orders = v.lane_orders;
    clips = λ k c e.
        let ok = v.clips k c e in
        ClipOk-keep p (with_instruments p q instruments) c ok ok.lane
          (source_kept q c.source ok.source);
    mixer = v.mixer;
  })

-- the ids that are minted are no part of the integrity
minted-Integrity :
    (p : Project) (g : IdGenerator) → Integrity p → Integrity (record p { generator = g })
minted-Integrity p g v = record {
  ordered = record {
    instruments = v.ordered.instruments;
    patterns = v.ordered.patterns;
    lanes = v.ordered.lanes;
    clips = v.ordered.clips;
    mixer_tracks = v.ordered.mixer_tracks;
  };
  instruments = v.instruments;
  patterns = v.patterns;
  lanes = v.lanes;
  lane_orders = v.lane_orders;
  clips = λ k c e.
      let ok = v.clips k c e in
      ClipOk-keep p (record p { generator = g }) c ok ok.lane
        (source_resolves-same p (record p { generator = g }) c.source refl refl refl ok.source);
  mixer = v.mixer;
}

-- What is known of the project and the track that a new instrument starts from.
abbrev Destination : Project → Project × MixerTrackId → Type 0
Destination p r =
    Integrity r.0 × (has r.1 r.0.mixer_tracks ≡ true) × (r.0.instruments ≡ p.instruments)

track_Destination :
    (p : Project) (name : String)
    → Integrity p
    → find (create_mixer_track p name (some p.master)).1 p.mixer_tracks ≡ none
    → Destination p (create_mixer_track p name (some p.master))
unfolding create_mixer_track emit
track_Destination p name v fresh = (
  create_mixer_track-Integrity p name (some p.master) v fresh,
  ground (
    arith,
    find-emplace (create_mixer_track p name (some p.master)).1
        (create_mixer_track p name (some p.master)).1
        (record (fresh_track (create_mixer_track p name (some p.master)).1 name) {
          output = some (if has p.master p.mixer_tracks then p.master else p.master);
        })
        p.mixer_tracks fresh,
    id_eq_iff (create_mixer_track p name (some p.master)).1
        (create_mixer_track p name (some p.master)).1,
  ),
  refl,
)

instrument_destination-Destination :
    (p : Project) (name : String)
    → Integrity p
    → find (create_mixer_track p name (some p.master)).1 p.mixer_tracks ≡ none
    → Destination p (instrument_destination p name)
unfolding instrument_destination
instrument_destination-Destination p name v fresh = chosen p.preferences.auto_create_mixer_track
  where
    chosen :
        (b : Bool)
        → Destination p (if b then create_mixer_track p name (some p.master) else (p, p.master))
    chosen true = track_Destination p name v fresh
    chosen false = (v, v.mixer.master_there, refl)

-- Creating an instrument keeps a sound project sound, where neither minted id is taken: it plays
-- into the track created for it, or into Master.
pub create_instrument-Integrity :
    (p : Project) (name : String) (plugin : PluginRef)
    → Integrity p
    → let minted = next_id {K = EntityKind.instrument} p.generator in
      find minted.0 p.instruments ≡ none
      → find
          (create_mixer_track (record p { generator = minted.1 }) name (some p.master)).1
          p.mixer_tracks
        ≡ none
      → Integrity (create_instrument p name plugin).0
unfolding create_instrument emit
create_instrument-Integrity p name plugin v fresh free =
    let minted = next_id {K = EntityKind.instrument} p.generator in
    let p0 : Project = record p { generator = minted.1 } in
    let chosen = instrument_destination p0 name in
    let (kept, there, same) =
      instrument_destination-Destination p0 name (minted-Integrity p minted.1 v) free in
    instrument_added chosen.0 kept minted.0
      (fresh_instrument minted.0 name (next_order (λ (i : Instrument). i.order) p.instruments)
        plugin chosen.1)
      (ap (find minted.0) same ∙ fresh) (record { routes = (there, tt); ports = (tt, tt) }) _ refl
