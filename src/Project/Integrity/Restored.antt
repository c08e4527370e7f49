-- ===== src/Project/Integrity/Restored.antt =====
-- The `restore` half of engine/src/model/project.cpp, and what it asks of the entity that comes back.
use onebeat.Prelude.{◌≡◌, ◌≢◌, refl, inl, inr, true, arith, none, some, Bool-cases}
use onebeat.Prelude.Map.{Map, find, has}
use onebeat.Ids.{EntityKind, TypedId, ArrangementLaneId, MixerTrackId}
use onebeat.Ids.Order.{id_key}
use onebeat.Entities.{Instrument, Pattern, ArrangementLane, Clip, MixerTrack}
use onebeat.Project.{Project, emit}
use onebeat.Project.Restore.{
  insertable, restore_instrument, restore_pattern, restore_lane, restore_clip, restore_mixer_track,
}
use onebeat.Project.Integrity.{Integrity, InstrumentOk, PatternOk, LaneOk, ClipOk, SlotsOk}
use onebeat.Project.Integrity.Create.{lane_added, pattern_added}
use onebeat.Project.Integrity.Create.Clips.{clip_added}
use onebeat.Project.Integrity.Create.Instruments.{instrument_added}
use onebeat.Project.Integrity.Create.Tracks.{track_added}

insertable-fresh :
    {V : Type 0} {K : EntityKind} (id : TypedId K) (m : Map (TypedId K) V)
    → insertable id m ≡ true
    → find id m ≡ none
insertable-fresh id m h = ground arith

module _ (p : Project) (v : Integrity p) where
  pub restore_instrument-Integrity :
      (i : Instrument) → InstrumentOk p.mixer_tracks i → Integrity (restore_instrument p i).0
  unfolding restore_instrument emit
  restore_instrument-Integrity i ok = elim (Bool-cases (insertable i.id p.instruments)) [
    | inr e ↦ rw (e, restore_instrument) v
    | inl e ↦
        rw (e, restore_instrument)
          (instrument_added p v i.id i (insertable-fresh i.id p.instruments e) ok _ refl)
  ]

  pub restore_pattern-Integrity :
      (q : Pattern) → PatternOk p.instruments q → Integrity (restore_pattern p q).0
  unfolding restore_pattern emit
  restore_pattern-Integrity q ok = elim (Bool-cases (insertable q.id p.patterns)) [
    | inr e ↦ rw (e, restore_pattern) v
    | inl e ↦
        rw (e, restore_pattern)
          (pattern_added p v _ q.id q refl (insertable-fresh q.id p.patterns e) ok)
  ]

  pub restore_lane-Integrity :
      (l : ArrangementLane)
      → LaneOk p.lanes l.id l
      → ((k : ArrangementLaneId) (m : ArrangementLane)
          → find k p.lanes ≡ some m
          → m.order ≢ l.order)
      → Integrity (restore_lane p l).0
  unfolding restore_lane emit
  restore_lane-Integrity l ok apart = elim (Bool-cases (insertable l.id p.lanes)) [
    | inr e ↦ rw (e, restore_lane) v
    | inl e ↦
        rw (e, restore_lane)
          (lane_added p v _ l.id l refl (insertable-fresh l.id p.lanes e) ok apart)
  ]

  pub restore_clip-Integrity : (c : Clip) → ClipOk p c → Integrity (restore_clip p c).0
  unfolding restore_clip emit
  restore_clip-Integrity c ok = elim (Bool-cases (insertable c.id p.clips)) [
    | inr e ↦ rw (e, restore_clip) v
    | inl e ↦
        rw (e, restore_clip) (clip_added p v _ c.id c refl (insertable-fresh c.id p.clips e) ok)
  ]

  pub restore_mixer_track-Integrity :
      (t : MixerTrack) (target : MixerTrackId)
      → t.output ≡ some target
      → has target p.mixer_tracks ≡ true
      → SlotsOk t.effects
      → Integrity (restore_mixer_track p t).0
  unfolding restore_mixer_track emit
  restore_mixer_track-Integrity t target led there ok =
      elim (Bool-cases (insertable t.id p.mixer_tracks)) [
        | inr e ↦ rw (e, restore_mixer_track) v
        | inl e ↦
            rw (e, restore_mixer_track)
              (track_added p v t.id t target (insertable-fresh t.id p.mixer_tracks e) led there ok _
                refl)
      ]
