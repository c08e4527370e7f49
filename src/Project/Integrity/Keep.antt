-- ===== src/Project/Integrity/Keep.antt =====
-- What is asked of a clip, carried over to a project whose tables changed.
use onebeat.Prelude.{◌≡◌, refl, true, false, arith, Option, none, some, is_some}
use onebeat.Prelude.Map.{find, has}
use onebeat.Prelude.Map.Keys.{has-some}
use onebeat.Ids.{EffectId, MixerTrackId}
use onebeat.Ids.Order.{id_key}
use onebeat.Entities.{
  MixerTrack, Clip, ClipSource, pattern_source, audio_source, automation_source, AutomationSource,
  TargetKind, find_effect,
}
use onebeat.Project.{Project}
use onebeat.Project.Create.{source_resolves, target_resolves}
use onebeat.Project.Integrity.{ClipOk}

pub ClipOk-keep :
    (p q : Project) (c : Clip)
    → ClipOk p c
    → has c.lane q.lanes ≡ true
    → source_resolves q c.source ≡ true
    → ClipOk q c
ClipOk-keep p q c h lane source = record {
  lane = lane;
  start = h.start;
  length = h.length;
  source = source;
  window = h.window;
}

module _ (p q : Project) where
  has_kept :
      (k : MixerTrackId)
      → ((t : MixerTrack)
          → find k p.mixer_tracks ≡ some t
          → (u : MixerTrack) × (find k q.mixer_tracks ≡ some u) × (u.effects ≡ t.effects))
      → has k p.mixer_tracks ≡ true
      → has k q.mixer_tracks ≡ true
  has_kept k keep h =
      let (t, e) = has-some k p.mixer_tracks h in let (u, f, g) = keep t e in ground arith

  effect_kept :
      (k : MixerTrackId) (e : EffectId) (o : Option MixerTrack)
      → ((t : MixerTrack)
          → o ≡ some t
          → (u : MixerTrack) × (find k q.mixer_tracks ≡ some u) × (u.effects ≡ t.effects))
      → elim o [ none ↦ false | some track ↦ is_some (find_effect track e) ] ≡ true
      → elim (find k q.mixer_tracks) [ none ↦ false | some track ↦ is_some (find_effect track e) ]
        ≡ true
  unfolding find_effect
  effect_kept k e none keep h = cc
  effect_kept k e (some t) keep h = let (u, f, g) = keep t refl in ground arith

  pub target_resolves-keep :
      (a : AutomationSource) (kind : TargetKind)
      → (kind ≡ TargetKind.instrument
          → has a.instrument p.instruments ≡ true
          → has a.instrument q.instruments ≡ true)
      → ((t : MixerTrack)
          → find a.mixer_track p.mixer_tracks ≡ some t
          → (u : MixerTrack) × (find a.mixer_track q.mixer_tracks ≡ some u)
            × (u.effects ≡ t.effects))
      → target_resolves p a kind ≡ true
      → target_resolves q a kind ≡ true
  unfolding find_effect
  target_resolves-keep a TargetKind.instrument ins keep h = ins refl h
  target_resolves-keep a TargetKind.mixer_track ins keep h = has_kept a.mixer_track keep h
  target_resolves-keep a TargetKind.effect ins keep h =
      effect_kept a.mixer_track a.effect (find a.mixer_track p.mixer_tracks) keep h

  -- Where the tables that a source may refer to are the same, it resolves as before.
  pub source_resolves-same :
      (s : ClipSource)
      → q.patterns ≡ p.patterns
      → q.instruments ≡ p.instruments
      → q.mixer_tracks ≡ p.mixer_tracks
      → source_resolves p s ≡ true
      → source_resolves q s ≡ true
  source_resolves-same (pattern_source k) ep ei em h = rw ep h
  source_resolves-same (audio_source a) ep ei em h = rw em h
  source_resolves-same (automation_source a) ep ei em h =
      target_resolves-keep a a.target_kind (λ _ i. rw ei i) (λ t e. (t, rw em e, refl)) h
