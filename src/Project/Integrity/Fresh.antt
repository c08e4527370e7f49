-- ===== src/Project/Integrity/Fresh.antt =====
-- The project that the constructor makes.
use onebeat.Prelude.{◌≡◌, ◌≢◌, refl, arith, none, some, [], ◌∷◌}
use onebeat.Prelude.Map.{find}
use onebeat.Prelude.Map.Keys.{found}
use onebeat.Prelude.Map.Ordered.{keq_self}
use onebeat.Ids.{IdGenerator, MixerTrackId}
use onebeat.Ids.Order.{id_key}
use onebeat.Entities.{MixerTrack}
use onebeat.Project.{new_project, fresh_track}
use onebeat.Project.Integrity.{Integrity, MixerOk, SlotsOk}

-- Whatever the generator mints, Master alone is a mixer.
master_alone : (id : MixerTrackId) → MixerOk ((id, fresh_track id "Master") ∷ []) id
unfolding find
master_alone id = record {
  master_there = ground (arith, keq_self id_key id);
  master_out = λ t e. ground (arith, keq_self id_key id);
  only_master =
      found (λ k (t : MixerTrack). t.output ≡ none → k ≡ id) ((id, fresh_track id "Master") ∷ [])
        ((λ _. refl), tt);
  outputs = λ k t out e f. absurd (no_output k t e out f);
  rank = λ k. 0;
  downhill = λ k t out e f. absurd (no_output k t e out f);
  slots =
      found (λ _ (t : MixerTrack). SlotsOk t.effects) ((id, fresh_track id "Master") ∷ []) (tt, tt);
}
  where
    no_output :
        (k : MixerTrackId) (t : MixerTrack)
        → find k ((id, fresh_track id "Master") ∷ []) ≡ some t
        → (out : MixerTrackId) → t.output ≢ some out
    no_output =
        found (λ _ (t : MixerTrack). (out : MixerTrackId) → t.output ≢ some out)
          ((id, fresh_track id "Master") ∷ []) ((λ out e. ground arith), tt)

-- A new project is sound: every reference resolves, and Master is its one mixer track.
pub new_project-Integrity : (generator : IdGenerator) → Integrity (new_project generator)
unfolding new_project find
new_project-Integrity generator = record {
  ordered = record {
    instruments = tt;
    patterns = tt;
    lanes = tt;
    clips = tt;
    mixer_tracks = (tt, tt);
  };
  instruments = λ k i e. absurd (ground arith);
  patterns = λ k q e. absurd (ground arith);
  lanes = λ k l e. absurd (ground arith);
  lane_orders = λ j k l m e f o. absurd (ground arith);
  clips = λ k c e. absurd (ground arith);
  mixer = master_alone (new_project generator).master;
}
