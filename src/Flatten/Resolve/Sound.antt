-- ===== src/Flatten/Resolve/Sound.antt =====
-- What the flattener collects, and the channels and inserts that it is addressed to.
use onebeat.Prelude.{
  ℕ, suc, ◌≡◌, refl, subst, inl, inr, Bool, true, ◌&&◌, ◌||◌, List, [], ◌∷◌, Option, some, arith,
  ltb, length, All, All-append, Bool-cases, Option-cases,
}
use onebeat.Prelude.Int.{pos, ltb_ℤ, leb_ℤ}
use onebeat.Prelude.Map.{find}
use onebeat.Notes.{Ticks}
use onebeat.Ids.{ClipId}
use onebeat.Ids.Order.{id_key}
use onebeat.Entities.{ParamId, AutomationPoint, TargetKind, AutomationSource, Clip}
use onebeat.Project.{Project}
use onebeat.Flatten.{ResolvedNote}
use onebeat.Flatten.Resolve.Channels.{
  audio_count, insert_count, is_rack, is_audio_channel, Values, Inserts, OnIndex, find-OnIndex,
  find_effect_index-OnIndex, number_instruments-Values, number_audio-Values, number_effects-Inserts,
}
use onebeat.Flatten.Resolve.{
  ResolvedParam, ResolvedEffectParam, ResolvedAudio, Indices, index_project, find_effect_index,
  Resolved, points_to_params, points_to_effect_params, resolve_target, resolve_curve,
  resolve_automation, resolve_automation_clip, resolve_audio_clip,
}

-- How many channels a project has on the rack and for audio, and how many inserts.
pub record Sizes : Type 0 where
  pub rack : ℕ
  pub audio : ℕ
  pub inserts : ℕ

abbrev pub sizes_of : Project → Sizes
sizes_of p = record {
  rack = length p.instruments;
  audio = audio_count p.clips;
  inserts = insert_count p.mixer_tracks;
}

abbrev pub note_addressed : Sizes → ResolvedNote → Bool
note_addressed z n = ltb n.instrument z.rack && (leb_ℤ (pos 0) n.key && leb_ℤ n.key (pos 127))

abbrev pub param_addressed : Sizes → ResolvedParam → Bool
param_addressed z q = ltb q.instrument z.rack

abbrev pub effect_addressed : Sizes → ResolvedEffectParam → Bool
effect_addressed z q = ltb q.effect z.inserts

abbrev pub audio_addressed : Sizes → ResolvedAudio → Bool
audio_addressed z a = is_audio_channel z.rack z.audio a.channel

pub record Addressed (z : Sizes) (st : Resolved) : Type 0 where
  pub notes : All (λ n. note_addressed z n ≡ true) st.notes
  pub params : All (λ q. param_addressed z q ≡ true) st.params
  pub effect_params : All (λ q. effect_addressed z q ≡ true) st.effect_params
  pub audio_starts : All (λ a. audio_addressed z a ≡ true) st.audio_starts

-- The indices that the loops read.
pub record Bounded (z : Sizes) (indices : Indices) : Type 0 where
  pub instruments : Values (is_rack z.rack) indices.instruments
  pub audio : Values (is_audio_channel z.rack z.audio) indices.audio
  pub effects : Inserts z.inserts indices.effects

pub index_project-Bounded : (p : Project) → Bounded (sizes_of p) (index_project p)
unfolding index_project
index_project-Bounded p = record {
  instruments = number_instruments-Values 0 (length p.instruments) p.instruments (omega arith);
  audio =
      number_audio-Values (length p.instruments) (length p.instruments) (audio_count p.clips)
        p.clips refl (ground arith);
  effects = number_effects-Inserts 0 (insert_count p.mixer_tracks) p.mixer_tracks (ground arith);
}

points_to_params-addressed :
    (z : Sizes) (clip : Clip) (i : ℕ) (parameter : ParamId) (points : List AutomationPoint)
    → is_rack z.rack i ≡ true
    → All (λ q. param_addressed z q ≡ true) (points_to_params clip i parameter points)
unfolding points_to_params
points_to_params-addressed z clip i parameter [] h = tt
points_to_params-addressed z clip i parameter (point ∷ points) h =
    elim (Bool-cases (ltb_ℤ point.position (pos 0) || leb_ℤ clip.length point.position)) [
      | inl e ↦ rw e (points_to_params-addressed z clip i parameter points h)
      | inr e ↦ rw e (h, points_to_params-addressed z clip i parameter points h)
    ]

points_to_effect_params-addressed :
    (z : Sizes) (clip : Clip) (i : ℕ) (parameter : ParamId) (points : List AutomationPoint)
    → ltb i z.inserts ≡ true
    → All (λ q. effect_addressed z q ≡ true) (points_to_effect_params clip i parameter points)
unfolding points_to_effect_params
points_to_effect_params-addressed z clip i parameter [] h = tt
points_to_effect_params-addressed z clip i parameter (point ∷ points) h =
    elim (Bool-cases (ltb_ℤ point.position (pos 0) || leb_ℤ clip.length point.position)) [
      | inl e ↦ rw e (points_to_effect_params-addressed z clip i parameter points h)
      | inr e ↦ rw e (h, points_to_effect_params-addressed z clip i parameter points h)
    ]

pub OnIndex-some : (q : ℕ → Bool) (o : Option ℕ) (i : ℕ) → OnIndex q o → o ≡ some i → q i ≡ true
OnIndex-some q o i h e = subst (OnIndex q) e h

module _ (z : Sizes) (indices : Indices) (b : Bounded z indices) where
  resolve_target-Addressed :
      (clip : Clip) (source : AutomationSource) (kind : TargetKind) (st : Resolved)
      → Addressed z st
      → Addressed z (resolve_target indices clip source kind st).0
  unfolding resolve_target
  resolve_target-Addressed clip source TargetKind.mixer_track st h = h
  resolve_target-Addressed clip source TargetKind.instrument st h =
      elim (Option-cases (find source.instrument indices.instruments)) [
        | inl f ↦ rw (f, resolve_target) h
        | inr (i, f) ↦
            rw (f, resolve_target)
              (record {
                notes = h.notes;
                params =
                    All-append (λ q. param_addressed z q ≡ true) st.params
                      (points_to_params clip i source.parameter source.points) h.params
                      (points_to_params-addressed z clip i source.parameter source.points (
                        OnIndex-some (is_rack z.rack) (find source.instrument indices.instruments) i
                          (find-OnIndex (is_rack z.rack) source.instrument indices.instruments
                            b.instruments)
                          f));
                effect_params = h.effect_params;
                audio_starts = h.audio_starts;
              })
      ]
  resolve_target-Addressed clip source TargetKind.effect st h =
      elim (Option-cases (find_effect_index source.mixer_track source.effect indices.effects)) [
        | inl f ↦ rw (f, resolve_target) h
        | inr (i, f) ↦
            rw (f, resolve_target)
              (record {
                notes = h.notes;
                params = h.params;
                effect_params =
                    All-append (λ q. effect_addressed z q ≡ true) st.effect_params
                      (points_to_effect_params clip i source.parameter source.points)
                      h.effect_params
                      (points_to_effect_params-addressed z clip i source.parameter source.points (
                        OnIndex-some (λ j. ltb j z.inserts)
                          (find_effect_index source.mixer_track source.effect indices.effects) i
                          (find_effect_index-OnIndex source.mixer_track source.effect z.inserts
                            indices.effects b.effects)
                          f));
                audio_starts = h.audio_starts;
              })
      ]

  pub resolve_automation-Addressed :
      (clip : Clip) (sources : List AutomationSource) (st : Resolved)
      → Addressed z st
      → Addressed z (resolve_automation indices clip sources st)
  unfolding resolve_automation
  resolve_automation-Addressed clip [] st h = h
  resolve_automation-Addressed clip (source ∷ sources) st h =
      resolve_automation-Addressed clip sources (resolve_curve indices clip source st).0
        (resolve_target-Addressed clip source source.target_kind st h)

  -- counters do not matter
  pub recount :
      (st : Resolved) (n m : ℕ) (end : Ticks)
      → Addressed z st
      → Addressed z (record st { clips_flattened = n; notes_dropped = m; end_ticks = end })
  recount st n m end h = record {
    notes = h.notes;
    params = h.params;
    effect_params = h.effect_params;
    audio_starts = h.audio_starts;
  }

  pub resolve_automation_clip-Addressed :
      (clip : Clip) (source : AutomationSource) (st : Resolved)
      → Addressed z st
      → Addressed z (resolve_automation_clip indices clip source st)
  unfolding resolve_automation_clip
  resolve_automation_clip-Addressed clip source st h =
      let r = resolve_curve indices clip source st in
      elim (Bool-cases r.1) [
        | inl e ↦ rw e (
            recount r.0 (suc r.0.clips_flattened) r.0.notes_dropped r.0.end_ticks
              (resolve_target-Addressed clip source source.target_kind st h))
        | inr e ↦ rw e h
      ]

  pub resolve_audio_clip-Addressed :
      (id : ClipId) (clip : Clip) (st : Resolved)
      → Addressed z st
      → Addressed z (resolve_audio_clip indices id clip st)
  unfolding resolve_audio_clip
  resolve_audio_clip-Addressed id clip st h = elim (Option-cases (find id indices.audio)) [
    | inl f ↦ rw (f, resolve_audio_clip) h
    | inr (i, f) ↦
        rw (f, resolve_audio_clip)
          (record {
            notes = h.notes;
            params = h.params;
            effect_params = h.effect_params;
            audio_starts =
                All-append (λ a. audio_addressed z a ≡ true) st.audio_starts
                  (record { start = clip.start; channel = i } ∷ []) h.audio_starts
                  (
                    OnIndex-some (is_audio_channel z.rack z.audio) (find id indices.audio) i
                        (find-OnIndex (is_audio_channel z.rack z.audio) id indices.audio b.audio) f,
                    tt,
                  );
          })
  ]
