-- ===== src/Flatten/Resolve/Loops/Ends.antt =====
-- The loops of the flattener over lanes, clips, sequences and notes, and what they collect.
use onebeat.Prelude.{
  ℕ, suc, ◌≡◌, refl, inl, inr, true, false, not, ◌&&◌, ◌||◌, List, [], ◌∷◌, ◌++◌, map, Option, none,
  some, arith, All, All-append, Bool-cases, Option-cases,
}
use onebeat.Prelude.Int.{ℤ, pos, ltb_ℤ, leb_ℤ, ◌+ℤ◌, max_ℤ}
use onebeat.Prelude.Map.{Map, find}
use onebeat.Notes.{Note, NoteSequence}
use onebeat.Ids.{InstrumentId, ArrangementLaneId, ClipId}
use onebeat.Ids.Order.{id_key}
use onebeat.Entities.{
  Float, Instrument, Pattern, ClipSource, pattern_source, audio_source, automation_source, Clip,
  pattern_effective_length,
}
use onebeat.Project.{Project}
use onebeat.Project.Impact.{clips_on_lane}
use onebeat.Transport.{Doubles}
use onebeat.Flatten.{Occurrence, audible_lanes}
use onebeat.Flatten.Laps.Inside.{collect_occurrences-InClip}
use onebeat.Flatten.Resolve.Channels.{is_rack, find-OnIndex}
use onebeat.Flatten.Resolve.{
  Floats, Indices, index_project, Resolved, nothing_resolved, resolve_automation,
  resolve_automation_clip, resolve_audio_clip,
}
use onebeat.Flatten.Resolve.Loops.{
  place, any_instrument_solo, velocity_of, swung_note, resolve_note, resolve_notes,
  resolve_sequence, resolve_sequences, resolve_pattern_clip, resolve_source, flatten_clip,
  flatten_clips, resolve_lanes, resolve_project,
}
use onebeat.Flatten.Resolve.Sound.{
  Sizes, sizes_of, note_addressed, Addressed, Bounded, index_project-Bounded, OnIndex-some,
  resolve_automation-Addressed, recount, resolve_automation_clip-Addressed,
  resolve_audio_clip-Addressed,
}

place-addressed :
    (z : Sizes) (clip : Clip) (i : ℕ) (key : ℤ) (velocity : Float) (os : List Occurrence)
    → is_rack z.rack i ≡ true
    → (ltb_ℤ key (pos 0) || ltb_ℤ (pos 127) key) ≡ false
    → All (λ n. note_addressed z n ≡ true) (map (place clip i key velocity) os)
place-addressed z clip i key velocity [] h k = tt
place-addressed z clip i key velocity (o ∷ os) h k =
    (ground arith, place-addressed z clip i key velocity os h k)

module _ (z : Sizes) (indices : Indices) (b : Bounded z indices) where
  -- The loop ends, and what it leaves is addressed.
  abbrev Resolves : Option Resolved → Type 0
  Resolves o = (next : Resolved) × (o ≡ some next) × Addressed z next

  module _ (doubles : Doubles) (floats : Floats doubles) (p : Project) where
    resolve_note-Resolves :
        (clip : Clip) (pattern : Pattern) (instrument : Instrument) (i : ℕ) (note : Note)
        (st : Resolved)
        → is_rack z.rack i ≡ true
        → Addressed z st
        → Resolves (resolve_note doubles floats clip pattern instrument i note st)
    unfolding resolve_note
    resolve_note-Resolves clip pattern instrument i note st k h =
        let key = note.key +ℤ clip.transforms.transpose in
        let settings = instrument.channel_settings in
        let swung = swung_note doubles floats pattern settings note in
        let dropped : Resolves (some (record st { notes_dropped = suc st.notes_dropped })) = (
          record st { notes_dropped = suc st.notes_dropped },
          refl,
          recount z indices b st st.clips_flattened (suc st.notes_dropped) st.end_ticks h,
        ) in
        let c = collect_occurrences-InClip swung clip (pattern_effective_length pattern) in
        elim (Bool-cases (ltb_ℤ key (pos 0) || ltb_ℤ (pos 127) key)) [
          | inl e ↦ rw (e, resolve_note) dropped
          | inr e ↦ elim (Bool-cases (ltb_ℤ key settings.key_low || ltb_ℤ settings.key_high key)) [
            | inl f ↦ rw (e, f, resolve_note) dropped
            | inr f ↦
                rw (e, f, c.1, resolve_note)
                  (
                    record st {
                      notes =
                          st.notes
                          ++ map
                              (place clip i key (
                                velocity_of doubles floats note.velocity
                                  settings.velocity_tracking))
                              c.0;
                    },
                    refl,
                    record {
                      notes =
                          All-append (λ n. note_addressed z n ≡ true) st.notes
                            (map
                              (place clip i key (
                                velocity_of doubles floats note.velocity
                                  settings.velocity_tracking))
                              c.0)
                            h.notes
                            (place-addressed z clip i key
                              (velocity_of doubles floats note.velocity settings.velocity_tracking)
                              c.0 k e);
                      params = h.params;
                      effect_params = h.effect_params;
                      audio_starts = h.audio_starts;
                    },
                  )
          ]
        ]

    -- A step that resolves, and then the rest of a loop.
    Resolves-next :
        (o : Option Resolved) (rest : Resolved → Option Resolved)
        → Resolves o
        → ((next : Resolved) → Addressed z next → Resolves (rest next))
        → Resolves (elim o [ none ↦ none | some next ↦ rest next ])
    Resolves-next o rest r f = rw r.1 (f r.0 r.2)

    resolve_notes-Resolves :
        (clip : Clip) (pattern : Pattern) (instrument : Instrument) (i : ℕ) (notes : List Note)
        (st : Resolved)
        → is_rack z.rack i ≡ true
        → Addressed z st
        → Resolves (resolve_notes doubles floats clip pattern instrument i notes st)
    unfolding resolve_notes
    resolve_notes-Resolves clip pattern instrument i [] st k h = (st, refl, h)
    resolve_notes-Resolves clip pattern instrument i (note ∷ notes) st k h =
        Resolves-next (resolve_note doubles floats clip pattern instrument i note st)
          (resolve_notes doubles floats clip pattern instrument i notes)
          (resolve_note-Resolves clip pattern instrument i note st k h)
          (λ next a. resolve_notes-Resolves clip pattern instrument i notes next k a)

    resolve_sequence-Resolves :
        (clip : Clip) (pattern : Pattern) (id : InstrumentId) (sequence : NoteSequence)
        (st : Resolved)
        → Addressed z st
        → Resolves (resolve_sequence doubles floats p indices clip pattern id sequence st)
    unfolding resolve_sequence
    resolve_sequence-Resolves clip pattern id sequence st h =
        let unchanged : Resolves (some st) = (st, refl, h) in
        elim (Option-cases (find id p.instruments)) [
          | inl e ↦ rw (e, resolve_sequence) unchanged
          | inr (instrument, e) ↦
              elim (Bool-cases (
                instrument.muted || (any_instrument_solo p.instruments && not instrument.soloed))) [
                  | inl f ↦ rw (e, f, resolve_sequence) unchanged
                  | inr f ↦ elim (Option-cases (find id indices.instruments)) [
                    | inl g ↦ rw (e, f, g, resolve_sequence) unchanged
                    | inr (i, g) ↦
                        rw (e, f, g, resolve_sequence)
                          (resolve_notes-Resolves clip pattern instrument i sequence.notes st
                            (OnIndex-some (is_rack z.rack) (find id indices.instruments) i
                              (find-OnIndex (is_rack z.rack) id indices.instruments b.instruments)
                              g)
                            h)
                  ]
                ]
        ]

    resolve_sequences-Resolves :
        (clip : Clip) (pattern : Pattern) (m : Map InstrumentId NoteSequence) (st : Resolved)
        → Addressed z st
        → Resolves (resolve_sequences doubles floats p indices clip pattern m st)
    unfolding resolve_sequences
    resolve_sequences-Resolves clip pattern [] st h = (st, refl, h)
    resolve_sequences-Resolves clip pattern ((id, sequence) ∷ rest) st h =
        Resolves-next (resolve_sequence doubles floats p indices clip pattern id sequence st)
          (resolve_sequences doubles floats p indices clip pattern rest)
          (resolve_sequence-Resolves clip pattern id sequence st h)
          (resolve_sequences-Resolves clip pattern rest)

    resolve_pattern_clip-Resolves :
        (clip : Clip) (pattern : Pattern) (st : Resolved)
        → Addressed z st
        → Resolves (resolve_pattern_clip doubles floats p indices clip pattern st)
    unfolding resolve_pattern_clip
    resolve_pattern_clip-Resolves clip pattern st h =
        elim (Bool-cases (leb_ℤ (pattern_effective_length pattern) (pos 0))) [
          | inl e ↦ rw (e, resolve_pattern_clip) (st, refl, h)
          | inr e ↦
              let counted = record st { clips_flattened = suc st.clips_flattened } in
              rw (e, resolve_pattern_clip)
                (Resolves-next
                  (resolve_sequences doubles floats p indices clip pattern pattern.sequences
                    counted)
                  (λ next. some (resolve_automation indices clip pattern.automation next))
                  (resolve_sequences-Resolves clip pattern pattern.sequences counted (
                    recount z indices b st (suc st.clips_flattened) st.notes_dropped st.end_ticks
                      h))
                  (λ next a. (
                    resolve_automation indices clip pattern.automation next,
                    refl,
                    resolve_automation-Addressed z indices b clip pattern.automation next a,
                  )))
        ]

    resolve_source-Resolves :
        (id : ClipId) (clip : Clip) (source : ClipSource) (st : Resolved)
        → Addressed z st
        → Resolves (resolve_source doubles floats p indices id clip source st)
    unfolding resolve_source
    resolve_source-Resolves id clip (pattern_source q) st h =
        elim (Option-cases (find q p.patterns)) [
          | inl e ↦ rw (e, resolve_source) (st, refl, h)
          | inr (pattern, e) ↦
              rw (e, resolve_source) (resolve_pattern_clip-Resolves clip pattern st h)
        ]
    resolve_source-Resolves id clip (audio_source a) st h = (
      resolve_audio_clip indices id clip st,
      refl,
      resolve_audio_clip-Addressed z indices b id clip st h,
    )
    resolve_source-Resolves id clip (automation_source a) st h = (
      resolve_automation_clip indices clip a st,
      refl,
      resolve_automation_clip-Addressed z indices b clip a st h,
    )

    flatten_clip-Resolves :
        (id : ClipId) (st : Resolved)
        → Addressed z st
        → Resolves (flatten_clip doubles floats p indices id st)
    unfolding flatten_clip
    flatten_clip-Resolves id st h = elim (Option-cases (find id p.clips)) [
      | inl e ↦ rw (e, flatten_clip) (st, refl, h)
      | inr (clip, e) ↦ elim (Bool-cases (clip.muted || leb_ℤ clip.length (pos 0))) [
        | inl f ↦ rw (e, f, flatten_clip) (st, refl, h)
        | inr f ↦
            rw (e, f, flatten_clip)
              (resolve_source-Resolves id clip clip.source
                (record st { end_ticks = max_ℤ st.end_ticks (clip.start +ℤ clip.length) })
                (recount z indices b st st.clips_flattened st.notes_dropped
                  (max_ℤ st.end_ticks (clip.start +ℤ clip.length)) h))
      ]
    ]

    flatten_clips-Resolves :
        (ids : List ClipId) (st : Resolved)
        → Addressed z st
        → Resolves (flatten_clips doubles floats p indices ids st)
    unfolding flatten_clips
    flatten_clips-Resolves [] st h = (st, refl, h)
    flatten_clips-Resolves (id ∷ ids) st h =
        Resolves-next (flatten_clip doubles floats p indices id st)
          (flatten_clips doubles floats p indices ids) (flatten_clip-Resolves id st h)
          (flatten_clips-Resolves ids)

    resolve_lanes-Resolves :
        (lanes : List ArrangementLaneId) (st : Resolved)
        → Addressed z st
        → Resolves (resolve_lanes doubles floats p indices lanes st)
    unfolding resolve_lanes
    resolve_lanes-Resolves [] st h = (st, refl, h)
    resolve_lanes-Resolves (lane ∷ lanes) st h =
        Resolves-next (flatten_clips doubles floats p indices (clips_on_lane p lane) st)
          (resolve_lanes doubles floats p indices lanes)
          (flatten_clips-Resolves (clips_on_lane p lane) st h) (resolve_lanes-Resolves lanes)

-- The loops over lanes, clips and notes end, and what they collect is addressed to what the project has.
pub resolve_project-Addressed :
    (doubles : Doubles) (floats : Floats doubles) (p : Project)
    → (r : Resolved) × (resolve_project doubles floats p ≡ some r) × Addressed (sizes_of p) r
unfolding resolve_project
resolve_project-Addressed doubles floats p =
    resolve_lanes-Resolves (sizes_of p) (index_project p) (index_project-Bounded p) doubles floats p
      (audible_lanes p) nothing_resolved
      (record { notes = tt; params = tt; effect_params = tt; audio_starts = tt })
