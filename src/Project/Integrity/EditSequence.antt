-- ===== src/Project/Integrity/EditSequence.antt =====
-- Editing and restoring the notes of an instrument in a pattern, and the integrity of a project.
use onebeat.Prelude.{
  ◌≡◌, refl, sym, ◌∙◌, ap, subst, ◌⊎◌, inl, inr, Bool, true, false, not, arith, Option, none, some,
  List, [], ◌∷◌, All, if◌then◌else◌, is_some, Bool-cases, Option-cases,
}
use onebeat.Prelude.Map.{Map, find, assign, adjust, has, find-erase, find-assign, find-adjust}
use onebeat.Prelude.Map.Ordered.{erase-IsOrdered, assign-IsOrdered, adjust-IsOrdered}
use onebeat.Notes.{NoteSequence, empty, sequence_is_sorted}
use onebeat.Notes.Order.{IsValidNote}
use onebeat.Changes.{ChangeEvent}
use onebeat.Ids.{InstrumentId, PatternId}
use onebeat.Ids.Order.{id_key, id_eq, id_eq_iff}
use onebeat.Entities.{
  Instrument, Pattern, ClipSource, pattern_source, audio_source, automation_source,
}
use onebeat.Project.{Project, emit}
use onebeat.Project.Create.{source_resolves}
use onebeat.Project.Modify.{edit_sequence, update_sequence}
use onebeat.Project.Restore.{put_sequence, restore_sequence}
use onebeat.Project.Integrity.{Integrity, PatternOk, SequenceOk}
use onebeat.Project.Integrity.Keep.{ClipOk-keep, target_resolves-keep}

-- A sequence that a pattern may hold, or that is empty.
abbrev pub NotesOk : NoteSequence → Type 0
NotesOk s = (sequence_is_sorted s ≡ true) × All IsValidNote s.notes

put-PatternOk :
    (instruments : Map InstrumentId Instrument) (i : InstrumentId) (s : NoteSequence) (q : Pattern)
    → has i instruments ≡ true
    → NotesOk s
    → PatternOk instruments q
    → PatternOk instruments (put_sequence i s q)
put-PatternOk instruments i s q there good ok = elim (Bool-cases (empty s)) [
  | inl h ↦ rw h (record {
    ordered = erase-IsOrdered i q.sequences ok.ordered;
    each = λ k t e. ok.each k t (ground (arith, find-erase i k q.sequences));
  })
  | inr h ↦ rw h (record {
    ordered = assign-IsOrdered i s q.sequences ok.ordered;
    each = λ k t e. put h k t (Bool-cases (id_eq i k)) e;
  })
]
  where
    put :
        empty s ≡ false
        → (k : InstrumentId) (t : NoteSequence) → (id_eq i k ≡ true) ⊎ (id_eq i k ≡ false)
        → find k (assign i s q.sequences) ≡ some t
        → SequenceOk instruments k t
    put h k t (inr n) e = ok.each k t (ground (arith, find-assign i k s q.sequences))
    put h k t (inl y) e =
        let same : s ≡ t = ground (arith, find-assign i k s q.sequences) in
        subst (SequenceOk instruments k) same (record {
          instrument = ap (λ j. has j instruments) (sym ((id_eq_iff i k).0 y)) ∙ there;
          sparse = h;
          sorted = good.0;
          notes = good.1;
        })

module _ (p : Project) (v : Integrity p) (id : PatternId) (f : Pattern → Pattern)
    (good : (q : Pattern) → PatternOk p.instruments q → PatternOk p.instruments (f q)) where
  abbrev with_edit : List ChangeEvent → Project
  with_edit events = record p { patterns = adjust id f p.patterns; emitted = events }

  pattern_ok :
      (k : PatternId) (r : Pattern)
      → find k (adjust id f p.patterns) ≡ some r
      → PatternOk p.instruments r
  pattern_ok k r e = elim (Option-cases (find k p.patterns)) [
    | inl n ↦ absurd (ground (arith, find-adjust id k f p.patterns))
    | inr (q, s) ↦ changed q s (Bool-cases (id_eq id k))
  ]
    where
      changed :
          (q : Pattern)
          → find k p.patterns ≡ some q
          → (id_eq id k ≡ true) ⊎ (id_eq id k ≡ false)
          → PatternOk p.instruments r
      changed q s (inl h) =
          let same : f q ≡ r = ground (arith, find-adjust id k f p.patterns) in
          subst (PatternOk p.instruments) same (good q (v.patterns k q s))
      changed q s (inr h) = v.patterns k r (ground (arith, find-adjust id k f p.patterns))

  source_kept :
      (events : List ChangeEvent) (s : ClipSource)
      → source_resolves p s ≡ true
      → source_resolves (with_edit events) s ≡ true
  source_kept events (pattern_source k) h = ground (arith, find-adjust id k f p.patterns)
  source_kept events (audio_source a) h = h
  source_kept events (automation_source a) h =
      target_resolves-keep p (with_edit events) a a.target_kind (λ _ i. i) (λ t e. (t, e, refl)) h

  pub edited-Integrity : (events : List ChangeEvent) → Integrity (with_edit events)
  edited-Integrity events = record {
    ordered = record {
      instruments = v.ordered.instruments;
      patterns = adjust-IsOrdered id f p.patterns v.ordered.patterns;
      lanes = v.ordered.lanes;
      clips = v.ordered.clips;
      mixer_tracks = v.ordered.mixer_tracks;
    };
    instruments = v.instruments;
    patterns = pattern_ok;
    lanes = v.lanes;
    lane_orders = v.lane_orders;
    clips = λ k c e.
        let ok = v.clips k c e in
        ClipOk-keep p (with_edit events) c ok ok.lane (source_kept events c.source ok.source);
    mixer = v.mixer;
  }

-- What an edit starts from.
abbrev or_new : Option NoteSequence → NoteSequence
or_new o = elim o [ none ↦ record { notes = [] } | some s ↦ s ]

abbrev before : InstrumentId → Pattern → NoteSequence
before i q = or_new (find i q.sequences)

new_sequence-NotesOk : NotesOk (record { notes = [] })
unfolding sequence_is_sorted onebeat.Prelude.Sorting.is_sorted
new_sequence-NotesOk = (refl, tt)

before-NotesOk :
    (instruments : Map InstrumentId Instrument) (i : InstrumentId) (q : Pattern)
    → PatternOk instruments q
    → NotesOk (before i q)
before-NotesOk instruments i q ok = of_entry (find i q.sequences) refl
  where
    of_entry : (o : Option NoteSequence) → find i q.sequences ≡ o → NotesOk (or_new o)
    of_entry none e = new_sequence-NotesOk
    of_entry (some s) e = ((ok.each i s e).sorted, (ok.each i s e).notes)

-- Editing a sequence keeps a sound project sound, where the edit keeps notes valid and in
-- canonical order: the sequence is created where it is absent, and goes where it ends up empty.
pub update_sequence-Integrity :
    (p : Project) (pattern : PatternId) (instrument : InstrumentId)
    (edit : NoteSequence → NoteSequence)
    → Integrity p
    → ((s : NoteSequence) → NotesOk s → NotesOk (edit s))
    → Integrity (update_sequence p pattern instrument edit).0
unfolding update_sequence emit
update_sequence-Integrity p pattern instrument edit v keeps =
    elim (Bool-cases (has pattern p.patterns)) [
      | inr h ↦ rw (update_sequence, h) v
      | inl h ↦ elim (Bool-cases (has instrument p.instruments)) [
        | inr k ↦ rw (update_sequence, h, k) v
        | inl k ↦
            rw (update_sequence, h, k)
              (edited-Integrity p v pattern (edit_sequence instrument edit)
                (λ q ok.
                  put-PatternOk p.instruments instrument (edit (before instrument q)) q k
                    (keeps (before instrument q) (before-NotesOk p.instruments instrument q ok)) ok)
                _)
      ]
    ]

-- Restoring the sequence of an instrument keeps a sound project sound, where its notes are valid
-- and in canonical order.
pub restore_sequence-Integrity :
    (p : Project) (pattern : PatternId) (instrument : InstrumentId) (s : NoteSequence)
    → Integrity p
    → NotesOk s
    → Integrity (restore_sequence p pattern instrument s).0
unfolding restore_sequence emit
restore_sequence-Integrity p pattern instrument s v good =
    elim (Bool-cases (has pattern p.patterns)) [
      | inr h ↦ rw (restore_sequence, h) v
      | inl h ↦ elim (Bool-cases (has instrument p.instruments)) [
        | inr k ↦ rw (restore_sequence, h, k) v
        | inl k ↦
            rw (restore_sequence, h, k)
              (edited-Integrity p v pattern (put_sequence instrument s)
                (λ q ok. put-PatternOk p.instruments instrument s q k good ok) _)
      ]
    ]
