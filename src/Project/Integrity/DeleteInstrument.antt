-- ===== src/Project/Integrity/DeleteInstrument.antt =====
-- `deleteInstrument` of engine/src/model/project.cpp.
use onebeat.Prelude.{
  ◌≡◌, refl, sym, ◌∙◌, ap, subst, inl, inr, true, false, arith, none, some, if◌then◌else◌,
  Bool-cases, Option-cases,
}
use onebeat.Prelude.Map.{Map, find, erase, has, map_entries, find-erase, find-map_entries}
use onebeat.Prelude.Map.Keys.{over, holds, has-some, mem-keys_where}
use onebeat.Prelude.Map.Ordered.{IsOrdered, erase-IsOrdered, map_entries-IsOrdered}
use onebeat.Notes.{NoteSequence}
use onebeat.Ids.{InstrumentId, PatternId, ClipId}
use onebeat.Ids.Order.{id_key, id_eq, id_eq_iff}
use onebeat.Entities.{Pattern, Clip, ClipSource, pattern_source, audio_source, automation_source}
use onebeat.Project.{Project, emit}
use onebeat.Project.Impact.{instrument_impact, automates_instrument}
use onebeat.Project.Delete.{delete_instrument, without_sequence, erase_sequences}
use onebeat.Project.Create.{source_resolves}
use onebeat.Project.Integrity.{Integrity, ClipOk, PatternOk}
use onebeat.Project.Integrity.Keep.{ClipOk-keep, target_resolves-keep}
use onebeat.Project.Integrity.Cascade.{
  delete_clips-ClipsOnly, find-delete_clips, delete_clips-IsOrdered, announce_erased-EventsOnly,
}

-- `q` is `p` without the instrument, its sequences and the automation clips that drive it.
pub record InstrumentDeleted (p : Project) (id : InstrumentId) (q : Project) : Type 0 where
  pub rest : q ≡ record p {
    instruments = q.instruments;
    patterns = q.patterns;
    clips = q.clips;
    emitted = q.emitted;
  }
  pub instruments :
      (k : InstrumentId)
      → find k q.instruments ≡ (if id_eq id k then none else find k p.instruments)
  pub patterns :
      (k : PatternId) → find k q.patterns ≡ over (without_sequence id) (find k p.patterns)
  pub clips :
      (c : ClipId)
      → find c q.clips ≡ (
          if holds (λ _ clip. automates_instrument id clip.source) c (find c p.clips)
          then none
          else find c p.clips)
  pub instruments_ordered : IsOrdered q.instruments
  pub patterns_ordered : IsOrdered q.patterns
  pub clips_ordered : IsOrdered q.clips

module _ (p : Project) (id : InstrumentId) where
  erased_patterns : Map PatternId Pattern
  erased_patterns = map_entries (λ _ pattern. without_sequence id pattern) p.patterns

  erase_sequences-shape :
      erase_sequences p id
      ≡ record p { patterns = erased_patterns; emitted = (erase_sequences p id).emitted }
  unfolding erase_sequences erased_patterns
  erase_sequences-shape =
      announce_erased-EventsOnly
        (record p { patterns = map_entries (λ _ pattern. without_sequence id pattern) p.patterns })
        id p.patterns

  -- Where the tables are ordered, deleting an instrument that is there removes it, its sequence from every
  -- pattern, and every automation clip that drives it, and changes no other table, no other entry and nothing
  -- else of a pattern: the curves that a pattern owns stay as they are, those on the instrument included.
  pub delete_instrument_lem :
      IsOrdered p.instruments
      → IsOrdered p.patterns
      → IsOrdered p.clips
      → has id p.instruments ≡ true
      → ((delete_instrument p id).1 ≡ true) × InstrumentDeleted p id (delete_instrument p id).0
  unfolding delete_instrument emit instrument_impact erased_patterns
  delete_instrument_lem oi op oc h =
      let p1 = erase_sequences p id in
      let ids = (instrument_impact p1 id).clips in
      let shape1 = erase_sequences-shape in
      let shape2 = delete_clips-ClipsOnly p1 ids in
      let clips1 = ap (λ q. q.clips) shape1 in
      let patterns2 = ap (λ q. q.patterns) shape2 ∙ ap (λ q. q.patterns) shape1 in
      let instruments2 = ap (λ q. q.instruments) shape2 ∙ ap (λ q. q.instruments) shape1 in
      rw (h, delete_instrument)
        (
          refl,
          record {
            rest = ground (arith, shape1, shape2);
            instruments =
                λ k. ap (λ m. find k (erase id m)) instruments2 ∙ find-erase id k p.instruments;
            patterns = λ k. ground (
              arith,
              ap (find k) patterns2,
              find-map_entries (λ _ pattern. without_sequence id pattern) k p.patterns,
            );
            clips = λ c.
                find-delete_clips p1 ids c
                ∙ rw clips1 (
                    ap (λ b. if b then none else find c p.clips)
                      (mem-keys_where (λ _ clip. automates_instrument id clip.source) c p.clips
                        oc));
            instruments_ordered = rw instruments2 (erase-IsOrdered id p.instruments oi);
            patterns_ordered = rw patterns2 (map_entries-IsOrdered _ p.patterns op);
            clips_ordered = delete_clips-IsOrdered p1 ids (rw clips1 oc);
          },
        )

  delete_instrument_missing : has id p.instruments ≡ false → (delete_instrument p id).0 ≡ p
  unfolding delete_instrument
  delete_instrument_missing h = ground arith

module _ (p : Project) (id : InstrumentId) (q : Project) (d : InstrumentDeleted p id q) where
  instrument_there :
      (k : InstrumentId)
      → id_eq id k ≡ false
      → has k p.instruments ≡ true
      → has k q.instruments ≡ true
  instrument_there k n h = rw (d.instruments k, n) h

  source_kept :
      (s : ClipSource)
      → automates_instrument id s ≡ false
      → source_resolves p s ≡ true
      → source_resolves q s ≡ true
  source_kept (pattern_source k) u h = let (r, e) = has-some k p.patterns h in rw (d.patterns k, e)
  source_kept (audio_source a) u h = rw (ap (λ r. r.mixer_tracks) d.rest) h
  source_kept (automation_source a) u h =
      target_resolves-keep p q a a.target_kind
        (λ kind i.
          instrument_there a.instrument
            (ground (arith, id_eq_iff id a.instrument, id_eq_iff a.instrument id)) i)
        (λ t e. (t, rw (ap (λ r. r.mixer_tracks) d.rest) e, refl)) h

  clip_kept : Integrity p → (k : ClipId) (c : Clip) → find k q.clips ≡ some c → ClipOk q c
  clip_kept v k c e =
      let (was, unused) = there in
      let ok = v.clips k c was in
      ClipOk-keep p q c ok (rw (ap (λ r. r.lanes) d.rest) ok.lane)
        (source_kept c.source unused ok.source)
    where
      there : (find k p.clips ≡ some c) × (automates_instrument id c.source ≡ false)
      there = ground (arith, d.clips k)

  pattern_was :
      (k : PatternId) (r : Pattern)
      → find k q.patterns ≡ some r
      → (before : Pattern) × (find k p.patterns ≡ some before) × (r ≡ without_sequence id before)
  pattern_was k r e = elim (Option-cases (find k p.patterns)) [
    | inl n ↦ absurd (ground (arith, d.patterns k))
    | inr (m, s) ↦ (m, s, ground (arith, d.patterns k))
  ]

  pattern_kept :
      (before : Pattern)
      → PatternOk p.instruments before
      → PatternOk q.instruments (without_sequence id before)
  pattern_kept before ok = record {
    ordered = erase-IsOrdered id before.sequences ok.ordered;
    each = λ i s e.
        let (was, other) = sequence_was i s e in
        let good = ok.each i s was in
        record {
          instrument = instrument_there i other good.instrument;
          sparse = good.sparse;
          sorted = good.sorted;
          notes = good.notes;
        };
  }
    where
      sequence_was :
          (i : InstrumentId) (s : NoteSequence)
          → find i (erase id before.sequences) ≡ some s
          → (find i before.sequences ≡ some s) × (id_eq id i ≡ false)
      sequence_was i s e = ground (arith, find-erase id i before.sequences)

  deleted-Integrity : Integrity p → Integrity q
  deleted-Integrity v = subst Integrity (sym d.rest) (record {
    ordered = record {
      instruments = d.instruments_ordered;
      patterns = d.patterns_ordered;
      lanes = v.ordered.lanes;
      clips = d.clips_ordered;
      mixer_tracks = v.ordered.mixer_tracks;
    };
    instruments = λ k i e. v.instruments k i (ground (arith, d.instruments k));
    patterns = λ k r e.
        let (before, was, change) = pattern_was k r e in
        rw change (pattern_kept before (v.patterns k before was));
    lanes = v.lanes;
    lane_orders = v.lane_orders;
    clips = λ k c e. subst (λ r. ClipOk r c) d.rest (clip_kept v k c e);
    mixer = v.mixer;
  })

-- Deleting an instrument of a project with the integrity that checkReferentialIntegrity demands, or one
-- that is not there, leaves such a project: the references that it checks resolve. It does not check the
-- curves that patterns own; one on the instrument is left with no target.
pub delete_instrument-Integrity :
    (p : Project) (id : InstrumentId) → Integrity p → Integrity (delete_instrument p id).0
delete_instrument-Integrity p id v = elim (Bool-cases (has id p.instruments)) [
  | inl e ↦
      deleted-Integrity p id (delete_instrument p id).0
        (delete_instrument_lem p id v.ordered.instruments v.ordered.patterns v.ordered.clips e).1 v
  | inr e ↦ subst Integrity (sym (delete_instrument_missing p id e)) v
]
