-- ===== src/Project/Integrity/Create.antt =====
-- Creation and the integrity of a project.
pub mod Clips
pub mod Tracks
pub mod Instruments
use onebeat.Prelude.{
  ℕ, suc, ◌<◌, ◌≤◌, ◌≡◌, ◌≢◌, refl, sym, ◌∙◌, ap, subst, ◌⊎◌, inl, inr, Bool, true, false, not,
  ◌&&◌, arith, Option, none, some, List, [], ◌∷◌, All, String, if◌then◌else◌, is_some, Bool-cases,
  Option-cases,
}
use onebeat.Prelude.Int.{ℤ, pos, negsuc, ◌+ℤ◌, ◌≤ℤ◌, ◌<ℤ◌, max_ℤ, +ℤ_parts}
use onebeat.Prelude.Map.{Map, find, emplace, has, find-emplace}
use onebeat.Prelude.Map.Keys.{has-some}
use onebeat.Prelude.Map.Ordered.{IsOrdered, emplace-IsOrdered}
use onebeat.Notes.{Ticks, NoteSequence}
use onebeat.Ids.{
  EntityKind, TypedId, InstrumentId, PatternId, ArrangementLaneId, ClipId, MixerTrackId, next_id,
}
use onebeat.Ids.Order.{id_key, id_eq, id_eq_iff}
use onebeat.Entities.{
  Instrument, Pattern, ArrangementLane, Clip, MixerTrack, ClipSource, pattern_source, audio_source,
  automation_source, AutomationSource, TargetKind,
}
use onebeat.Project.{Project, emit}
use onebeat.Project.Create.{
  create_lane, create_pattern, create_clip, create_mixer_track, highest_order, next_order,
  fresh_lane, fresh_pattern, source_resolves, target_resolves,
}
use onebeat.Project.Integrity.{
  Integrity, TablesOrdered, LaneOk, PatternOk, ClipOk, MixerOk, SlotsOk, WindowOk, InstrumentOk,
  RoutesResolve,
}
use onebeat.Project.Integrity.Keep.{ClipOk-keep, source_resolves-same, target_resolves-keep}

module _ {K : EntityKind} {V : Type 0} (id : TypedId K) (v : V) (m : Map (TypedId K) V)
    (fresh : find id m ≡ none) where
  pub has-emplace : (k : TypedId K) → has k m ≡ true → has k (emplace id v m) ≡ true
  has-emplace k h = ground (arith, find-emplace id k v m fresh)

  -- what is found after the entry came in
  pub emplaced :
      (k : TypedId K) (w : V)
      → find k (emplace id v m) ≡ some w
      → ((k ≡ id) × (w ≡ v)) ⊎ (find k m ≡ some w)
  emplaced k w e = elim (Bool-cases (id_eq id k)) [
    | inl h ↦ inl (sym ((id_eq_iff id k).0 h), ground (arith, find-emplace id k v m fresh))
    | inr h ↦ inr (ground (arith, find-emplace id k v m fresh))
  ]

-- The order that is chosen for a new entry is above the order of every entry.
highest_order-bounds :
    {K : EntityKind} {V : Type 0} (order : V → ℤ) (highest : ℤ) (m : Map (TypedId K) V)
    → (highest ≤ℤ highest_order order highest m)
      × ((k : TypedId K) (v : V) → find k m ≡ some v → order v ≤ℤ highest_order order highest m)
unfolding highest_order find
highest_order-bounds order highest [] = (ground arith, λ k v e. absurd (ground arith))
highest_order-bounds order highest ((j, w) ∷ m) =
    let (top, each) = highest_order-bounds order (max_ℤ highest (order w)) m in
    (ground arith, λ k v e. ground (arith, each k v))

order_free :
    (p : Project) (k : ArrangementLaneId) (l : ArrangementLane)
    → find k p.lanes ≡ some l
    → l.order ≢ next_order (λ (x : ArrangementLane). x.order) p.lanes
order_free p k l e h =
    let (_, each) = highest_order-bounds (λ (x : ArrangementLane). x.order) (negsuc 0) p.lanes in
    ground (
      arith,
      each k l e,
      +ℤ_parts (highest_order (λ (x : ArrangementLane). x.order) (negsuc 0) p.lanes) (pos 1),
    )

nothing_in : (i : InstrumentId) (s : NoteSequence) → find {V = NoteSequence} i [] ≢ some s
unfolding find
nothing_in i s e = ground arith

abbrev with_lanes : Project → Project → Map ArrangementLaneId ArrangementLane → Project
with_lanes p q m = record p { generator = q.generator; emitted = q.emitted; lanes = m }

abbrev with_patterns : Project → Project → Map PatternId Pattern → Project
with_patterns p q m = record p { generator = q.generator; emitted = q.emitted; patterns = m }

-- The project with other tables, where only the ids and events may differ from the one before.
module _ (p : Project) (v : Integrity p) where
  pub lane_added :
      (q : Project) (id : ArrangementLaneId) (lane : ArrangementLane)
      → q ≡ with_lanes p q (emplace id lane p.lanes)
      → find id p.lanes ≡ none
      → LaneOk p.lanes id lane
      → ((k : ArrangementLaneId) (l : ArrangementLane)
          → find k p.lanes ≡ some l
          → l.order ≢ lane.order)
      → Integrity q
  lane_added q id lane shape fresh good apart = subst Integrity (sym shape) (record {
    ordered = record {
      instruments = v.ordered.instruments;
      patterns = v.ordered.patterns;
      lanes = emplace-IsOrdered id lane p.lanes v.ordered.lanes;
      clips = v.ordered.clips;
      mixer_tracks = v.ordered.mixer_tracks;
    };
    instruments = v.instruments;
    patterns = v.patterns;
    lanes = λ k l e. lane_ok k l (emplaced id lane p.lanes fresh k l e);
    lane_orders = λ j k l m e f o.
        distinct j k l m o (emplaced id lane p.lanes fresh j l e)
          (emplaced id lane p.lanes fresh k m f);
    clips = λ k c e.
        let ok = v.clips k c e in
        ClipOk-keep p (with_lanes p q (emplace id lane p.lanes)) c ok
          (has-emplace id lane p.lanes fresh c.lane ok.lane)
          (source_resolves-same p (with_lanes p q (emplace id lane p.lanes)) c.source refl refl refl
            ok.source);
    mixer = v.mixer;
  })
    where
      lane_ok :
          (k : ArrangementLaneId) (l : ArrangementLane)
          → ((k ≡ id) × (l ≡ lane)) ⊎ (find k p.lanes ≡ some l)
          → LaneOk (emplace id lane p.lanes) k l
      lane_ok k l (inl h) = record {
        group = λ g e.
            let (other, there) = good.group g (sym (ap (λ x. x.group_id) h.1) ∙ e) in
            (λ same. other (same ∙ h.0), has-emplace id lane p.lanes fresh g there);
      }
      lane_ok k l (inr e) = record {
        group = λ g f.
            let (other, there) = (v.lanes k l e).group g f in
            (other, has-emplace id lane p.lanes fresh g there);
      }

      distinct :
          (j k : ArrangementLaneId) (l m : ArrangementLane)
          → l.order ≡ m.order
          → ((j ≡ id) × (l ≡ lane)) ⊎ (find j p.lanes ≡ some l)
          → ((k ≡ id) × (m ≡ lane)) ⊎ (find k p.lanes ≡ some m)
          → j ≡ k
      distinct j k l m o (inl g) (inl h) = g.0 ∙ sym h.0
      distinct j k l m o (inl g) (inr f) = absurd (apart k m f (sym o ∙ ap (λ x. x.order) g.1))
      distinct j k l m o (inr e) (inl h) = absurd (apart j l e (o ∙ ap (λ x. x.order) h.1))
      distinct j k l m o (inr e) (inr f) = v.lane_orders j k l m e f o

  -- Creating a lane keeps a sound project sound, where the minted id is not taken: in particular
  -- the order it gets is no other lane's.
  pub create_lane-Integrity :
      (name : String)
      → find (create_lane p name).1 p.lanes ≡ none
      → Integrity (create_lane p name).0
  unfolding create_lane emit
  create_lane-Integrity name fresh =
      lane_added (create_lane p name).0 (create_lane p name).1 _ refl fresh
        (record { group = λ g e. absurd (ground arith) }) (λ k l e. order_free p k l e)

  pub pattern_added :
      (q : Project) (id : PatternId) (pattern : Pattern)
      → q ≡ with_patterns p q (emplace id pattern p.patterns)
      → find id p.patterns ≡ none
      → PatternOk p.instruments pattern
      → Integrity q
  pattern_added q id pattern shape fresh good = subst Integrity (sym shape) (record {
    ordered = record {
      instruments = v.ordered.instruments;
      patterns = emplace-IsOrdered id pattern p.patterns v.ordered.patterns;
      lanes = v.ordered.lanes;
      clips = v.ordered.clips;
      mixer_tracks = v.ordered.mixer_tracks;
    };
    instruments = v.instruments;
    patterns = λ k r e. pattern_ok k r (emplaced id pattern p.patterns fresh k r e);
    lanes = v.lanes;
    lane_orders = v.lane_orders;
    clips = λ k c e.
        let ok = v.clips k c e in
        ClipOk-keep p (with_patterns p q (emplace id pattern p.patterns)) c ok ok.lane
          (source_ok c.source ok.source);
    mixer = v.mixer;
  })
    where
      pattern_ok :
          (k : PatternId) (r : Pattern)
          → ((k ≡ id) × (r ≡ pattern)) ⊎ (find k p.patterns ≡ some r)
          → PatternOk p.instruments r
      pattern_ok k r (inr e) = v.patterns k r e
      pattern_ok k r (inl h) = subst (PatternOk p.instruments) (sym h.1) good

      source_ok :
          (s : ClipSource)
          → source_resolves p s ≡ true
          → source_resolves (with_patterns p q (emplace id pattern p.patterns)) s ≡ true
      source_ok (pattern_source k) h = has-emplace id pattern p.patterns fresh k h
      source_ok (audio_source a) h = h
      source_ok (automation_source a) h =
          target_resolves-keep p (with_patterns p q (emplace id pattern p.patterns)) a a.target_kind
            (λ _ i. i) (λ t e. (t, e, refl)) h

  -- Creating a pattern keeps a sound project sound, where the minted id is not taken.
  pub create_pattern-Integrity :
      (name : String) (length : Ticks)
      → find (create_pattern p name length).1 p.patterns ≡ none
      → Integrity (create_pattern p name length).0
  unfolding create_pattern emit
  create_pattern-Integrity name length fresh =
      pattern_added (create_pattern p name length).0 (create_pattern p name length).1 _ refl fresh
        (record { ordered = tt; each = λ i s e. absurd (nothing_in i s e) })
