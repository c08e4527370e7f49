-- ===== src/Flatten.antt =====
-- The flattener, which makes the schedule of events of a project:
-- engine/src/model/flattener.cpp.
pub mod Order
pub mod Laps
pub mod Overlaps
pub mod Resolve
pub mod Emit
use onebeat.Prelude.{
  ℕ, zero, suc, ◌+◌, ◌-◌, ◌%◌, Bool, true, false, not, ◌&&◌, ◌||◌, List, [], ◌∷◌, Option, none,
  some, ltb, ◌==◌, if◌then◌else◌, keep_if,
}
use onebeat.Prelude.Int.{ℤ, pos, negsuc, pos_part, ◌+ℤ◌, ◌-ℤ◌, ltb_ℤ, leb_ℤ, eq_ℤ, min_ℤ}
use onebeat.Prelude.Map.{Map}
use onebeat.Notes.{Ticks, Note}
use onebeat.Ids.{ArrangementLaneId}
use onebeat.Entities.{Float, ArrangementLane, ClipTransforms, Clip}
use onebeat.Project.{Project}

-- A note on the timeline, of the instrument with a dense index.
pub record ResolvedNote : Type 0 where
  pub start : Ticks
  pub end : Ticks
  pub instrument : ℕ
  pub key : ℤ
  pub velocity : Float

abbrev any_solo : Map ArrangementLaneId ArrangementLane → Bool
any_solo [] = false
any_solo ((id, lane) ∷ rest) = lane.soloed || any_solo rest

abbrev audible_in : Bool → Map ArrangementLaneId ArrangementLane → List ArrangementLaneId
audible_in any_solo [] = []
audible_in any_solo ((id, lane) ∷ rest) =
    let later = audible_in any_solo rest in
    if lane.muted then later else if any_solo && not lane.soloed then later else id ∷ later

pub audible_lanes : Project → List ArrangementLaneId
audible_lanes p = audible_in (any_solo p.lanes) p.lanes

-- The start and the end of a note inside its clip.
pub record Occurrence : Type 0 where
  pub start : Ticks
  pub end : Ticks

abbrev pub occurrence : Ticks → Ticks → List Occurrence → List Occurrence
occurrence start end later =
    if ltb_ℤ start end then record { start = start; end = end } ∷ later else later

-- `(x % length + length) % length`, whose last dividend is positive.
unfoldable pub wrap : ℤ → ℕ → ℕ
wrap (pos a) length = (a % length + length) % length
wrap (negsuc a) length = (length - suc a % length) % length

-- The loop over `position`, on fuel; `none` is a loop that has not ended.
unfoldable pub laps : ℕ → Note → Clip → Ticks → Ticks → Option (List Occurrence)
laps zero note clip pattern_length position = none
laps (suc fuel) note clip pattern_length position =
    let end =
      min_ℤ (min_ℤ (position +ℤ note.length) (position +ℤ (pattern_length -ℤ note.start)))
        clip.length in
    elim (ltb_ℤ position clip.length) [
      | false ↦ some []
      | true ↦ elim (laps fuel note clip pattern_length (position +ℤ pattern_length)) [
        | none ↦ none
        | some later ↦ some (occurrence position end later)
      ]
    ]

abbrev pub one_pass : Note → Clip → Ticks → Ticks → List Occurrence
one_pass note clip pattern_length offset =
    if ltb_ℤ offset (pos 0) || leb_ℤ clip.length offset
    then []
    else occurrence offset
        (min_ℤ (min_ℤ (offset +ℤ note.length) clip.length)
          (offset +ℤ (pattern_length -ℤ note.start)))
        []

-- Every lap moves the position by one tick at the least: the length of the clip is fuel enough.
unfoldable pub collect_occurrences : Note → Clip → Ticks → Option (List Occurrence)
unfolding wrap
collect_occurrences note clip pattern_length =
    let offset = note.start -ℤ clip.transforms.window_start in
    if leb_ℤ pattern_length (pos 0) || leb_ℤ clip.length (pos 0) || leb_ℤ note.length (pos 0)
    then some []
    else if not clip.transforms.loop
    then some (one_pass note clip pattern_length offset)
    else laps (suc (pos_part clip.length)) note clip pattern_length
        (pos (wrap offset (pos_part pattern_length)))

-- The comparison of `resolveOverlaps`.
unfoldable pub note_before : ResolvedNote → ResolvedNote → Bool
note_before a b =
    if not (a.instrument == b.instrument)
    then ltb a.instrument b.instrument
    else if not (eq_ℤ a.key b.key)
    then ltb_ℤ a.key b.key
    else if not (eq_ℤ a.start b.start)
    then ltb_ℤ a.start b.start
    else ltb_ℤ a.end b.end

-- The end of a note at the start of the next one, where the two have the key of one instrument.
abbrev pub cut_by : ResolvedNote → ResolvedNote → ResolvedNote
cut_by current next =
    if not (current.instrument == next.instrument) || not (eq_ℤ current.key next.key)
    then current
    else if ltb_ℤ next.start current.end
    then record current { end = next.start }
    else current

unfoldable pub cut_all : List ResolvedNote → List ResolvedNote
cut_all [] = []
cut_all (current ∷ []) = current ∷ []
cut_all (current ∷ next ∷ rest) = cut_by current next ∷ cut_all (next ∷ rest)

abbrev pub sounds : ResolvedNote → Bool
sounds note = not (leb_ℤ note.end note.start)

-- `std::sort` is a parameter, since it leaves the order of equivalent notes open.
unfoldable pub resolve_overlaps :
    (List ResolvedNote → List ResolvedNote) → List ResolvedNote → List ResolvedNote
resolve_overlaps sort notes = keep_if sounds (cut_all (sort notes))
