-- ===== src/Project/Integrity/Cascade.antt =====
-- What the loops of the deletions leave behind: the shape of the project, and each table by its keys.
use onebeat.Prelude.{◌≡◌, refl, arith, none, List, [], ◌∷◌, if◌then◌else◌}
use onebeat.Prelude.Map.{Map, find, find-erase}
use onebeat.Prelude.Map.Ordered.{IsOrdered, erase-IsOrdered}
use onebeat.Ids.{InstrumentId, PatternId, ArrangementLaneId, ClipId}
use onebeat.Ids.Order.{id_key, id_eq, id_eq_iff}
use onebeat.Entities.{Pattern, ArrangementLane}
use onebeat.Project.{Project, emit}
use onebeat.Project.Impact.{mem_id}
use onebeat.Project.Delete.{
  delete_clip, delete_clips, announce_erasure, announce_release, announce_erased, announce_released,
}

-- `q` is `p` with other clips and events
abbrev pub ClipsOnly : Project → Project → Type 0
ClipsOnly p q = q ≡ record p { clips = q.clips; emitted = q.emitted }

-- `q` is `p` with other events
abbrev pub EventsOnly : Project → Project → Type 0
EventsOnly p q = q ≡ record p { emitted = q.emitted }

pub delete_clip-ClipsOnly : (p : Project) (id : ClipId) → ClipsOnly p (delete_clip p id).0
unfolding delete_clip
delete_clip-ClipsOnly p id = ground arith

pub find-delete_clip :
    (p : Project) (id c : ClipId)
    → find c (delete_clip p id).0.clips ≡ (if id_eq id c then none else find c p.clips)
unfolding delete_clip
find-delete_clip p id c = ground (arith, find-erase id c p.clips, id_eq_iff id c)

pub delete_clip-IsOrdered :
    (p : Project) (id : ClipId) → IsOrdered p.clips → IsOrdered (delete_clip p id).0.clips
unfolding delete_clip
delete_clip-IsOrdered p id h = ground (arith, erase-IsOrdered id p.clips h)

pub delete_clips-ClipsOnly : (p : Project) (ids : List ClipId) → ClipsOnly p (delete_clips p ids)
unfolding delete_clips
delete_clips-ClipsOnly p [] = refl
delete_clips-ClipsOnly p (id ∷ ids) =
    ground (arith, delete_clips-ClipsOnly (delete_clip p id).0 ids, delete_clip-ClipsOnly p id)

pub find-delete_clips :
    (p : Project) (ids : List ClipId) (c : ClipId)
    → find c (delete_clips p ids).clips ≡ (if mem_id c ids then none else find c p.clips)
unfolding delete_clips
find-delete_clips p [] c = refl
find-delete_clips p (id ∷ ids) c =
    ground (arith, find-delete_clips (delete_clip p id).0 ids c, find-delete_clip p id c)

pub delete_clips-IsOrdered :
    (p : Project) (ids : List ClipId) → IsOrdered p.clips → IsOrdered (delete_clips p ids).clips
unfolding delete_clips
delete_clips-IsOrdered p [] h = h
delete_clips-IsOrdered p (id ∷ ids) h =
    delete_clips-IsOrdered (delete_clip p id).0 ids (delete_clip-IsOrdered p id h)

EventsOnly-trans : (p q r : Project) → EventsOnly p q → EventsOnly q r → EventsOnly p r
EventsOnly-trans p q r h k = ground arith

pub ClipsOnly-trans : (p q r : Project) → ClipsOnly p q → ClipsOnly q r → ClipsOnly p r
ClipsOnly-trans p q r h k = ground arith

announce_erasure-EventsOnly :
    (p : Project) (id : InstrumentId) (k : PatternId) (q : Pattern)
    → EventsOnly p (announce_erasure p id k q)
unfolding announce_erasure emit
announce_erasure-EventsOnly p id k q = ground arith

pub announce_erased-EventsOnly :
    (p : Project) (id : InstrumentId) (m : Map PatternId Pattern)
    → EventsOnly p (announce_erased p id m)
unfolding announce_erased
announce_erased-EventsOnly p id [] = refl
announce_erased-EventsOnly p id ((k, q) ∷ m) =
    EventsOnly-trans p (announce_erasure p id k q) _ (announce_erasure-EventsOnly p id k q)
      (announce_erased-EventsOnly (announce_erasure p id k q) id m)

announce_release-EventsOnly :
    (p : Project) (id k : ArrangementLaneId) (l : ArrangementLane)
    → EventsOnly p (announce_release p id k l)
unfolding announce_release emit
announce_release-EventsOnly p id k l = ground arith

pub announce_released-EventsOnly :
    (p : Project) (id : ArrangementLaneId) (m : Map ArrangementLaneId ArrangementLane)
    → EventsOnly p (announce_released p id m)
unfolding announce_released
announce_released-EventsOnly p id [] = refl
announce_released-EventsOnly p id ((k, l) ∷ m) =
    EventsOnly-trans p (announce_release p id k l) _ (announce_release-EventsOnly p id k l)
      (announce_released-EventsOnly (announce_release p id k l) id m)
