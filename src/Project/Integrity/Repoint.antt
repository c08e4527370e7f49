-- ===== src/Project/Integrity/Repoint.antt =====
-- What the loops of `deleteMixerTrack` leave behind.
use onebeat.Prelude.{
  ◌≡◌, ◌≢◌, refl, ◌∙◌, ap, arith, Option, none, some, List, [], ◌∷◌, map, if◌then◌else◌,
}
use onebeat.Prelude.Map.Keys.{over}
use onebeat.Prelude.Map.{find, find-adjust}
use onebeat.Prelude.Map.Ordered.{IsOrdered, adjust-IsOrdered}
use onebeat.Ids.{InstrumentId, ClipId, MixerTrackId}
use onebeat.Ids.Order.{id_key, id_eq, id_eq_iff}
use onebeat.Entities.{Instrument, Clip, MixerTrack, OutputRoute}
use onebeat.Project.{Project, emit}
use onebeat.Project.Impact.{mem_id}
use onebeat.Project.Delete.{
  repoint_route, repoint_instrument, repoint_round, repoint_instruments, repoint_track,
  repoint_input, repoint_inputs, repoint_clip, is_audio, resolve_clip, resolve_clips,
}
use onebeat.Project.Integrity.Cascade.{
  ClipsOnly, ClipsOnly-trans, find-delete_clip, delete_clip-ClipsOnly, delete_clip-IsOrdered,
}

abbrev pub InstrumentsOnly : Project → Project → Type 0
InstrumentsOnly p q = q ≡ record p { instruments = q.instruments; emitted = q.emitted }

InstrumentsOnly-trans :
    (p q r : Project) → InstrumentsOnly p q → InstrumentsOnly q r → InstrumentsOnly p r
InstrumentsOnly-trans p q r h k = ground arith

repoint_round-InstrumentsOnly :
    (p : Project) (id : MixerTrackId) (i : InstrumentId) → InstrumentsOnly p (repoint_round p id i)
unfolding repoint_round emit
repoint_round-InstrumentsOnly p id i = ground arith

find-repoint_round :
    (p : Project) (id : MixerTrackId) (i k : InstrumentId)
    → find k (repoint_round p id i).instruments ≡ (
        if id_eq i k
        then over (repoint_instrument id p.master) (find k p.instruments)
        else find k p.instruments)
unfolding repoint_round emit
find-repoint_round p id i k =
    ground (arith, find-adjust i k (repoint_instrument id p.master) p.instruments, id_eq_iff i k)

repoint_round-IsOrdered :
    (p : Project) (id : MixerTrackId) (i : InstrumentId)
    → IsOrdered p.instruments
    → IsOrdered (repoint_round p id i).instruments
unfolding repoint_round emit
repoint_round-IsOrdered p id i h =
    ground (arith, adjust-IsOrdered i (repoint_instrument id p.master) p.instruments h)

pub repoint_instruments-InstrumentsOnly :
    (p : Project) (id : MixerTrackId) (is' : List InstrumentId)
    → InstrumentsOnly p (repoint_instruments p id is')
unfolding repoint_instruments
repoint_instruments-InstrumentsOnly p id [] = refl
repoint_instruments-InstrumentsOnly p id (i ∷ is') =
    InstrumentsOnly-trans p (repoint_round p id i) _ (repoint_round-InstrumentsOnly p id i)
      (repoint_instruments-InstrumentsOnly (repoint_round p id i) id is')

pub repoint_instruments-IsOrdered :
    (p : Project) (id : MixerTrackId) (is' : List InstrumentId)
    → IsOrdered p.instruments
    → IsOrdered (repoint_instruments p id is').instruments
unfolding repoint_instruments
repoint_instruments-IsOrdered p id [] h = h
repoint_instruments-IsOrdered p id (i ∷ is') h =
    repoint_instruments-IsOrdered (repoint_round p id i) id is' (repoint_round-IsOrdered p id i h)

master-repoint_round :
    (p : Project) (id : MixerTrackId) (i : InstrumentId) → (repoint_round p id i).master ≡ p.master
master-repoint_round p id i = ap (λ q. q.master) (repoint_round-InstrumentsOnly p id i)

-- re-pointing twice is re-pointing once, since Master is not the track that goes
repoint_routes_twice :
    (id master : MixerTrackId) (rs : List OutputRoute)
    → id ≢ master
    → map (repoint_route id master) (map (repoint_route id master) rs)
      ≡ map (repoint_route id master) rs
repoint_routes_twice id master [] h = refl
repoint_routes_twice id master (r ∷ rs) h =
    ground (arith, repoint_routes_twice id master rs h, id_eq_iff master id)

repoint_twice :
    (id master : MixerTrackId) (o : Option Instrument)
    → id ≢ master
    → over (repoint_instrument id master) (over (repoint_instrument id master) o)
      ≡ over (repoint_instrument id master) o
repoint_twice id master none h = refl
repoint_twice id master (some i) h = ground (arith, repoint_routes_twice id master i.routing h)

pub find-repoint_instruments :
    (p : Project) (id : MixerTrackId) (is' : List InstrumentId) (k : InstrumentId)
    → id ≢ p.master
    → find k (repoint_instruments p id is').instruments ≡ (
        if mem_id k is'
        then over (repoint_instrument id p.master) (find k p.instruments)
        else find k p.instruments)
unfolding repoint_instruments
find-repoint_instruments p id [] k h = refl
find-repoint_instruments p id (i ∷ is') k h =
    let same = master-repoint_round p id i in
    let later = find-repoint_instruments (repoint_round p id i) id is' k (λ e. h (e ∙ same)) in
    rw (later, same, find-repoint_round p id i k)
      (ground (arith, repoint_twice id p.master (find k p.instruments) h))

abbrev pub TracksOnly : Project → Project → Type 0
TracksOnly p q = q ≡ record p { mixer_tracks = q.mixer_tracks; emitted = q.emitted }

TracksOnly-trans : (p q r : Project) → TracksOnly p q → TracksOnly q r → TracksOnly p r
TracksOnly-trans p q r h k = ground arith

repoint_input-TracksOnly : (p : Project) (t : MixerTrackId) → TracksOnly p (repoint_input p t)
unfolding repoint_input emit
repoint_input-TracksOnly p t = ground arith

pub repoint_inputs-TracksOnly :
    (p : Project) (ts : List MixerTrackId) → TracksOnly p (repoint_inputs p ts)
unfolding repoint_inputs
repoint_inputs-TracksOnly p [] = refl
repoint_inputs-TracksOnly p (t ∷ ts) =
    TracksOnly-trans p (repoint_input p t) _ (repoint_input-TracksOnly p t)
      (repoint_inputs-TracksOnly (repoint_input p t) ts)

find-repoint_input :
    (p : Project) (t k : MixerTrackId)
    → find k (repoint_input p t).mixer_tracks ≡ (
        if id_eq t k
        then over (repoint_track p.master) (find k p.mixer_tracks)
        else find k p.mixer_tracks)
unfolding repoint_input emit
find-repoint_input p t k =
    ground (arith, find-adjust t k (repoint_track p.master) p.mixer_tracks, id_eq_iff t k)

repoint_input-IsOrdered :
    (p : Project) (t : MixerTrackId)
    → IsOrdered p.mixer_tracks
    → IsOrdered (repoint_input p t).mixer_tracks
unfolding repoint_input emit
repoint_input-IsOrdered p t h =
    ground (arith, adjust-IsOrdered t (repoint_track p.master) p.mixer_tracks h)

pub repoint_inputs-IsOrdered :
    (p : Project) (ts : List MixerTrackId)
    → IsOrdered p.mixer_tracks
    → IsOrdered (repoint_inputs p ts).mixer_tracks
unfolding repoint_inputs
repoint_inputs-IsOrdered p [] h = h
repoint_inputs-IsOrdered p (t ∷ ts) h =
    repoint_inputs-IsOrdered (repoint_input p t) ts (repoint_input-IsOrdered p t h)

repoint_track_twice :
    (master : MixerTrackId) (o : Option MixerTrack)
    → over (repoint_track master) (over (repoint_track master) o) ≡ over (repoint_track master) o
repoint_track_twice master none = refl
repoint_track_twice master (some t) = refl

pub find-repoint_inputs :
    (p : Project) (ts : List MixerTrackId) (k : MixerTrackId)
    → find k (repoint_inputs p ts).mixer_tracks ≡ (
        if mem_id k ts
        then over (repoint_track p.master) (find k p.mixer_tracks)
        else find k p.mixer_tracks)
unfolding repoint_inputs
find-repoint_inputs p [] k = refl
find-repoint_inputs p (t ∷ ts) k =
    let same = ap (λ q. q.master) (repoint_input-TracksOnly p t) in
    rw (find-repoint_inputs (repoint_input p t) ts k, same, find-repoint_input p t k)
      (ground (arith, repoint_track_twice p.master (find k p.mixer_tracks)))

-- What becomes of a clip that the loop visits.
abbrev pub resolved : MixerTrackId → Option Clip → Option Clip
resolved master none = none
resolved master (some c) = if is_audio c.source then some (repoint_clip master c) else none

resolve_clip-ClipsOnly : (p : Project) (c : ClipId) → ClipsOnly p (resolve_clip p c)
unfolding resolve_clip emit
resolve_clip-ClipsOnly p c = ground (arith, delete_clip-ClipsOnly p c)

find-resolve_clip :
    (p : Project) (c k : ClipId)
    → find k (resolve_clip p c).clips
      ≡ (if id_eq c k then resolved p.master (find k p.clips) else find k p.clips)
unfolding resolve_clip emit
find-resolve_clip p c k =
    ground (
      arith,
      find-delete_clip p c k,
      find-adjust c k (repoint_clip p.master) p.clips,
      id_eq_iff c k,
    )

resolve_clip-IsOrdered :
    (p : Project) (c : ClipId) → IsOrdered p.clips → IsOrdered (resolve_clip p c).clips
unfolding resolve_clip emit
resolve_clip-IsOrdered p c h =
    ground
      (arith, adjust-IsOrdered c (repoint_clip p.master) p.clips h, delete_clip-IsOrdered p c h)

pub resolve_clips-ClipsOnly : (p : Project) (cs : List ClipId) → ClipsOnly p (resolve_clips p cs)
unfolding resolve_clips
resolve_clips-ClipsOnly p [] = refl
resolve_clips-ClipsOnly p (c ∷ cs) =
    ClipsOnly-trans p (resolve_clip p c) _ (resolve_clip-ClipsOnly p c)
      (resolve_clips-ClipsOnly (resolve_clip p c) cs)

pub resolve_clips-IsOrdered :
    (p : Project) (cs : List ClipId) → IsOrdered p.clips → IsOrdered (resolve_clips p cs).clips
unfolding resolve_clips
resolve_clips-IsOrdered p [] h = h
resolve_clips-IsOrdered p (c ∷ cs) h =
    resolve_clips-IsOrdered (resolve_clip p c) cs (resolve_clip-IsOrdered p c h)

resolved_twice :
    (master : MixerTrackId) (o : Option Clip)
    → resolved master (resolved master o) ≡ resolved master o
resolved_twice master none = refl
resolved_twice master (some c) = ground arith

pub find-resolve_clips :
    (p : Project) (cs : List ClipId) (k : ClipId)
    → find k (resolve_clips p cs).clips
      ≡ (if mem_id k cs then resolved p.master (find k p.clips) else find k p.clips)
unfolding resolve_clips
find-resolve_clips p [] k = refl
find-resolve_clips p (c ∷ cs) k =
    let same = ap (λ q. q.master) (resolve_clip-ClipsOnly p c) in
    rw (find-resolve_clips (resolve_clip p c) cs k, same, find-resolve_clip p c k)
      (ground (arith, resolved_twice p.master (find k p.clips)))
