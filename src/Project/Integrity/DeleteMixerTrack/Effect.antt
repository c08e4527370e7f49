-- ===== src/Project/Integrity/DeleteMixerTrack/Effect.antt =====
-- What is left when a mixer track is deleted.
use onebeat.Prelude.{
  ◌≡◌, ◌≢◌, refl, ◌∙◌, ap, true, false, arith, Option, none, some, List, [], ◌∷◌, map, any,
  if◌then◌else◌,
}
use onebeat.Prelude.Map.{find, erase, has, find-erase}
use onebeat.Prelude.Map.Keys.{over, holds, mem-keys_where}
use onebeat.Prelude.Map.Ordered.{IsOrdered, erase-IsOrdered}
use onebeat.Ids.{InstrumentId, ClipId, MixerTrackId}
use onebeat.Ids.Order.{id_key, id_eq, id_eq_iff}
use onebeat.Entities.{Instrument, MixerTrack, Clip, OutputRoute}
use onebeat.Project.{Project, emit}
use onebeat.Project.Impact.{mixer_track_impact, routes_to, outputs_to, touches_track}
use onebeat.Project.Delete.{
  delete_mixer_track, repoint_route, repoint_instrument, repoint_instruments, repoint_track,
  repoint_inputs,
}
use onebeat.Project.Integrity.Repoint.{
  repoint_instruments-InstrumentsOnly, repoint_instruments-IsOrdered, find-repoint_instruments,
  repoint_inputs-TracksOnly, repoint_inputs-IsOrdered, find-repoint_inputs, resolved,
  resolve_clips-ClipsOnly, resolve_clips-IsOrdered, find-resolve_clips,
}

-- A track that fed the deleted one feeds Master.
abbrev pub repoint_output : MixerTrackId → MixerTrackId → MixerTrack → MixerTrack
repoint_output id master track = if outputs_to id track then repoint_track master track else track

-- A clip that touched the track is re-pointed if it is audio, and gone if it is a curve.
abbrev pub without_track : MixerTrackId → MixerTrackId → ClipId → Option Clip → Option Clip
without_track id master c o =
    if holds (λ _ clip. touches_track id clip.source) c o then resolved master o else o

pub record TrackDeleted (p : Project) (id : MixerTrackId) (q : Project) : Type 0 where
  pub rest : q ≡ record p {
    instruments = q.instruments;
    mixer_tracks = q.mixer_tracks;
    clips = q.clips;
    emitted = q.emitted;
  }
  pub instruments :
      (k : InstrumentId)
      → find k q.instruments ≡ over (repoint_instrument id p.master) (find k p.instruments)
  pub mixer_tracks :
      (k : MixerTrackId)
      → find k q.mixer_tracks
        ≡ (if id_eq id k then none else over (repoint_output id p.master) (find k p.mixer_tracks))
  pub clips : (c : ClipId) → find c q.clips ≡ without_track id p.master c (find c p.clips)
  pub instruments_ordered : IsOrdered q.instruments
  pub mixer_tracks_ordered : IsOrdered q.mixer_tracks
  pub clips_ordered : IsOrdered q.clips

unrouted :
    (id master : MixerTrackId) (rs : List OutputRoute)
    → any (λ (r : OutputRoute). id_eq r.track id) rs ≡ false
    → map (repoint_route id master) rs ≡ rs
unrouted id master [] h = refl
unrouted id master (r ∷ rs) h = ground (arith, unrouted id master rs)

repoint_unrouted :
    (id master : MixerTrackId) (k : InstrumentId) (o : Option Instrument)
    → (if holds (λ _ i. routes_to id i) k o then over (repoint_instrument id master) o else o)
      ≡ over (repoint_instrument id master) o
repoint_unrouted id master k none = refl
repoint_unrouted id master k (some i) = ground (arith, unrouted id master i.routing)

repoint_fed :
    (id master k : MixerTrackId) (o : Option MixerTrack)
    → (if holds (λ _ t. outputs_to id t) k o then over (repoint_track master) o else o)
      ≡ over (repoint_output id master) o
repoint_fed id master k none = refl
repoint_fed id master k (some t) = ground arith

module _ (p : Project) (id : MixerTrackId) where
  -- Where the tables are ordered, deleting a mixer track that is there and is not Master removes it, points
  -- every route and every output that led to it at Master, plays its audio clips into Master, deletes the
  -- automation clips that drove it or its chain, and changes no other table and no other entry: the
  -- patterns stay as they are, with the curves that they own, those on the track or its chain included.
  pub delete_mixer_track_lem :
      IsOrdered p.instruments
      → IsOrdered p.mixer_tracks
      → IsOrdered p.clips
      → id ≢ p.master
      → has id p.mixer_tracks ≡ true
      → ((delete_mixer_track p id).1 ≡ true) × TrackDeleted p id (delete_mixer_track p id).0
  unfolding delete_mixer_track emit mixer_track_impact
  delete_mixer_track_lem oi ot oc ne h =
      let impact = mixer_track_impact p id in
      let p1 = repoint_instruments p id impact.instruments in
      let p2 = repoint_inputs p1 impact.inputs in
      let shape1 = repoint_instruments-InstrumentsOnly p id impact.instruments in
      let shape2 = repoint_inputs-TracksOnly p1 impact.inputs in
      let shape3 = resolve_clips-ClipsOnly p2 impact.clips in
      let instruments3 = ap (λ q. q.instruments) shape3 ∙ ap (λ q. q.instruments) shape2 in
      let tracks1 = ap (λ q. q.mixer_tracks) shape1 in
      let tracks3 = ap (λ q. q.mixer_tracks) shape3 in
      let master1 = ap (λ q. q.master) shape1 in
      let master2 = ap (λ q. q.master) shape2 ∙ master1 in
      let clips2 = ap (λ q. q.clips) shape2 ∙ ap (λ q. q.clips) shape1 in
      let other : id_eq id p.master ≡ false = ground (arith, id_eq_iff id p.master) in
      rw (other, h, delete_mixer_track)
        (
          refl,
          record {
            rest = ground (arith, shape1, shape2, shape3);
            instruments = λ k.
                ap (find k) instruments3
                ∙ find-repoint_instruments p id impact.instruments k ne
                ∙ ap
                    (λ b.
                      if b
                      then over (repoint_instrument id p.master) (find k p.instruments)
                      else find k p.instruments)
                    (mem-keys_where (λ _ i. routes_to id i) k p.instruments oi)
                ∙ repoint_unrouted id p.master k (find k p.instruments);
            mixer_tracks = λ k.
                ap (λ m. find k (erase id m)) tracks3
                ∙ find-erase id k p2.mixer_tracks
                ∙ ap (λ o. if id_eq id k then none else o)
                    (find-repoint_inputs p1 impact.inputs k
                      ∙ rw (master1, tracks1)
                          (ap
                            (λ b.
                              if b
                              then over (repoint_track p.master) (find k p.mixer_tracks)
                              else find k p.mixer_tracks)
                            (mem-keys_where (λ _ t. outputs_to id t) k p.mixer_tracks ot))
                      ∙ repoint_fed id p.master k (find k p.mixer_tracks));
            clips = λ c.
                find-resolve_clips p2 impact.clips c
                ∙ rw (master2, clips2)
                    (ap (λ b. if b then resolved p.master (find c p.clips) else find c p.clips)
                      (mem-keys_where (λ _ clip. touches_track id clip.source) c p.clips oc));
            instruments_ordered =
                rw instruments3 (repoint_instruments-IsOrdered p id impact.instruments oi);
            mixer_tracks_ordered = rw tracks3 (
                erase-IsOrdered id p2.mixer_tracks
                  (repoint_inputs-IsOrdered p1 impact.inputs (rw tracks1 ot)));
            clips_ordered = resolve_clips-IsOrdered p2 impact.clips (rw clips2 oc);
          },
        )
