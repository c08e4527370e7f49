-- ===== src/Project/Integrity/DeleteMixerTrack/Tracks.antt =====
-- The mixer after `deleteMixerTrack`.
use onebeat.Prelude.{
  ℕ, suc, ◌<◌, ◌≡◌, ◌≢◌, ◌⊎◌, refl, sym, ◌∙◌, ap, subst, inl, inr, true, false, arith, none, some,
  List, [], ◌∷◌, map, All, if◌then◌else◌, Bool-cases, Option-cases,
}
use onebeat.Prelude.Map.{find, has}
use onebeat.Prelude.Map.Keys.{has-some}
use onebeat.Ids.{InstrumentId, MixerTrackId}
use onebeat.Ids.Order.{id_key, id_eq, id_eq_iff}
use onebeat.Entities.{MixerTrack, OutputRoute}
use onebeat.Project.{Project}
use onebeat.Project.Impact.{outputs_to}
use onebeat.Project.Delete.{repoint_route}
use onebeat.Project.Integrity.{RoutesResolve, DistinctPorts, MixerOk, SlotsOk}
use onebeat.Project.Integrity.DeleteMixerTrack.Effect.{repoint_output, TrackDeleted}

-- re-pointing keeps the ports
ports_differ :
    (id master : MixerTrackId) (r : OutputRoute) (rs : List OutputRoute)
    → All (λ (s : OutputRoute). r.port ≢ s.port) rs
    → All
        (λ (s : OutputRoute). (repoint_route id master r).port ≢ s.port)
        (map (repoint_route id master) rs)
ports_differ id master r [] h = h
ports_differ id master r (s ∷ rs) h =
    (λ e. h.0 (ground (arith, e)), ports_differ id master r rs h.1)

pub ports_kept :
    (id master : MixerTrackId) (rs : List OutputRoute)
    → DistinctPorts rs
    → DistinctPorts (map (repoint_route id master) rs)
ports_kept id master [] h = h
ports_kept id master (r ∷ rs) h = (ports_differ id master r rs h.0, ports_kept id master rs h.1)

module _ (p : Project) (id : MixerTrackId) (q : Project) (d : TrackDeleted p id q)
    (ne : id ≢ p.master) where
  master_output : (t : MixerTrack) → t.output ≡ none → outputs_to id t ≡ false
  master_output t h = ground arith

  pub track_there :
      (k : MixerTrackId) → k ≢ id → has k p.mixer_tracks ≡ true → has k q.mixer_tracks ≡ true
  track_there k n h =
      let (t, e) = has-some k p.mixer_tracks h in
      let other : id_eq id k ≡ false = ground (arith, id_eq_iff id k) in
      rw (d.mixer_tracks k, other, e)

  pub master_kept : has p.master p.mixer_tracks ≡ true → has p.master q.mixer_tracks ≡ true
  master_kept h = track_there p.master (λ e. ne (sym e)) h

  pub routes_kept :
      (rs : List OutputRoute)
      → has p.master p.mixer_tracks ≡ true
      → RoutesResolve p.mixer_tracks rs
      → RoutesResolve q.mixer_tracks (map (repoint_route id p.master) rs)
  routes_kept [] m h = h
  routes_kept (r ∷ rs) m h = (route (Bool-cases (id_eq r.track id)), routes_kept rs m h.1)
    where
      route :
          (id_eq r.track id ≡ true) ⊎ (id_eq r.track id ≡ false)
          → has (repoint_route id p.master r).track q.mixer_tracks ≡ true
      route (inl e) = rw e (master_kept m)
      route (inr e) = rw e (track_there r.track (λ f. ground (arith, id_eq_iff r.track id)) h.0)

  track_was :
      (k : MixerTrackId) (t : MixerTrack)
      → find k q.mixer_tracks ≡ some t
      → (before : MixerTrack) × (find k p.mixer_tracks ≡ some before)
        × (t ≡ repoint_output id p.master before)
        × (k ≢ id)
  track_was k t e = elim (Option-cases (find k p.mixer_tracks)) [
    | inl n ↦ absurd (ground (arith, d.mixer_tracks k))
    | inr (m, s) ↦ (
      m,
      s,
      ground (arith, d.mixer_tracks k),
      λ f. ground (arith, d.mixer_tracks k, id_eq_iff id k),
    )
  ]

  pub track_effects :
      (k : MixerTrackId) (t : MixerTrack)
      → k ≢ id
      → find k p.mixer_tracks ≡ some t
      → (u : MixerTrack) × (find k q.mixer_tracks ≡ some u) × (u.effects ≡ t.effects)
  track_effects k t n e =
      let other : id_eq id k ≡ false = ground (arith, id_eq_iff id k) in
      (repoint_output id p.master t, rw (d.mixer_tracks k, other, e), ground arith)

  pub instrument_there :
      (k : InstrumentId) → has k p.instruments ≡ true → has k q.instruments ≡ true
  instrument_there k h = let (i, e) = has-some k p.instruments h in rw (d.instruments k, e) refl

  -- the output before, of a track that has one after
  output_was :
      (before : MixerTrack) (out : MixerTrackId)
      → (repoint_output id p.master before).output ≡ some out
      → (o : MixerTrackId) × (before.output ≡ some o) × ((out ≡ p.master) ⊎ ((out ≡ o) × (o ≢ id)))
  output_was before out f = elim (Option-cases before.output) [
    | inl n ↦ absurd (ground arith)
    | inr (o, s) ↦ (o, s, led o s (Bool-cases (id_eq o id)))
  ]
    where
      led :
          (o : MixerTrackId)
          → before.output ≡ some o
          → (id_eq o id ≡ true) ⊎ (id_eq o id ≡ false)
          → (out ≡ p.master) ⊎ ((out ≡ o) × (o ≢ id))
      led o s (inl e) = inl (ground arith)
      led o s (inr e) = inr (ground arith, λ h. ground (arith, id_eq_iff o id))

  module _ (m : MixerOk p.mixer_tracks p.master) where
    -- Master at the bottom, and every other track a rank up
    rank_kept : MixerTrackId → ℕ
    rank_kept k = if id_eq k p.master then 0 else suc (m.rank k)

    rank_above :
        (k : MixerTrackId) (before : MixerTrack) (out : MixerTrackId)
        → find k p.mixer_tracks ≡ some before
        → (repoint_output id p.master before).output ≡ some out
        → rank_kept out < rank_kept k
    unfolding rank_kept
    rank_above k before out was f =
        let (o, s, led) = output_was before out f in
        let upper : id_eq k p.master ≡ false = higher o s (Bool-cases (id_eq k p.master)) in
        rw (rank_kept, upper)
          (elim led [
            | inl h ↦ ground (arith, id_eq_iff out p.master)
            | inr h ↦ ground (arith, h.0, m.downhill k before o was s)
          ])
      where
        higher :
            (o : MixerTrackId)
            → before.output ≡ some o
            → (id_eq k p.master ≡ true) ⊎ (id_eq k p.master ≡ false)
            → id_eq k p.master ≡ false
        higher o s (inr h) = h
        higher o s (inl h) =
            let same = (id_eq_iff k p.master).0 h in
            absurd (
              ground
                (arith, m.master_out before (ap (λ j. find j p.mixer_tracks) (sym same) ∙ was)))

    output_there :
        (k : MixerTrackId) (before : MixerTrack) (out : MixerTrackId)
        → find k p.mixer_tracks ≡ some before
        → (repoint_output id p.master before).output ≡ some out
        → has out q.mixer_tracks ≡ true
    output_there k before out was f =
        let (o, s, led) = output_was before out f in
        elim led [
          | inl h ↦ rw h (master_kept m.master_there)
          | inr h ↦ rw h.0 (track_there o h.1 (m.outputs k before o was s))
        ]

    pub mixer_kept : MixerOk q.mixer_tracks p.master
    mixer_kept = record {
      master_there = master_kept m.master_there;
      master_out = λ t e.
          let (before, was, change, n) = track_was p.master t e in
          ground (arith, m.master_out before was, master_output before);
      only_master = λ k t e f.
          let (before, was, change, n) = track_was k t e in
          m.only_master k before was (ground (arith, change));
      outputs = λ k t out e f.
          let (before, was, change, n) = track_was k t e in
          output_there k before out was (ap (λ u. u.output) (sym change) ∙ f);
      rank = rank_kept;
      downhill = λ k t out e f.
          let (before, was, change, n) = track_was k t e in
          rank_above k before out was (ap (λ u. u.output) (sym change) ∙ f);
      slots = λ k t e.
          let (before, was, change, n) = track_was k t e in
          subst SlotsOk (ground (arith, change)) (m.slots k before was);
    }
