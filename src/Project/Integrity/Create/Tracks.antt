-- ===== src/Project/Integrity/Create/Tracks.antt =====
-- `createMixerTrack` and the integrity of a project.
use onebeat.Prelude.{
  ℕ, suc, ◌<◌, ◌≡◌, refl, sym, ap, subst, ◌⊎◌, inl, inr, true, false, arith, Option, none, some,
  List, [], ◌∷◌, String, if◌then◌else◌, is_some, Bool-cases,
}
use onebeat.Prelude.Map.{Map, find, emplace, has, find-emplace}
use onebeat.Prelude.Map.Ordered.{emplace-IsOrdered}
use onebeat.Ids.{MixerTrackId}
use onebeat.Ids.Order.{id_key, id_eq, id_eq_iff}
use onebeat.Entities.{
  MixerTrack, OutputRoute, ClipSource, pattern_source, audio_source, automation_source,
}
use onebeat.Project.{Project, emit}
use onebeat.Project.Create.{create_mixer_track, source_resolves}
use onebeat.Project.Integrity.{Integrity, MixerOk, SlotsOk, RoutesResolve}
use onebeat.Project.Integrity.Keep.{ClipOk-keep, target_resolves-keep}
use onebeat.Project.Integrity.Create.{has-emplace, emplaced}

abbrev with_tracks : Project → Project → Map MixerTrackId MixerTrack → Project
with_tracks p q m = record p { generator = q.generator; emitted = q.emitted; mixer_tracks = m }

module _ (p : Project) (v : Integrity p) (id : MixerTrackId) (track : MixerTrack)
    (target : MixerTrackId) (fresh : find id p.mixer_tracks ≡ none)
    (led : track.output ≡ some target) (there : has target p.mixer_tracks ≡ true)
    (sound : SlotsOk track.effects) where
  abbrev tracks : Map MixerTrackId MixerTrack
  tracks = emplace id track p.mixer_tracks

  live_differs : (k : MixerTrackId) → has k p.mixer_tracks ≡ true → id_eq k id ≡ false
  live_differs k h = elim (Bool-cases (id_eq k id)) [
    | inr n ↦ n
    | inl e ↦ absurd (ground (arith, ap (λ i. find i p.mixer_tracks) ((id_eq_iff k id).0 e)))
  ]

  -- the new track stands a rank above the one it feeds
  rank_added : MixerTrackId → ℕ
  rank_added k = if id_eq k id then suc (v.mixer.rank target) else v.mixer.rank k

  abbrev Known : MixerTrackId → MixerTrack → Type 0
  Known k t = ((k ≡ id) × (t ≡ track)) ⊎ (find k p.mixer_tracks ≡ some t)

  master_ends : (t : MixerTrack) → Known p.master t → t.output ≡ none
  master_ends t (inl h) =
      absurd (ground (arith, live_differs p.master v.mixer.master_there, id_eq_iff p.master id))
  master_ends t (inr e) = v.mixer.master_out t e

  master_alone : (k : MixerTrackId) (t : MixerTrack) → Known k t → t.output ≡ none → k ≡ p.master
  master_alone k t (inl h) n = absurd (ground arith)
  master_alone k t (inr e) n = v.mixer.only_master k t e n

  output_there :
      (k : MixerTrackId) (t : MixerTrack) (out : MixerTrackId)
      → Known k t
      → t.output ≡ some out
      → has out p.mixer_tracks ≡ true
  output_there k t out (inl h) f = subst (λ o. has o p.mixer_tracks ≡ true) (ground arith) there
  output_there k t out (inr e) f = v.mixer.outputs k t out e f

  leads_down :
      (k : MixerTrackId) (t : MixerTrack) (out : MixerTrackId)
      → Known k t
      → t.output ≡ some out
      → rank_added out < rank_added k
  unfolding rank_added
  leads_down k t out (inl h) f =
      let same : target ≡ out = ground arith in
      let own : id_eq k id ≡ true = (id_eq_iff k id).1 h.0 in
      subst (λ o. rank_added o < rank_added k) same
        (rw (rank_added, live_differs target there, own) (omega arith))
  leads_down k t out (inr e) f =
      let below = v.mixer.downhill k t out e f in
      rw (rank_added, live_differs out (v.mixer.outputs k t out e f), live_differs k (ap is_some e))
        below

  slots_kept : (k : MixerTrackId) (t : MixerTrack) → Known k t → SlotsOk t.effects
  slots_kept k t (inl h) = subst SlotsOk (sym (ap (λ u. u.effects) h.1)) sound
  slots_kept k t (inr e) = v.mixer.slots k t e

  known : (k : MixerTrackId) (t : MixerTrack) → find k tracks ≡ some t → Known k t
  known k t e = emplaced id track p.mixer_tracks fresh k t e

  mixer_added : MixerOk tracks p.master
  mixer_added = record {
    master_there = has-emplace id track p.mixer_tracks fresh p.master v.mixer.master_there;
    master_out = λ t e. master_ends t (known p.master t e);
    only_master = λ k t e f. master_alone k t (known k t e) f;
    outputs = λ k t out e f.
        has-emplace id track p.mixer_tracks fresh out (output_there k t out (known k t e) f);
    rank = rank_added;
    downhill = λ k t out e f. leads_down k t out (known k t e) f;
    slots = λ k t e. slots_kept k t (known k t e);
  }

  routes_added : (rs : List OutputRoute) → RoutesResolve p.mixer_tracks rs → RoutesResolve tracks rs
  routes_added [] h = tt
  routes_added (r ∷ rs) h =
      (has-emplace id track p.mixer_tracks fresh r.track h.0, routes_added rs h.1)

  track_kept :
      (q : Project) (s : ClipSource)
      → source_resolves p s ≡ true
      → source_resolves (with_tracks p q tracks) s ≡ true
  track_kept q (pattern_source k) h = h
  track_kept q (audio_source a) h = has-emplace id track p.mixer_tracks fresh a.destination h
  track_kept q (automation_source a) h =
      target_resolves-keep p (with_tracks p q tracks) a a.target_kind (λ _ i. i)
        (λ t e. (
          t,
          ground (
            arith,
            find-emplace id a.mixer_track track p.mixer_tracks fresh,
            id_eq_iff id a.mixer_track,
          ),
          refl,
        ))
        h

  pub track_added : (q : Project) → q ≡ with_tracks p q tracks → Integrity q
  track_added q shape = subst Integrity (sym shape) (record {
    ordered = record {
      instruments = v.ordered.instruments;
      patterns = v.ordered.patterns;
      lanes = v.ordered.lanes;
      clips = v.ordered.clips;
      mixer_tracks = emplace-IsOrdered id track p.mixer_tracks v.ordered.mixer_tracks;
    };
    instruments = λ k i e.
        let ok = v.instruments k i e in
        record { routes = routes_added i.routing ok.routes; ports = ok.ports };
    patterns = v.patterns;
    lanes = v.lanes;
    lane_orders = v.lane_orders;
    clips = λ k c e.
        let ok = v.clips k c e in
        ClipOk-keep p (with_tracks p q tracks) c ok ok.lane (track_kept q c.source ok.source);
    mixer = mixer_added;
  })

-- Creating a mixer track keeps a sound project sound, where the minted id is not taken: it feeds
-- the track that was asked for, or Master where that is not there, and closes no loop.
pub create_mixer_track-Integrity :
    (p : Project) (name : String) (output : Option MixerTrackId)
    → Integrity p
    → find (create_mixer_track p name output).1 p.mixer_tracks ≡ none
    → Integrity (create_mixer_track p name output).0
unfolding create_mixer_track emit
create_mixer_track-Integrity p name output v fresh =
    let wanted : MixerTrackId = elim output [ none ↦ p.master | some o ↦ o ] in
    let target : MixerTrackId = if has wanted p.mixer_tracks then wanted else p.master in
    track_added p v _ _ target fresh refl (target_there wanted target refl) tt
      (create_mixer_track p name output).0 refl
  where
    target_there :
        (wanted target : MixerTrackId)
        → target ≡ (if has wanted p.mixer_tracks then wanted else p.master)
        → has target p.mixer_tracks ≡ true
    target_there wanted target e = ground (arith, v.mixer.master_there)
