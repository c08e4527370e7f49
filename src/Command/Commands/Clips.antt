-- ===== src/Command/Commands/Clips.antt =====
-- The commands on clips of engine/src/model/commands.cpp, as commands of a history.
use onebeat.Prelude.{
  ◌≡◌, refl, sym, ◌∙◌, ap, subst, inl, inr, arith, true, false, none, some, [], Option-cases,
}
use onebeat.Prelude.Map.{Map, find, erase, emplace, find-erase, find-emplace}
use onebeat.Prelude.Map.Ordered.{IsOrdered, erase-IsOrdered, emplace-IsOrdered}
use onebeat.Prelude.Map.Inverse.{emplace-erase, erase-emplace}
use onebeat.Ids.{ClipId, raw_valid}
use onebeat.Ids.Order.{id_key, id_eq_iff}
use onebeat.Entities.{Clip}
use onebeat.Project.{Project, emit}
use onebeat.Project.Restore.{restore_clip}
use onebeat.Project.Delete.{delete_clip}
use onebeat.Command.History.{Laws}
use onebeat.Command.Commands.{
  apply_remove, ClipCommand, add_clip, remove_clip, apply_clip, revert_clip, clip_steps,
}

-- The project without the events it has sent.
abbrev pub silent : Project → Project
silent p = record p { emitted = [] }

-- The table of clips is ordered, and each clip is under its own id.
pub record ClipsFiled (p : Project) : Type 0 where
  pub ordered : IsOrdered p.clips
  pub filed : (k : ClipId) (c : Clip) → find k p.clips ≡ some c → c.id ≡ k
  pub valid : (k : ClipId) (c : Clip) → find k p.clips ≡ some c → raw_valid k.raw ≡ true

erase-ClipsFiled :
    (p : Project) (id : ClipId) → ClipsFiled p → ClipsFiled (record p { clips = erase id p.clips })
erase-ClipsFiled p id g = record {
  ordered = erase-IsOrdered id p.clips g.ordered;
  filed = λ k c e. g.filed k c (ground (arith, find-erase id k p.clips));
  valid = λ k c e. g.valid k c (ground (arith, find-erase id k p.clips));
}

emplace-ClipsFiled :
    (p : Project) (c : Clip)
    → ClipsFiled p
    → raw_valid c.id.raw ≡ true
    → find c.id p.clips ≡ none
    → ClipsFiled (record p { clips = emplace c.id c p.clips })
emplace-ClipsFiled p c g v n = record {
  ordered = emplace-IsOrdered c.id c p.clips g.ordered;
  filed = λ k d e. ground (arith, g.filed k d, find-emplace c.id k c p.clips n, id_eq_iff c.id k);
  valid = λ k d e. ground (arith, g.valid k d, find-emplace c.id k c p.clips n, id_eq_iff c.id k);
}

-- A step between two projects: a clip comes in, or goes.
record ClipAdded (c : Clip) (a b : Project) : Type 0 where
  good : ClipsFiled a
  valid : raw_valid c.id.raw ≡ true
  fresh : find c.id a.clips ≡ none
  now : b ≡ record a { clips = emplace c.id c a.clips }

record ClipRemoved (id : ClipId) (c : Clip) (a b : Project) : Type 0 where
  good : ClipsFiled a
  there : find id a.clips ≡ some c
  now : b ≡ record a { clips = erase id a.clips }

pub ClipApplied : ClipCommand → Project → Project → Type 0
ClipApplied (add_clip c n) a b = ClipAdded c a b
ClipApplied (remove_clip id c) a b = ClipRemoved id c a b

pub ClipReady : ClipCommand → Project → Project → Type 0
ClipReady (add_clip c n) a b = ClipAdded c a b
ClipReady (remove_clip id d) a b = (c : Clip) × ClipRemoved id c a b

pub ClipApplied-ClipsFiled :
    (c : ClipCommand) (a b : Project) → ClipApplied c a b → ClipsFiled a × ClipsFiled b
unfolding ClipApplied
ClipApplied-ClipsFiled (add_clip c n) a b h =
    (h.good, subst ClipsFiled (sym h.now) (emplace-ClipsFiled a c h.good h.valid h.fresh))
ClipApplied-ClipsFiled (remove_clip id c) a b h =
    (h.good, subst ClipsFiled (sym h.now) (erase-ClipsFiled a id h.good))

-- what one call leaves, without the events
deleted :
    (id : ClipId) (c : Clip) (p : Project)
    → find id p.clips ≡ some c
    → ((delete_clip p id).1 ≡ true)
      × (silent (delete_clip p id).0 ≡ record (silent p) { clips = erase id p.clips })
unfolding delete_clip emit
deleted id c p h = rw (delete_clip, h) (refl, refl)

restored :
    (c : Clip) (p : Project)
    → raw_valid c.id.raw ≡ true
    → find c.id p.clips ≡ none
    → ((restore_clip p c).1 ≡ true)
      × (silent (restore_clip p c).0 ≡ record (silent p) { clips = emplace c.id c p.clips })
unfolding restore_clip emit
restored c p v h = rw (restore_clip, v, h) (refl, refl)

removed :
    (id : ClipId) (d c : Clip) (p : Project)
    → find id p.clips ≡ some c
    → ((apply_clip (remove_clip id d) p).0 ≡ remove_clip id c)
      × (silent (apply_clip (remove_clip id d) p).1
          ≡ record (silent p) { clips = erase id p.clips })
      × ((apply_clip (remove_clip id d) p).2 ≡ true)
unfolding apply_clip
removed id d c p h =
    let (ok, same) = deleted id c p h in rw (apply_clip, apply_remove, h) (refl, same, ok)

pub clip_apply_failed :
    (c : ClipCommand) (p : Project)
    → (apply_clip c p).2 ≡ false
    → silent (apply_clip c p).1 ≡ silent p
unfolding apply_clip restore_clip delete_clip emit
clip_apply_failed (add_clip c n) p h = ground arith
clip_apply_failed (remove_clip id d) p h = ground arith

pub clip_apply_done :
    (c : ClipCommand) (p : Project)
    → ClipsFiled (silent p)
    → (apply_clip c p).2 ≡ true
    → ClipApplied (apply_clip c p).0 (silent p) (silent (apply_clip c p).1)
unfolding apply_clip restore_clip delete_clip emit ClipApplied
clip_apply_done (add_clip c n) p g h = record {
  good = g;
  valid = ground arith;
  fresh = ground arith;
  now = ground arith;
}
clip_apply_done (remove_clip id d) p g h = elim (Option-cases (find id p.clips)) [
  | inl n ↦ absurd (ground arith)
  | inr (c, s) ↦
      let (made, same, _) = removed id d c p s in
      subst (λ k. ClipApplied k (silent p) (silent (apply_clip (remove_clip id d) p).1)) (sym made)
        (record { good = g; there = s; now = same })
]

pub clip_apply_ready :
    (c : ClipCommand) (a b p : Project)
    → ClipReady c a b
    → silent p ≡ a
    → ((apply_clip c p).2 ≡ true)
      × (silent (apply_clip c p).1 ≡ b)
      × ClipApplied (apply_clip c p).0 a b
unfolding apply_clip ClipApplied ClipReady
clip_apply_ready (add_clip c n) a b p h v =
    let fresh : find c.id p.clips ≡ none = ap (λ q. find c.id q.clips) v ∙ h.fresh in
    let (ok, same) = restored c p h.valid fresh in
    (
      ok,
      same ∙ ap {A = Project} (λ q. record q { clips = emplace c.id c q.clips }) v ∙ sym h.now,
      h,
    )
clip_apply_ready (remove_clip id d) a b p (c, h) v =
    let there : find id p.clips ≡ some c = ap (λ q. find id q.clips) v ∙ h.there in
    let (made, same, ok) = removed id d c p there in
    (
      ok,
      same ∙ ap {A = Project} (λ q. record q { clips = erase id q.clips }) v ∙ sym h.now,
      subst (λ k. ClipApplied k a b) (sym made) h,
    )

pub clip_revert_applied :
    (c : ClipCommand) (a b p : Project)
    → ClipApplied c a b
    → silent p ≡ b
    → ((revert_clip c p).2 ≡ true)
      × (silent (revert_clip c p).1 ≡ a)
      × ClipReady (revert_clip c p).0 a b
unfolding revert_clip ClipApplied ClipReady
clip_revert_applied (add_clip c n) a b p h v =
    let eq = v ∙ h.now in
    let clips : p.clips ≡ emplace c.id c a.clips = ap (λ q. q.clips) eq in
    let there : find c.id p.clips ≡ some c =
      ground (arith, find-emplace c.id c.id c a.clips h.fresh, id_eq_iff c.id c.id) in
    let (ok, same) = deleted c.id c p there in
    (
      ok,
      same
          ∙ ap {A = Project} (λ q. record q { clips = erase c.id q.clips }) eq
          ∙ ap {A = Map ClipId Clip} (λ m. record a { clips = m })
              (erase-emplace c.id c a.clips h.good.ordered h.fresh),
      h,
    )
clip_revert_applied (remove_clip id c) a b p h v =
    let eq = v ∙ h.now in
    let own = h.good.filed id c h.there in
    let clips : p.clips ≡ erase id a.clips = ap (λ q. q.clips) eq in
    let fresh : find c.id p.clips ≡ none =
      ground (arith, find-erase id c.id a.clips, id_eq_iff id c.id) in
    let (ok, same) =
      restored c p (ap (λ k. raw_valid k.raw) own ∙ h.good.valid id c h.there) fresh in
    (
      ok,
      same
          ∙ ap {A = Project} (λ q. record q { clips = emplace c.id c q.clips }) eq
          ∙ ap {A = Map ClipId Clip} (λ m. record a { clips = m })
              (ap (λ k. emplace k c (erase id a.clips)) own
                ∙ emplace-erase id c a.clips h.good.ordered h.there),
      (c, h),
    )

-- The commands on clips, with the project seen without its events, are commands that the history
-- may hold.
unfoldable pub clip_laws : Laws clip_steps Project
clip_laws = record {
  view = silent;
  Good = ClipsFiled;
  Applied = ClipApplied;
  Ready = ClipReady;
  applied_good = λ h. ClipApplied-ClipsFiled _ _ _ h;
  apply_done = clip_apply_done;
  apply_failed = clip_apply_failed;
  apply_ready = λ p h v. clip_apply_ready _ _ _ p h v;
  revert_applied = λ p h v. clip_revert_applied _ _ _ p h v;
  coalesced = λ h k e. absurd (ground arith);
}
