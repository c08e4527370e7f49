-- ===== src/Command/Commands/Removal/Restored.antt =====
-- Clips that were captured and deleted come back as they were.
use onebeat.Prelude.{
  ◌≡◌, refl, ◌∙◌, ap, ◌⊎◌, inl, inr, arith, none, some, List, [], ◌∷◌, if◌then◌else◌, Option-cases,
  Bool-cases,
}
use onebeat.Prelude.Map.{find, find-emplace}
use onebeat.Prelude.Map.Ordered.{IsOrdered, emplace-IsOrdered}
use onebeat.Ids.{ClipId}
use onebeat.Ids.Order.{id_key, id_eq, id_eq_iff}
use onebeat.Entities.{Clip}
use onebeat.Project.{Project, emit}
use onebeat.Project.Impact.{mem_id}
use onebeat.Project.Restore.{restore_clip}
use onebeat.Command.Commands.Clips.{ClipsFiled, silent}
use onebeat.Command.Commands.Removal.{capture, restore_clips}

restore_clip-shape :
    (q : Project) (c : Clip)
    → silent (restore_clip q c).0 ≡ record (silent q) { clips = (restore_clip q c).0.clips }
unfolding restore_clip emit
restore_clip-shape q c = ground arith

pub restore_clips-shape :
    (q : Project) (cs : List Clip)
    → silent (restore_clips q cs) ≡ record (silent q) { clips = (restore_clips q cs).clips }
unfolding restore_clips
restore_clips-shape q [] = refl
restore_clips-shape q (c ∷ cs) =
    ground (arith, restore_clip-shape q c, restore_clips-shape (restore_clip q c).0 cs)

restore_clip-IsOrdered :
    (q : Project) (c : Clip) → IsOrdered q.clips → IsOrdered (restore_clip q c).0.clips
unfolding restore_clip emit
restore_clip-IsOrdered q c h = ground (arith, emplace-IsOrdered c.id c q.clips h)

pub restore_clips-IsOrdered :
    (q : Project) (cs : List Clip) → IsOrdered q.clips → IsOrdered (restore_clips q cs).clips
unfolding restore_clips
restore_clips-IsOrdered q [] h = h
restore_clips-IsOrdered q (c ∷ cs) h =
    restore_clips-IsOrdered (restore_clip q c).0 cs (restore_clip-IsOrdered q c h)

module _ (p : Project) (g : ClipsFiled p) where
  -- every clip of `q` is a clip of `p`
  abbrev Within : Project → Type 0
  Within q = (k : ClipId) → (find k q.clips ≡ none) ⊎ (find k q.clips ≡ find k p.clips)

  find-restore_clip :
      (q : Project) (id : ClipId) (c : Clip)
      → find id p.clips ≡ some c
      → Within q
      → (k : ClipId)
      → find k (restore_clip q c).0.clips ≡ (if id_eq id k then find k p.clips else find k q.clips)
  unfolding restore_clip emit
  find-restore_clip q id c e w k =
      let own = g.filed id c e in
      let valid = g.valid id c e in
      elim (w c.id) [
        | inl n ↦ ground (arith, find-emplace c.id k c q.clips n, id_eq_iff id k, id_eq_iff c.id k)
        | inr s ↦ ground (arith, id_eq_iff id k, w k)
      ]

  restore_clip-Within :
      (q : Project) (id : ClipId) (c : Clip)
      → find id p.clips ≡ some c
      → Within q
      → Within (restore_clip q c).0
  restore_clip-Within q id c e w k = elim (Bool-cases (id_eq id k)) [
    | inl h ↦
        inr (
          find-restore_clip q id c e w k ∙ ap (λ b. if b then find k p.clips else find k q.clips) h)
    | inr h ↦
        let same : find k (restore_clip q c).0.clips ≡ find k q.clips =
          find-restore_clip q id c e w k
          ∙ ap (λ b. if b then find k p.clips else find k q.clips) h in
        elim (w k) [ inl n ↦ inl (same ∙ n) | inr s ↦ inr (same ∙ s) ]
  ]

  -- The clips captured of `p` under a list of ids are in the table again, and nothing else changed.
  pub find-restore_clips :
      (ids : List ClipId) (q : Project)
      → Within q
      → (k : ClipId)
      → find k (restore_clips q (capture p ids)).clips
        ≡ (if mem_id k ids then find k p.clips else find k q.clips)
  unfolding restore_clips capture
  find-restore_clips [] q w k = refl
  find-restore_clips (id ∷ ids) q w k = elim (Option-cases (find id p.clips)) [
    | inl n ↦
        rw (capture, n)
          (find-restore_clips ids q w k
            ∙ ground (arith, w k, id_eq_iff id k, ap (λ i. find i p.clips)))
    | inr (c, e) ↦
        rw (capture, e)
          (find-restore_clips ids (restore_clip q c).0 (restore_clip-Within q id c e w) k
            ∙ ground (arith, find-restore_clip q id c e w k, id_eq_iff id k))
  ]
