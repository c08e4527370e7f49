-- ===== src/Command/Commands/Removal/Patterns.antt =====
-- Undoing the removal of a pattern.
use onebeat.Prelude.{◌≡◌, refl, sym, ◌∙◌, ap, subst, arith, true, none, some}
use onebeat.Prelude.Map.{find, erase, emplace, has, find-erase}
use onebeat.Prelude.Map.Keys.{has-some, mem-keys_where}
use onebeat.Prelude.Map.Ordered.{IsOrdered, erase-IsOrdered, ordered_ext}
use onebeat.Prelude.Map.Inverse.{emplace-erase}
use onebeat.Ids.{PatternId, raw_valid}
use onebeat.Ids.Order.{id_key, id_eq_iff}
use onebeat.Entities.{Pattern, Clip}
use onebeat.Project.{Project, emit}
use onebeat.Project.Impact.{uses_pattern, clips_using_pattern}
use onebeat.Project.Restore.{restore_pattern}
use onebeat.Project.Delete.{delete_pattern}
use onebeat.Project.Integrity.DeletePattern.{PatternDeleted, delete_pattern_lem}
use onebeat.Command.Commands.Clips.{ClipsFiled, silent}
use onebeat.Command.Commands.Removal.{
  capture, restore_clips, RemovePattern, apply_remove_pattern, revert_remove_pattern,
}
use onebeat.Command.Commands.Removal.Restored.{
  restore_clips-shape, restore_clips-IsOrdered, find-restore_clips,
}

-- The table of patterns is ordered, and each pattern is under its own id.
pub record PatternsFiled (p : Project) : Type 0 where
  pub ordered : IsOrdered p.patterns
  pub filed : (k : PatternId) (r : Pattern) → find k p.patterns ≡ some r → r.id ≡ k
  pub valid : (k : PatternId) (r : Pattern) → find k p.patterns ≡ some r → raw_valid k.raw ≡ true

-- what one call leaves, without the events
pattern_restored :
    (r : Pattern) (p : Project)
    → raw_valid r.id.raw ≡ true
    → find r.id p.patterns ≡ none
    → ((restore_pattern p r).1 ≡ true)
      × (silent (restore_pattern p r).0
          ≡ record (silent p) { patterns = emplace r.id r p.patterns })
unfolding restore_pattern emit
pattern_restored r p v h = rw (restore_pattern, v, h) (refl, refl)

module _ (p : Project) (id : PatternId) (patterns : PatternsFiled p) (clips : ClipsFiled p)
    (q : Project) (d : PatternDeleted p id q) where
  erased : q.patterns ≡ erase id p.patterns
  erased =
      ordered_ext q.patterns (erase id p.patterns) d.patterns_ordered
        (erase-IsOrdered id p.patterns patterns.ordered)
        (λ k. d.patterns k ∙ sym (find-erase id k p.patterns))

  module _ (q' : Project) (same : q'.clips ≡ q.clips) where
    clips_back : (restore_clips q' (capture p (clips_using_pattern p id))).clips ≡ p.clips
    unfolding clips_using_pattern
    clips_back =
        ordered_ext _ p.clips
          (restore_clips-IsOrdered q' (capture p (clips_using_pattern p id))
            (subst IsOrdered (sym same) d.clips_ordered))
          clips.ordered
          (λ k.
            find-restore_clips p clips (clips_using_pattern p id) q'
              (λ j. ground (arith, d.clips j, same)) k
            ∙ ground (
              arith,
              d.clips k,
              same,
              mem-keys_where (λ _ (clip : Clip). uses_pattern id clip.source) k p.clips
                  clips.ordered,
            ))

  put_back :
      (r : Pattern)
      → find id p.patterns ≡ some r
      → ((restore_pattern q r).1 ≡ true)
        × (silent (restore_clips (restore_pattern q r).0 (capture p (clips_using_pattern p id)))
            ≡ silent p)
  put_back r e =
      let own = patterns.filed id r e in
      let gone : find r.id q.patterns ≡ none = ground (arith, d.patterns r.id, id_eq_iff id r.id) in
      let valid = ap (λ k. raw_valid k.raw) own ∙ patterns.valid id r e in
      let (ok, shape) = pattern_restored r q valid gone in
      let q' = (restore_pattern q r).0 in
      let same : q'.clips ≡ q.clips = ap (λ x. x.clips) shape in
      let table : emplace r.id r q.patterns ≡ p.patterns =
        ap (λ m. emplace r.id r m) erased
        ∙ ap (λ k. emplace k r (erase id p.patterns)) own
        ∙ emplace-erase id r p.patterns patterns.ordered e in
      let rest : silent q ≡ record (silent p) { patterns = q.patterns; clips = q.clips } =
        ap silent d.rest in
      (
        ok,
        restore_clips-shape q' (capture p (clips_using_pattern p id))
            ∙ ground (arith, clips_back q' same, shape, table, rest),
      )

-- Where patterns and clips are filed under their own valid ids, removing a pattern that is there and undoing it
-- succeed, and give back the project but for the events it sent: the
-- pattern and every clip that placed it stand in their tables as before.
pub revert_remove_pattern-apply :
    (c : RemovePattern) (p : Project)
    → PatternsFiled p
    → ClipsFiled p
    → has c.id p.patterns ≡ true
    → let (captured, q, ok) = apply_remove_pattern c p in
      (ok ≡ true)
      × ((revert_remove_pattern captured q).2 ≡ true)
      × (silent (revert_remove_pattern captured q).1 ≡ silent p)
unfolding apply_remove_pattern revert_remove_pattern
revert_remove_pattern-apply c p patterns clips h =
    let (r, e) = has-some c.id p.patterns h in
    let (ok, d) = delete_pattern_lem p c.id patterns.ordered clips.ordered h in
    let (ok', back) = put_back p c.id patterns clips (delete_pattern p c.id).0 d r e in
    rw (apply_remove_pattern, e, revert_remove_pattern, ok') (ok, refl, back)
