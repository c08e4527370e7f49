-- ===== src/Command/History.antt =====
-- What a history of commands owes to its commands, and that composites keep it: the steps of
-- engine/src/model/command.h seen through a view of the project that leaves out what undo does not
-- restore (the events that were sent).
pub mod Trail
use onebeat.Prelude.{
  ◌≡◌, refl, sym, ◌∙◌, ap, subst, ◌⊎◌, inl, inr, arith, Bool, true, false, Option, none, some, List,
  [], ◌∷◌, Bool-cases, Option-cases, if◌then◌else◌,
}
use onebeat.Command.{
  Steps, Entry, single, composite, Entries, nil, cons, add, apply_entry, apply_entries,
  revert_entry, revert_entries, coalesce_entry,
}

-- What the commands of a program promise: `Applied c a b` says that `c` holds what it needs to go from
-- `b` back to `a`, and `Ready c a b` that it takes `a` to `b`.
pub record Laws {C P : Type 0} (steps : Steps C P) (A : Type 0) : Type 1 where
  pub view : P → A
  pub Good : A → Type 0
  pub Applied : C → A → A → Type 0
  pub Ready : C → A → A → Type 0
  pub applied_good : {c : C} {a b : A} → Applied c a b → Good a × Good b
  pub apply_done :
      (c : C) (p : P)
      → Good (view p)
      → (steps.apply c p).2 ≡ true
      → Applied (steps.apply c p).0 (view p) (view (steps.apply c p).1)
  pub apply_failed :
      (c : C) (p : P) → (steps.apply c p).2 ≡ false → view (steps.apply c p).1 ≡ view p
  pub apply_ready :
      {c : C} {a b : A} (p : P)
      → Ready c a b
      → view p ≡ a
      → ((steps.apply c p).2 ≡ true)
        × (view (steps.apply c p).1 ≡ b)
        × Applied (steps.apply c p).0 a b
  pub revert_applied :
      {c : C} {a b : A} (p : P)
      → Applied c a b
      → view p ≡ b
      → ((steps.revert c p).2 ≡ true)
        × (view (steps.revert c p).1 ≡ a)
        × Ready (steps.revert c p).0 a b
  pub coalesced :
      {c d e : C} {a b z : A}
      → Applied c a b
      → Applied d b z
      → steps.coalesce c d ≡ some e
      → Applied e a z

module _ {C P A : Type 0} {steps : Steps C P} (laws : Laws steps A) where
  mutual
    pub EntryApplied : Entry C → A → A → Type 0
    EntryApplied (single c) a b = laws.Applied c a b
    EntryApplied (composite n es) a b = EntriesApplied es a b

    -- The commands took the project from one state to the next.
    pub EntriesApplied : Entries C → A → A → Type 0
    EntriesApplied nil a b = (a ≡ b) × laws.Good b
    EntriesApplied (cons e es) a b = (m : A) × EntryApplied e a m × EntriesApplied es m b

  mutual
    pub EntryReady : Entry C → A → A → Type 0
    EntryReady (single c) a b = laws.Ready c a b
    EntryReady (composite n es) a b = EntriesReady es a b

    pub EntriesReady : Entries C → A → A → Type 0
    EntriesReady nil a b = (a ≡ b) × laws.Good b
    EntriesReady (cons e es) a b = (m : A) × EntryReady e a m × EntriesReady es m b

  mutual
    unfolding EntryApplied EntriesApplied

    pub EntryApplied-Good : (e : Entry C) (a b : A) → EntryApplied e a b → laws.Good a × laws.Good b
    EntryApplied-Good (single c) a b h = laws.applied_good h
    EntryApplied-Good (composite n es) a b h = EntriesApplied-Good es a b h

    pub EntriesApplied-Good :
        (es : Entries C) (a b : A) → EntriesApplied es a b → laws.Good a × laws.Good b
    EntriesApplied-Good nil a b h = (subst laws.Good (sym h.0) h.1, h.1)
    EntriesApplied-Good (cons e es) a b (m, h, t) =
        ((EntryApplied-Good e a m h).0, (EntriesApplied-Good es m b t).1)

  mutual
    unfolding EntryApplied EntriesApplied EntryReady EntriesReady revert_entry revert_entries

    pub revert_entry-EntryApplied :
        (e : Entry C) (a b : A) (p : P)
        → EntryApplied e a b
        → laws.view p ≡ b
        → ((revert_entry steps e p).2 ≡ true)
          × (laws.view (revert_entry steps e p).1 ≡ a)
          × EntryReady (revert_entry steps e p).0 a b
    revert_entry-EntryApplied (single c) a b p h v = laws.revert_applied p h v
    revert_entry-EntryApplied (composite n es) a b p h v =
        revert_entries-EntriesApplied es a b p h v

    pub revert_entries-EntriesApplied :
        (es : Entries C) (a b : A) (p : P)
        → EntriesApplied es a b
        → laws.view p ≡ b
        → ((revert_entries steps es p).2 ≡ true)
          × (laws.view (revert_entries steps es p).1 ≡ a)
          × EntriesReady (revert_entries steps es p).0 a b
    revert_entries-EntriesApplied nil a b p h v = (refl, v ∙ sym h.0, h)
    revert_entries-EntriesApplied (cons e es) a b p (m, h, t) v =
        let (ok, there, ready) = revert_entries-EntriesApplied es m b p t v in
        let (ok', there', ready') = revert_entry-EntryApplied e a m _ h there in
        rw (ok, revert_entries) (ok', there', (m, ready', ready))

  mutual
    unfolding EntryApplied EntriesApplied EntryReady EntriesReady apply_entry apply_entries

    pub apply_entry-EntryReady :
        (e : Entry C) (a b : A) (p : P)
        → EntryReady e a b
        → laws.view p ≡ a
        → ((apply_entry steps e p).2 ≡ true)
          × (laws.view (apply_entry steps e p).1 ≡ b)
          × EntryApplied (apply_entry steps e p).0 a b
    apply_entry-EntryReady (single c) a b p h v = laws.apply_ready p h v
    apply_entry-EntryReady (composite n es) a b p h v = apply_entries-EntriesReady es a b p h v

    pub apply_entries-EntriesReady :
        (es : Entries C) (a b : A) (p : P)
        → EntriesReady es a b
        → laws.view p ≡ a
        → ((apply_entries steps es p).2 ≡ true)
          × (laws.view (apply_entries steps es p).1 ≡ b)
          × EntriesApplied (apply_entries steps es p).0 a b
    apply_entries-EntriesReady nil a b p h v = (refl, v ∙ h.0, h)
    apply_entries-EntriesReady (cons e es) a b p (m, h, t) v =
        let (ok, there, done) = apply_entry-EntryReady e a m p h v in
        let (ok', there', done') = apply_entries-EntriesReady es m b _ t there in
        rw (ok, ok', apply_entries) (refl, there', (m, done, done'))

  mutual
    unfolding EntryApplied EntriesApplied apply_entry apply_entries

    pub apply_entry_lem :
        (e : Entry C) (p : P)
        → laws.Good (laws.view p)
        → (((apply_entry steps e p).2 ≡ true)
            × EntryApplied
                (apply_entry steps e p).0
                (laws.view p)
                (laws.view (apply_entry steps e p).1))
          ⊎ (((apply_entry steps e p).2 ≡ false)
              × (laws.view (apply_entry steps e p).1 ≡ laws.view p))
    apply_entry_lem (single c) p g = elim (Bool-cases (steps.apply c p).2) [
      | inl h ↦ inl (h, laws.apply_done c p g h)
      | inr h ↦ inr (h, laws.apply_failed c p h)
    ]
    apply_entry_lem (composite n es) p g = apply_entries_lem es p g

    pub apply_entries_lem :
        (es : Entries C) (p : P)
        → laws.Good (laws.view p)
        → (((apply_entries steps es p).2 ≡ true)
            × EntriesApplied
                (apply_entries steps es p).0
                (laws.view p)
                (laws.view (apply_entries steps es p).1))
          ⊎ (((apply_entries steps es p).2 ≡ false)
              × (laws.view (apply_entries steps es p).1 ≡ laws.view p))
    apply_entries_lem nil p g = inl (refl, (refl, g))
    apply_entries_lem (cons e es) p g = elim (apply_entry_lem e p g) [
      | inr (h, same) ↦ rw (h, apply_entries) (inr (refl, same))
      | inl (h, done) ↦
          let q = (apply_entry steps e p).1 in
          let good = (EntryApplied-Good _ _ _ done).1 in
          elim (apply_entries_lem es q good) [
            | inl (h', done') ↦ rw (h, h', apply_entries) (inl (refl, (_, done, done')))
            | inr (h', same) ↦
                let (ok, back, _) = revert_entry-EntryApplied _ _ _ _ done same in
                rw (h, h', apply_entries) (inr (refl, back))
          ]
    ]

  pub coalesce_entry-EntryApplied :
      (d e m : Entry C) (a b z : A)
      → EntryApplied d a b
      → EntryApplied e b z
      → coalesce_entry steps d e ≡ some m
      → EntryApplied m a z
  unfolding EntryApplied
  coalesce_entry-EntryApplied (single c) (single d) m a b z h k e =
      elim (Option-cases (steps.coalesce c d)) [
        | inl n ↦ absurd (ground arith)
        | inr (x, s) ↦
            let same : single x ≡ m = ground arith in
            subst (λ i. EntryApplied i a z) same (laws.coalesced h k s)
      ]
  coalesce_entry-EntryApplied (single c) (composite n es) m a b z h k e = absurd (ground arith)
  coalesce_entry-EntryApplied (composite n es) d m a b z h k e = absurd (ground arith)

  pub add-EntriesApplied :
      (es : Entries C) (e : Entry C) (a b z : A)
      → EntriesApplied es a b
      → EntryApplied e b z
      → EntriesApplied (add es e) a z
  unfolding EntriesApplied add
  add-EntriesApplied nil e a b z h k =
      (z, subst (λ i. EntryApplied e i z) (sym h.0) k, (refl, (EntryApplied-Good e b z k).1))
  add-EntriesApplied (cons d ds) e a b z (m, h, t) k = (m, h, add-EntriesApplied ds e m b z t k)
