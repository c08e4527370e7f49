-- ===== src/Command/History/Trail.antt =====
-- What the stacks of the bus of engine/src/model/command.cpp say about the project, call by call.
pub mod Undo
pub mod Gesture
use onebeat.Prelude.{
  ◌≡◌, refl, sym, ◌∙◌, ap, subst, ◌⊎◌, inl, inr, arith, Bool, true, false, Option, none, some, List,
  [], ◌∷◌, String, Bool-cases, Option-cases, List-cases, if◌then◌else◌,
}
use onebeat.Command.{
  Steps, Entry, single, composite, Entries, nil, cons, add, add_to, is_nil, apply_entry,
  revert_entry, revert_entries, coalesce_entry, Transaction, Bus, new_bus, absorbed, push_entry,
  record_outside, replace_top, record_entry, execute, undo, redo, begin_transaction, close,
  commit_transaction, abort_transaction, seal, clear_history,
}
use onebeat.Command.History.{
  Laws, EntryApplied, EntriesApplied, EntryReady, EntryApplied-Good, EntriesApplied-Good,
  revert_entry-EntryApplied, revert_entries-EntriesApplied, apply_entry-EntryReady, apply_entry_lem,
  coalesce_entry-EntryApplied, add-EntriesApplied,
}

module _ {C P A : Type 0} {steps : Steps C P} (laws : Laws steps A) where
  -- The undo stack leads to a state, each entry from the one before.
  pub UndoTrail : List (Entry C) → A → Type 0
  UndoTrail [] b = laws.Good b
  UndoTrail (e ∷ es) b = (a : A) × EntryApplied laws e a b × UndoTrail es a

  -- The redo stack leads on from a state.
  pub RedoTrail : List (Entry C) → A → Type 0
  RedoTrail [] a = Unit
  RedoTrail (e ∷ es) a = (b : A) × EntryReady laws e a b × RedoTrail es b

  -- The open transactions lead from one state to another, the innermost one last.
  pub OpenTrail : List (Transaction C) → A → A → Type 0
  OpenTrail [] a b = a ≡ b
  OpenTrail (t ∷ ts) a b = (m : A) × OpenTrail ts a m × EntriesApplied laws t.commands m b

  -- There is a state that the undo stack leads to, the redo stack leads on from and the open
  -- transactions lead from to the project.
  pub Trail : Bus C P → Type 0
  Trail b =
      (base : A) × UndoTrail b.undo_stack base
      × RedoTrail b.redo_stack base
      × OpenTrail b.open_stack base (laws.view b.project)

  pub UndoTrail-Good : (es : List (Entry C)) (a : A) → UndoTrail es a → laws.Good a
  unfolding UndoTrail
  UndoTrail-Good [] a h = h
  UndoTrail-Good (e ∷ es) a (m, h, t) = (EntryApplied-Good laws e m a h).1

  pub OpenTrail-Good :
      (ts : List (Transaction C)) (a b : A) → laws.Good a → OpenTrail ts a b → laws.Good b
  unfolding OpenTrail
  OpenTrail-Good [] a b g h = subst laws.Good h g
  OpenTrail-Good (t ∷ ts) a b g (m, h, k) = (EntriesApplied-Good laws t.commands m b k).1

  pub new_bus-Trail : (p : P) → laws.Good (laws.view p) → Trail (new_bus p)
  unfolding Trail UndoTrail RedoTrail OpenTrail
  new_bus-Trail p g = (laws.view p, g, tt, refl)

  absorb :
      (b : Bus C P) (p : P) (e m : Entry C) (base : A)
      → UndoTrail b.undo_stack base
      → EntryApplied laws e base (laws.view p)
      → absorbed steps b e ≡ some m
      → UndoTrail (replace_top b.undo_stack m) (laws.view p)
  unfolding UndoTrail absorbed
  absorb b p e m base u h s = top b.undo_stack u s
    where
      top :
          (es : List (Entry C))
          → UndoTrail es base
          → elim es [
            | [] ↦ none
            | (t ∷ below) ↦ if b.coalescable then coalesce_entry steps t e else none
          ]
            ≡ some m
          → UndoTrail (replace_top es m) (laws.view p)
      top [] u s = absurd (ground arith)
      top (t ∷ below) (a, k, u) s =
          (a, coalesce_entry-EntryApplied laws t e m a base _ k h (ground arith), u)

  record_outside-Trail :
      (b : Bus C P) (p : P) (e : Entry C) (base : A)
      → b.open_stack ≡ []
      → UndoTrail b.undo_stack base
      → EntryApplied laws e base (laws.view p)
      → Trail (record_outside steps (record b { project = p }) e)
  unfolding Trail UndoTrail RedoTrail OpenTrail record_outside absorbed
  record_outside-Trail b p e base o u h = elim (Option-cases (absorbed steps b e)) [
    | inl n ↦ rw (record_outside, n, o) (laws.view p, (base, h, u), tt, refl)
    | inr (m, s) ↦ rw (record_outside, s, o) (laws.view p, absorb b p e m base u h s, tt, refl)
  ]

  record_entry-Trail :
      (b : Bus C P) (p : P) (e : Entry C)
      → Trail b
      → EntryApplied laws e (laws.view b.project) (laws.view p)
      → Trail (record_entry steps (record b { project = p }) e)
  unfolding Trail UndoTrail RedoTrail OpenTrail record_entry
  record_entry-Trail b p e (base, u, r, o) h = elim (List-cases b.open_stack) [
    | inl n ↦
        let here : base ≡ laws.view b.project =
          subst (λ ts. OpenTrail ts base (laws.view b.project)) n o in
        rw (record_entry, n)
          (record_outside-Trail b p e base n u
            (subst (λ a. EntryApplied laws e a (laws.view p)) (sym here) h))
    | inr (t, ts, s) ↦
        let (m, out, done) = subst (λ os. OpenTrail os base (laws.view b.project)) s o in
        rw (record_entry, s)
          (base, u, r, (m, out, add-EntriesApplied laws t.commands e m _ _ done h))
  ]

  pub execute-Trail : (b : Bus C P) (e : Entry C) → Trail b → Trail (execute steps b e).0
  unfolding Trail execute
  execute-Trail b e (base, u, r, o) =
      elim (apply_entry_lem laws e b.project
        (OpenTrail-Good b.open_stack base _ (UndoTrail-Good _ _ u) o)) [
          | inl (h, done) ↦ rw (execute, h) (record_entry-Trail b _ _ (base, u, r, o) done)
          | inr (h, same) ↦
              rw (execute, h) (base, u, r, subst (OpenTrail b.open_stack base) (sym same) o)
        ]

  pub undo-Trail : (b : Bus C P) → b.open_stack ≡ [] → Trail b → Trail (undo steps b).0
  unfolding Trail UndoTrail RedoTrail OpenTrail undo
  undo-Trail b closed (base, u, r, o) =
      let here : base ≡ laws.view b.project =
        subst (λ ts. OpenTrail ts base (laws.view b.project)) closed o in
      elim (List-cases b.undo_stack) [
        | inl n ↦ rw (undo, n) (base, u, r, o)
        | inr (e, below, s) ↦
            let (a, done, rest) = subst (λ es. UndoTrail es base) s u in
            let (ok, back, ready) =
              revert_entry-EntryApplied laws e a base b.project done (sym here) in
            rw (undo, s, ok, closed) (a, rest, (base, ready, r), sym back)
      ]

  pub redo-Trail : (b : Bus C P) → b.open_stack ≡ [] → Trail b → Trail (redo steps b).0
  unfolding Trail UndoTrail RedoTrail OpenTrail redo
  redo-Trail b closed (base, u, r, o) =
      let here : base ≡ laws.view b.project =
        subst (λ ts. OpenTrail ts base (laws.view b.project)) closed o in
      elim (List-cases b.redo_stack) [
        | inl n ↦ rw (redo, n) (base, u, r, o)
        | inr (e, later, s) ↦
            let (z, ready, rest) = subst (λ es. RedoTrail es base) s r in
            let (ok, on, done) = apply_entry-EntryReady laws e base z b.project ready (sym here) in
            rw (redo, s, ok, closed) (z, (base, done, u), rest, sym on)
      ]

  pub begin_transaction-Trail : (b : Bus C P) (n : String) → Trail b → Trail (begin_transaction b n)
  unfolding Trail OpenTrail begin_transaction EntriesApplied
  begin_transaction-Trail b n (base, u, r, o) = (
    base,
    u,
    r,
    (laws.view b.project, o, (refl, OpenTrail-Good b.open_stack base _ (UndoTrail-Good _ _ u) o)),
  )

  pub abort_transaction-Trail : (b : Bus C P) → Trail b → Trail (abort_transaction steps b)
  unfolding Trail OpenTrail abort_transaction
  abort_transaction-Trail b (base, u, r, o) = elim (List-cases b.open_stack) [
    | inl n ↦ rw (abort_transaction, n) (base, u, r, o)
    | inr (t, ts, s) ↦
        let (m, out, done) = subst (λ os. OpenTrail os base (laws.view b.project)) s o in
        let (ok, back, ready) =
          revert_entries-EntriesApplied laws t.commands m _ b.project done refl in
        rw (abort_transaction, s) (base, u, r, subst (OpenTrail ts base) (sym back) out)
  ]

  close-Trail :
      (b : Bus C P) (t : Transaction C) (ts : List (Transaction C)) (base m : A)
      → UndoTrail b.undo_stack base
      → RedoTrail b.redo_stack base
      → OpenTrail ts base m
      → EntriesApplied laws t.commands m (laws.view b.project)
      → Trail (close b (composite t.title t.commands) ts)
  unfolding Trail UndoTrail RedoTrail OpenTrail EntryApplied
  close-Trail b t [] base m u r o done = (
    laws.view b.project,
    (base, subst (λ a. EntriesApplied laws t.commands a (laws.view b.project)) (sym o) done, u),
    tt,
    refl,
  )
  close-Trail b t (outer ∷ rest) base m u r (a, out, before) done =
      (base, u, r, (a, out, add-EntriesApplied laws outer.commands _ a m _ before done))

  -- commands that are none change nothing
  pub nothing_done :
      (es : Entries C) (a b : A) → EntriesApplied laws es a b → is_nil es ≡ true → a ≡ b
  unfolding EntriesApplied
  nothing_done nil a b h e = h.0
  nothing_done (cons d ds) a b h e = absurd (ground arith)

  pub commit_transaction-Trail : (b : Bus C P) → Trail b → Trail (commit_transaction b)
  unfolding Trail OpenTrail commit_transaction
  commit_transaction-Trail b (base, u, r, o) = elim (List-cases b.open_stack) [
    | inl n ↦ rw (commit_transaction, n) (base, u, r, o)
    | inr (t, ts, s) ↦
        let (m, out, done) = subst (λ os. OpenTrail os base (laws.view b.project)) s o in
        elim (Bool-cases (is_nil t.commands)) [
          | inl e ↦
              rw (commit_transaction, s, e)
                (base, u, r, subst (OpenTrail ts base) (nothing_done t.commands m _ done e) out)
          | inr e ↦ rw (commit_transaction, s, e) (close-Trail b t ts base m u r out done)
        ]
  ]

  pub clear_history-Trail : (b : Bus C P) → Trail b → Trail (clear_history b)
  unfolding Trail UndoTrail RedoTrail OpenTrail clear_history
  clear_history-Trail b (base, u, r, o) =
      (laws.view b.project, OpenTrail-Good b.open_stack base _ (UndoTrail-Good _ _ u) o, tt, refl)

  pub seal-Trail : (b : Bus C P) → Trail b → Trail (seal b)
  unfolding Trail seal
  seal-Trail b h = h
