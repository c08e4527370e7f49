-- ===== src/Command/History/Trail/Undo.antt =====
-- The calls of the bus of engine/src/model/command.cpp, one after the other; `undo`, `redo` and
-- `execute`.
use onebeat.Prelude.{
  ◌≡◌, refl, sym, ◌∙◌, ap, subst, inl, inr, arith, true, false, none, List, [], ◌∷◌, String,
  List-cases,
}
use onebeat.Command.{
  Steps, Entry, apply_entry, revert_entry, Bus, new_bus, can_undo, record_outside, record_entry,
  absorbed, execute, undo, redo, begin_transaction, commit_transaction, abort_transaction, seal,
  clear_history,
}
use onebeat.Command.History.{
  Laws, revert_entry-EntryApplied, apply_entry-EntryReady, apply_entry_lem,
}
use onebeat.Command.History.Trail.{
  Trail, UndoTrail, OpenTrail, UndoTrail-Good, OpenTrail-Good, new_bus-Trail, execute-Trail,
  undo-Trail, redo-Trail, begin_transaction-Trail, commit_transaction-Trail,
  abort_transaction-Trail, seal-Trail, clear_history-Trail,
}

-- The buses that calls lead to, none of them an undo or a redo while a transaction is open.
pub data Reach {C P : Type 0} (steps : Steps C P) (start : P) : Bus C P → Type 0 where
  begun : Reach steps start (new_bus start)
  executed :
      {b : Bus C P} (e : Entry C) → Reach steps start b → Reach steps start (execute steps b e).0
  undone :
      {b : Bus C P} → b.open_stack ≡ [] → Reach steps start b → Reach steps start (undo steps b).0
  redone :
      {b : Bus C P} → b.open_stack ≡ [] → Reach steps start b → Reach steps start (redo steps b).0
  opened :
      {b : Bus C P} (n : String) → Reach steps start b → Reach steps start (begin_transaction b n)
  committed : {b : Bus C P} → Reach steps start b → Reach steps start (commit_transaction b)
  aborted : {b : Bus C P} → Reach steps start b → Reach steps start (abort_transaction steps b)
  sealed : {b : Bus C P} → Reach steps start b → Reach steps start (seal b)
  cleared : {b : Bus C P} → Reach steps start b → Reach steps start (clear_history b)

module _ {C P : Type 0} (steps : Steps C P) (b : Bus C P) where
  abbrev pub after_undo : Entry C → List (Entry C) → Bus C P
  after_undo e below = record b {
    project = (revert_entry steps e b.project).1;
    undo_stack = below;
    redo_stack = (revert_entry steps e b.project).0 ∷ b.redo_stack;
    coalescable = false;
  }

  pub undo_top :
      (e : Entry C) (below : List (Entry C))
      → b.undo_stack ≡ e ∷ below
      → (revert_entry steps e b.project).2 ≡ true
      → undo steps b ≡ (after_undo e below, true)
  unfolding undo
  undo_top e below s ok = rw (undo, s, ok) refl

  abbrev after_redo : Entry C → List (Entry C) → Bus C P
  after_redo e later = record b {
    project = (apply_entry steps e b.project).1;
    undo_stack = (apply_entry steps e b.project).0 ∷ b.undo_stack;
    redo_stack = later;
    coalescable = false;
  }

  redo_top :
      (e : Entry C) (later : List (Entry C))
      → b.redo_stack ≡ e ∷ later
      → (apply_entry steps e b.project).2 ≡ true
      → redo steps b ≡ (after_redo e later, true)
  unfolding redo
  redo_top e later s ok = rw (redo, s, ok) refl

  abbrev after_execute : Entry C → Bus C P
  after_execute e = record b {
    project = (apply_entry steps e b.project).1;
    undo_stack = (apply_entry steps e b.project).0 ∷ b.undo_stack;
    redo_stack = [];
    coalescable = true;
  }

  nothing_absorbed :
      (e : Entry C) (p : P)
      → b.coalescable ≡ false
      → absorbed steps (record b { project = p }) e ≡ none
  unfolding absorbed
  nothing_absorbed e p h = ground arith

  execute_pushed :
      (e : Entry C)
      → b.open_stack ≡ []
      → b.coalescable ≡ false
      → (apply_entry steps e b.project).2 ≡ true
      → execute steps b e ≡ (after_execute e, true)
  unfolding execute record_entry record_outside
  execute_pushed e closed h ok =
      rw
        (
          execute,
          ok,
          record_entry,
          closed,
          record_outside,
          nothing_absorbed (apply_entry steps e b.project).0 (apply_entry steps e b.project).1 h,
        )
        (ap (λ ts. (record (after_execute e) { open_stack = ts }, true)) closed)

module _ {C P A : Type 0} {steps : Steps C P} (laws : Laws steps A) (start : P)
    (good : laws.Good (laws.view start)) where
  pub Reach-Trail : {b : Bus C P} → Reach steps start b → Trail laws b
  Reach-Trail begun = new_bus-Trail laws start good
  Reach-Trail (executed e r) = execute-Trail laws _ e (Reach-Trail r)
  Reach-Trail (undone h r) = undo-Trail laws _ h (Reach-Trail r)
  Reach-Trail (redone h r) = redo-Trail laws _ h (Reach-Trail r)
  Reach-Trail (opened n r) = begin_transaction-Trail laws _ n (Reach-Trail r)
  Reach-Trail (committed r) = commit_transaction-Trail laws _ (Reach-Trail r)
  Reach-Trail (aborted r) = abort_transaction-Trail laws _ (Reach-Trail r)
  Reach-Trail (sealed r) = seal-Trail laws _ (Reach-Trail r)
  Reach-Trail (cleared r) = clear_history-Trail laws _ (Reach-Trail r)

  -- For commands that keep the laws, from a good start: on a bus that calls have led to, none of them an
  -- undo or a redo while a transaction was open, and which is now outside a transaction with something to
  -- undo, undo succeeds, redo then succeeds, and the project looks as it did before. The laws are a
  -- hypothesis on the commands; one of them is that merging two commands leaves one that undoes both.
  pub redo-undo :
      (b : Bus C P)
      → Reach steps start b
      → b.open_stack ≡ []
      → can_undo b ≡ true
      → ((undo steps b).1 ≡ true)
        × ((redo steps (undo steps b).0).1 ≡ true)
        × (laws.view (redo steps (undo steps b).0).0.project ≡ laws.view b.project)
  unfolding Trail OpenTrail UndoTrail
  redo-undo b reached closed h = elim (List-cases b.undo_stack) [
    | inl n ↦ absurd (ground arith)
    | inr (e, below, s) ↦
        let (base, u, r, o) = Reach-Trail reached in
        let here = subst (λ ts. OpenTrail laws ts base (laws.view b.project)) closed o in
        let (a, done, rest) = subst (λ es. UndoTrail laws es base) s u in
        let (ok, back, ready) = revert_entry-EntryApplied laws e a base b.project done (sym here) in
        let (ok', on, again) = apply_entry-EntryReady laws _ a base _ ready back in
        let undone = undo_top steps b e below s ok in
        let redone = redo_top steps (after_undo steps b e below) _ _ refl ok' in
        rw (undone, redone) (refl, refl, on ∙ here)
  ]

  -- For commands that keep the laws, on a bus that calls have led to from a good start, none of them an
  -- undo or a redo while a transaction was open: a command that
  -- succeeds outside a transaction, with the window for merging closed, is taken back by one undo, which
  -- succeeds; the project looks as it did before, and the undo stack is what it was.
  pub undo-execute :
      (b : Bus C P) (e : Entry C)
      → Reach steps start b
      → b.open_stack ≡ []
      → b.coalescable ≡ false
      → (execute steps b e).1 ≡ true
      → ((undo steps (execute steps b e).0).1 ≡ true)
        × (laws.view (undo steps (execute steps b e).0).0.project ≡ laws.view b.project)
        × ((undo steps (execute steps b e).0).0.undo_stack ≡ b.undo_stack)
  unfolding execute Trail OpenTrail
  undo-execute b e reached closed apart ok =
      let (base, u, r, o) = Reach-Trail reached in
      elim (apply_entry_lem laws e b.project
        (OpenTrail-Good laws b.open_stack base _ (UndoTrail-Good laws _ _ u) o)) [
          | inr (h, same) ↦ absurd (ground arith)
          | inl (h, done) ↦
              let (back, there, _) =
                revert_entry-EntryApplied laws _ _ _ (apply_entry steps e b.project).1 done refl in
              let pushed = execute_pushed steps b e closed apart h in
              let undone = undo_top steps (after_execute steps b e) _ _ refl back in
              rw (pushed, undone) (refl, there, refl)
        ]

  -- For commands that keep the laws, on a bus that calls have led to from a good start, none of them an
  -- undo or a redo while a transaction was open: where a command
  -- fails, a composite included, the project looks as before, and both stacks and the open transactions
  -- are what they were.
  pub execute_failed :
      (b : Bus C P) (e : Entry C)
      → Reach steps start b
      → (execute steps b e).1 ≡ false
      → (laws.view (execute steps b e).0.project ≡ laws.view b.project)
        × ((execute steps b e).0.undo_stack ≡ b.undo_stack)
        × ((execute steps b e).0.redo_stack ≡ b.redo_stack)
        × ((execute steps b e).0.open_stack ≡ b.open_stack)
  unfolding execute Trail OpenTrail
  execute_failed b e reached ok =
      let (base, u, r, o) = Reach-Trail reached in
      elim (apply_entry_lem laws e b.project
        (OpenTrail-Good laws b.open_stack base _ (UndoTrail-Good laws _ _ u) o)) [
          | inr (h, same) ↦ rw (h, execute) (same, refl, refl, refl)
          | inl (h, done) ↦ absurd (ground arith)
        ]
