-- ===== src/Command/History/Trail/Gesture.antt =====
-- Transactions of engine/src/model/command.cpp: begun, filled, and committed or aborted.
use onebeat.Prelude.{
  ◌≡◌, refl, sym, ◌∙◌, ap, subst, ◌⊎◌, inl, inr, true, false, List, [], ◌∷◌, String, Bool-cases,
}
use onebeat.Command.{
  Steps, Entry, composite, Entries, nil, is_nil, Bus, record_entry, execute, undo, close,
  begin_transaction, commit_transaction, abort_transaction,
}
use onebeat.Command.History.{
  Laws, EntryApplied, EntriesApplied, EntriesApplied-Good, revert_entry-EntryApplied,
  revert_entries-EntriesApplied, apply_entry_lem, add-EntriesApplied,
}
use onebeat.Command.History.Trail.{Trail, nothing_done, UndoTrail-Good, OpenTrail-Good}
use onebeat.Command.History.Trail.Undo.{Reach, Reach-Trail, undo_top}

-- The calls of a drag: each a command to execute.
abbrev pub execute_all : {C P : Type 0} → Steps C P → Bus C P → List (Entry C) → Bus C P
execute_all steps b [] = b
execute_all steps b (e ∷ es) = execute_all steps (execute steps b e).0 es

module _ {C P A : Type 0} {steps : Steps C P} (laws : Laws steps A) (before : Bus C P) where
  -- `b` is `before` in a transaction that led from the one project to the other
  record Inside (n : String) (b : Bus C P) : Type 0 where
    commands : Entries C
    opened : b.open_stack ≡ record { title = n; commands = commands } ∷ before.open_stack
    done : EntriesApplied laws commands (laws.view before.project) (laws.view b.project)
    undo_stack : b.undo_stack ≡ before.undo_stack
    redo_stack : b.redo_stack ≡ before.redo_stack

  execute-Inside :
      (n : String) (b : Bus C P) (e : Entry C) → Inside n b → Inside n (execute steps b e).0
  unfolding execute record_entry
  execute-Inside n b e i =
      elim (apply_entry_lem laws e b.project (EntriesApplied-Good laws i.commands _ _ i.done).1) [
        | inr (h, same) ↦
            rw (execute, h)
              (record {
                commands = i.commands;
                opened = i.opened;
                done = subst (EntriesApplied laws i.commands _) (sym same) i.done;
                undo_stack = i.undo_stack;
                redo_stack = i.redo_stack;
              })
        | inl (h, done) ↦
            rw (execute, h, record_entry, i.opened)
              (record {
                commands = _;
                opened = refl;
                done = add-EntriesApplied laws i.commands _ _ _ _ i.done done;
                undo_stack = i.undo_stack;
                redo_stack = i.redo_stack;
              })
      ]

  execute_all-Inside :
      (n : String) (b : Bus C P) (es : List (Entry C))
      → Inside n b
      → Inside n (execute_all steps b es)
  execute_all-Inside n b [] i = i
  execute_all-Inside n b (e ∷ es) i =
      execute_all-Inside n (execute steps b e).0 es (execute-Inside n b e i)

  begin-Inside :
      (n : String) → laws.Good (laws.view before.project) → Inside n (begin_transaction before n)
  unfolding begin_transaction EntriesApplied
  begin-Inside n g = record {
    commands = nil;
    opened = refl;
    done = (refl, g);
    undo_stack = refl;
    redo_stack = refl;
  }

  abort-Inside :
      (n : String) (b : Bus C P)
      → Inside n b
      → (laws.view (abort_transaction steps b).project ≡ laws.view before.project)
        × ((abort_transaction steps b).open_stack ≡ before.open_stack)
        × ((abort_transaction steps b).undo_stack ≡ before.undo_stack)
        × ((abort_transaction steps b).redo_stack ≡ before.redo_stack)
  unfolding abort_transaction
  abort-Inside n b i =
      let (ok, back, _) = revert_entries-EntriesApplied laws i.commands _ _ b.project i.done refl in
      rw (abort_transaction, i.opened) (back, refl, i.undo_stack, i.redo_stack)

  -- What a gesture left: nothing, or an entry that one undo takes back.
  pub record OneStep (b : Bus C P) : Type 0 where
    pub entry : Entry C
    pub pushed : b.undo_stack ≡ entry ∷ before.undo_stack
    pub redo_gone : b.redo_stack ≡ []
    pub undo_succeeds : (undo steps b).1 ≡ true
    pub project_back : laws.view (undo steps b).0.project ≡ laws.view before.project
    pub history_back : (undo steps b).0.undo_stack ≡ before.undo_stack

  abbrev pub Unchanged : Bus C P → Type 0
  Unchanged b =
      (b.undo_stack ≡ before.undo_stack)
      × (b.redo_stack ≡ before.redo_stack)
      × (laws.view b.project ≡ laws.view before.project)

  committed_nothing :
      (n : String) (b : Bus C P) (i : Inside n b)
      → is_nil i.commands ≡ true
      → Unchanged (commit_transaction b)
  unfolding commit_transaction
  committed_nothing n b i e =
      rw (commit_transaction, i.opened, e)
        (i.undo_stack, i.redo_stack, sym (nothing_done laws i.commands _ _ i.done e))

  commit_shape :
      (n : String) (b : Bus C P) (i : Inside n b)
      → before.open_stack ≡ []
      → is_nil i.commands ≡ false
      → commit_transaction b ≡ close b (composite n i.commands) []
  unfolding commit_transaction
  commit_shape n b i closed e = rw (commit_transaction, i.opened, e, closed) refl

  committed_step :
      (n : String) (b : Bus C P) (i : Inside n b) → OneStep (close b (composite n i.commands) [])
  unfolding EntryApplied
  committed_step n b i =
      let q = close b (composite n i.commands) [] in
      let (ok, back, _) =
        revert_entry-EntryApplied laws (composite n i.commands) _ _ b.project i.done refl in
      let undone = undo_top steps q (composite n i.commands) b.undo_stack refl ok in
      record {
        entry = composite n i.commands;
        pushed = ap (λ es. composite n i.commands ∷ es) i.undo_stack;
        redo_gone = refl;
        undo_succeeds = ap (λ r. r.1) undone;
        project_back = ap (λ r. laws.view r.0.project) undone ∙ back;
        history_back = ap (λ r. r.0.undo_stack) undone ∙ i.undo_stack;
      }

  commit-Inside :
      (n : String) (b : Bus C P)
      → before.open_stack ≡ []
      → Inside n b
      → Unchanged (commit_transaction b) ⊎ OneStep (commit_transaction b)
  commit-Inside n b closed i = elim (Bool-cases (is_nil i.commands)) [
    | inl e ↦ inl (committed_nothing n b i e)
    | inr e ↦ inr (subst OneStep (sym (commit_shape n b i closed e)) (committed_step n b i))
  ]

module _ {C P A : Type 0} {steps : Steps C P} (laws : Laws steps A) (start : P)
    (good : laws.Good (laws.view start)) where
  good_now : (b : Bus C P) → Reach steps start b → laws.Good (laws.view b.project)
  unfolding Trail
  good_now b reached =
      let (base, u, r, o) = Reach-Trail laws start good reached in
      OpenTrail-Good laws b.open_stack base _ (UndoTrail-Good laws _ _ u) o

  -- For commands that keep the laws, on a bus that calls have led to from a good start, none of them an
  -- undo or a redo while a transaction was open: a gesture that is aborted leaves the project looking as it did when it began, and the stacks and
  -- the transactions around it as they were, whichever of its commands ran or failed.
  pub abort_gesture :
      (b : Bus C P) (n : String) (es : List (Entry C))
      → Reach steps start b
      → (laws.view (abort_transaction steps (execute_all steps (begin_transaction b n) es)).project
          ≡ laws.view b.project)
        × ((abort_transaction steps (execute_all steps (begin_transaction b n) es)).open_stack
            ≡ b.open_stack)
        × ((abort_transaction steps (execute_all steps (begin_transaction b n) es)).undo_stack
            ≡ b.undo_stack)
        × ((abort_transaction steps (execute_all steps (begin_transaction b n) es)).redo_stack
            ≡ b.redo_stack)
  abort_gesture b n es reached =
      abort-Inside laws b n _
        (execute_all-Inside laws b n _ es (begin-Inside laws b n (good_now b reached)))

  -- For commands that keep the laws, on a bus that calls have led to from a good start, none of them an
  -- undo or a redo while a transaction was open: a gesture that is committed outside any other either recorded nothing, and then the project looks
  -- as before and both stacks are what they were, or left one entry more on the undo stack, which one
  -- undo takes back: the project then looks as it did when the gesture began.
  pub commit_gesture :
      (b : Bus C P) (n : String) (es : List (Entry C))
      → Reach steps start b
      → b.open_stack ≡ []
      → Unchanged laws b (commit_transaction (execute_all steps (begin_transaction b n) es))
        ⊎ OneStep laws b (commit_transaction (execute_all steps (begin_transaction b n) es))
  commit_gesture b n es reached closed =
      commit-Inside laws b n _ closed
        (execute_all-Inside laws b n _ es (begin-Inside laws b n (good_now b reached)))
