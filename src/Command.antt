-- ===== src/Command.antt =====
-- Undo and redo: engine/src/model/command.h and command.cpp. A command is a value of a type `C` that
-- an interface `Steps` applies to and reverts from a project of a type `P`; what a command captures
-- while it is applied is its next value. The bus owns a reference to the project, so its state here
-- contains the project. Stacks have their top at the head of the list.
pub mod Commands
pub mod History
use onebeat.Prelude.{
  ◌≡◌, Bool, true, false, not, ◌&&◌, Option, none, some, List, [], ◌∷◌, String, if◌then◌else◌,
}

-- What the class `Command` declares: both directions answer whether the step made sense, and
-- `coalesce` is the absorbing command where it takes the other one in.
pub record Steps (C P : Type 0) : Type 0 where
  pub apply : C → P → C × P × Bool
  pub revert : C → P → C × P × Bool
  pub name : C → String
  pub coalesce : C → C → Option C

-- A command of the bus: a command of the program, or a `CompositeCommand`.
mutual
  pub data Entry (C : Type 0) : Type 0 where
    single : C → Entry C
    composite : String → Entries C → Entry C

  pub data Entries (C : Type 0) : Type 0 where
    nil : Entries C
    cons : Entry C → Entries C → Entries C

module _ {C : Type 0} where
  -- `CompositeCommand::add`
  pub add : Entries C → Entry C → Entries C
  add nil e = cons e nil
  add (cons d ds) e = cons d (add ds e)

  abbrev pub is_nil : Entries C → Bool
  is_nil nil = true
  is_nil (cons e es) = false

module _ {C P : Type 0} (steps : Steps C P) where
  mutual
    -- The commands are reverted from the last to the first, up to one that refuses.
    pub revert_entry : Entry C → P → Entry C × P × Bool
    revert_entry (single c) p = let (c', p', ok) = steps.revert c p in (single c', p', ok)
    revert_entry (composite n es) p =
        let (es', p', ok) = revert_entries es p in (composite n es', p', ok)

    pub revert_entries : Entries C → P → Entries C × P × Bool
    revert_entries nil p = (nil, p, true)
    revert_entries (cons e es) p =
        let rest = revert_entries es p in
        let first = revert_entry e rest.1 in
        if rest.2 then (cons first.0 rest.0, first.1, first.2) else (cons e rest.0, rest.1, false)

  unfoldable mutual
    -- The commands are applied from the first on; where one refuses, those before it are reverted, the
    -- last one first, whatever they answer.
    pub apply_entry : Entry C → P → Entry C × P × Bool
    apply_entry (single c) p = let (c', p', ok) = steps.apply c p in (single c', p', ok)
    apply_entry (composite n es) p =
        let (es', p', ok) = apply_entries es p in (composite n es', p', ok)

    pub apply_entries : Entries C → P → Entries C × P × Bool
    apply_entries nil p = (nil, p, true)
    apply_entries (cons e es) p =
        let first = apply_entry e p in
        let rest = apply_entries es first.1 in
        let back = revert_entry first.0 rest.1 in
        if first.2
        then if rest.2
          then (cons first.0 rest.0, rest.1, true)
          else (cons back.0 rest.0, back.1, false)
        else (cons first.0 es, first.1, false)

abbrev pub coalesce_entry : {C P : Type 0} → Steps C P → Entry C → Entry C → Option (Entry C)
coalesce_entry steps (single c) (single d) = elim (steps.coalesce c d) [
  | none ↦ none
  | some e ↦ some (single e)
]
coalesce_entry steps (single c) (composite n es) = none
coalesce_entry steps (composite n es) e = none

-- An open transaction.
pub record Transaction (C : Type 0) : Type 0 where
  pub title : String
  pub commands : Entries C

-- `CommandBus`
pub record Bus (C P : Type 0) : Type 0 where
  pub project : P
  pub undo_stack : List (Entry C)
  pub redo_stack : List (Entry C)
  pub open_stack : List (Transaction C)
  pub coalescable : Bool

module _ {C : Type 0} where
  abbrev pub replace_top : List (Entry C) → Entry C → List (Entry C)
  replace_top [] e = []
  replace_top (top ∷ below) e = e ∷ below

  abbrev pub add_to : Transaction C → Entry C → Transaction C
  add_to t e = record t { commands = add t.commands e }

module _ {C P : Type 0} where
  abbrev pub new_bus : P → Bus C P
  new_bus p = record {
    project = p;
    undo_stack = [];
    redo_stack = [];
    open_stack = [];
    coalescable = false;
  }

  abbrev pub can_undo : Bus C P → Bool
  can_undo b = elim b.undo_stack [ [] ↦ false | (e ∷ es) ↦ true ]

  abbrev pub can_redo : Bus C P → Bool
  can_redo b = elim b.redo_stack [ [] ↦ false | (e ∷ es) ↦ true ]

  abbrev pub in_transaction : Bus C P → Bool
  in_transaction b = elim b.open_stack [ [] ↦ false | (t ∷ ts) ↦ true ]

  abbrev pub entry_name : Steps C P → Entry C → String
  entry_name steps (single c) = steps.name c
  entry_name steps (composite n es) = n

  abbrev pub undo_name : Steps C P → Bus C P → String
  undo_name steps b = elim b.undo_stack [ [] ↦ "" | (e ∷ es) ↦ entry_name steps e ]

  abbrev pub redo_name : Steps C P → Bus C P → String
  redo_name steps b = elim b.redo_stack [ [] ↦ "" | (e ∷ es) ↦ entry_name steps e ]

  -- The command becomes an entry of its own.
  abbrev pub push_entry : Bus C P → Entry C → Bus C P
  push_entry b e = record b { undo_stack = e ∷ b.undo_stack; coalescable = true }

  -- What the top of the undo stack makes of a command, where it may take it in.
  unfoldable pub absorbed : Steps C P → Bus C P → Entry C → Option (Entry C)
  absorbed steps b e = elim b.undo_stack [
    | [] ↦ none
    | (top ∷ below) ↦ if b.coalescable then coalesce_entry steps top e else none
  ]

  unfoldable pub record_outside : Steps C P → Bus C P → Entry C → Bus C P
  record_outside steps b e = elim (absorbed steps b e) [
    | none ↦ push_entry (record b { redo_stack = [] }) e
    | some merged ↦ record b { redo_stack = []; undo_stack = replace_top b.undo_stack merged }
  ]

  -- `CommandBus::record`, which always answers true
  unfoldable pub record_entry : Steps C P → Bus C P → Entry C → Bus C P
  record_entry steps b e = elim b.open_stack [
    | (t ∷ ts) ↦ record b { open_stack = add_to t e ∷ ts }
    | [] ↦ record_outside steps b e
  ]

  -- `execute`; a command that is null is no command of the model
  unfoldable pub execute : Steps C P → Bus C P → Entry C → Bus C P × Bool
  execute steps b e =
      let (e', p', ok) = apply_entry steps e b.project in
      if ok
      then (record_entry steps (record b { project = p' }) e', true)
      else (record b { project = p' }, false)

  pub undo : Steps C P → Bus C P → Bus C P × Bool
  undo steps b = elim b.undo_stack [
    | [] ↦ (b, false)
    | (e ∷ below) ↦
        let (e', p', ok) = revert_entry steps e b.project in
        if ok
        then (
          record b {
            project = p';
            undo_stack = below;
            redo_stack = e' ∷ b.redo_stack;
            coalescable = false;
          },
          true,
        )
        else (record b { project = p'; undo_stack = e' ∷ below }, false)
  ]

  pub redo : Steps C P → Bus C P → Bus C P × Bool
  redo steps b = elim b.redo_stack [
    | [] ↦ (b, false)
    | (e ∷ later) ↦
        let (e', p', ok) = apply_entry steps e b.project in
        if ok
        then (
          record b {
            project = p';
            undo_stack = e' ∷ b.undo_stack;
            redo_stack = later;
            coalescable = false;
          },
          true,
        )
        else (record b { project = p'; redo_stack = e' ∷ later }, false)
  ]

  pub begin_transaction : Bus C P → String → Bus C P
  begin_transaction b name = record b {
    open_stack = record { title = name; commands = nil } ∷ b.open_stack;
  }

  -- A transaction that is over goes into the one around it, or becomes an entry.
  abbrev pub close : Bus C P → Entry C → List (Transaction C) → Bus C P
  close b e (outer ∷ rest) = record b { open_stack = add_to outer e ∷ rest }
  close b e [] = record b {
    open_stack = [];
    redo_stack = [];
    undo_stack = e ∷ b.undo_stack;
    coalescable = false;
  }

  pub commit_transaction : Bus C P → Bus C P
  commit_transaction b = elim b.open_stack [
    | [] ↦ b
    | (t ∷ ts) ↦
        if is_nil t.commands
        then record b { open_stack = ts }
        else close b (composite t.title t.commands) ts
  ]

  pub abort_transaction : Steps C P → Bus C P → Bus C P
  abort_transaction steps b = elim b.open_stack [
    | [] ↦ b
    | (t ∷ ts) ↦
        let (_, p', _) = revert_entries steps t.commands b.project in
        record b { project = p'; open_stack = ts }
  ]

  pub seal : Bus C P → Bus C P
  seal b = record b { coalescable = false }

  pub clear_history : Bus C P → Bus C P
  clear_history b = record b {
    undo_stack = [];
    redo_stack = [];
    open_stack = [];
    coalescable = false;
  }
