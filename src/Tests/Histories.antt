-- ===== src/Tests/Histories.antt =====
-- The bus with the commands on clips, on the sample project.
use onebeat.Prelude.{◌≡◌, refl, ◌⊎◌, true, false, [], ◌∷◌}
use onebeat.Prelude.Map.{find}
use onebeat.Ids.{raw_eq, raw_valid}
use onebeat.Ids.Order.{id_key}
use onebeat.Project.{Project}
use onebeat.Command.{
  Entry, single, Bus, new_bus, apply_entry, can_undo, execute, undo, redo, begin_transaction,
  commit_transaction, abort_transaction,
}
use onebeat.Command.History.Trail.Undo.{begun, executed, redo-undo, undo-execute, execute_failed}
use onebeat.Command.History.Trail.Gesture.{
  execute_all, Unchanged, OneStep, abort_gesture, commit_gesture,
}
use onebeat.Command.Commands.{ClipCommand, add_clip, remove_clip, clip_steps, apply_clip}
use onebeat.Command.Commands.Clips.{clip_laws}
use onebeat.Tests.Data.{sample, key_of, placed_clip}
use onebeat.Tests.Sound.{sample-ClipsFiled}

good : clip_laws.Good (clip_laws.view sample)
unfolding clip_laws
good = sample-ClipsFiled

abbrev removal : Entry ClipCommand
removal = single (remove_clip (key_of 6) placed_clip)

abbrev fresh_bus : Bus ClipCommand Project
fresh_bus = new_bus sample

abbrev after_removal : Bus ClipCommand Project
after_removal = (execute clip_steps fresh_bus removal).0

removal_works : (execute clip_steps fresh_bus removal).1 ≡ true
unfolding execute apply_entry apply_clip find raw_eq onebeat.Project.Delete.delete_clip
    onebeat.Project.emit
removal_works = refl

undo-execute_example :
    ((undo clip_steps (execute clip_steps fresh_bus removal).0).1 ≡ true)
    × (clip_laws.view (undo clip_steps (execute clip_steps fresh_bus removal).0).0.project
        ≡ clip_laws.view fresh_bus.project)
    × ((undo clip_steps (execute clip_steps fresh_bus removal).0).0.undo_stack ≡ [])
undo-execute_example =
    undo-execute clip_laws sample good fresh_bus removal begun refl refl removal_works

redo-undo_example :
    ((undo clip_steps after_removal).1 ≡ true)
    × ((redo clip_steps (undo clip_steps after_removal).0).1 ≡ true)
    × (clip_laws.view (redo clip_steps (undo clip_steps after_removal).0).0.project
        ≡ clip_laws.view after_removal.project)
unfolding execute onebeat.Command.record_entry onebeat.Command.record_outside
    onebeat.Command.absorbed apply_entry apply_clip find raw_eq onebeat.Project.Delete.delete_clip
    onebeat.Project.emit
redo-undo_example = redo-undo clip_laws sample good after_removal (executed removal begun) refl refl

-- the id is taken, so the clip cannot come in again
abbrev doubled : Entry ClipCommand
doubled = single (add_clip placed_clip "Add clip")

doubled_fails : (execute clip_steps fresh_bus doubled).1 ≡ false
unfolding execute apply_entry apply_clip find raw_eq raw_valid onebeat.Project.Restore.restore_clip
    onebeat.Project.emit
doubled_fails = refl

execute_failed_example :
    (clip_laws.view (execute clip_steps fresh_bus doubled).0.project ≡ clip_laws.view sample)
    × ((execute clip_steps fresh_bus doubled).0.undo_stack ≡ [])
    × ((execute clip_steps fresh_bus doubled).0.redo_stack ≡ [])
    × ((execute clip_steps fresh_bus doubled).0.open_stack ≡ [])
execute_failed_example = execute_failed clip_laws sample good fresh_bus doubled begun doubled_fails

abort_gesture_example :
    (clip_laws.view
        (abort_transaction clip_steps (
          execute_all clip_steps
            (begin_transaction fresh_bus "Drag")
            (removal ∷ doubled ∷ []))).project
      ≡ clip_laws.view sample)
    × ((abort_transaction clip_steps (
          execute_all clip_steps
            (begin_transaction fresh_bus "Drag")
            (removal ∷ doubled ∷ []))).open_stack
        ≡ [])
    × ((abort_transaction clip_steps (
          execute_all clip_steps
            (begin_transaction fresh_bus "Drag")
            (removal ∷ doubled ∷ []))).undo_stack
        ≡ [])
    × ((abort_transaction clip_steps (
          execute_all clip_steps
            (begin_transaction fresh_bus "Drag")
            (removal ∷ doubled ∷ []))).redo_stack
        ≡ [])
abort_gesture_example =
    abort_gesture clip_laws sample good fresh_bus "Drag" (removal ∷ doubled ∷ []) begun

commit_gesture_example :
    Unchanged clip_laws fresh_bus (
      commit_transaction
        (execute_all clip_steps (begin_transaction fresh_bus "Drag") (removal ∷ doubled ∷ [])))
    ⊎ OneStep clip_laws fresh_bus (
        commit_transaction
          (execute_all clip_steps (begin_transaction fresh_bus "Drag") (removal ∷ doubled ∷ [])))
commit_gesture_example =
    commit_gesture clip_laws sample good fresh_bus "Drag" (removal ∷ doubled ∷ []) begun refl
