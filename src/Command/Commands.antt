-- ===== src/Command/Commands.antt =====
-- Commands of engine/src/model/commands.cpp: a clip added, and a clip removed.
pub mod Clips
pub mod Removal
use onebeat.Prelude.{Bool, true, false, Option, none, some, String}
use onebeat.Prelude.Map.{find}
use onebeat.Ids.{ClipId}
use onebeat.Ids.Order.{id_key}
use onebeat.Entities.{Clip}
use onebeat.Project.{Project}
use onebeat.Project.Restore.{restore_clip}
use onebeat.Project.Delete.{delete_clip}
use onebeat.Command.{Steps}

-- `AddCommand<Clip>`, and `RemoveClipCommand` with the clip that it captured
pub data ClipCommand : Type 0 where
  add_clip : Clip → String → ClipCommand
  remove_clip : ClipId → Clip → ClipCommand

abbrev pub with_command : ClipCommand → Project × Bool → ClipCommand × Project × Bool
with_command c (p, ok) = (c, p, ok)

-- `AddCommand<Clip>`
abbrev pub apply_add : Clip → String → Project → ClipCommand × Project × Bool
apply_add clip n p = with_command (add_clip clip n) (restore_clip p clip)

abbrev pub revert_add : Clip → String → Project → ClipCommand × Project × Bool
revert_add clip n p = with_command (add_clip clip n) (delete_clip p clip.id)

-- `RemoveClipCommand`
abbrev pub apply_remove : ClipId → Clip → Project → ClipCommand × Project × Bool
apply_remove id captured p = elim (find id p.clips) [
  | none ↦ (remove_clip id captured, p, false)
  | some clip ↦ with_command (remove_clip id clip) (delete_clip p id)
]

abbrev pub revert_remove : ClipId → Clip → Project → ClipCommand × Project × Bool
revert_remove id captured p = with_command (remove_clip id captured) (restore_clip p captured)

-- The two methods of the class, by the kind of command.
unfoldable pub apply_clip : ClipCommand → Project → ClipCommand × Project × Bool
apply_clip (add_clip clip n) p = apply_add clip n p
apply_clip (remove_clip id captured) p = apply_remove id captured p

pub revert_clip : ClipCommand → Project → ClipCommand × Project × Bool
revert_clip (add_clip clip n) p = revert_add clip n p
revert_clip (remove_clip id captured) p = revert_remove id captured p

pub clip_command_name : ClipCommand → String
clip_command_name (add_clip clip n) = n
clip_command_name (remove_clip id captured) = "Delete clip"

abbrev pub clip_steps : Steps ClipCommand Project
clip_steps = record {
  apply = apply_clip;
  revert = revert_clip;
  name = clip_command_name;
  coalesce = λ c d. none;
}
