-- ===== src/Chat/NewThread.antt =====
-- new-thread-dialog.tsx of the Builder's application (src/app/(dashboard)/mail/components).
use meadow_ops.Base.{
  String, Bool, true, false, not, Option, none, some, List, ◌∷◌, if◌then◌else◌, truthy, ◌&&◌,
}
use meadow_ops.Chat.{Persona}

-- The inputs (no persona is the empty selection), and the calls of `onCreate`, the latest first.
pub record NewThreadDialog : Type 0 where
  pub open_dialog : Bool
  pub scenario_id : String
  pub persona : Option Persona
  pub creating : Bool
  pub created : List (String × Persona)

abbrev pub create_with : Option Persona → NewThreadDialog → NewThreadDialog
create_with none s = s
create_with (some persona) s =
    if truthy s.scenario_id && not s.creating
    then record s { creating = true; created = (s.scenario_id, persona) ∷ s.created }
    else s

unfoldable pub handle_create : NewThreadDialog → NewThreadDialog
handle_create s = create_with s.persona s

-- After the wait, by whether `onCreate` threw.
unfoldable pub create_answered : Bool → NewThreadDialog → NewThreadDialog
create_answered true s = record s { creating = false }
create_answered false s = record s {
  open_dialog = false;
  scenario_id = "";
  persona = none;
  creating = false;
}
