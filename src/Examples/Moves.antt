-- ===== src/Examples/Moves.antt =====
-- A report is adopted: the theorems on perform_transition, src/pwms/models/workflows.py.
use mathlib.Core.List.{Memᴰ}
use pwms_project.Prelude.{◌≡◌, ◌↔◌, refl, true, none, some, [], ◌∷◌}
use pwms_project.Machine.{Transition, TransitionLog, Database, performed, perform_transition}
use pwms_project.Schema.{Instance}
use pwms_project.Machine.Moved.{Moved}
use pwms_project.Machine.Guards.{Ready}
use pwms_project.Machine.Ready.{perform_transition_iff}
use pwms_project.Machine.Journey.{Attempt, attempts, Travelled, attempts-Travelled}
use pwms_project.Examples.Data.{report_key, report, drafted, adopted, flat}

abbrev adopt : Transition
adopt = record {
  pk = 1;
  workflow_type = 1;
  name = "Adopt";
  from_state = drafted;
  to_state = adopted;
  required_event_types = 3 ∷ [];
  conditions =
      record { condition_type = "no_open_referrals"; field_name = ""; enabled = true }
      ∷ record { condition_type = "field_set"; field_name = "title"; enabled = true }
      ∷ [];
  requires_comment = true;
}

abbrev database : Database
database = record {
  tree = flat;
  events = (report_key, 3) ∷ [];
  referrals = [];
  truthy = λ k name. true;
  logs = [];
  notices = [];
}

abbrev adopting : Attempt
adopting = record {
  transition = adopt;
  actor = some 9;
  comment = "Agreed";
  ip_address = none;
  now = 100;
}

perform_transition_iff_example :
    ((log : TransitionLog) × (j : Instance) × (e : Database) × (perform_transition adopt
          (some 9)
          "Agreed"
          none
          100
          report
          database
        ≡ performed log j e)
      × Moved adopt (some 9) "Agreed" none 100 report database log j e)
    ↔ Ready adopt "Agreed" report database
perform_transition_iff_example =
    perform_transition_iff adopt (some 9) "Agreed" none 100 report database

known : (a : Attempt) → Memᴰ a (adopting ∷ adopting ∷ []) → Memᴰ a.transition (adopt ∷ [])
known a (Memᴰ.head e) = Memᴰ.head (rw e refl)
known a (Memᴰ.tail (Memᴰ.head e)) = Memᴰ.head (rw e refl)
known a (Memᴰ.tail (Memᴰ.tail m)) = elim m [ ]

attempts-Travelled_example :
    Travelled
      (adopt ∷ [])
      report
      database
      (attempts (adopting ∷ adopting ∷ []) (report, database)).0
      (attempts (adopting ∷ adopting ∷ []) (report, database)).1
attempts-Travelled_example =
    attempts-Travelled (adopt ∷ []) (adopting ∷ adopting ∷ []) report database known
