-- ===== src/Examples/Versions.antt =====
-- A bill is amended: the theorems on BillVersion, src/pwms/models/workflows.py.
use mathlib.Core.List.{Memᴰ}
use pwms_project.Prelude.{◌≡◌, ◌≢◌, ◌⊎◌, refl, true, none, some, List, [], ◌∷◌}
use pwms_project.Bills.{Bill, BillVersion, introduced, amended, introduced_version_row, save}
use pwms_project.Bills.Current.{OneCurrent, save-OneCurrent}
use pwms_project.Bills.Introduced.{IsOriginal, introduced_version_row-IsOriginal}

abbrev bill : Bill
bill = record { pk = 1; bill_number = "B 12-2026"; introduced_date = none }

abbrev tabled : BillVersion
tabled = record {
  pk = 1;
  bill = 1;
  version_label = "B 12-2026";
  version_type = introduced;
  version_date = 100;
  document_url = "";
  notes = "";
  recorded_by = none;
  is_current = true;
}

abbrev amendment : BillVersion
amendment = record tabled {
  pk = 2;
  version_label = "B 12B-2026";
  version_type = amended;
  version_date = 150;
}

abbrev rows : List BillVersion
rows = tabled ∷ []

one_row : OneCurrent rows
unfolding OneCurrent
one_row r s (Memᴰ.head e) (Memᴰ.head f) b c d = rw (e, f) refl
one_row r s (Memᴰ.tail m) n b c d = elim m [ ]
one_row r s (Memᴰ.head e) (Memᴰ.tail m) b c d = elim m [ ]

save-OneCurrent_example : OneCurrent (save amendment rows)
save-OneCurrent_example = save-OneCurrent amendment rows one_row

introduced_version_row-IsOriginal_example :
    ((introduced_version_row bill rows ≡ none)
      × ((r : BillVersion) → Memᴰ r rows → r.bill ≢ bill.pk))
    ⊎ ((v : BillVersion) × (introduced_version_row bill rows ≡ some v) × IsOriginal bill rows v)
introduced_version_row-IsOriginal_example = introduced_version_row-IsOriginal bill rows
