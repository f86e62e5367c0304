-- ===== src/Bills.antt =====
-- The versions of a bill: Bill and BillVersion, src/pwms/models/workflows.py. A date is a number
-- of days.
pub mod Writes
pub mod Current
pub mod Published
pub mod Introduced
use pwms_project.Prelude.{
  ℕ, Bool, true, false, ◌&&◌, ◌||◌, not, Option, none, some, List, [], ◌∷◌, ◌++◌, String,
  if◌then◌else◌, ◌==◌, nat_eq, ltb, find, filter, exists, map,
}

pub data VersionType : Type 0 where
  introduced amended amendment_schedule : VersionType

unfoldable pub is_introduced_type : VersionType → Bool
is_introduced_type introduced = true
is_introduced_type _ = false

pub record BillVersion : Type 0 where
  pub pk : ℕ
  pub bill : ℕ
  pub version_label : String
  pub version_type : VersionType
  pub version_date : ℕ
  pub document_url : String
  pub notes : String
  pub recorded_by : Option ℕ
  pub is_current : Bool

-- The columns of a bill that the modelled properties read.
pub record Bill : Type 0 where
  pub pk : ℕ
  pub bill_number : String
  pub introduced_date : Option ℕ

-- Meta.ordering: the later date first, of equal dates the later row.
unfoldable pub is_newer : BillVersion → BillVersion → Bool
is_newer a b =
    ltb b.version_date a.version_date || a.version_date == b.version_date && ltb b.pk a.pk

unfoldable pub insert_newest : BillVersion → List BillVersion → List BillVersion
insert_newest v [] = v ∷ []
insert_newest v (x ∷ rest) =
    let later = x ∷ insert_newest v rest in if is_newer x v then later else v ∷ x ∷ rest

unfoldable pub newest_first : List BillVersion → List BillVersion
newest_first [] = []
newest_first (v ∷ rest) = insert_newest v (newest_first rest)

-- list(self.versions.all())
unfoldable pub version_rows : ℕ → List BillVersion → List BillVersion
version_rows bill rows = newest_first (filter (λ v. v.bill == bill) rows)

unfoldable pub head_label : List BillVersion → String
head_label [] = ""
head_label (v ∷ rest) = v.version_label

unfoldable pub current_version : Bill → List BillVersion → String
current_version b rows = elim (find (λ v. v.is_current) (version_rows b.pk rows)) [
  | some v ↦ v.version_label
  | none ↦ head_label (version_rows b.pk rows)
]

unfoldable pub head_date : List BillVersion → Option ℕ
head_date [] = none
head_date (v ∷ rest) = some v.version_date

unfoldable pub current_version_date : Bill → List BillVersion → Option ℕ
current_version_date b rows = elim (find (λ v. v.is_current) (version_rows b.pk rows)) [
  | some v ↦ some v.version_date
  | none ↦ head_date (version_rows b.pk rows)
]

-- (version_date, pk) of the one is below that of the other
unfoldable pub is_earlier : BillVersion → BillVersion → Bool
is_earlier a b =
    ltb a.version_date b.version_date || a.version_date == b.version_date && ltb a.pk b.pk

-- min(…, key=…) keeps the first of the least.
unfoldable pub earliest : BillVersion → List BillVersion → BillVersion
earliest best [] = best
earliest best (v ∷ rest) = elim (is_earlier v best) [
  | true ↦ earliest v rest
  | false ↦ earliest best rest
]

unfoldable pub earliest_of : List BillVersion → Option BillVersion
earliest_of [] = none
earliest_of (v ∷ rest) = some (earliest v rest)

-- introduced or rows
unfoldable pub pool : List BillVersion → List BillVersion
pool rows = elim (filter (λ v. is_introduced_type v.version_type) rows) [
  | [] ↦ rows
  | v ∷ rest ↦ v ∷ rest
]

unfoldable pub introduced_version_row : Bill → List BillVersion → Option BillVersion
introduced_version_row b rows = earliest_of (pool (version_rows b.pk rows))

unfoldable pub introduced_version : Bill → List BillVersion → String
introduced_version b rows = elim (introduced_version_row b rows) [
  | none ↦ b.bill_number
  | some v ↦ v.version_label
]

unfoldable pub introduced_version_date : Bill → List BillVersion → Option ℕ
introduced_version_date b rows = elim (introduced_version_row b rows) [
  | none ↦ b.introduced_date
  | some v ↦ some v.version_date
]

-- .filter(bill_id=…, is_current=True).exclude(pk=…).update(is_current=False), on one row
unfoldable pub demoted : BillVersion → BillVersion → BillVersion
demoted v r =
    if r.bill == v.bill && r.is_current && not (r.pk == v.pk)
    then record r { is_current = false }
    else r

unfoldable pub replaced : BillVersion → BillVersion → BillVersion
replaced v r = if r.pk == v.pk then v else r

-- super().save(): an update where the key is in the table, an insert otherwise
unfoldable pub write : BillVersion → List BillVersion → List BillVersion
write v rows = if exists (λ r. r.pk == v.pk) rows then map (replaced v) rows else rows ++ v ∷ []

unfoldable pub save : BillVersion → List BillVersion → List BillVersion
save v rows = if not v.is_current then write v rows else write v (map (demoted v) rows)
