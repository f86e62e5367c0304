-- ===== src/Bills/Published.antt =====
-- The version that a bill publishes as its current one.
use mathlib.Core.List.{Memᴰ}
use pwms_project.Prelude.{
  true-false, ℕ, Bool, true, false, none, some, List, [], ◌∷◌, ◌≡◌, refl, ◌==◌, nat_eq, find,
  filter, arith, Bool-cases, Option-cases, inl, inr, sym, ap, ◌∙◌, subst, beq→eq, beq_refl,
  find→mem, mem-filter, filter-mem,
}
use pwms_project.Bills.{
  Bill, BillVersion, insert_newest, newest_first, version_rows, is_newer, current_version,
  current_version_date, save,
}
use pwms_project.Bills.Current.{save-mem, mem-save}

swap :
    {x a b : BillVersion} {rest : List BillVersion} → Memᴰ x (a ∷ b ∷ rest) → Memᴰ x (b ∷ a ∷ rest)
swap (Memᴰ.head e) = Memᴰ.tail (Memᴰ.head e)
swap (Memᴰ.tail (Memᴰ.head e)) = Memᴰ.head e
swap (Memᴰ.tail (Memᴰ.tail m)) = Memᴰ.tail (Memᴰ.tail m)

under :
    {x a : BillVersion} {xs ys : List BillVersion}
    → (Memᴰ x xs → Memᴰ x ys)
    → Memᴰ x (a ∷ xs)
    → Memᴰ x (a ∷ ys)
under f (Memᴰ.head e) = Memᴰ.head e
under f (Memᴰ.tail m) = Memᴰ.tail (f m)

insert-mem :
    (v : BillVersion) (rows : List BillVersion) {x : BillVersion}
    → Memᴰ x (insert_newest v rows)
    → Memᴰ x (v ∷ rows)
unfolding insert_newest
insert-mem v [] m = m
insert-mem v (y ∷ rest) {x} m = elim (Bool-cases (is_newer y v)) [
  | inl newer ↦ swap (under (insert-mem v rest) (rw (insert_newest, newer) at m))
  | inr older ↦ rw (insert_newest, older) at m
]

mem-insert :
    (v : BillVersion) (rows : List BillVersion) {x : BillVersion}
    → Memᴰ x (v ∷ rows)
    → Memᴰ x (insert_newest v rows)
unfolding insert_newest
mem-insert v [] m = m
mem-insert v (y ∷ rest) {x} m = elim (Bool-cases (is_newer y v)) [
  | inl newer ↦ rw (insert_newest, newer) (under (mem-insert v rest) (swap m))
  | inr older ↦ rw (insert_newest, older) m
]

sort-mem : (rows : List BillVersion) {x : BillVersion} → Memᴰ x (newest_first rows) → Memᴰ x rows
unfolding newest_first
sort-mem [] m = m
sort-mem (v ∷ rest) m = under (sort-mem rest) (insert-mem v (newest_first rest) m)

mem-sort : (rows : List BillVersion) {x : BillVersion} → Memᴰ x rows → Memᴰ x (newest_first rows)
unfolding newest_first
mem-sort [] m = m
mem-sort (v ∷ rest) m = mem-insert v (newest_first rest) (under (mem-sort rest) m)

pub version_rows-mem :
    (bill : ℕ) (rows : List BillVersion) {x : BillVersion}
    → Memᴰ x (version_rows bill rows)
    → Memᴰ x rows × (x.bill ≡ bill)
unfolding version_rows
version_rows-mem bill rows {x} m =
    let (n, h) =
      mem-filter (λ (v : BillVersion). v.bill == bill) rows
        (sort-mem (filter (λ v. v.bill == bill) rows) m) in
    (n, beq→eq x.bill bill h)

pub mem-version_rows :
    (bill : ℕ) (rows : List BillVersion) {x : BillVersion}
    → Memᴰ x rows
    → x.bill ≡ bill
    → Memᴰ x (version_rows bill rows)
unfolding version_rows
mem-version_rows bill rows {x} m h = mem-sort (filter (λ v. v.bill == bill) rows) (
    filter-mem (λ (v : BillVersion). v.bill == bill) rows m
      (subst (λ n. (n == bill) ≡ true) (sym h) (beq_refl bill)))

find-none :
    (p : BillVersion → Bool) (rows : List BillVersion) {x : BillVersion}
    → Memᴰ x rows
    → find p rows ≡ none
    → p x ≡ false
find-none p [] m h = elim m [ ]
find-none p (y ∷ rest) {x} (Memᴰ.head e) h = subst (λ z. p z ≡ false) (sym e) (ground arith)
find-none p (y ∷ rest) {x} (Memᴰ.tail m) h = find-none p rest m (ground arith)

found_saved :
    (v : BillVersion) (rows : List BillVersion)
    → v.is_current ≡ true
    → find (λ r. r.is_current) (version_rows v.bill (save v rows)) ≡ some v
found_saved v rows c =
    elim (Option-cases
      (find (λ (r : BillVersion). r.is_current) (version_rows v.bill (save v rows)))) [
        | inl absent ↦ absurd (
            true-false c (
              find-none (λ (r : BillVersion). r.is_current) (version_rows v.bill (save v rows))
                (mem-version_rows v.bill (save v rows) (mem-save v rows) refl) absent))
        | inr (r, found) ↦
            let (m, d) =
              find→mem (λ (r : BillVersion). r.is_current) (version_rows v.bill (save v rows))
                found in
            let (n, b) = version_rows-mem v.bill (save v rows) m in
            elim (save-mem v rows r n) [
              | inl is ↦ found ∙ ap some is
              | inr k ↦ absurd (k.yields c d b)
            ]
      ]

-- Once a version is saved as current, the bill publishes its label and its date, whatever the
-- dates of the other versions are.
pub current_version-save :
    (b : Bill) (v : BillVersion) (rows : List BillVersion)
    → v.bill ≡ b.pk
    → v.is_current ≡ true
    → (current_version b (save v rows) ≡ v.version_label)
      × (current_version_date b (save v rows) ≡ some v.version_date)
unfolding current_version current_version_date
current_version-save b v rows ours c =
    let found =
      subst (λ n. find (λ (r : BillVersion). r.is_current) (version_rows n (save v rows)) ≡ some v)
        ours (found_saved v rows c) in
    (ground (arith, found), ground (arith, found))
