-- ===== src/Bills/Introduced.antt =====
-- The version that a bill publishes as the introduced one.
use mathlib.Core.List.{Memᴰ}
use pwms_project.Prelude.{
  List-cases, filter_nil, true, false, none, some, List, [], ◌∷◌, ◌≡◌, ◌≢◌, refl, nat_eq, filter,
  arith, ◌⊎◌, Bool-cases, inl, inr, sym, ◌∙◌, subst, mem-filter, filter-mem,
}
use pwms_project.Bills.{
  Bill, BillVersion, version_rows, is_earlier, earliest, earliest_of, pool, is_introduced_type,
  introduced_version_row,
}
use pwms_project.Bills.Published.{version_rows-mem, mem-version_rows}

-- No version of the list is earlier, by date and then by key.
pub IsEarliest : List BillVersion → BillVersion → Type 0
IsEarliest rows v = Memᴰ v rows × ((r : BillVersion) → Memᴰ r rows → is_earlier r v ≡ false)

earlier_trans :
    (a b c : BillVersion) → is_earlier a b ≡ false → is_earlier b c ≡ false → is_earlier a c ≡ false
unfolding is_earlier
earlier_trans a b c h g = ground arith

earlier_refl : (a : BillVersion) → is_earlier a a ≡ false
unfolding is_earlier
earlier_refl a = ground arith

earlier_asym : (a b : BillVersion) → is_earlier a b ≡ true → is_earlier b a ≡ false
unfolding is_earlier
earlier_asym a b h = ground arith

past :
    {x a : BillVersion} (v : BillVersion) {rest : List BillVersion}
    → Memᴰ x (a ∷ rest)
    → Memᴰ x (a ∷ v ∷ rest)
past v (Memᴰ.head e) = Memᴰ.head e
past v (Memᴰ.tail m) = Memᴰ.tail (Memᴰ.tail m)

earliest-IsEarliest :
    (best : BillVersion) (rest : List BillVersion) → IsEarliest (best ∷ rest) (earliest best rest)
unfolding IsEarliest earliest
earliest-IsEarliest best [] = (
  Memᴰ.head refl,
  λ r m. elim m [
    | Memᴰ.head e ↦ subst (λ x. is_earlier x best ≡ false) (sym e) (earlier_refl best)
    | Memᴰ.tail n ↦ elim n [ ]
  ],
)
earliest-IsEarliest best (v ∷ rest) = elim (Bool-cases (is_earlier v best)) [
  | inl before ↦
      let (m, least) = earliest-IsEarliest v rest in
      let last =
        earlier_trans best v (earliest v rest) (earlier_asym v best before)
          (least v (Memᴰ.head refl)) in
      rw (earliest, before)
        (
          Memᴰ.tail m,
          λ r n. elim n [
            | Memᴰ.head e ↦ subst (λ x. is_earlier x (earliest v rest) ≡ false) (sym e) last
            | Memᴰ.tail k ↦ least r k
          ],
        )
  | inr after ↦
      let (m, least) = earliest-IsEarliest best rest in
      let later = earlier_trans v best (earliest best rest) after (least best (Memᴰ.head refl)) in
      rw (earliest, after)
        (
          past v m,
          λ r n. elim n [
            | Memᴰ.head e ↦ least r (Memᴰ.head e)
            | Memᴰ.tail (Memᴰ.head e) ↦
                subst (λ x. is_earlier x (earliest best rest) ≡ false) (sym e) later
            | Memᴰ.tail (Memᴰ.tail k) ↦ least r (Memᴰ.tail k)
          ],
        )
]

-- What the original version of a bill is: the earliest of those of type introduced or, where the
-- bill has none of that type, the earliest of all.
pub data IsOriginal (b : Bill) (rows : List BillVersion) (v : BillVersion) : Type 0 where
  as_introduced :
      Memᴰ v rows
      → v.bill ≡ b.pk
      → is_introduced_type v.version_type ≡ true
      → ((r : BillVersion)
          → Memᴰ r rows
          → r.bill ≡ b.pk
          → is_introduced_type r.version_type ≡ true
          → is_earlier r v ≡ false)
      → IsOriginal b rows v
  as_earliest :
      Memᴰ v rows
      → v.bill ≡ b.pk
      → ((r : BillVersion)
          → Memᴰ r rows
          → r.bill ≡ b.pk
          → (is_introduced_type r.version_type ≡ false) × (is_earlier r v ≡ false))
      → IsOriginal b rows v

earliest_of-IsEarliest :
    (rows : List BillVersion)
    → ((earliest_of rows ≡ none) × (rows ≡ []))
      ⊎ ((v : BillVersion) × (earliest_of rows ≡ some v) × IsEarliest rows v)
unfolding earliest_of
earliest_of-IsEarliest [] = inl (refl, refl)
earliest_of-IsEarliest (v ∷ rest) = inr (earliest v rest, refl, earliest-IsEarliest v rest)

abbrev typed : List BillVersion → List BillVersion
typed rows = filter (λ v. is_introduced_type v.version_type) rows

pool_cases :
    (rows : List BillVersion)
    → ((typed rows ≡ []) × (pool rows ≡ rows))
      ⊎ ((x : BillVersion) × (more : List BillVersion) × (typed rows ≡ x ∷ more)
          × (pool rows ≡ typed rows))
unfolding pool
pool_cases rows = elim (List-cases (typed rows)) [
  | inl e ↦ inl (e, rw (pool, e) refl)
  | inr (x, more, e) ↦ inr (x, more, e, rw (pool, e) refl)
]

cons_nil : {x : BillVersion} {rest : List BillVersion} → [] ≢ x ∷ rest
cons_nil h = ground arith

module _ (b : Bill) (rows : List BillVersion) where
  abbrev own : List BillVersion
  own = version_rows b.pk rows

  no_versions : pool own ≡ [] → (r : BillVersion) → Memᴰ r rows → r.bill ≢ b.pk
  no_versions empty r m h = elim (pool_cases own) [
    | inl (untyped, p) ↦ elim (subst (Memᴰ r) (sym p ∙ empty) (mem-version_rows b.pk rows m h)) [ ]
    | inr (x, more, t, p) ↦ absurd (cons_nil (sym empty ∙ p ∙ t))
  ]

  original : (v : BillVersion) → IsEarliest (pool own) v → IsOriginal b rows v
  unfolding IsEarliest
  original v (m, least) = elim (pool_cases own) [
    | inl (untyped, p) ↦
        let (n, h) = version_rows-mem b.pk rows (subst (Memᴰ v) p m) in
        as_earliest n h (λ r k i.
          let inside = mem-version_rows b.pk rows k i in
          (
            (filter_nil (λ (x : BillVersion). is_introduced_type x.version_type) own).0 untyped r
                inside,
            least r (subst (Memᴰ r) (sym p) inside),
          ))
    | inr (x, more, t, p) ↦
        let (k, first) =
          mem-filter (λ (x : BillVersion). is_introduced_type x.version_type) own
            (subst (Memᴰ v) p m) in
        let (n, h) = version_rows-mem b.pk rows k in
        as_introduced n h first (λ r k i j. least r (
          subst (Memᴰ r) (sym p) (
            filter-mem (λ (x : BillVersion). is_introduced_type x.version_type) own
              (mem-version_rows b.pk rows k i) j)))
  ]

-- introduced_version_row returns an original version of the bill, and None exactly when the bill
-- has no versions.
pub introduced_version_row-IsOriginal :
    (b : Bill) (rows : List BillVersion)
    → ((introduced_version_row b rows ≡ none) × ((r : BillVersion) → Memᴰ r rows → r.bill ≢ b.pk))
      ⊎ ((v : BillVersion) × (introduced_version_row b rows ≡ some v) × IsOriginal b rows v)
unfolding introduced_version_row
introduced_version_row-IsOriginal b rows =
    elim (earliest_of-IsEarliest (pool (version_rows b.pk rows))) [
      | inl (e, empty) ↦ inl (e, no_versions b rows empty)
      | inr (v, e, first) ↦ inr (v, e, original b rows v first)
    ]
