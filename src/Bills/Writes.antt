-- ===== src/Bills/Writes.antt =====
-- Which rows a write leaves: super().save() of a BillVersion.
use mathlib.Core.List.{Memᴰ}
use pwms_project.Prelude.{
  true-false, ℕ, true, false, List, [], ◌∷◌, ◌++◌, ◌≡◌, ◌≢◌, refl, ◌==◌, nat_eq, exists, map,
  Bool-cases, inl, inr, ◌⊎◌, sym, ap, ◌∙◌, subst, beq_refl, mem→exists, exists→mem,
}
use pwms_project.Bills.{BillVersion, replaced, write}

pub map-mem :
    (f : BillVersion → BillVersion) (rows : List BillVersion) {r : BillVersion}
    → Memᴰ r (map f rows)
    → (q : BillVersion) × Memᴰ q rows × (r ≡ f q)
map-mem f [] m = elim m [ ]
map-mem f (x ∷ rest) (Memᴰ.head e) = (x, Memᴰ.head refl, e)
map-mem f (x ∷ rest) (Memᴰ.tail m) = let (q, n, e) = map-mem f rest m in (q, Memᴰ.tail n, e)

pub mem-map :
    (f : BillVersion → BillVersion) (rows : List BillVersion) {q : BillVersion}
    → Memᴰ q rows
    → Memᴰ (f q) (map f rows)
mem-map f [] m = elim m [ ]
mem-map f (x ∷ rest) (Memᴰ.head e) = Memᴰ.head (ap f e)
mem-map f (x ∷ rest) (Memᴰ.tail m) = Memᴰ.tail (mem-map f rest m)

append-mem :
    (rows : List BillVersion) (v : BillVersion) {r : BillVersion}
    → Memᴰ r (rows ++ v ∷ [])
    → Memᴰ r rows ⊎ (r ≡ v)
append-mem [] v (Memᴰ.head e) = inr e
append-mem [] v (Memᴰ.tail m) = elim m [ ]
append-mem (x ∷ rest) v (Memᴰ.head e) = inl (Memᴰ.head e)
append-mem (x ∷ rest) v (Memᴰ.tail m) = elim (append-mem rest v m) [
  | inl old ↦ inl (Memᴰ.tail old)
  | inr new ↦ inr new
]

mem-append_last : (rows : List BillVersion) (v : BillVersion) → Memᴰ v (rows ++ v ∷ [])
mem-append_last [] v = Memᴰ.head refl
mem-append_last (x ∷ rest) v = Memᴰ.tail (mem-append_last rest v)

replaced-same : (v q : BillVersion) → (q.pk == v.pk) ≡ true → replaced v q ≡ v
unfolding replaced
replaced-same v q h = rw (replaced, h) refl

replaced-other : (v q : BillVersion) → (q.pk == v.pk) ≡ false → replaced v q ≡ q
unfolding replaced
replaced-other v q h = rw (replaced, h) refl

apart : (q : BillVersion) (n : ℕ) → (q.pk == n) ≡ false → q.pk ≢ n
apart q n h e = true-false (rw e (beq_refl n)) h

-- After a write a row is the written one, or an old one with another key.
pub write-mem :
    (v : BillVersion) (rows : List BillVersion) {r : BillVersion}
    → Memᴰ r (write v rows)
    → (r ≡ v) ⊎ (Memᴰ r rows × (r.pk ≢ v.pk))
unfolding write
write-mem v rows {r} m = elim (Bool-cases (exists (λ x. x.pk == v.pk) rows)) [
  | inl known ↦
      let (q, n, e) = map-mem (replaced v) rows (rw (write, known) at m) in
      elim (Bool-cases (q.pk == v.pk)) [
        | inl same ↦ inl (e ∙ replaced-same v q same)
        | inr other ↦
            let is : r ≡ q = e ∙ replaced-other v q other in
            inr (
              subst (λ x. Memᴰ x rows) (sym is) n,
              λ h. apart q v.pk other (sym (ap (λ (x : BillVersion). x.pk) is) ∙ h),
            )
      ]
  | inr new ↦ elim (append-mem rows v (rw (write, new) at m)) [
    | inr is ↦ inl is
    | inl old ↦
        inr (
          old,
          λ h. true-false (mem→exists (λ x. x.pk == v.pk) rows old (rw h (beq_refl v.pk))) new,
        )
  ]
]

pub mem-write : (v : BillVersion) (rows : List BillVersion) → Memᴰ v (write v rows)
unfolding write
mem-write v rows = elim (Bool-cases (exists (λ x. x.pk == v.pk) rows)) [
  | inl known ↦
      let (q, n, h) = exists→mem (λ x. x.pk == v.pk) rows known in
      rw (write, known)
        (subst (λ x. Memᴰ x (map (replaced v) rows)) (replaced-same v q h)
          (mem-map (replaced v) rows n))
  | inr new ↦ rw (write, new) (mem-append_last rows v)
]
