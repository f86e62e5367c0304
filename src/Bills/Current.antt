-- ===== src/Bills/Current.antt =====
-- One version of a bill is current: BillVersion.save.
use mathlib.Core.List.{Memᴰ}
use pwms_project.Prelude.{
  true-false, Bool, true, false, ◌&&◌, not, List, ◌≡◌, ◌≢◌, refl, if◌then◌else◌, ◌==◌, nat_eq, map,
  arith, Bool-cases, inl, inr, ◌⊎◌, sym, ap, ◌∙◌, subst, beq→eq, beq_refl,
}
use pwms_project.Bills.{BillVersion, demoted, write, save}
use pwms_project.Bills.Writes.{map-mem, write-mem, mem-write}

-- No two rows of a bill are current.
unfoldable pub OneCurrent : List BillVersion → Type 0
OneCurrent rows =
    (r s : BillVersion)
    → Memᴰ r rows
    → Memᴰ s rows
    → r.bill ≡ s.bill
    → r.is_current ≡ true
    → s.is_current ≡ true
    → r.pk ≡ s.pk

-- What a save leaves of another row: all but its flag, which it may lose and never gains, and
-- which it has lost if the saved version is a current one of the same bill.
pub record Kept (v : BillVersion) (rows : List BillVersion) (r : BillVersion) : Type 0 where
  pub before : BillVersion
  pub listed : Memᴰ before rows
  pub other : r.pk ≢ v.pk
  pub same : r ≡ record before { is_current = r.is_current }
  pub flagged : r.is_current ≡ true → before.is_current ≡ true
  pub yields : v.is_current ≡ true → r.is_current ≡ true → r.bill ≢ v.bill

demoted_cases :
    (v q : BillVersion)
    → ((demoted v q ≡ record q { is_current = false }))
      ⊎ ((demoted v q ≡ q) × (q.is_current ≡ true → q.pk ≢ v.pk → q.bill ≢ v.bill))
unfolding demoted
demoted_cases v q = elim (Bool-cases (q.bill == v.bill && q.is_current && not (q.pk == v.pk))) [
  | inl hit ↦ inl (rw (demoted, hit) refl)
  | inr miss ↦ inr (
    rw (demoted, miss) refl,
    λ c o b.
        let ours : (q.bill == v.bill) ≡ true = rw b (beq_refl v.bill) in
        o (beq→eq q.pk v.pk (ground arith)),
  )
]

unless : (b : Bool) (xs ys : List BillVersion) → b ≡ true → (if not b then xs else ys) ≡ ys
unless true xs ys h = refl
unless false xs ys h = absurd (ground arith)

when : (b : Bool) (xs ys : List BillVersion) → b ≡ false → (if not b then xs else ys) ≡ xs
when true xs ys h = absurd (ground arith)
when false xs ys h = refl

save-current :
    (v : BillVersion) (rows : List BillVersion)
    → v.is_current ≡ true
    → save v rows ≡ write v (map (demoted v) rows)
unfolding save
save-current v rows h = unless v.is_current (write v rows) (write v (map (demoted v) rows)) h

save-plain :
    (v : BillVersion) (rows : List BillVersion) → v.is_current ≡ false → save v rows ≡ write v rows
unfolding save
save-plain v rows h = when v.is_current (write v rows) (write v (map (demoted v) rows)) h

abbrev flag_of : BillVersion → Bool
flag_of v = v.is_current

with_flag :
    (q r : BillVersion) (b : Bool)
    → r ≡ record q { is_current = b }
    → r ≡ record q { is_current = r.is_current }
with_flag q r b e = e ∙ ap (λ c. record q { is_current = c }) (sym (ap flag_of e))

demoted-Kept :
    (v : BillVersion) (rows : List BillVersion) (r q : BillVersion)
    → Memᴰ q rows
    → r ≡ demoted v q
    → r.pk ≢ v.pk
    → Kept v rows r
demoted-Kept v rows r q k e o = elim (demoted_cases v q) [
  | inl lost ↦
      let is : r ≡ record q { is_current = false } = e ∙ lost in
      record {
        before = q;
        listed = k;
        other = o;
        same = with_flag q r false is;
        flagged = λ c. absurd (true-false c (ap flag_of is));
        yields = λ c d. absurd (true-false d (ap flag_of is));
      }
  | inr (stays, free) ↦
      let is : r ≡ q = e ∙ stays in
      record {
        before = q;
        listed = k;
        other = o;
        same = with_flag q r q.is_current is;
        flagged = λ c. sym (ap flag_of is) ∙ c;
        yields = λ c d h.
            free (sym (ap flag_of is) ∙ d) (λ p. o (ap (λ (x : BillVersion). x.pk) is ∙ p))
              (sym (ap (λ (x : BillVersion). x.bill) is) ∙ h);
      }
]

-- After a version is saved, new or old, current or not, each row of the table is that version or
-- a row that was there under another key, unchanged but for its flag: it may have lost it, never
-- gained it, and has none if the saved version is current and of the same bill.
pub save-mem :
    (v : BillVersion) (rows : List BillVersion) (r : BillVersion)
    → Memᴰ r (save v rows)
    → (r ≡ v) ⊎ Kept v rows r
save-mem v rows r m = elim (Bool-cases v.is_current) [
  | inr plain ↦ elim (write-mem v rows (subst (Memᴰ r) (save-plain v rows plain) m)) [
    | inl is ↦ inl is
    | inr (n, o) ↦ inr (record {
      before = r;
      listed = n;
      other = o;
      same = refl;
      flagged = λ c. c;
      yields = λ c. absurd (true-false c plain);
    })
  ]
  | inl current ↦
      elim (write-mem v (map (demoted v) rows) (subst (Memᴰ r) (save-current v rows current) m)) [
        | inl is ↦ inl is
        | inr (n, o) ↦
            let (q, k, e) = map-mem (demoted v) rows n in inr (demoted-Kept v rows r q k e o)
      ]
]

pub mem-save : (v : BillVersion) (rows : List BillVersion) → Memᴰ v (save v rows)
mem-save v rows = elim (Bool-cases v.is_current) [
  | inl current ↦
      subst (Memᴰ v) (sym (save-current v rows current)) (mem-write v (map (demoted v) rows))
  | inr plain ↦ subst (Memᴰ v) (sym (save-plain v rows plain)) (mem-write v rows)
]

Kept-one :
    (v : BillVersion) (rows : List BillVersion)
    → OneCurrent rows
    → (r s : BillVersion) → Kept v rows r
    → Kept v rows s
    → r.bill ≡ s.bill
    → r.is_current ≡ true
    → s.is_current ≡ true
    → r.pk ≡ s.pk
unfolding OneCurrent
Kept-one v rows h r s j k b c d =
    let pk_r = ap (λ (x : BillVersion). x.pk) j.same in
    let pk_s = ap (λ (x : BillVersion). x.pk) k.same in
    let bill_r = ap (λ (x : BillVersion). x.bill) j.same in
    let bill_s = ap (λ (x : BillVersion). x.bill) k.same in
    pk_r
    ∙ h j.before k.before j.listed k.listed (sym bill_r ∙ b ∙ bill_s) (j.flagged c) (k.flagged d)
    ∙ sym pk_s

-- If no bill has two current versions, none has after any version is saved, current or not.
pub save-OneCurrent :
    (v : BillVersion) (rows : List BillVersion) → OneCurrent rows → OneCurrent (save v rows)
unfolding OneCurrent
save-OneCurrent v rows h r s m n b c d = elim (save-mem v rows r m) [
  | inl is ↦ elim (save-mem v rows s n) [
    | inl also ↦ ap (λ (x : BillVersion). x.pk) (is ∙ sym also)
    | inr k ↦
        absurd (k.yields (sym (ap flag_of is) ∙ c) d (sym b ∙ ap (λ (x : BillVersion). x.bill) is))
  ]
  | inr j ↦ elim (save-mem v rows s n) [
    | inl also ↦
        absurd (j.yields (sym (ap flag_of also) ∙ d) c (b ∙ ap (λ (x : BillVersion). x.bill) also))
    | inr k ↦ Kept-one v rows h r s j k b c d
  ]
]
