-- ===== src/Reports/Due.antt =====
-- One run of the scheduled sends: send_scheduled_shares, src/pwms/reporting/sharing.py.
use pwms_project.Prelude.{
  ℕ, ◌≡◌, refl, ap, Bool, true, false, List, [], ◌∷◌, String, if◌then◌else◌, ◌==◌, nat_eq, arith,
  filter, map, exists, All, All→mem, mem→All, mem-filter, mem→exists, filter_nil, filter-mem,
  sort_where, sort-mem, mem-sort, Bool-cases, inl, inr, true-false, beq_refl,
}
use pwms_project.Reports.{
  Moment, Schedule, next_occurrence, is_scheduled, ReportShare, is_past, is_due, write_share,
  comes_first, delivered, record_delivery, Mailing, send_outcome, deliver_scheduled_share,
  deliver_all, due_scheduled_shares, send_scheduled_shares,
}
use pwms_project.Reports.Later.{IsDate, next_occurrence-later}

abbrev pub has_share : ℕ → List ReportShare → Bool
has_share pk shares = exists (λ s. s.pk == pk) shares

-- Every share of the table that is due is one of these.
abbrev DueAmong : Moment → List ReportShare → List ReportShare → Type 0
DueAmong now shares pending = All (λ s. is_due now s ≡ true → has_share s.pk pending ≡ true) shares

module _ (mailing : Mailing) (now : Moment) (today : IsDate now) where
  next-quiet :
      (schedule : Schedule)
      → is_scheduled schedule ≡ true
      → is_past now (next_occurrence now schedule) ≡ false
  unfolding is_past
  next-quiet schedule h =
      let (next, e, _, later) = next_occurrence-later now schedule today h in
      ground (arith, e, later)

  delivered-quiet :
      (s r : ReportShare) (error : String)
      → is_scheduled s.schedule ≡ true
      → is_due now (delivered s error now r) ≡ false
  unfolding delivered is_due
  delivered-quiet s r error h = ground (arith, next-quiet s.schedule h)

  -- What the row of a share that was sent looks like is not due; another row is as it was.
  written_row :
      (s r : ReportShare) (error : String) (rest : List ReportShare)
      → is_scheduled s.schedule ≡ true
      → (is_due now r ≡ true → has_share r.pk (s ∷ rest) ≡ true)
      → let w = if r.pk == s.pk then delivered s error now r else r in
        is_due now w ≡ true → has_share w.pk rest ≡ true
  written_row s r error rest h q = elim (Bool-cases (r.pk == s.pk)) [
    | inl same ↦ rw same (λ due. absurd (true-false due (delivered-quiet s r error h)))
    | inr other ↦ rw other (λ due. let h = q due in ground arith)
  ]

  record_delivery-DueAmong :
      (s : ReportShare) (error : String) (rest shares : List ReportShare)
      → is_scheduled s.schedule ≡ true
      → DueAmong now shares (s ∷ rest)
      → DueAmong now (record_delivery s error now shares) rest
  unfolding record_delivery write_share
  record_delivery-DueAmong s error rest [] h d = tt
  record_delivery-DueAmong s error rest (r ∷ shares) h (q, d) =
      (written_row s r error rest h q, record_delivery-DueAmong s error rest shares h d)

  deliver_all-DueAmong :
      (pending shares : List ReportShare)
      → All (λ s. is_scheduled s.schedule ≡ true) pending
      → DueAmong now shares pending
      → DueAmong now (deliver_all mailing now pending shares).1 []
  unfolding deliver_all deliver_scheduled_share
  deliver_all-DueAmong [] shares h d = d
  deliver_all-DueAmong (s ∷ rest) shares (q, h) d =
      deliver_all-DueAmong rest (record_delivery s (send_outcome mailing s).error now shares) h
        (record_delivery-DueAmong s (send_outcome mailing s).error rest shares q d)

  send_outcome-share : (s : ReportShare) → (send_outcome mailing s).share ≡ s.pk
  unfolding send_outcome
  send_outcome-share s = ground arith

  deliver_all-order :
      (pending shares : List ReportShare)
      → map (λ d. d.share) (deliver_all mailing now pending shares).0 ≡ map (λ s. s.pk) pending
  unfolding deliver_all deliver_scheduled_share
  deliver_all-order [] shares = refl
  deliver_all-order (s ∷ rest) shares = ground (
    arith,
    send_outcome-share s,
    deliver_all-order rest (record_delivery s (send_outcome mailing s).error now shares),
  )

  due-DueAmong : (shares : List ReportShare) → DueAmong now shares (due_scheduled_shares now shares)
  unfolding due_scheduled_shares
  due-DueAmong shares = mem→All _ shares (λ s m due.
      mem→exists (λ r. r.pk == s.pk) (sort_where comes_first (filter (is_due now) shares))
        (mem-sort comes_first (filter (is_due now) shares) (filter-mem (is_due now) shares m due))
        (beq_refl s.pk))

  due_scheduled :
      (shares : List ReportShare)
      → All (λ s. is_scheduled s.schedule ≡ true) (due_scheduled_shares now shares)
  unfolding due_scheduled_shares is_due
  due_scheduled shares = mem→All _ (sort_where comes_first (filter (is_due now) shares)) (λ s m.
      let (n, due) =
        mem-filter (is_due now) shares (sort-mem comes_first (filter (is_due now) shares) m) in
      ground arith)

  nothing_due :
      (shares : List ReportShare) → DueAmong now shares [] → due_scheduled_shares now shares ≡ []
  unfolding due_scheduled_shares sort_where
  nothing_due shares d = ap (sort_where comes_first) (
      (filter_nil (is_due now) shares).1 (λ s m. elim (Bool-cases (is_due now s)) [
        | inl due ↦ absurd (true-false (All→mem _ shares d m due) refl)
        | inr quiet ↦ quiet
      ]))

  -- On a day of the calendar, one run of the scheduled sends has one result for each share that is
  -- due, in the order of the queue and whatever the mail server answers, and leaves no share due
  -- at that moment: a share that failed is not tried again by a second run.
  pub send_scheduled_shares-quiet :
      (shares : List ReportShare)
      → let (results, after) = send_scheduled_shares mailing now shares in
        (map (λ d. d.share) results ≡ map (λ s. s.pk) (due_scheduled_shares now shares))
        × (due_scheduled_shares now after ≡ [])
        × (send_scheduled_shares mailing now after ≡ ([], after))
  unfolding send_scheduled_shares deliver_all
  send_scheduled_shares-quiet shares =
      let due = due_scheduled_shares now shares in
      let last = deliver_all-DueAmong due shares (due_scheduled shares) (due-DueAmong shares) in
      let quiet = nothing_due (deliver_all mailing now due shares).1 last in
      (deliver_all-order due shares, quiet, rw quiet refl)
