-- ===== src/Reports/Withdrawn.antt =====
-- A report link that was withdrawn, through the calls of src/pwms/reporting/sharing.py and the view
-- report_shared.
use mathlib.Core.List.{Memᴰ}
use pwms_project.Prelude.{
  ℕ, ◌≡◌, ◌≢◌, refl, sym, ◌∙◌, true, false, some, List, [], ◌∷◌, String, ◌==◌, nat_eq, string_eq,
  arith, filter, All, All→mem, mem→All, mem-filter, sort_where, sort-mem, Bool-cases, Option-cases,
  find→mem, inl, inr, beq→eq,
}
use pwms_project.Reports.{
  Moment, ReportShare, is_set, is_active, is_due, write_share, comes_first, delivered,
  record_delivery, record_access, revoke, Mailing, send_outcome, deliver_scheduled_share,
  deliver_all, due_scheduled_shares, send_scheduled_shares, resolve_share, open_share, inactive,
}

-- A call: a link is opened, a share that was read from the table is revoked, or the scheduled sends run.
pub data Call : List ReportShare → List ReportShare → Type 0 where
  opened :
      (token : String) (now : Moment) (shares : List ReportShare)
      → Call shares (open_share token now shares).1
  withdrew :
      (s : ReportShare) (now : Moment) (shares : List ReportShare)
      → Memᴰ s shares
      → Call shares (revoke s now shares)
  sent :
      (mailing : Mailing) (now : Moment) (shares : List ReportShare)
      → Call shares (send_scheduled_shares mailing now shares).1

pub data Calls : List ReportShare → List ReportShare → Type 0 where
  no_call : {shares : List ReportShare} → Calls shares shares
  then_call :
      {before middle after : List ReportShare}
      → Calls before middle
      → Call middle after
      → Calls before after

-- The share was withdrawn at a moment, after so many visits and sends.
pub record Withdrawal : Type 0 where
  pub share : ℕ
  pub at : Moment
  pub visits : ℕ
  pub sends : ℕ

abbrev pub Stands : Withdrawal → ReportShare → Type 0
Stands w r = (r.revoked_at ≡ some w.at) × (r.access_count ≡ w.visits) × (r.send_count ≡ w.sends)

abbrev pub IsWithdrawn : Withdrawal → List ReportShare → Type 0
IsWithdrawn w shares = All (λ r. r.pk ≡ w.share → Stands w r) shares

module _ (w : Withdrawal) where
  active_other :
      (now : Moment) (shares : List ReportShare) {s : ReportShare}
      → IsWithdrawn w shares
      → Memᴰ s shares
      → is_active now s ≡ true
      → s.pk ≢ w.share
  unfolding is_active is_set
  active_other now shares {s} h m active same =
      let (e, _, _) = All→mem _ shares h m same in absurd (ground (arith, e, active))

  unset_other :
      (shares : List ReportShare) {s : ReportShare}
      → IsWithdrawn w shares
      → Memᴰ s shares
      → is_set s.revoked_at ≡ false
      → s.pk ≢ w.share
  unfolding is_set
  unset_other shares {s} h m unset same =
      let (e, _, _) = All→mem _ shares h m same in absurd (ground (arith, e, unset))

  write_share-IsWithdrawn :
      (pk : ℕ) (write : ReportShare → ReportShare) (shares : List ReportShare)
      → pk ≢ w.share
      → ((r : ReportShare) → (write r).pk ≡ r.pk)
      → IsWithdrawn w shares
      → IsWithdrawn w (write_share pk write shares)
  unfolding write_share
  write_share-IsWithdrawn pk write [] other keeps h = tt
  write_share-IsWithdrawn pk write (r ∷ shares) other keeps (q, h) = (
    elim (Bool-cases (r.pk == pk)) [
      | inl same ↦ rw same (λ e. absurd (other (sym (beq→eq r.pk pk same) ∙ sym (keeps r) ∙ e)))
      | inr differ ↦ rw differ q
    ],
    write_share-IsWithdrawn pk write shares other keeps h,
  )

  deliver_all-IsWithdrawn :
      (mailing : Mailing) (now : Moment) (pending shares : List ReportShare)
      → All (λ s. s.pk ≢ w.share) pending
      → IsWithdrawn w shares
      → IsWithdrawn w (deliver_all mailing now pending shares).1
  unfolding deliver_all deliver_scheduled_share record_delivery delivered
  deliver_all-IsWithdrawn mailing now [] shares others h = h
  deliver_all-IsWithdrawn mailing now (s ∷ rest) shares (other, others) h =
      deliver_all-IsWithdrawn mailing now rest
        (record_delivery s (send_outcome mailing s).error now shares) others
        (write_share-IsWithdrawn s.pk (delivered s (send_outcome mailing s).error now) shares other
          (λ r. refl) h)

  due_others :
      (now : Moment) (shares : List ReportShare)
      → IsWithdrawn w shares
      → All (λ s. s.pk ≢ w.share) (due_scheduled_shares now shares)
  unfolding due_scheduled_shares is_due
  due_others now shares h = mem→All _ (sort_where comes_first (filter (is_due now) shares)) (λ s m.
      let (n, due) =
        mem-filter (is_due now) shares (sort-mem comes_first (filter (is_due now) shares) m) in
      active_other now shares h n (ground (arith, due)))

  revoke-IsWithdrawn :
      (s : ReportShare) (now : Moment) (shares : List ReportShare)
      → Memᴰ s shares
      → IsWithdrawn w shares
      → IsWithdrawn w (revoke s now shares)
  unfolding revoke
  revoke-IsWithdrawn s now shares m h = elim (Bool-cases (is_set s.revoked_at)) [
    | inl set ↦ rw set h
    | inr unset ↦ rw unset (
        write_share-IsWithdrawn s.pk (λ r. record r { revoked_at = some now }) shares
          (unset_other shares h m unset) (λ r. refl) h)
  ]

  resolve-mem :
      (token : String) (shares : List ReportShare) {s : ReportShare}
      → resolve_share token shares ≡ some s
      → Memᴰ s shares
  unfolding resolve_share
  resolve-mem token shares {s} e = elim (Bool-cases (token == "")) [
    | inl empty ↦ absurd (ground (arith, rw empty at e))
    | inr given ↦ (find→mem (λ r. r.token == token) shares (rw given at e)).0
  ]

  open_share-IsWithdrawn :
      (token : String) (now : Moment) (shares : List ReportShare)
      → IsWithdrawn w shares
      → IsWithdrawn w (open_share token now shares).1
  unfolding record_access open_share
  open_share-IsWithdrawn token now shares h = elim (Option-cases (resolve_share token shares)) [
    | inl missing ↦ rw (open_share, missing) h
    | inr (s, found) ↦ elim (Bool-cases (is_active now s)) [
      | inr dead ↦ rw (open_share, found, dead) h
      | inl live ↦ elim (Option-cases s.created_by) [
        | inl gone ↦ rw (open_share, found, live, gone) h
        | inr (creator, there) ↦
            rw (open_share, found, live, there)
              (write_share-IsWithdrawn s.pk _ shares
                (active_other now shares h (resolve-mem token shares found) live) (λ r. refl) h)
      ]
    ]
  ]

  closed_link :
      (token : String) (now : Moment) (shares : List ReportShare) (s : ReportShare)
      → IsWithdrawn w shares
      → resolve_share token shares ≡ some s
      → s.pk ≡ w.share
      → open_share token now shares ≡ (inactive, shares)
  unfolding open_share
  closed_link token now shares s h found same = elim (Bool-cases (is_active now s)) [
    | inl live ↦ absurd (active_other now shares h (resolve-mem token shares found) live same)
    | inr dead ↦ rw (open_share, found, dead) refl
  ]

  step-IsWithdrawn :
      {before after : List ReportShare}
      → Call before after
      → IsWithdrawn w before
      → IsWithdrawn w after
  unfolding send_scheduled_shares
  step-IsWithdrawn (opened token now shares) h = open_share-IsWithdrawn token now shares h
  step-IsWithdrawn (withdrew s now shares m) h = revoke-IsWithdrawn s now shares m h
  step-IsWithdrawn (sent mailing now shares) h =
      deliver_all-IsWithdrawn mailing now (due_scheduled_shares now shares) shares
        (due_others now shares h) h

  steps-IsWithdrawn :
      {before after : List ReportShare}
      → Calls before after
      → IsWithdrawn w before
      → IsWithdrawn w after
  steps-IsWithdrawn no_call h = h
  steps-IsWithdrawn (then_call run last) h = step-IsWithdrawn last (steps-IsWithdrawn run h)

  -- A share that was withdrawn stays withdrawn through any sequence of links opened, shares revoked
  -- and scheduled sends: the moment of its withdrawal and its counts of visits and of sends do not
  -- change, a link that resolves to it is answered as inactive and writes nothing, and it is never
  -- among the shares that are due.
  pub Calls-IsWithdrawn :
      {before after : List ReportShare}
      → Calls before after
      → IsWithdrawn w before
      → IsWithdrawn w after
        × ((token : String) (now : Moment) (s : ReportShare)
            → resolve_share token after ≡ some s
            → s.pk ≡ w.share
            → open_share token now after ≡ (inactive, after))
        × ((now : Moment) → All (λ s. s.pk ≢ w.share) (due_scheduled_shares now after))
  Calls-IsWithdrawn {after = after} run h =
      let still = steps-IsWithdrawn run h in
      (
        still,
        (λ token now s found same. closed_link token now after s still found same),
        λ now. due_others now after still,
      )
