-- ===== src/Examples/Shares.antt =====
-- Two report shares on the last day of January: a weekly one that fails, a monthly one that goes.
use pwms_project.Reports.{
  is_leap, days_in, add_one_month, Moment, next_occurrence, monthly, weekly, Schedule, ReportShare,
  Mailing, due_scheduled_shares, send_scheduled_shares, resolve_share, open_share, inactive,
}
use pwms_project.Prelude.{
  ℕ, ◌≡◌, refl, none, some, List, [], ◌∷◌, String, map, if◌then◌else◌, ◌==◌, nat_eq, arith, All,
  ◌≢◌,
}
use pwms_project.Reports.Later.{IsDate}
use pwms_project.Reports.Withdrawn.{
  Withdrawal, IsWithdrawn, no_call, then_call, opened, sent, Calls-IsWithdrawn,
}
use pwms_project.Reports.Due.{send_scheduled_shares-quiet}

abbrev last_of_january : Moment
last_of_january = record { year = 2023; month = 1; day = 31; second = 3600 }

abbrev share : ℕ → Schedule → ReportShare
share pk schedule = record {
  pk = pk;
  token = "token";
  created_by = some 7;
  addresses = "chair@example.org" ∷ [];
  schedule = schedule;
  next_send_at = some last_of_january;
  last_sent_at = none;
  send_count = 0;
  last_error = "";
  expires_at = none;
  revoked_at = none;
  access_count = 0;
  last_accessed_at = none;
}

abbrev shares : List ReportShare
shares = share 2 weekly ∷ share 1 monthly ∷ []

abbrev mailing : Mailing
mailing s = if s.pk == 2 then some "refused" else none

-- 31 January steps to 28 February.
end_of_february :
    next_occurrence last_of_january monthly
    ≡ some (record { year = 2023; month = 2; day = 28; second = 3600 })
unfolding next_occurrence add_one_month days_in is_leap
end_of_february = refl

last_of_january-IsDate : IsDate last_of_january
unfolding days_in
last_of_january-IsDate = (ground arith, ground arith, ground arith, ground arith)

send_scheduled_shares-quiet_example :
    (map (λ d. d.share) (send_scheduled_shares mailing last_of_january shares).0
      ≡ map (λ s. s.pk) (due_scheduled_shares last_of_january shares))
    × (due_scheduled_shares last_of_january (send_scheduled_shares mailing last_of_january shares).1
        ≡ [])
    × (send_scheduled_shares mailing last_of_january
          (send_scheduled_shares mailing last_of_january shares).1
        ≡ ([], (send_scheduled_shares mailing last_of_january shares).1))
send_scheduled_shares-quiet_example =
    send_scheduled_shares-quiet mailing last_of_january last_of_january-IsDate shares

abbrev withdrawn_shares : List ReportShare
withdrawn_shares =
    record (share 3 weekly) { token = "other"; revoked_at = some last_of_january; access_count = 4 }
    ∷ shares

abbrev withdrawal : Withdrawal
withdrawal = record { share = 3; at = last_of_january; visits = 4; sends = 0 }

Calls-IsWithdrawn_example :
    let after =
      (send_scheduled_shares mailing last_of_january
        (open_share "other" last_of_january withdrawn_shares).1).1 in
    IsWithdrawn withdrawal after
    × ((token : String) (now : Moment) (s : ReportShare)
        → resolve_share token after ≡ some s
        → s.pk ≡ 3
        → open_share token now after ≡ (inactive, after))
    × ((now : Moment) → All (λ s. s.pk ≢ 3) (due_scheduled_shares now after))
Calls-IsWithdrawn_example =
    Calls-IsWithdrawn withdrawal
      (then_call (then_call no_call (opened "other" last_of_january withdrawn_shares))
        (sent mailing last_of_january (open_share "other" last_of_january withdrawn_shares).1))
      (
        (λ e. (refl, refl, refl)),
        ((λ e. absurd (ground arith)), ((λ e. absurd (ground arith)), tt)),
      )
