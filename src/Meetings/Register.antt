-- ===== src/Meetings/Register.antt =====
-- Who is on the register of a meeting after Meeting.regenerate_attendance of
-- src/pwms/models/meetings.py.
use mathlib.Core.List.{Memᴰ}
use mathlib.Core.List.Memᴰ.{append_left, append_right, append_cases}
use pwms_project.Prelude.{
  ℕ, ◌+◌, ◌<◌, ◌≤◌, ◌≡◌, ◌⊎◌, ◌↔◌, refl, sym, ap, ◌∙◌, subst, Bool, true, false, not, ◌&&◌, Option,
  none, some, List, [], ◌∷◌, ◌++◌, map, ◌==◌, nat_eq, arith, exists, contains, All→mem, mem-filter,
  filter-mem, mem→exists, exists→mem, Bool-cases, inl, inr, beq→eq,
}
use pwms_project.Meetings.{
  MeetingAttendance, Tables, Meeting, Summary, has_user, is_user, is_generated, is_host_group,
  is_member, on_register, new_row, host_members, regenerate_attendance,
}
use pwms_project.Meetings.Creating.{new_rows, on_register-new_rows}
use pwms_project.Meetings.Places.{IsValid}
use pwms_project.Meetings.Regenerate.{
  joins, leaves, regenerated, summary, regenerate_lem, regenerated-IsValid, left, deleted_iff_left,
  mem→left, contains-map,
}

new_rows-fresh :
    (meeting now : ℕ) (us : List ℕ) (pk : ℕ) {a : MeetingAttendance}
    → Memᴰ a (new_rows meeting now pk us)
    → pk ≤ a.pk
unfolding new_rows new_row
new_rows-fresh meeting now [] pk n = elim n [ ]
new_rows-fresh meeting now (u ∷ us) pk (Memᴰ.head e) = rw e (omega arith)
new_rows-fresh meeting now (u ∷ us) pk {a} (Memᴰ.tail n) =
    let h = new_rows-fresh meeting now us (pk + 1) n in omega arith

-- invited by hand to this meeting
abbrev pub invited_by_hand : ℕ → ℕ → MeetingAttendance → Bool
invited_by_hand meeting u a =
    a.meeting == meeting && not (is_host_group a.source) && is_user u a.user

module _ (m : Meeting) (now : ℕ) (s : Tables) (v : IsValid s) where
  kept-mem :
      {a : MeetingAttendance}
      → Memᴰ a s.attendances
      → left m now s a ≡ false
      → Memᴰ a (regenerated m now s).attendances
  kept-mem {a} n h =
      filter-mem _ (s.attendances ++ new_rows m.pk now s.next_pk (joins m now s)) (append_left _ n)
        (ap not (deleted_iff_left m now s v n ∙ h))

  pub created-kept :
      {a : MeetingAttendance}
      → Memᴰ a (new_rows m.pk now s.next_pk (joins m now s))
      → contains a.pk (map (λ b. b.pk) (leaves m now s)) ≡ false
  created-kept {a} n = elim (Bool-cases (contains a.pk (map (λ b. b.pk) (leaves m now s)))) [
    | inr kept ↦ kept
    | inl deleted ↦
        let (b, k, same) =
          exists→mem (λ b. a.pk == b.pk) (leaves m now s)
            (sym (contains-map m now s (leaves m now s) a.pk) ∙ deleted) in
        let (h, _) = mem→left m now s k in
        let below = All→mem (λ x. x.pk < s.next_pk) s.attendances v.fresh h in
        let above = new_rows-fresh m.pk now (joins m now s) s.next_pk n in
        absurd (ground (arith, same))
  ]

  created-mem :
      {a : MeetingAttendance}
      → Memᴰ a (new_rows m.pk now s.next_pk (joins m now s))
      → Memᴰ a (regenerated m now s).attendances
  created-mem n =
      filter-mem _ (s.attendances ++ new_rows m.pk now s.next_pk (joins m now s))
        (append_right s.attendances n) (ap not (created-kept n))

  -- After a regeneration the register holds the old rows that stay and the new ones.
  pub regenerated-mem :
      (a : MeetingAttendance)
      → Memᴰ a (regenerated m now s).attendances ↔ (
          (Memᴰ a s.attendances × (left m now s a ≡ false))
          ⊎ Memᴰ a (new_rows m.pk now s.next_pk (joins m now s)))
  regenerated-mem a = (
    (λ n.
        let (k, e) =
          mem-filter _ (s.attendances ++ new_rows m.pk now s.next_pk (joins m now s)) n in
        elim (append_cases s.attendances k) [
          | inl old ↦ inl (old, sym (deleted_iff_left m now s v old) ∙ ground (arith, e))
          | inr new ↦ inr new
        ]),
    (λ k. elim k [ inl (old, h) ↦ kept-mem old h | inr new ↦ created-mem new ]),
  )

is_user→has_user : (u : ℕ) (o : Option ℕ) → is_user u o ≡ true → has_user o ≡ true
unfolding is_user has_user
is_user→has_user u none h = h
is_user→has_user u (some w) h = refl

is_user→is_member :
    (us : List ℕ) (u : ℕ) (o : Option ℕ) → is_user u o ≡ true → is_member us o ≡ contains u us
unfolding is_user is_member
is_user→is_member us u none h = absurd (ground (arith, h))
is_user→is_member us u (some w) h = ap (λ x. contains x us) (beq→eq w u h)

pub contains-exists : (u : ℕ) (us : List ℕ) → contains u us ≡ exists (λ v. v == u) us
contains-exists u [] = refl
contains-exists u (w ∷ us) = ground (arith, contains-exists u us)

module _ (m : Meeting) (now : ℕ) (s : Tables) (v : IsValid s) (u : ℕ) where
  old-register :
      {a : MeetingAttendance}
      → Memᴰ a s.attendances
      → left m now s a ≡ false
      → (a.meeting == m.pk && is_user u a.user) ≡ true
      → (contains u (host_members m s) ≡ true)
        ⊎ (exists (invited_by_hand m.pk u) s.attendances ≡ true)
  unfolding is_generated
  old-register {a} n h e = elim (Bool-cases (is_host_group a.source)) [
    | inl from_group ↦ inl (
        ground (
          arith,
          h,
          e,
          from_group,
          is_user→has_user u a.user,
          is_user→is_member (host_members m s) u a.user,
        ))
    | inr by_hand ↦
        inr (mem→exists (invited_by_hand m.pk u) s.attendances n (ground (arith, e, by_hand)))
  ]

  register→member :
      on_register m.pk (regenerated m now s).attendances u ≡ true
      → (contains u (host_members m s) ≡ true)
        ⊎ (exists (invited_by_hand m.pk u) s.attendances ≡ true)
  unfolding on_register
  register→member h =
      let (a, n, e) =
        exists→mem (λ a. a.meeting == m.pk && is_user u a.user) (regenerated m now s).attendances
          h in
      elim ((regenerated-mem m now s v a).0 n) [
        | inl (old, stays) ↦ old-register old stays e
        | inr new ↦
            let joined =
              mem→exists (λ a. a.meeting == m.pk && is_user u a.user)
                (new_rows m.pk now s.next_pk (joins m now s)) new e in
            let (w, k, same) =
              exists→mem (λ w. w == u) (joins m now s)
                (sym (on_register-new_rows m.pk now (joins m now s) s.next_pk u) ∙ joined) in
            let (g, _) = mem-filter _ (host_members m s) k in
            inl (
              contains-exists u (host_members m s)
              ∙ mem→exists (λ w. w == u) (host_members m s) g same)
      ]

  invited→register :
      exists (invited_by_hand m.pk u) s.attendances ≡ true
      → on_register m.pk (regenerated m now s).attendances u ≡ true
  unfolding on_register is_generated
  invited→register h =
      let (a, n, e) = exists→mem (invited_by_hand m.pk u) s.attendances h in
      mem→exists (λ a. a.meeting == m.pk && is_user u a.user) (regenerated m now s).attendances
        ((regenerated-mem m now s v a).1 (inl (n, ground (arith, e)))) (ground (arith, e))

  pub member→register :
      contains u (host_members m s) ≡ true
      → on_register m.pk (regenerated m now s).attendances u ≡ true
  unfolding on_register is_generated
  member→register h = elim (Bool-cases (on_register m.pk s.attendances u)) [
    | inl before ↦
        let (a, n, e) =
          exists→mem (λ a. a.meeting == m.pk && is_user u a.user) s.attendances before in
        mem→exists (λ a. a.meeting == m.pk && is_user u a.user) (regenerated m now s).attendances
          ((regenerated-mem m now s v a).1
            (inl (n, ground (arith, e, h, is_user→is_member (host_members m s) u a.user))))
          e
    | inr absent ↦
        let (w, n, same) =
          exists→mem (λ w. w == u) (host_members m s)
            (sym (contains-exists u (host_members m s)) ∙ h) in
        let joins_now =
          filter-mem (λ u. not (on_register m.pk s.attendances u)) (host_members m s) n
            (ap not (
              subst (λ x. on_register m.pk s.attendances x ≡ false) (sym (beq→eq w u same))
                absent)) in
        let (a, k, e) =
          exists→mem (λ a. a.meeting == m.pk && is_user u a.user)
            (new_rows m.pk now s.next_pk (joins m now s))
            (on_register-new_rows m.pk now (joins m now s) s.next_pk u
              ∙ mem→exists (λ w. w == u) (joins m now s) joins_now same) in
        mem→exists (λ a. a.meeting == m.pk && is_user u a.user) (regenerated m now s).attendances
          ((regenerated-mem m now s v a).1 (inr k)) e
  ]

-- On a valid table a regeneration never violates a constraint: it returns, leaves a valid table
-- and stamps the meeting. An account then has a place at the meeting exactly when it is an active
-- member of the group that hosts it, or already had a place as an invitee.
pub regenerate_attendance-register :
    (m : Meeting) (now : ℕ) (s : Tables)
    → IsValid s
    → (m₁ : Meeting) × (s₁ : Tables) × (done : Summary) × (regenerate_attendance m now s
        ≡ some (m₁, s₁, done))
      × IsValid s₁
      × (m₁.register_generated_at ≡ some now)
      × ((u : ℕ)
          → (on_register m.pk s₁.attendances u ≡ true) ↔ (
              (contains u (host_members m s) ≡ true)
              ⊎ (exists (invited_by_hand m.pk u) s.attendances ≡ true)))
regenerate_attendance-register m now s v = (
  record m { register_generated_at = some now },
  regenerated m now s,
  summary m now s,
  regenerate_lem m now s v,
  regenerated-IsValid m now s v,
  refl,
  (λ u. (
    register→member m now s v u,
    (λ k. elim k [
      | inl member ↦ member→register m now s v u member
      | inr invited ↦ invited→register m now s v u invited
    ]),
  )),
)

-- A row of a valid table, with everything recorded on it, survives a regeneration exactly when it
-- is no generated row of the meeting, or one of somebody who is still an active member.
pub regenerate_attendance_keeps :
    (m : Meeting) (now : ℕ) (s : Tables) {m₁ : Meeting} {s₁ : Tables} {done : Summary}
    → IsValid s
    → regenerate_attendance m now s ≡ some (m₁, s₁, done)
    → (a : MeetingAttendance) → Memᴰ a s.attendances
    → Memᴰ a s₁.attendances
      ↔ ((is_generated m.pk a && not (is_member (host_members m s) a.user)) ≡ false)
regenerate_attendance_keeps m now s {s₁ = s₁} v e a n =
    let result : regenerated m now s ≡ s₁ = ground (arith, e, regenerate_lem m now s v) in
    (
      (λ k.
          elim ((regenerated-mem m now s v a).0
            (subst (λ t. Memᴰ a t.attendances) (sym result) k)) [
              | inl (old, stays) ↦ stays
              | inr new ↦
                  let below = All→mem (λ x. x.pk < s.next_pk) s.attendances v.fresh n in
                  let above = new_rows-fresh m.pk now (joins m now s) s.next_pk new in
                  absurd (omega arith)
            ]),
      (λ stays.
          subst (λ t. Memᴰ a t.attendances) result
            ((regenerated-mem m now s v a).1 (inl (n, stays)))),
    )
