-- ===== src/Meetings/Creating.antt =====
-- Members who join the register: the first loop of Meeting.regenerate_attendance,
-- src/pwms/models/meetings.py.
use mathlib.Core.List.{Memᴰ}
use pwms_project.Prelude.{
  ℕ, ◌+◌, ◌≡◌, ◌≢◌, refl, sym, ap, ◌∙◌, false, not, ◌&&◌, some, List, [], ◌∷◌, ◌++◌, ◌==◌, nat_eq,
  arith, length, filter, exists, Apart, All→mem, exists-append, Bool-cases, inl, inr, beq_refl,
  append-nil, append_assoc,
}
use pwms_project.Meetings.{
  MeetingAttendance, Tables, on_register, new_row, create_attendance, add_members, is_user,
}

-- The rows of these users, with the primary keys that follow one another.
unfoldable pub new_rows : ℕ → ℕ → ℕ → List ℕ → List MeetingAttendance
new_rows meeting now pk [] = []
new_rows meeting now pk (u ∷ rest) = new_row pk meeting now u ∷ new_rows meeting now (pk + 1) rest

abbrev pub missing : ℕ → List MeetingAttendance → List ℕ → List ℕ
missing meeting before members = filter (λ u. not (on_register meeting before u)) members

abbrev pub with_new_rows : ℕ → ℕ → List ℕ → Tables → Tables
with_new_rows meeting now us s = record s {
  attendances = s.attendances ++ new_rows meeting now s.next_pk us;
  next_pk = s.next_pk + length us;
}

module _ (meeting now : ℕ) where
  pub on_register-new_rows :
      (us : List ℕ) (pk u : ℕ)
      → on_register meeting (new_rows meeting now pk us) u ≡ exists (λ v. v == u) us
  unfolding on_register new_rows new_row is_user
  on_register-new_rows [] pk u = refl
  on_register-new_rows (v ∷ us) pk u =
      ground (arith, on_register-new_rows us (pk + 1) u, beq_refl meeting)

  pub absent_after :
      (xs : List MeetingAttendance) (pk u v : ℕ)
      → on_register meeting xs v ≡ false
      → u ≢ v
      → on_register meeting (xs ++ (new_row pk meeting now u ∷ [])) v ≡ false
  unfolding on_register new_row is_user
  absent_after xs pk u v h n =
      exists-append (λ a. a.meeting == meeting && is_user v a.user) xs
        (new_row pk meeting now u ∷ [])
      ∙ ground (arith, h, n)

  pub with_new_rows-none : (s : Tables) → with_new_rows meeting now [] s ≡ s
  unfolding new_rows
  with_new_rows-none s = ground (arith, append-nil s.attendances)

  pub with_new_rows-create :
      (u : ℕ) (us : List ℕ) (s : Tables)
      → with_new_rows meeting now us (record s {
        attendances = s.attendances ++ (new_row s.next_pk meeting now u ∷ []);
        next_pk = s.next_pk + 1;
      })
        ≡ with_new_rows meeting now (u ∷ us) s
  unfolding new_rows
  with_new_rows-create u us s = ground (
    arith,
    append_assoc s.attendances (new_row s.next_pk meeting now u ∷ [])
        (new_rows meeting now (s.next_pk + 1) us),
  )

  -- The members that were not on the register get their rows, and none is refused.
  pub add_members_lem :
      (before : List MeetingAttendance) (members : List ℕ) (s : Tables)
      → Apart ◌≢◌ members
      → ((u : ℕ)
          → Memᴰ u members
          → on_register meeting before u ≡ false
          → on_register meeting s.attendances u ≡ false)
      → add_members meeting now before members s
        ≡ some (
          length (missing meeting before members),
          with_new_rows meeting now (missing meeting before members) s,
        )
  unfolding add_members create_attendance
  add_members_lem before [] s distinct h = ap (λ t. some (0, t)) (sym (with_new_rows-none s))
  add_members_lem before (u ∷ rest) s (q, distinct) h =
      elim (Bool-cases (on_register meeting before u)) [
        | inl there ↦
            ground (arith, there, add_members_lem before rest s distinct (λ v m. h v (Memᴰ.tail m)))
        | inr absent ↦
            let s₁ : Tables = record s {
              attendances = s.attendances ++ (new_row s.next_pk meeting now u ∷ []);
              next_pk = s.next_pk + 1;
            } in
            let later = add_members_lem before rest s₁ distinct (λ v m k.
              absent_after s.attendances s.next_pk u v (h v (Memᴰ.tail m) k)
                (All→mem (λ w. u ≢ w) rest q m)) in
            ground (
              arith,
              absent,
              h u (Memᴰ.head refl) absent,
              later,
              with_new_rows-create u (missing meeting before rest) s,
            )
      ]
