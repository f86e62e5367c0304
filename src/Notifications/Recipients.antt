-- ===== src/Notifications/Recipients.antt =====
-- Who hears of a change of a workflow instance: stakeholders and referral_audience,
-- src/pwms/notifications/dispatch.py.
use mathlib.Core.List.{Memᴰ}
use pwms_project.Prelude.{
  ℕ, ◌≡◌, refl, sym, ap, ◌∙◌, Bool, true, false, not, ◌&&◌, ◌||◌, Option, none, some, List, [], ◌∷◌,
  ◌++◌, String, key_eq, ◌==◌, nat_eq, arith, filter, find, exists, contains, map, All, All→mem,
  mem→All, subst, ◌⊎◌, some_inj, string_eq, mem-filter, exists-append, Once, put_all, put_all-Once,
  has_key, has_key-put_all, All-put_all, Bool-cases, inl, inr,
}
use pwms_project.Schema.{User, Membership, WorkflowType, GroupAccess, Instance, view, on}
use pwms_project.Resolver.{World, resolve, workflow}
use pwms_project.Notifications.{
  Recipient, Message, Notification, Outbox, in_app, email_channel, sent, pending, save_row,
  create_row, new_notification, queue_email, record_alert, is_actor, addressed, record_alerts,
  alert,
}

-- A user with the columns of the account that alerts read.
pub record Person : Type 0 where
  pub user : User
  pub account_active : Bool
  pub email : String

abbrev pub person_pk : Person → ℕ
person_pk p = p.user.pk

unfoldable pub as_recipient : Person → Recipient
as_recipient p = record { pk = p.user.pk; email = p.email }

-- The group runs the type and one active membership in it has one of the create roles.
unfoldable pub is_officer : WorkflowType → Person → Bool
is_officer t p = elim t.group [
  | none ↦ false
  | some g ↦
      p.account_active
      && exists (λ m. m.is_active && m.group == g && contains m.role.pk t.create_roles)
          p.user.memberships
]

unfoldable pub officers : WorkflowType → List Person → List Person
officers t people = filter (is_officer t) people

unfoldable pub access_groups : List GroupAccess → Instance → List ℕ
access_groups accesses i = map (λ a. a.group) (filter (λ a. a.object == i.key) accesses)

unfoldable pub holds_role : List ℕ → List ℕ → Person → Bool
holds_role groups roles p =
    p.account_active
    && exists (λ m. m.is_active && contains m.group groups && contains m.role.pk roles)
        p.user.memberships

unfoldable pub role_holders : List GroupAccess → Instance → List ℕ → List Person → List Person
role_holders accesses i roles people = elim roles [
  | [] ↦ []
  | r ∷ rest ↦ filter (holds_role (access_groups accesses i) (r ∷ rest)) people
]

unfoldable pub person_of : Option ℕ → List Person → List Person
person_of none people = []
person_of (some pk) people = elim (find (λ p. p.user.pk == pk) people) [
  | none ↦ []
  | some p ↦ p ∷ []
]

unfoldable pub named : Instance → List Person → List Person
named i people = person_of (some i.owner) people ++ person_of i.assigned_to people

unfoldable pub may_be_told : World → Instance → Person → Bool
may_be_told w i p = p.account_active && resolve false w (some p.user) (workflow i) (on view)

unfoldable pub visible : World → Instance → List Person → List Person
visible w i people = put_all person_pk (filter (may_be_told w i) people) []

-- `audience` is that of the meeting, and empty for other instruments.
unfoldable pub candidates :
    World → WorkflowType → Instance → List ℕ → List Person → List Person → List Person
candidates w t i roles people audience =
    officers t people ++ (role_holders w.accesses i roles people ++ (named i people ++ audience))

unfoldable pub stakeholders :
    World → WorkflowType → Instance → List ℕ → List Person → List Person → List Person
stakeholders w t i roles people audience = visible w i (candidates w t i roles people audience)

unfoldable pub is_group_member : ℕ → Person → Bool
is_group_member group p =
    p.account_active && exists (λ m. m.is_active && m.group == group) p.user.memberships

-- `record` is the instance that was referred, `none` when it is gone.
unfoldable pub named_actives : Option Instance → List Person → List Person
named_actives none people = []
named_actives (some i) people = filter (λ p. p.account_active) (named i people)

unfoldable pub referral_audience : ℕ → Option Instance → List Person → List Person
referral_audience group referred people =
    put_all person_pk (named_actives referred people)
      (put_all person_pk (filter (is_group_member group) people) [])

-- the person has this key and may be told
abbrev pub told : World → Instance → ℕ → Person → Bool
told w i pk p = p.user.pk == pk && may_be_told w i p

has_key-filter :
    (test : Person → Bool) (pk : ℕ) (people : List Person)
    → has_key person_pk pk (filter test people) ≡ exists (λ p. p.user.pk == pk && test p) people
has_key-filter test pk [] = refl
has_key-filter test pk (p ∷ people) = ground (arith, has_key-filter test pk people)

exists-filter :
    (test told : Person → Bool) (people : List Person)
    → exists told (filter test people) ≡ exists (λ p. test p && told p) people
exists-filter test told [] = refl
exists-filter test told (p ∷ people) = ground (arith, exists-filter test told people)

abbrev pub is_subscriber : List GroupAccess → Instance → List ℕ → Person → Bool
is_subscriber accesses i roles p = holds_role (access_groups accesses i) roles p

no_role :
    (groups : List ℕ) (memberships : List Membership)
    → exists (λ m. m.is_active && contains m.group groups && contains m.role.pk []) memberships
      ≡ false
no_role groups [] = refl
no_role groups (m ∷ memberships) = ground (arith, no_role groups memberships)

no_holder :
    (groups : List ℕ) (test : Person → Bool) (people : List Person)
    → exists (λ p. holds_role groups [] p && test p) people ≡ false
unfolding holds_role
no_holder groups test [] = refl
no_holder groups test (p ∷ people) =
    ground (arith, no_role groups p.user.memberships, no_holder groups test people)

role_holders-exists :
    (accesses : List GroupAccess) (i : Instance) (roles : List ℕ) (test : Person → Bool)
    (people : List Person)
    → exists test (role_holders accesses i roles people)
      ≡ exists (λ p. is_subscriber accesses i roles p && test p) people
unfolding role_holders
role_holders-exists accesses i [] test people =
    sym (no_holder (access_groups accesses i) test people)
role_holders-exists accesses i (r ∷ roles) test people =
    exists-filter (holds_role (access_groups accesses i) (r ∷ roles)) test people

module _ (w : World) (t : WorkflowType) (i : Instance) (roles : List ℕ)
    (people audience : List Person) where
  -- The stakeholders of a change are told once each, hold an active account and may view the
  -- instance at that moment. They are exactly those of these who are officers of its type, hold one
  -- of the roles in a group with access to it, own it, are assigned it, or belong to the audience
  -- of a meeting.
  pub stakeholders-Once :
      let s = stakeholders w t i roles people audience in
      Once person_pk s
      × All (λ p. may_be_told w i p ≡ true) s
      × ((pk : ℕ)
          → has_key person_pk pk s ≡ (
              exists (λ p. is_officer t p && told w i pk p) people
              || exists (λ p. is_subscriber w.accesses i roles p && told w i pk p) people
              || exists (told w i pk) (named i people)
              || exists (told w i pk) audience))
  unfolding stakeholders visible candidates officers
  stakeholders-Once =
      let all = candidates w t i roles people audience in
      (
        put_all-Once person_pk (filter (may_be_told w i) all) [] tt,
        All-put_all person_pk (λ p. may_be_told w i p ≡ true) (filter (may_be_told w i) all) []
            (mem→All _ (filter (may_be_told w i) all) (λ p m. let (_, e) = mem-filter _ all m in e))
            tt,
        (λ pk. ground (
          arith,
          has_key-put_all person_pk pk (filter (may_be_told w i) all) [],
          has_key-filter (may_be_told w i) pk all,
          exists-append (told w i pk) (officers t people)
              (role_holders w.accesses i roles people ++ (named i people ++ audience)),
          exists-append (told w i pk) (role_holders w.accesses i roles people)
              (named i people ++ audience),
          exists-append (told w i pk) (named i people) audience,
          exists-filter (is_officer t) (told w i pk) people,
          role_holders-exists w.accesses i roles (told w i pk) people,
        )),
      )

create_row-new :
    (x : Notification) (o : Outbox) (k : ℕ) (r : Notification)
    → (create_row x o).rows k ≡ some r
    → (o.rows k ≡ some r) ⊎ (r.message ≡ x.message)
unfolding create_row save_row
create_row-new x o k r h = elim (Bool-cases (k == o.next_pk)) [
  | inl same ↦ inr (ap (λ t. t.message) (sym (some_inj {x = x} {y = r} (ground (arith, same)))))
  | inr other ↦ inl (ground (arith, other))
]

record_alert-new :
    (now : ℕ) (message : Message) (o : Outbox) (k : ℕ) (r : Notification)
    → (record_alert now message o).rows k ≡ some r
    → (o.rows k ≡ some r) ⊎ (r.message ≡ message)
unfolding record_alert queue_email new_notification
record_alert-new now message o k r h =
    let bell = new_notification in_app sent (some now) message in
    let mail = new_notification email_channel pending none message in
    elim (Bool-cases (message.recipient.email == "")) [
      | inl none_given ↦ create_row-new bell o k r (rw (record_alert, none_given) at h)
      | inr given ↦
          elim (create_row-new mail (create_row bell o) k r (rw (record_alert, given) at h)) [
            | inr new ↦ inr new
            | inl before ↦ create_row-new bell o k r before
          ]
    ]

record_alerts-new :
    (now : ℕ) (compose : Recipient → Message) (us : List Recipient) (o : Outbox) (k : ℕ)
    (r : Notification)
    → (record_alerts now compose us o).rows k ≡ some r
    → (o.rows k ≡ some r) ⊎ ((u : Recipient) × Memᴰ u us × (r.message ≡ addressed compose u))
unfolding record_alerts
record_alerts-new now compose [] o k r h = inl h
record_alerts-new now compose (u ∷ us) o k r h =
    elim (record_alerts-new now compose us (record_alert now (addressed compose u) o) k r h) [
      | inr (v, m, e) ↦ inr (v, Memᴰ.tail m, e)
      | inl before ↦ elim (record_alert-new now (addressed compose u) o k r before) [
        | inl old ↦ inl old
        | inr new ↦ inr (u, Memᴰ.head refl, new)
      ]
    ]

mem-map_recipient :
    (people : List Person) {u : Recipient}
    → Memᴰ u (map as_recipient people)
    → (p : Person) × Memᴰ p people × (u ≡ as_recipient p)
mem-map_recipient [] m = elim m [ ]
mem-map_recipient (p ∷ people) (Memᴰ.head e) = (p, Memᴰ.head refl, e)
mem-map_recipient (p ∷ people) (Memᴰ.tail m) =
    let (q, n, e) = mem-map_recipient people m in (q, Memᴰ.tail n, e)

-- Whatever a change of an instance adds to the table of alerts is addressed to somebody with an
-- active account who may view the instance, and who is not the person that made the change.
pub alert-stakeholders :
    (w : World) (t : WorkflowType) (i : Instance) (roles : List ℕ) (people audience : List Person)
    (now : ℕ) (actor : Option ℕ) (compose : Recipient → Message) (o : Outbox) (k : ℕ)
    (r : Notification)
    → (alert now actor compose (map as_recipient (stakeholders w t i roles people audience)) o).rows
        k
      ≡ some r
    → (o.rows k ≡ some r)
      ⊎ ((p : Person) × (may_be_told w i p ≡ true)
          × (is_actor actor (as_recipient p) ≡ false)
          × (r.message.recipient ≡ as_recipient p))
unfolding alert
alert-stakeholders w t i roles people audience now actor compose o k r h =
    let all = stakeholders w t i roles people audience in
    elim (record_alerts-new now compose
      (filter (λ u. not (is_actor actor u)) (map as_recipient all)) o k r h) [
        | inl old ↦ inl old
        | inr (u, m, e) ↦
            let (n, other) = mem-filter _ (map as_recipient all) m in
            let (p, q, same) = mem-map_recipient all n in
            let (_, may, _) = stakeholders-Once w t i roles people audience in
            inr (
              p,
              All→mem (λ p. may_be_told w i p ≡ true) all may q,
              subst (λ v. is_actor actor v ≡ false) same (ground (arith, other)),
              ap (λ v. v.recipient) e ∙ same,
            )
      ]
