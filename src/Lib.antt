-- ===== src/Lib.antt =====
-- PWMS, the workflow management system of a parliament (Python and Django, src/pwms).
--
-- A workflow instance is a row of one of several models that share a state machine, a matrix of
-- access rows, referrals to other groups and a place in a hierarchy. The parts, and how they meet:
--
-- - Schema: the rows (models/permissions.py, models/workflows.py). A foreign key is the primary key
--   of the row it names, a generic foreign key a pair of content type and object, an instant a
--   number of seconds.
-- - Rbac: AbstractLegislativeWorkflow.can, the three layers that decide a capability. The
--   resolver (Resolver: services/permissions.py) asks it, and so does every page and the API.
-- - Types: WorkflowType.can_create and creatable_by, and how types nest.
-- - Instances: saving an instance, which makes its access rows when it is new, and its flags.
-- - Descent: the walk down that Hierarchy and Types share, depth first with one set of what was seen.
-- - Access: the table of WorkflowGroupAccess rows, which materialize_group_access fills when an
--   instance is created and sync_referral_access adjusts when referrals change.
-- - Referrals: WorkflowReferral. `refer`, `respond`, `recall` and `mark_expired` end in `save`,
--   which records events and calls sync_access; `delete` calls it too. Referrals.Reach is any
--   sequence of such calls.
-- - Hierarchy: WorkflowRelationship, its validation and the methods that attach, detach and climb.
--   Resolver uses get_ancestors for the view capability that is inherited.
-- - Machine: Transition, TransitionCondition, TransitionLog and perform_transition. Its guards read
--   the events and referrals of the instance and, by the hierarchy, its children.
-- - Progress: WorkflowMachine (services/progress.py), the shortest path through the transitions of a
--   type, the terminal that progress is measured against, and the percentage.
-- - Bills: Bill and BillVersion, saving a version and what a bill publishes as its current and its
--   introduced version.
-- - Api: the credentials of the partner API (api/models.py, api/tokens.py): Clients, Refresh,
--   AccessToken, SingleUse on what calls can follow each other, and Throttle (api/throttling.py).
-- - RichText: the sanitizer of rich text (utils/richtext.py), a handler for each event of the HTML
--   parser with its stack of open tags, and what becomes of an href. RichText.Document is the
--   document that the events come from, the specification that the sanitizer refines.
-- - Meetings: Meeting and MeetingAttendance (models/meetings.py): the register of attendance and its
--   regeneration from the memberships of the host group (Meetings), the events of the record and the
--   minutes (Recording), the counts (Counts, Tally), who is told (Audience) and the state of a
--   meeting by the calendar (Calendar). Its agenda and minutes are rich text.
-- - Notifications: notifications/dispatch.py and models/notifications.py: who has to do with an
--   instance, kept to those whom Resolver lets see it, the rows and tasks that an alert writes, and
--   the attempts of a mail (tasks.py).
-- - Reports: the shares of a report (models/reports.py, reporting/sharing.py and the view
--   report_shared): links, their revocation and the scheduled sends.
-- - MembershipSync: MembershipSyncService (membership/sync_service.py), which finds or creates the
--   groups and roles that a row of the register names, with its caches, and the memberships that
--   Rbac and Meetings read.
-- - OrgHierarchy: the parent of each organisational unit, inferred from the supervisors of its people
--   (membership/org_hierarchy.py); the groups that MembershipSync finds are stored under it.
-- - Prelude: Boolean tests, equality as an interface, lists measured by native numbers, searches.
-- - Examples: concrete rows and the theorems at work on them.
--
-- All paths are below src/pwms. The state of a component is a record of the tables that it reads or
-- writes, an operation is a function from the tables before to the tables after, and an exception is
-- a value: `none`, a constructor of an error type, or an outcome. An operation runs to its end before
-- the next one starts: requests that overlap inside one operation are not modelled.
--
-- Fuel: the three loops that climb the hierarchy stop at a key that they have seen, so one round
-- more than there are links is enough (Hierarchy.rounds); on a forest no loop runs out of it.
-- _creates_cycle, which counts the parent itself, has one round more. The walk down takes a round for
-- each link at most (Descent.Complete); get_ancestor_types one for each type
-- (Types.Nested.get_ancestor_types_enough).
--
-- The breadth-first search of Progress has one round for the start and one for each transition: a
-- round takes an entry from the queue, and an entry is queued when its state is first seen.
--
-- The loop that deletes a meeting's rows and the ones that deliver notices and shares run over a list
-- that is read first; they are recursion on that list.
--
-- Parameters: the signer of access tokens with the documented behaviour of django.core.signing
-- (AccessToken.Signs), the digest of refresh tokens and the random strings that they are made
-- from, the cache of the throttle with the documented behaviour of add and incr (Throttle.Counts),
-- the truth of a named attribute of an instance (Machine.Database.truthy), what html.parser,
-- html.escape, urllib.parse and the text functions answer (RichText.Texts), what the mail server
-- answers (Notifications, and Reports.Mailing), which tasks the background queue keeps after a run
-- (Notifications.Pending.Reruns), and the functions on names of MembershipSync.Names.
--
-- Not modelled: the wording of messages, the figures of a report and the creation of a share, the
-- import and export of meetings, attachments, search, the HTTP views,
-- forms, settings, migrations and management commands. What an object keeps of its parent link has a
-- part in set_parent_workflow (Hierarchy.LinkCache); elsewhere links are read from the table.
mod Prelude
pub mod Schema
pub mod Rbac
pub mod Access
pub mod Referrals
pub mod Hierarchy
pub mod Resolver
pub mod Machine
pub mod Progress
pub mod Bills
pub mod RichText
pub mod Meetings
pub mod Notifications
pub mod Reports
pub mod Types
pub mod Api
mod Examples
pub mod Instances
pub mod Descent
pub mod OrgHierarchy
pub mod MembershipSync
