-- ===== src/Replay/Answers.antt =====
-- The answers of a replay (backend/src/api/services/delivery-service.js) when no call fails.
use hook_tracker.Prelude.{
  ℕ, ◌≡◌, ap, ◌∙◌, ◌⊎◌, inl, inr, true, false, List, [], ◌∷◌, ◌++◌, Option, none, some, arith,
  Bool-cases, Option-cases,
}
use hook_tracker.Status.{is_replayable}
use hook_tracker.Store.{find_row, Delivery, Event}
use hook_tracker.World.{
  World, Reply, returned, thrown, call, write, no_such_delivery, no_such_project, conflict,
  delivery_queue,
}
use hook_tracker.Publisher.{publish_delivery}
use hook_tracker.Authorization.{Membership, member, assert_membership, membership_for, refusal}
use hook_tracker.Replay.{
  replay, create_replay, load_for_caller, replay_of, find_delivery, joined, allowed, authorised,
}

-- The message of a new row, and what a replay that is accepted leaves.
abbrev pub replayed : ℕ → ℕ → Delivery → World → World
replayed new_id id row w = record w {
  deliveries = w.deliveries ++ (new_id, row) ∷ [];
  queue =
      w.queue
      ++ record {
        delivery_id = new_id;
        attempt = 1;
        place = delivery_queue;
        expiration = none;
        redelivered = false;
      }
        ∷ [];
}

create_replay-true :
    (id new_id now : ℕ) (d : Delivery) (w : World)
    → w.faults ≡ []
    → is_replayable d.status ≡ true
    → create_replay id new_id now d w
      ≡ returned (replay_of id d now) (replayed new_id id (replay_of id d now) w)
unfolding create_replay write call publish_delivery
create_replay-true id new_id now d w nf e = ground arith

create_replay-false :
    (id new_id now : ℕ) (d : Delivery) (w : World)
    → is_replayable d.status ≡ false
    → create_replay id new_id now d w ≡ thrown conflict w
unfolding create_replay
create_replay-false id new_id now d w e = ground arith

load_none :
    (auth : List Membership) (id : ℕ) (w : World)
    → w.faults ≡ []
    → find_row id w.deliveries ≡ none
    → load_for_caller auth id w ≡ thrown no_such_delivery w
unfolding load_for_caller call find_delivery authorised
load_none auth id w nf e = ground arith

load_some :
    (auth : List Membership) (id : ℕ) (w : World) (d : Delivery) (ev : Event)
    (o : Option Membership)
    → w.faults ≡ []
    → find_row id w.deliveries ≡ some d
    → find_row d.event_id w.events ≡ some ev
    → membership_for auth ev.project_id ≡ o
    → load_for_caller auth id w ≡ allowed (refusal member o) d w
unfolding load_for_caller call find_delivery authorised joined assert_membership
load_some auth id w d ev o nf e k m = ground arith

-- The four ways in which a replay ends.
pub record Accepts (auth : List Membership) (id new_id now : ℕ) (w : World) : Type 0 where
  pub row : Delivery
  pub event : Event
  pub found : find_row id w.deliveries ≡ some row
  pub found_event : find_row row.event_id w.events ≡ some event
  pub is_member : (m : Membership) × (membership_for auth event.project_id ≡ some m)
  pub replayable : is_replayable row.status ≡ true
  pub result :
      replay auth id new_id now w
      ≡ returned (replay_of id row now) (replayed new_id id (replay_of id row now) w)

pub record Conflicts (auth : List Membership) (id new_id now : ℕ) (w : World) : Type 0 where
  pub row : Delivery
  pub found : find_row id w.deliveries ≡ some row
  pub not_replayable : is_replayable row.status ≡ false
  pub result : replay auth id new_id now w ≡ thrown conflict w

pub record IsUnknown (auth : List Membership) (id new_id now : ℕ) (w : World) : Type 0 where
  pub missing : find_row id w.deliveries ≡ none
  pub result : replay auth id new_id now w ≡ thrown no_such_delivery w

-- The caller is no member of the row's project.
pub record IsForeign (auth : List Membership) (id new_id now : ℕ) (w : World) : Type 0 where
  pub row : Delivery
  pub event : Event
  pub found : find_row id w.deliveries ≡ some row
  pub found_event : find_row row.event_id w.events ≡ some event
  pub not_member : membership_for auth event.project_id ≡ none
  pub result : replay auth id new_id now w ≡ thrown no_such_project w

replay-loaded :
    (auth : List Membership) (id new_id now : ℕ) (w : World) (r : Reply Delivery)
    → load_for_caller auth id w ≡ r
    → replay auth id new_id now w
      ≡ (elim r [ returned a v ↦ create_replay id new_id now a v | thrown e v ↦ thrown e v ])
unfolding replay
replay-loaded auth id new_id now w r e =
    ap (λ s. elim s [ returned a v ↦ create_replay id new_id now a v | thrown x v ↦ thrown x v ]) e

refused_or_made :
    (auth : List Membership) (id new_id now : ℕ) (w : World) (d : Delivery) (ev : Event)
    (m : Membership)
    → w.faults ≡ []
    → find_row id w.deliveries ≡ some d
    → find_row d.event_id w.events ≡ some ev
    → membership_for auth ev.project_id ≡ some m
    → Conflicts auth id new_id now w ⊎ Accepts auth id new_id now w
unfolding allowed
refused_or_made auth id new_id now w d ev m nf e k h =
    let start = replay-loaded auth id new_id now w _ (load_some auth id w d ev (some m) nf e k h) in
    elim (Bool-cases (is_replayable d.status)) [
      | inl ok ↦ inr (record {
        row = d;
        event = ev;
        found = e;
        found_event = k;
        is_member = (m, h);
        replayable = ok;
        result = start ∙ create_replay-true id new_id now d w nf ok;
      })
      | inr bad ↦ inl (record {
        row = d;
        found = e;
        not_replayable = bad;
        result = start ∙ create_replay-false id new_id now d w bad;
      })
    ]

member_or_not :
    (auth : List Membership) (id new_id now : ℕ) (w : World) (d : Delivery) (ev : Event)
    → w.faults ≡ []
    → find_row id w.deliveries ≡ some d
    → find_row d.event_id w.events ≡ some ev
    → IsForeign auth id new_id now w
      ⊎ (Conflicts auth id new_id now w ⊎ Accepts auth id new_id now w)
unfolding allowed
member_or_not auth id new_id now w d ev nf e k =
    elim (Option-cases (membership_for auth ev.project_id)) [
      | inl h ↦ inl (record {
        row = d;
        event = ev;
        found = e;
        found_event = k;
        not_member = h;
        result = replay-loaded auth id new_id now w _ (load_some auth id w d ev none nf e k h);
      })
      | inr (m, h) ↦ inr (refused_or_made auth id new_id now w d ev m nf e k h)
    ]

-- When no call fails and the row, if it is there, has its event, a replay ends in one of four ways.
-- There is no such row, and the error says so. The row is of a project that the caller is not a
-- member of, and the error is that there is no such project. The row is in a state that cannot
-- be replayed: a conflict. In these three nothing changes. Otherwise one row is added after
-- the others, a PENDING delivery with no attempts of the same event to the same endpoint that
-- names the original, and one message for its first attempt.
pub replay_cases :
    (auth : List Membership) (id new_id now : ℕ) (w : World)
    → w.faults ≡ []
    → ((d : Delivery)
        → find_row id w.deliveries ≡ some d
        → (ev : Event) × (find_row d.event_id w.events ≡ some ev))
    → IsUnknown auth id new_id now w
      ⊎ (IsForeign auth id new_id now w
          ⊎ (Conflicts auth id new_id now w ⊎ Accepts auth id new_id now w))
replay_cases auth id new_id now w nf joins = elim (Option-cases (find_row id w.deliveries)) [
  | inl e ↦ inl (record {
    missing = e;
    result = replay-loaded auth id new_id now w _ (load_none auth id w nf e);
  })
  | inr (d, e) ↦ let (ev, k) = joins d e in inr (member_or_not auth id new_id now w d ev nf e k)
]

-- An id that no delivery has and the id of a delivery of somebody else's project are answered
-- with two different errors, so whoever may sign in can tell which ids exist.
pub replay_tells_apart :
    (auth : List Membership) (unknown foreign new_id now : ℕ) (w : World) (d : Delivery)
    (ev : Event)
    → w.faults ≡ []
    → find_row unknown w.deliveries ≡ none
    → find_row foreign w.deliveries ≡ some d
    → find_row d.event_id w.events ≡ some ev
    → membership_for auth ev.project_id ≡ none
    → (replay auth unknown new_id now w ≡ thrown no_such_delivery w)
      × (replay auth foreign new_id now w ≡ thrown no_such_project w)
unfolding allowed
replay_tells_apart auth unknown foreign new_id now w d ev nf e h k m = (
  replay-loaded auth unknown new_id now w _ (load_none auth unknown w nf e),
  replay-loaded auth foreign new_id now w _ (load_some auth foreign w d ev none nf h k m),
)
