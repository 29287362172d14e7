-- ===== src/Realtime.antt =====
-- backend/src/api/realtime/socket.js: the sockets of the dashboard, the rooms they join, and the
-- throttle of the messages that Redis hands over. A token is read by the caller; ids are numbers.
pub mod Throttle
use hook_tracker.Prelude.{
  ℕ, suc, ◌/◌, ◌*◌, ◌-◌, Bool, true, false, List, [], ◌∷◌, Option, none, some, leb, ◌==◌, any, keep,
  if◌then◌else◌,
}

pub record Window : Type 0 where
  pub second : ℕ
  pub count : ℕ

-- `windows`: the newest entry of a project is the one that is read.
unfoldable pub find_window : ℕ → List (ℕ × Window) → Option Window
find_window project_id [] = none
find_window project_id ((p, w) ∷ windows) =
    if p == project_id then some w else find_window project_id windows

-- What `allow` says, and the window it leaves for the project.
unfoldable pub allow_in : ℕ → ℕ → Option Window → Bool × Window
allow_in limit second none = (true, record { second = second; count = 1 })
allow_in limit second (some current) =
    if current.second == second
    then (if leb limit current.count
        then (false, current)
        else (true, record { second = second; count = suc current.count }))
    else (true, record { second = second; count = 1 })

abbrev pub second_of : ℕ → ℕ
second_of now_ms = now_ms / 1_000

unfoldable pub allow : ℕ → ℕ → ℕ → List (ℕ × Window) → Bool × List (ℕ × Window)
unfolding find_window allow_in
allow limit project_id now_ms windows =
    let (allowed, w) = allow_in limit (second_of now_ms) (find_window project_id windows) in
    (allowed, (project_id, w) ∷ windows)

pub record BridgeMessage : Type 0 where
  pub project_id : ℕ
  pub arrived_at : ℕ

-- The messages that the handler of `pmessage` lets through, in order.
unfoldable pub forwarded : ℕ → List BridgeMessage → List (ℕ × Window) → List BridgeMessage
unfolding allow
forwarded limit [] windows = []
forwarded limit (m ∷ ms) windows =
    let (allowed, after) = allow limit m.project_id m.arrived_at windows in
    let rest = forwarded limit ms after in if allowed then m ∷ rest else rest
