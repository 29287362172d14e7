-- ===== src/Endpoints/History.antt =====
-- An endpoint with deliveries is never removed (backend/src/api/services/endpoint-service.js).
use hook_tracker.Prelude.{
  ℕ, ◌≡◌, refl, Bool, true, false, not, List, [], ◌∷◌, Option, none, some, any, keep, is_some, ◌==◌,
  if◌then◌else◌, arith, All,
}
use hook_tracker.Store.{Table, find_row, Delivery, Endpoint}
use hook_tracker.World.{World, returned, thrown, world, call, conflict, Error}
use hook_tracker.World.Runs.{Runs, IsQuiet, Runs->>=, Runs-call}
use hook_tracker.Authorization.{Role, owner, Membership, assert_membership}
use hook_tracker.Endpoints.{
  load_endpoint, found_endpoint, admitted, delete_endpoint, remove, is_used,
}

abbrev HasEndpoint : Table Endpoint → ℕ × Delivery → Type 0
HasEndpoint endpoints r = is_some (find_row r.1.endpoint_id endpoints) ≡ true

-- Every delivery has its endpoint.
abbrev pub HasEndpoints : World → Type 0
HasEndpoints w = All (HasEndpoint w.endpoints) w.deliveries

without : ℕ → Table Endpoint → Table Endpoint
without id t = keep (λ r. not (r.0 == id)) t

find_row-without :
    (id j : ℕ) (t : Table Endpoint) → (j == id) ≡ false → find_row j (without id t) ≡ find_row j t
unfolding find_row without
find_row-without id j [] h = refl
find_row-without id j ((k, ep) ∷ t) h = ground (arith, find_row-without id j t)

unused-HasEndpoints :
    (id : ℕ) (t : Table Endpoint) (rows : List (ℕ × Delivery))
    → any (λ r. r.1.endpoint_id == id) rows ≡ false
    → All (HasEndpoint t) rows
    → All (HasEndpoint (without id t)) rows
unused-HasEndpoints id t [] h k = tt
unused-HasEndpoints id t ((j, d) ∷ rows) h k = (
  rw (find_row-without id d.endpoint_id t (ground arith)) k.0,
  unused-HasEndpoints id t rows (ground arith) k.1,
)

abbrev Stays : World → World → Type 0
Stays u v = HasEndpoints u → HasEndpoints v

Stays-IsQuiet : IsQuiet Stays
Stays-IsQuiet = record {
  preorder = record { same = λ w h. h; after = λ f g h. g (f h) };
  on_faults = λ w fs h. h;
  on_emitted = λ w es h. h;
}

admitted_lem : (o : Option Error) (ep : Endpoint) (w : World) → Stays w (world (admitted o ep w))
unfolding admitted
admitted_lem none ep w h = h
admitted_lem (some e) ep w h = h

Runs-load_endpoint :
    (auth : List Membership) (role : Role) (id : ℕ) → Runs Stays (load_endpoint auth role id)
unfolding load_endpoint found_endpoint
Runs-load_endpoint auth role id =
    Runs->>= Stays-IsQuiet.preorder call _ (Runs-call Stays-IsQuiet)
      (λ _. record { run = λ w. looked_up w (find_row id w.endpoints) })
  where
    looked_up : (w : World) (o : Option Endpoint) → Stays w (world (found_endpoint auth role o w))
    looked_up w none h = h
    looked_up w (some ep) h = admitted_lem (assert_membership auth ep.project_id role) ep w h

deleted-HasEndpoints : (id : ℕ) → Runs Stays (delete_endpoint id)
unfolding delete_endpoint without
deleted-HasEndpoints id =
    Runs->>= Stays-IsQuiet.preorder call _ (Runs-call Stays-IsQuiet)
      (λ _. record { run = λ w. deleted w (is_used id w) refl })
  where
    deleted :
        (w : World) (b : Bool)
        → is_used id w ≡ b
        → Stays w (
            world {A = Unit {0}} (
              if b
              then thrown conflict w
              else returned tt (record w { endpoints = keep (λ r. not (r.0 == id)) w.endpoints })))
    deleted w true e h = h
    deleted w false e h = unused-HasEndpoints id w.endpoints w.deliveries e h

-- If every delivery has its endpoint, every delivery has it after a `remove`, whoever asks for it
-- and whatever calls fail: the audit trail never points at an endpoint that is gone.
pub remove-HasEndpoints :
    (auth : List Membership) (id : ℕ) (w : World)
    → HasEndpoints w
    → HasEndpoints (world (remove auth id w))
unfolding remove
remove-HasEndpoints auth id w h =
    (Runs->>= Stays-IsQuiet.preorder (load_endpoint auth owner id) _
        (Runs-load_endpoint auth owner id) (λ _. deleted-HasEndpoints id)).run
      w h
