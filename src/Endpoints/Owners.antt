-- ===== src/Endpoints/Owners.antt =====
-- Who may change an endpoint (backend/src/api/services/endpoint-service.js).
use hook_tracker.Prelude.{ℕ, String, ◌≡◌, refl, ap, Bool, true, false, List, [], ◌∷◌, some}
use hook_tracker.Status.{active, disabled}
use hook_tracker.Store.{find_row, Endpoint}
use hook_tracker.World.{World, M, Reply, returned, thrown, Error, unavailable, ◌>>=◌, ◌>>◌, call}
use hook_tracker.Exchange.{Resolved}
use hook_tracker.Authorization.{owner, Membership, assert_membership}
use hook_tracker.Endpoints.{
  Patch, patched, rotated, update_endpoint, check_patch, delete_endpoint, load_endpoint,
  found_endpoint, admitted, update, rotate_secret, enable, disable, remove,
}

-- All but the faults that are used up.
pub record IsUntouched (u v : World) : Type 0 where
  pub deliveries : v.deliveries ≡ u.deliveries
  pub endpoints : v.endpoints ≡ u.endpoints
  pub events : v.events ≡ u.events
  pub attempts : v.attempts ≡ u.attempts
  pub queue : v.queue ≡ u.queue

IsUntouched-by : (w : World) (fs : List Bool) → IsUntouched w (record w { faults = fs })
IsUntouched-by w fs = record {
  deliveries = refl;
  endpoints = refl;
  events = refl;
  attempts = refl;
  queue = refl;
}

-- It throws, and changes nothing.
pub record IsRefused {A : Type 0} (w : World) (reply : Reply A) : Type 0 where
  pub error : Error
  pub end : World
  pub throws : reply ≡ thrown error end
  pub untouched : IsUntouched w end

IsRefused-load :
    (auth : List Membership) (id : ℕ) (ep : Endpoint) (e : Error) (w : World) (fs : List Bool)
    → find_row id w.endpoints ≡ some ep
    → assert_membership auth ep.project_id owner ≡ some e
    → w.faults ≡ fs
    → IsRefused w (load_endpoint auth owner id w)
unfolding load_endpoint found_endpoint admitted call
IsRefused-load auth id ep e w [] found bad f = record {
  error = e;
  end = w;
  throws = rw (f, found, bad) refl;
  untouched = IsUntouched-by w w.faults;
}
IsRefused-load auth id ep e w (false ∷ fs) found bad f = record {
  error = e;
  end = record w { faults = fs };
  throws = rw (f, found, bad) refl;
  untouched = IsUntouched-by w fs;
}
IsRefused-load auth id ep e w (true ∷ fs) found bad f = record {
  error = unavailable;
  end = record w { faults = fs };
  throws = rw f refl;
  untouched = IsUntouched-by w fs;
}

IsRefused-then :
    {A B : Type 0} (w : World) (m : M A) (k : A → M B)
    → IsRefused w (m w)
    → IsRefused w ((m >>= k) w)
IsRefused-then w m k r = record {
  error = r.error;
  end = r.end;
  throws = ap (λ s. elim s [ returned a v ↦ k a v | thrown e v ↦ thrown e v ]) r.throws;
  untouched = r.untouched;
}

pub data Management : Type 0 where
  updating : Patch → Management
  rotating : String → ℕ → Management
  enabling disabling removing : Management

module _ {Target : Type 0} (resolve_target : String → Resolved Target)
    (same : String → String → Bool) (encrypt : String → String) where
  abbrev pub manage : List Membership → ℕ → Management → M (Unit {0})
  manage auth id (updating patch) = update resolve_target same auth id patch
  manage auth id (rotating secret now) = rotate_secret encrypt auth id secret now
  manage auth id enabling = enable auth id
  manage auth id disabling = disable auth id
  manage auth id removing = remove auth id

  -- Whoever is no owner of the project of an endpoint cannot update, rotate, enable, disable or
  -- remove it: each of the five throws and changes no table and no queue, whatever calls fail.
  pub manage-IsRefused :
      (auth : List Membership) (id : ℕ) (op : Management) (ep : Endpoint) (e : Error) (w : World)
      → find_row id w.endpoints ≡ some ep
      → assert_membership auth ep.project_id owner ≡ some e
      → IsRefused w (manage auth id op w)
  unfolding update rotate_secret enable disable remove
  manage-IsRefused auth id (updating patch) ep e w found bad =
      IsRefused-then w (load_endpoint auth owner id)
        (λ x. check_patch resolve_target same patch.url x >> update_endpoint id (patched patch))
        (IsRefused-load auth id ep e w w.faults found bad refl)
  manage-IsRefused auth id (rotating secret now) ep e w found bad =
      IsRefused-then w (load_endpoint auth owner id)
        (λ x. update_endpoint id (rotated (encrypt secret) now x))
        (IsRefused-load auth id ep e w w.faults found bad refl)
  manage-IsRefused auth id enabling ep e w found bad =
      IsRefused-then w (load_endpoint auth owner id)
        (λ x. update_endpoint id (λ row. record row { status = active; consecutive_failures = 0 }))
        (IsRefused-load auth id ep e w w.faults found bad refl)
  manage-IsRefused auth id disabling ep e w found bad =
      IsRefused-then w (load_endpoint auth owner id)
        (λ x. update_endpoint id (λ row. record row { status = disabled }))
        (IsRefused-load auth id ep e w w.faults found bad refl)
  manage-IsRefused auth id removing ep e w found bad =
      IsRefused-then w (load_endpoint auth owner id) (λ x. delete_endpoint id)
        (IsRefused-load auth id ep e w w.faults found bad refl)
