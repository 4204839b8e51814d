-- ===== src/IpClients/Follow.antt =====
-- What follows a stored event writes no event.
use fluxip.Base.{◌≡◌, refl, String, List, [], ◌∷◌, Bool-cases, inl, inr}
use fluxip.Devices.Delivery.{providers_of_device}
use fluxip.IpClients.World.{
  RouteDeps, World, refresh_projection, schedule_device_providers, schedule_some,
}
use fluxip.IpClients.Routes.{Follow, nothing, refresh, refresh_and_schedule, follow}

schedule_some-keeps :
    (ids : List String) (w : World)
    → ((schedule_some ids w).table ≡ w.table) × ((schedule_some ids w).hash ≡ w.hash)
unfolding schedule_some
schedule_some-keeps [] w = (refl, refl)
schedule_some-keeps (id ∷ ids) w = (refl, refl)

pub schedule-keeps :
    (deps : RouteDeps) (id : String) (w : World)
    → ((schedule_device_providers deps id w).table ≡ w.table)
      × ((schedule_device_providers deps id w).hash ≡ w.hash)
unfolding schedule_device_providers
schedule-keeps deps id w = elim (Bool-cases deps.has_snapshots) [
  | inl e ↦ rw e (schedule_some-keeps (providers_of_device deps.account_id id w.table) w)
  | inr e ↦ rw e (refl, refl)
]

pub follow-table :
    (deps : RouteDeps) (id : String) (f : Follow) (w : World) → (follow deps id f w).table ≡ w.table
unfolding follow refresh_projection
follow-table deps id nothing w = refl
follow-table deps id refresh w = refl
follow-table deps id refresh_and_schedule w =
    (schedule-keeps deps id (refresh_projection deps.account_id id w)).0
