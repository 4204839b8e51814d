-- ===== src/Deliveries/Status.antt =====
-- backend/src/adapters/http/routes/delivery-status.ts: how an action's delivery stands, by the
-- versions that its provider's agent reported.
pub mod Items
use fluxip.Base.{
  ◌≡◌, refl, ◌≤◌, ◌<◌, ℕ, String, Bool, true, false, not, Option, none, some, leb, if◌then◌else◌,
  arith,
}
use fluxip.Event.Provider.{
  snapshot_applied, snapshot_apply_failed, snapshot_published, TraefikProviderSnapshotAppliedData,
  TraefikProviderSnapshotApplyFailedData, TraefikProviderSnapshotPublishedData,
}
use fluxip.Aggregates.Provider.{
  TraefikProviderState, LastPublished, LastApplied, LastApplyError, fold_provider,
}
use fluxip.Providers.View.{ProviderConnectionState, is_connected, derive_connection_state}

pub data DeliveryStatus : Type 0 where
  is_applied is_pending is_error agent_disconnected is_disabled : DeliveryStatus

-- `Date.parse`, the start of the process, and now.
pub record Clock : Type 0 where
  pub parse : String → ℕ
  pub started : ℕ
  pub now : ℕ

abbrev pub covers_error : ℕ → Option LastApplyError → Bool
covers_error published none = false
covers_error published (some e) = leb published e.version

abbrev pub covers_applied : ℕ → Option LastApplied → Bool
covers_applied published none = false
covers_applied published (some a) = leb published a.version

unfoldable pub status_at :
    Option LastPublished → Option LastApplyError → Option LastApplied → DeliveryStatus
status_at none _ _ = is_pending
status_at (some p) error applied =
    if covers_error p.version error
    then is_error
    else if covers_applied p.version applied
    then is_applied
    else is_pending

abbrev pub says_connected : ProviderConnectionState → Bool
says_connected is_connected = true
says_connected _ = false

unfoldable pub derive_delivery_status : Clock → TraefikProviderState → Bool → Bool → DeliveryStatus
unfolding status_at
derive_delivery_status clock state connected action_enabled =
    if not action_enabled
    then is_disabled
    else if not (
        says_connected
          (derive_connection_state clock.parse clock.started state connected clock.now))
    then agent_disconnected
    else status_at state.last_published state.last_apply_error state.last_applied

abbrev pub ErrorBelow : ℕ → Option LastApplyError → Type 0
ErrorBelow n none = Unit
ErrorBelow n (some e) = e.version < n

abbrev pub AppliedBelow : ℕ → Option LastApplied → Type 0
AppliedBelow n none = Unit
AppliedBelow n (some a) = a.version < n

-- Every version that the agent reported is an earlier one.
abbrev pub ReportsBelow : ℕ → TraefikProviderState → Type 0
ReportsBelow n state = ErrorBelow n state.last_apply_error × AppliedBelow n state.last_applied

abbrev pub online : Clock → TraefikProviderState → DeliveryStatus
online clock state = derive_delivery_status clock state true true

status_at-below :
    (p : LastPublished) (error : Option LastApplyError) (applied : Option LastApplied)
    → ErrorBelow p.version error
    → AppliedBelow p.version applied
    → status_at (some p) error applied ≡ is_pending
unfolding status_at
status_at-below p none none e a = refl
status_at-below p none (some x) e a = ground arith
status_at-below p (some y) none e a = ground arith
status_at-below p (some y) (some x) e a = ground arith

status_at-failed :
    (p : LastPublished) (e : LastApplyError) (applied : Option LastApplied)
    → AppliedBelow p.version applied
    → status_at (some p) (some e) applied
      ≡ (if leb p.version e.version then is_error else is_pending)
unfolding status_at
status_at-failed p e none a = refl
status_at-failed p e (some x) a = ground arith

published_of : ℕ → TraefikProviderSnapshotPublishedData → LastPublished
published_of n d = record {
  version = n;
  content_hash = d.content_hash;
  correlation_id = d.correlation_id;
  published_at = d.published_at;
}

error_of : TraefikProviderSnapshotApplyFailedData → LastApplyError
error_of d = record {
  version = d.version;
  correlation_id = d.correlation_id;
  reason = d.reason;
  applied_at = d.applied_at;
}

-- The status of an enabled action whose provider's agent is connected: a publication makes it
-- pending, if the versions reported before are lower ones; then a report of success makes it
-- applied, if the version is the published one or a later one, else pending; and a report of
-- failure makes it an error, if the version is the published one or a later one, else leaves it
-- pending.
pub online-fold_provider :
    (clock : Clock) (state : TraefikProviderState) (n m : ℕ)
    (publication : TraefikProviderSnapshotPublishedData)
    (success : TraefikProviderSnapshotAppliedData)
    (failure : TraefikProviderSnapshotApplyFailedData)
    → ReportsBelow n state
    → let published = fold_provider state n (snapshot_published publication) in
      (online clock published ≡ is_pending)
      × (online clock (fold_provider published m (snapshot_applied success))
          ≡ (if leb n success.version then is_applied else is_pending))
      × (online clock (fold_provider published m (snapshot_apply_failed failure))
          ≡ (if leb n failure.version then is_error else is_pending))
unfolding derive_delivery_status fold_provider derive_connection_state status_at published_of
    error_of
online-fold_provider clock state n m publication success failure below = (
  status_at-below (published_of n publication) state.last_apply_error state.last_applied below.0
      below.1,
  refl,
  status_at-failed (published_of n publication) (error_of failure) state.last_applied below.1,
)
