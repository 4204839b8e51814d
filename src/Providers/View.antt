-- ===== src/Providers/View.antt =====
-- What backend/src/adapters/http/routes/traefik-providers.ts derives of a provider's state. Times are
-- numbers of milliseconds that `Date.parse`, an argument, reads.
use fluxip.Base.{
  ℕ, ◌+◌, ◌*◌, ◌<◌, ◌↔◌, ◌≡◌, inl, inr, Bool-cases, true, false, String, Bool, Option, none, some,
  List, map, ltb, leb, truthy, get_or, if◌then◌else◌, arith,
}
use fluxip.Aggregates.Provider.{
  TraefikProviderState, ProviderTokenState, Presence, connected, disconnected, never,
}

pub data ProviderConnectionState : Type 0 where
  never_connected is_connected is_disconnected stale : ProviderConnectionState

abbrev pub time_of : (String → ℕ) → Option String → ℕ
time_of parse none = 0
time_of parse (some at) = if truthy (some at) then parse at else 0

abbrev pub later_of : ℕ → ℕ → ℕ
later_of a b = if ltb a b then b else a

since_start : Presence → ℕ → ℕ → ℕ
since_start connected since started = later_of since started
since_start _ since started = since

offline_since : (String → ℕ) → ℕ → TraefikProviderState → ℕ
unfolding since_start
offline_since parse started state =
    since_start state.last_presence
      (later_of (time_of parse state.last_disconnected_at) (time_of parse state.last_connected_at))
      started

unfoldable pub derive_connection_state :
    (String → ℕ) → ℕ → TraefikProviderState → Bool → ℕ → ProviderConnectionState
unfolding offline_since
derive_connection_state parse started state is_on now =
    if is_on
    then is_connected
    else if truthy state.last_connected_at
    then if leb (get_or state.max_offline_seconds 0 * 1000) 0
      then is_disconnected
      else if ltb (offline_since parse started state + get_or state.max_offline_seconds 0 * 1000)
          now
      then stale
      else is_disconnected
    else never_connected

pub record TokenView : Type 0 where
  pub token_id : String
  pub last4 : String
  pub issued_at : String
  pub status : String

unfoldable pub token_view : TraefikProviderState → List TokenView
token_view state =
    map
      (λ (token : ProviderTokenState). record {
        token_id = token.token_id;
        last4 = token.last4;
        issued_at = token.issued_at;
        status = if truthy token.revoked_at then "revoked" else "valid";
      })
      state.tokens

-- A moment, where it is told by a text that is not empty, lies more than `limit` before `now`.
abbrev pub IsLongAgo : (String → ℕ) → ℕ → ℕ → Option String → Type 0
IsLongAgo parse limit now at = truthy at ≡ true → parse (get_or at "") + limit < now

-- The agent connected once, it told how many seconds it may be off line, and more milliseconds than
-- that have passed since each moment that counts.
pub record IsOverdue (parse : String → ℕ) (started : ℕ) (state : TraefikProviderState) (now : ℕ)
    : Type 0 where
  pub once : truthy state.last_connected_at ≡ true
  pub told : 0 < get_or state.max_offline_seconds 0
  pub after_connect :
      IsLongAgo parse (get_or state.max_offline_seconds 0 * 1000) now state.last_connected_at
  pub after_disconnect :
      IsLongAgo parse (get_or state.max_offline_seconds 0 * 1000) now state.last_disconnected_at
  pub after_start :
      state.last_presence ≡ connected → started + get_or state.max_offline_seconds 0 * 1000 < now

time_of_lem :
    (parse : String → ℕ) (limit now : ℕ) (at : Option String)
    → limit < now
    → (time_of parse at + limit < now) ↔ IsLongAgo parse limit now at
time_of_lem parse limit now none h = ground arith
time_of_lem parse limit now (some at) h = elim (Bool-cases (truthy (some at))) [
  | inl e ↦ rw e (ground arith)
  | inr e ↦ rw e (ground arith)
]

later_of_lem :
    (a b limit now : ℕ) → (later_of a b + limit < now) ↔ ((a + limit < now) × (b + limit < now))
later_of_lem a b limit now = ground arith

since_start_lem :
    (presence : Presence) (since started limit now : ℕ)
    → (since_start presence since started + limit < now)
      ↔ ((since + limit < now) × (presence ≡ connected → started + limit < now))
unfolding since_start
since_start_lem connected since started limit now = ground arith
since_start_lem disconnected since started limit now = ground arith
since_start_lem never since started limit now = ground arith

stale_tests :
    (parse : String → ℕ) (started : ℕ) (state : TraefikProviderState) (is_on : Bool) (now : ℕ)
    → (derive_connection_state parse started state is_on now ≡ stale) ↔ (
        (is_on ≡ false)
        × (truthy state.last_connected_at ≡ true)
        × (0 < get_or state.max_offline_seconds 0)
        × (offline_since parse started state + get_or state.max_offline_seconds 0 * 1000 < now))
unfolding derive_connection_state
stale_tests parse started state is_on now = ground arith

offline_since_lem :
    (parse : String → ℕ) (started : ℕ) (state : TraefikProviderState) (limit now : ℕ)
    → limit < now
    → (offline_since parse started state + limit < now) ↔ (
        IsLongAgo parse limit now state.last_disconnected_at
        × IsLongAgo parse limit now state.last_connected_at
        × (state.last_presence ≡ connected → started + limit < now))
unfolding offline_since
offline_since_lem parse started state limit now h =
    let c = time_of parse state.last_connected_at in
    let d = time_of parse state.last_disconnected_at in
    let tc = time_of_lem parse limit now state.last_connected_at h in
    let td = time_of_lem parse limit now state.last_disconnected_at h in
    let l = later_of_lem d c limit now in
    let s = since_start_lem state.last_presence (later_of d c) started limit now in
    (
      λ e. (td.0 (l.0 (s.0 e).0).0, tc.0 (l.0 (s.0 e).0).1, (s.0 e).1),
      λ e. s.1 (l.1 (td.1 e.0, tc.1 e.1), e.2),
    )

-- A provider's state is stale exactly if its agent is not connected now, it connected once, it told
-- a positive number of seconds that it may be off line, and more milliseconds than that have passed
-- since it connected, since it disconnected where that is known, and, where it was connected last,
-- since the process started.
pub derive_connection_state-stale :
    (parse : String → ℕ) (started : ℕ) (state : TraefikProviderState) (is_on : Bool) (now : ℕ)
    → (derive_connection_state parse started state is_on now ≡ stale)
      ↔ ((is_on ≡ false) × IsOverdue parse started state now)
derive_connection_state-stale parse started state is_on now =
    let limit = get_or state.max_offline_seconds 0 * 1000 in
    let t = stale_tests parse started state is_on now in
    (
      λ e.
          let (off, once, told, over) = t.0 e in
          let o = (offline_since_lem parse started state limit now (omega arith)).0 over in
          (
            off,
            record {
              once = once;
              told = told;
              after_connect = o.1;
              after_disconnect = o.0;
              after_start = o.2;
            },
          ),
      λ e.
          let over = e.1.after_connect e.1.once in
          t.1 (
            e.0,
            e.1.once,
            e.1.told,
            (offline_since_lem parse started state limit now (omega arith)).1
                (e.1.after_disconnect, e.1.after_connect, e.1.after_start),
          ),
    )
