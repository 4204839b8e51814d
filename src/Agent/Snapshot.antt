-- ===== src/Agent/Snapshot.antt =====
-- backend/src/domain/traefik-provider/snapshot.ts. What the language's platform gives is an
-- argument: the collation of `localeCompare`, `trim`, and the hash and size of the JSON text. `<` on
-- keys and ids compares code points, as JavaScript does on their ASCII alphabet.
use Prim.Native.Nat.{Ordering}
use Prim.Native.String.{compare}
use fluxip.Base.{
  ℕ, ◌+◌, ◌||◌, ◌&&◌, String, Bool, true, false, not, Option, none, some, List, [], ◌∷◌, ◌++◌, map,
  ◌==◌, opt_eq, nonempty, if◌then◌else◌, Map, lookup, put, length,
}
use fluxip.Event.Action.{ActionConfig, traefik_config_delivery_action_type}
use fluxip.EventStore.{Table}
use fluxip.Aggregates.Action.{ActionState}
use fluxip.Aggregates.IpClient.{IpClientState}
use fluxip.Agent.Protocol.{SnapshotEntry, SnapshotGroup, SnapshotContent}
use fluxip.Devices.Delivery.{action_state, action_ids, collect, as_delivery}
use fluxip.Devices.FanOut.{enabled_status}
use fluxip.Devices.Settle.{load_client, is_on_duty}

pub record Platform : Type 0 where
  pub locale_compare : String → String → Ordering
  pub trim : String → String
  pub content_hash : SnapshotContent → String
  pub approx_bytes : SnapshotContent → ℕ

pub record Member : Type 0 where
  pub group : String
  pub ip_client_id : String

member_with : String → Option String → Option ActionConfig → Option Member
member_with provider_id none _ = none
member_with provider_id (some ip_client_id) none = none
member_with provider_id (some ip_client_id) (some config) =
    if not (nonempty ip_client_id) || not ((as_delivery config).traefik_provider_id == provider_id)
    then none
    else some (record { group = (as_delivery config).group; ip_client_id = ip_client_id })

-- One pass of the loop over the actions.
unfoldable pub member_of : String → ActionState → Option Member
unfolding member_with
member_of provider_id state =
    if not (opt_eq state.action_type (some traefik_config_delivery_action_type))
      || not (enabled_status state.status)
    then none
    else member_with provider_id state.ip_client_id state.config

unfoldable pub members : String → String → Table → List Member
unfolding member_of
members account_id provider_id table =
    collect (λ action_id. member_of provider_id (action_state table account_id action_id))
      (action_ids account_id table)

abbrev known_ip : Option String → List String
known_ip none = []
known_ip (some ip) = if nonempty ip then ip ∷ [] else []

abbrev has_some : List String → Bool
has_some [] = false
has_some (_ ∷ _) = true

module _ (platform : Platform) where
  abbrev label_or_id : String → String → String
  label_or_id label ip_client_id =
      if nonempty (platform.trim label) then platform.trim label else ip_client_id

  -- `device`: its cache holds what the same table gives again.
  unfoldable pub device : String → IpClientState → Option SnapshotEntry
  device ip_client_id state =
      let ips = known_ip state.last_known_ipv4 ++ known_ip state.last_known_ipv6 in
      if is_on_duty state.status && has_some ips
      then some (record { device_name = label_or_id state.label ip_client_id; ips = ips })
      else none

  abbrev Groups : Type 0
  Groups = Map (Map SnapshotEntry)

  abbrev entries_or_new : Option (Map SnapshotEntry) → Map SnapshotEntry
  entries_or_new none = []
  entries_or_new (some entries) = entries

  add_entry : Member → Option SnapshotEntry → Groups → Groups
  add_entry member none groups = groups
  add_entry member (some entry) groups =
      put member.group (put member.ip_client_id entry (entries_or_new (lookup member.group groups)))
        groups

  -- The loop over the members, on the groups so far.
  unfoldable pub by_group : (String → IpClientState) → List Member → Groups → Groups
  unfolding add_entry device
  by_group state_of [] groups = groups
  by_group state_of (member ∷ rest) groups =
      by_group state_of rest
        (add_entry member (device member.ip_client_id (state_of member.ip_client_id)) groups)

  abbrev is_before : Ordering → Bool
  is_before Ordering.gt = false
  is_before _ = true

  -- `sort` is stable: an element goes before those that do not precede it.
  unfoldable pub insert_entry :
      {V : Type 0} → (String × V → String × V → Ordering) → String × V → Map V → Map V
  insert_entry order e [] = e ∷ []
  insert_entry order e (x ∷ xs) =
      let later = x ∷ insert_entry order e xs in if is_before (order e x) then e ∷ x ∷ xs else later

  unfoldable pub sort_entries : {V : Type 0} → (String × V → String × V → Ordering) → Map V → Map V
  unfolding insert_entry
  sort_entries order [] = []
  sort_entries order (e ∷ es) = insert_entry order e (sort_entries order es)

  abbrev by_id : Ordering → String → String → Ordering
  by_id Ordering.eq a b = compare a b
  by_id order a b = order

  unfoldable pub group_of : String × Map SnapshotEntry → SnapshotGroup
  unfolding sort_entries
  group_of (key, entries) = record {
    key = key;
    entries =
        map (λ (e : String × SnapshotEntry). e.1)
          (sort_entries
            (λ a b. by_id (platform.locale_compare a.1.device_name b.1.device_name) a.0 b.0)
            entries);
  }

  unfoldable pub build_snapshot_content : String → String → String → Table → SnapshotContent
  unfolding by_group group_of sort_entries
  build_snapshot_content account_id provider_id provider_name table = record {
    provider_name = provider_name;
    groups = map group_of (
        sort_entries (λ a b. compare a.0 b.0)
          (by_group (λ ip_client_id. (load_client account_id ip_client_id table).state)
            (members account_id provider_id table) []));
  }

unfoldable pub entry_count : List SnapshotGroup → ℕ
entry_count [] = 0
entry_count (group ∷ groups) = length group.entries + entry_count groups
