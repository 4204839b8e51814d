-- ===== src/Tests/Accounts.antt =====
-- A new account.
use fluxip.Base.{◌≡◌, refl, []}
use fluxip.Event.{ok}
use fluxip.EventStore.{Table, read_stream}
use fluxip.EventStore.Commands.{CanWrite}
use fluxip.EventStore.History.{empty, Reach-IsConsistent}
use fluxip.Accounts.{AccountConfig, account_stream, get_state, ensure_provisioned}
use fluxip.Accounts.Provision.{ensure_provisioned_lem}
use fluxip.Tests.Samples.{config, stamp}
use fluxip.Tests.Tables.{CanWrite-of}

abbrev account_config : AccountConfig
account_config = record { events = config; default_ip_client_limit = 5 }

abbrev none_yet : Table
none_yet = []

nothing-CanWrite : CanWrite (account_stream "A") "a1" none_yet
nothing-CanWrite =
    CanWrite-of (account_stream "A") "a1" none_yet (Reach-IsConsistent empty) refl refl

nothing_read : read_stream (account_stream "A") none_yet ≡ []
unfolding read_stream
nothing_read = refl

ensure_provisioned_lem_example :
    let (reply, after) = ensure_provisioned account_config "A" "t" (stamp "a1") none_yet in
    (reply ≡ ok (get_state "A" after))
    × ((get_state "A" after).device_limit ≡ 5)
    × (ensure_provisioned account_config "A" "u" (stamp "a2") after ≡ (reply, after))
ensure_provisioned_lem_example =
    ensure_provisioned_lem account_config "A" "t" (stamp "a1") none_yet nothing-CanWrite
      nothing_read "u" (stamp "a2")
