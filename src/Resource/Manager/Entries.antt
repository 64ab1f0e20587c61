-- ===== src/Resource/Manager/Entries.antt =====
-- add_monitor, get_monitor and remove_monitor of sandbox/src/resource_monitor.cpp.
use sandobox_cpp.Base.{
  ◌≡◌, refl, Bytes, Bool, true, none, some, lookup, lookup-insert, lookup-erase, bytes_eq,
  bytes_eq_refl, if◌then◌else◌, arith,
}
use sandobox_cpp.Resource.{ResourceLimits, fresh_monitor, on_alert}
use sandobox_cpp.Resource.Manager.{ResourceManager, add_monitor, remove_monitor, get_monitor}

-- A monitor that is added is running and is the one that is found under its id, in place of an earlier
-- one; removing it succeeds, and then none is found under its id; all others stay as they are.
remove_monitor-add_monitor :
    (id j : Bytes) (limits : ResourceLimits) (held : Bool) (mgr : ResourceManager)
    → let added = add_monitor held id limits mgr in
      let removed = remove_monitor id added.1 in
      (added.0 ≡ true)
      × (removed.0 ≡ true)
      × (get_monitor j added.1 ≡ (
          if bytes_eq id j
          then some (record (on_alert (fresh_monitor limits)) { running = true })
          else get_monitor j mgr))
      × (get_monitor j removed.1 ≡ (if bytes_eq id j then none else get_monitor j mgr))
unfolding add_monitor remove_monitor get_monitor
remove_monitor-add_monitor id j limits held mgr =
    let found : lookup id (add_monitor held id limits mgr).1.monitors
        ≡ some (record (on_alert (fresh_monitor limits)) { running = true }) =
      rw (lookup-insert, bytes_eq_refl) refl in
    (
      refl,
      rw (found, remove_monitor) refl,
      rw lookup-insert refl,
      rw (found, remove_monitor) (rw (lookup-erase, lookup-insert) (ground arith)),
    )
