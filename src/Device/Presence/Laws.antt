-- ===== src/Device/Presence/Laws.antt =====
-- What a heartbeat and a deletion leave of each device's status.
use goster_io_t.Common.{ℕ, ◌-◌, ◌≡◌, refl, ap, ◌∙◌, false, is_empty}
use goster_io_t.Common.{if◌then◌else◌, Bool-cases, inl, inr}
use goster_io_t.Common.Result.{ok, err}
use goster_io_t.Common.Text.{Text, trim_space, str_eq, str_eq_iff}
use goster_io_t.Common.Text.Trim.{trim_space_idem}
use goster_io_t.Common.Assoc.{insert, lookup-insert, lookup-delete}
use goster_io_t.Device.Errors.{never_online}
use goster_io_t.Device.Presence.{
  Presence, handle_heartbeat, query_device_status, status_after, save_last_seen, load_last_seen,
  delete_last_seen, remove_device,
}

module _ (s : Presence) (uuid j : Text) (now now' : ℕ)
    (named : is_empty (trim_space uuid) ≡ false) where
  beat :
      handle_heartbeat s uuid now
      ≡ record s { last_seen = insert (trim_space uuid) now s.last_seen }
  unfolding handle_heartbeat save_last_seen
  beat = rw (trim_space_idem uuid, named) refl

  -- A heartbeat decides the status of its own device by the time since then, and leaves every other
  -- device's status alone; identifiers that differ in white space around them alone are one device.
  -- The heartbeat's identifier is not blank.
  pub query_device_status-handle_heartbeat :
      query_device_status (handle_heartbeat s uuid now) j now' ≡ (
        if str_eq (trim_space uuid) (trim_space j)
        then ok (status_after s.deadline (now' - now))
        else query_device_status s j now')
  unfolding query_device_status load_last_seen
  query_device_status-handle_heartbeat =
      let k = trim_space uuid in
      let j' = trim_space j in
      ap (λ x. query_device_status x j now') beat ∙ elim (Bool-cases (str_eq k j')) [
        | inl same ↦
            let alike = (str_eq_iff k j').0 same in
            rw
              (
                same,
                ← alike,
                trim_space_idem uuid,
                named,
                lookup-insert k k now s.last_seen,
                (str_eq_iff k k).1 refl,
              )
              refl
        | inr other ↦ rw (other, trim_space_idem j, lookup-insert k j' now s.last_seen, other) refl
      ]

  -- A device that is removed counts as never online, and no other device's status
  -- changes. The identifier of the removal is not blank.
  pub query_device_status-remove_device : query_device_status (remove_device s uuid) j now' ≡ (
      if str_eq (trim_space uuid) (trim_space j)
      then err never_online
      else query_device_status s j now')
  unfolding query_device_status remove_device delete_last_seen load_last_seen
  query_device_status-remove_device =
      let k = trim_space uuid in
      let j' = trim_space j in
      elim (Bool-cases (str_eq k j')) [
        | inl same ↦
            let alike = (str_eq_iff k j').0 same in
            rw
              (
                same,
                ← alike,
                trim_space_idem uuid,
                named,
                lookup-delete k k s.last_seen,
                (str_eq_iff k k).1 refl,
              )
              refl
        | inr other ↦
            rw (other, named, trim_space_idem j, lookup-delete k j' s.last_seen, other) refl
      ]
