-- ===== src/Control/Devices/Blocks.antt =====
-- Blocking a device (internal/relay/control_plane.go: `setDeviceBlocked`, `deviceBlocked`).
use tg_proxy_relay.Prelude.{
  ℕ, ◌≡◌, inl, inr, refl, sym, ap, ◌∙◌, Bool, true, false, List, [], ◌==◌, bytes_eq, if◌then◌else◌,
  Bytes, none, some, Bool-cases, Option-cases, Eq-cases,
}
use tg_proxy_relay.Prelude.Maps.{Map, lookup, lookup-insert, lookup-delete}
use tg_proxy_relay.Control.State.{
  ControlPlane, ControlState, StateFiles, control_state_version, TrackedClient, persist,
  persist_critical,
}
use tg_proxy_relay.Control.Disk.{IsLeft, replace_file-cases}
use tg_proxy_relay.Control.Devices.{
  DeviceResult, device_done, device_error, device_key, device_closers, set_device_blocked,
  finish_block, changed, restored,
}

-- The parts of the control plane that a block does not touch.
pub record IsElsewhere (c c' : ControlPlane) : Type 0 where
  pub same_state :
      c'.state
      ≡ record c.state { version = c'.state.version; blocked_devices = c'.state.blocked_devices }
  pub same_active : c'.active ≡ c.active
  pub same_admin : c'.admin_tokens ≡ c.admin_tokens

pub record IsBlockSet (now token_id device_id : Bytes) (blocked : Bool) (c : ControlPlane)
    (key : Bytes) (closers : List ℕ) (c' : ControlPlane) : Type 0 where
  pub is_key : device_key token_id device_id ≡ some key
  pub has_client : (x : TrackedClient) × (lookup key c.state.clients ≡ some x)
  pub blocks_are :
      (j : Bytes)
      → lookup j c'.state.blocked_devices ≡ (
          if key == j
          then (if blocked then some now else none)
          else lookup j c.state.blocked_devices)
  pub closes : closers ≡ (if blocked then device_closers key c.active else [])
  pub is_elsewhere : IsElsewhere c c'
  pub is_written : (c.state_path == []) ≡ false → c'.disk ≡ some c'.state

pub record IsBlockKept (files : StateFiles) (c c' : ControlPlane) : Type 0 where
  pub same_blocks :
      (j : Bytes) → lookup j c'.state.blocked_devices ≡ lookup j c.state.blocked_devices
  pub is_elsewhere : IsElsewhere c c'
  pub file_left : IsLeft files c.disk c'.disk

abbrev pub BlockOutcome :
    StateFiles → Bytes → Bytes → Bytes → Bool → ControlPlane → DeviceResult × ControlPlane → Type 0
BlockOutcome files now token_id device_id blocked c (device_done closers, c') =
    (key : Bytes) × IsBlockSet now token_id device_id blocked c key closers c'
BlockOutcome files now token_id device_id blocked c (device_error e, c') = IsBlockKept files c c'

IsBlockKept-refl : (files : StateFiles) (c : ControlPlane) → IsBlockKept files c c
IsBlockKept-refl files c = record {
  same_blocks = λ j. refl;
  is_elsewhere = record { same_state = refl; same_active = refl; same_admin = refl };
  file_left = inl refl;
}

lookup-changed :
    (blocked : Bool) (now key : Bytes) (m : Map Bytes Bytes) (j : Bytes)
    → lookup j (changed blocked now key m)
      ≡ (if key == j then (if blocked then some now else none) else lookup j m)
lookup-changed true now key m j = lookup-insert key j now m
lookup-changed false now key m j = lookup-delete key j m

lookup-restored :
    (blocked : Bool) (now key : Bytes) (m : Map Bytes Bytes) (j : Bytes)
    → lookup j (restored (lookup key m) key (changed blocked now key m)) ≡ lookup j m
unfolding restored
lookup-restored blocked now key m j = elim (Option-cases (lookup key m)) [
  | inl n ↦
      rw (n, restored)
        (elim (Eq-cases key j) [
          | inl (e, p) ↦ lookup-delete key j _ ∙ rw e (sym n ∙ ap (λ k. lookup k m) p)
          | inr (e, p) ↦
              lookup-delete key j _ ∙ rw e (lookup-changed blocked now key m j ∙ rw e refl)
        ])
  | inr (v, s) ↦
      rw (s, restored)
        (elim (Eq-cases key j) [
          | inl (e, p) ↦ lookup-insert key j v _ ∙ rw e (sym s ∙ ap (λ k. lookup k m) p)
          | inr (e, p) ↦
              lookup-insert key j v _ ∙ rw e (lookup-changed blocked now key m j ∙ rw e refl)
        ])
]

-- The state that is written.
abbrev written_state : Bool → Bytes → Bytes → ControlPlane → ControlState
written_state blocked now key c = record c.state {
  blocked_devices = changed blocked now key c.state.blocked_devices;
  version = control_state_version;
}

found-BlockOutcome :
    (files : StateFiles) (now token_id device_id : Bytes) (blocked : Bool) (c : ControlPlane)
    (key : Bytes)
    → device_key token_id device_id ≡ some key
    → (x : TrackedClient) × (lookup key c.state.clients ≡ some x)
    → BlockOutcome files now token_id device_id blocked c (
        finish_block blocked key (lookup key c.state.blocked_devices) (
          persist_critical files (record c {
            state = record c.state {
              blocked_devices = changed blocked now key c.state.blocked_devices;
            };
          })))
unfolding finish_block persist_critical persist
found-BlockOutcome files now token_id device_id blocked c key k x =
    elim (Bool-cases (c.state_path == [])) [
      | inl e ↦
          rw (persist_critical, persist, e)
            (
              key,
              record {
                is_key = k;
                has_client = x;
                blocks_are = lookup-changed blocked now key c.state.blocked_devices;
                closes = refl;
                is_elsewhere = record { same_state = refl; same_active = refl; same_admin = refl };
                is_written = λ h. cc (e, h);
              },
            )
      | inr e ↦ elim (replace_file-cases files (written_state blocked now key c) c.disk) [
        | inl w ↦
            rw (persist_critical, persist, e, w)
              (
                key,
                record {
                  is_key = k;
                  has_client = x;
                  blocks_are = lookup-changed blocked now key c.state.blocked_devices;
                  closes = refl;
                  is_elsewhere = record {
                    same_state = refl;
                    same_active = refl;
                    same_admin = refl;
                  };
                  is_written = λ h. refl;
                },
              )
        | inr (left_file, w, left) ↦
            rw (persist_critical, persist, e, w)
              (record {
                same_blocks = lookup-restored blocked now key c.state.blocked_devices;
                is_elsewhere = record { same_state = refl; same_active = refl; same_admin = refl };
                file_left = left;
              })
      ]
    ]

pub set_device_blocked-BlockOutcome :
    (files : StateFiles) (now token_id device_id : Bytes) (blocked : Bool) (c : ControlPlane)
    → BlockOutcome files now token_id device_id blocked c
        (set_device_blocked files now token_id device_id blocked c)
unfolding set_device_blocked
set_device_blocked-BlockOutcome files now token_id device_id blocked c =
    elim (Option-cases (device_key token_id device_id)) [
      | inl n ↦ rw (set_device_blocked, n) (IsBlockKept-refl files c)
      | inr (key, k) ↦ elim (Option-cases (lookup key c.state.clients)) [
        | inl n ↦ rw (set_device_blocked, k, n) (IsBlockKept-refl files c)
        | inr (x, e) ↦
            rw (set_device_blocked, k, e)
              (found-BlockOutcome files now token_id device_id blocked c key k (x, e))
      ]
    ]
