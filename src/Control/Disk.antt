-- ===== src/Control/Disk.antt =====
-- What a write of the state leaves in the file (internal/relay/control_plane.go: `persistLocked`).
use tg_proxy_relay.Prelude.{
  ◌≡◌, ◌⊎◌, inl, inr, refl, true, false, not, ◌&&◌, Option, none, some, Bool-cases,
}
use tg_proxy_relay.Control.State.{ControlState, StateFiles, replace_file}

-- After a failure: the file is the old one, or on Windows, when the rename has failed, there is none.
abbrev pub IsLeft : StateFiles → Option ControlState → Option ControlState → Type 0
IsLeft files old now = (now ≡ old) ⊎ (files.windows ≡ true) × (files.renamed ≡ false) × (now ≡ none)

-- The file is written, or it is left.
pub replace_file-cases :
    (files : StateFiles) (state : ControlState) (disk : Option ControlState)
    → (replace_file files state disk ≡ (true, some state))
      ⊎ ((now : Option ControlState) × (replace_file files state disk ≡ (false, now))
          × IsLeft files disk now)
unfolding replace_file
replace_file-cases files state disk =
    elim (Bool-cases (
      not (
        files.marshaled && files.directory_made && files.temporary_made && files.mode_set
        && files.written && files.synced && files.closed))) [
          | inl e ↦ inr (disk, rw (replace_file, e) refl, inl refl)
          | inr e ↦ elim (Bool-cases (files.windows && not files.removed)) [
            | inl r ↦ inr (disk, rw (replace_file, e, r) refl, inl refl)
            | inr r ↦ elim (Bool-cases files.renamed) [
              | inl n ↦ inl (rw (replace_file, e, r, n) refl)
              | inr n ↦ elim (Bool-cases files.windows) [
                | inl w ↦ inr (none, rw (replace_file, e, r, n, w) refl, inr (w, n, refl))
                | inr w ↦ inr (disk, rw (replace_file, e, r, n, w) refl, inl refl)
              ]
            ]
          ]
        ]
