-- ===== src/Control/Devices/Refused.antt =====
-- A blocked device is turned away (internal/relay/control_plane.go: `setDeviceBlocked`,
-- `deviceBlocked`, `candidateDeviceIDs`).
use tg_proxy_relay.Prelude.{
  ℕ, ◌≡◌, inl, inr, refl, sym, ap, ◌∙◌, true, false, ◌||◌, List, [], ◌∷◌, ◌++◌, ◌==◌, bytes_eq,
  contains, Bytes, some, Bool-cases, arith, beq_refl, subst, Elem, Elem-append_left, ltb, length,
}
use mathlib.Core.Option.{some-injective}
use tg_proxy_relay.Prelude.Maps.{Map, lookup}
use tg_proxy_relay.Platform.{Platform}
use tg_proxy_relay.Config.Tokens.{Token}
use tg_proxy_relay.Control.Sanitize.{sanitize_identifier}
use tg_proxy_relay.Control.State.{ControlPlane, StateFiles, enabled}
use tg_proxy_relay.Control.Devices.{
  DeviceRequest, RequestDeviceIdentity, device_done, device_key, key_of, session_identity_details,
  candidate_device_ids, candidates_from, any_blocked, device_blocked, present, set_device_blocked,
}
use tg_proxy_relay.Control.Devices.Blocks.{
  IsBlockSet, BlockOutcome, set_device_blocked-BlockOutcome,
}

candidates_from-Elem :
    (id : Bytes) (result values : List Bytes)
    → Elem id result
    → Elem id (candidates_from result values)
unfolding candidates_from
candidates_from-Elem id result [] m = m
candidates_from-Elem id result (v ∷ values) m = elim (Bool-cases (v == [] || contains result v)) [
  | inl e ↦ rw (candidates_from, e) (candidates_from-Elem id result values m)
  | inr e ↦
      rw (candidates_from, e)
        (candidates_from-Elem id (result ++ v ∷ []) values (Elem-append_left id result (v ∷ []) m))
]

candidate_device_ids-Elem :
    (i : RequestDeviceIdentity)
    → (i.device_id == []) ≡ false
    → Elem i.device_id (candidate_device_ids i)
unfolding candidate_device_ids candidates_from contains
candidate_device_ids-Elem i e =
    rw (candidate_device_ids, candidates_from, e)
      (candidates_from-Elem i.device_id (i.device_id ∷ [])
        (i.previous_device_id ∷ i.legacy_device_id ∷ []) (inl refl))

any_blocked-Elem :
    (blocks : Map Bytes Bytes) (token_id id : Bytes) (ids : List Bytes) (v : Bytes)
    → Elem id ids
    → lookup (key_of token_id id) blocks ≡ some v
    → any_blocked blocks token_id ids ≡ true
unfolding any_blocked present
any_blocked-Elem blocks token_id id [] v m h = elim m [ ]
any_blocked-Elem blocks token_id id (i ∷ ids) v (inl p) h =
    rw (any_blocked, ap (λ z. lookup (key_of token_id z) blocks) (sym p) ∙ h) refl
any_blocked-Elem blocks token_id id (i ∷ ids) v (inr m) h =
    elim (Bool-cases (present (lookup (key_of token_id i) blocks))) [
      | inl e ↦ rw (any_blocked, e) refl
      | inr e ↦ rw (any_blocked, e) (any_blocked-Elem blocks token_id id ids v m h)
    ]

device_key-some :
    (token_id device_id key : Bytes)
    → device_key token_id device_id ≡ some key
    → ((sanitize_identifier device_id 96 == []) ≡ false)
      × (key ≡ key_of (sanitize_identifier token_id 96) (sanitize_identifier device_id 96))
unfolding device_key
device_key-some token_id device_id key =
    elim (Bool-cases
      (sanitize_identifier token_id 96 == [] || sanitize_identifier device_id 96 == [])) [
        | inl e ↦ rw (device_key, e) (λ h. absurd cc)
        | inr e ↦ rw (device_key, e) (λ h. (ground (arith, e), sym (some-injective _ _ h)))
      ]

-- When the owner API is enabled and blocking a device succeeds, every request whose token and
-- device header give that device is refused afterwards.
pub set_device_blocked-device_blocked :
    (go : Platform) (files : StateFiles) (now token_id device_id : Bytes) (c c' : ControlPlane)
    (closers : List ℕ) (token : Token) (r : DeviceRequest)
    → enabled c ≡ true
    → set_device_blocked files now token_id device_id true c ≡ (device_done closers, c')
    → (session_identity_details go token r).token_id ≡ sanitize_identifier token_id 96
    → (session_identity_details go token r).device_id ≡ sanitize_identifier device_id 96
    → device_blocked go c' token r ≡ true
unfolding device_blocked enabled
set_device_blocked-device_blocked go files now token_id device_id c c' closers token r on e t d =
    rw (device_blocked, on')
      (any_blocked-Elem c'.state.blocked_devices i.token_id i.device_id (candidate_device_ids i) now
        (candidate_device_ids-Elem i (ap (λ z. z == []) d ∙ clean.0)) blocked)
  where
    out : (key : Bytes) × IsBlockSet now token_id device_id true c key closers c'
    out =
        subst (BlockOutcome files now token_id device_id true c) e
          (set_device_blocked-BlockOutcome files now token_id device_id true c)

    i : RequestDeviceIdentity
    i = session_identity_details go token r

    clean :
        ((sanitize_identifier device_id 96 == []) ≡ false)
        × (out.0 ≡ key_of (sanitize_identifier token_id 96) (sanitize_identifier device_id 96))
    clean = device_key-some token_id device_id out.0 out.1.is_key

    on' : enabled c' ≡ true
    on' = ap (λ ts. ltb 0 (length ts)) out.1.is_elsewhere.same_admin ∙ on

    same : out.0 ≡ key_of i.token_id i.device_id
    same =
        clean.1
        ∙ ap (λ z. key_of z (sanitize_identifier device_id 96)) (sym t)
        ∙ ap (key_of i.token_id) (sym d)

    blocked : lookup (key_of i.token_id i.device_id) c'.state.blocked_devices ≡ some now
    blocked =
        ap (λ k. lookup k c'.state.blocked_devices) (sym same)
        ∙ out.1.blocks_are out.0
        ∙ rw (beq_refl out.0) refl
