-- ===== src/Control/Tokens/Delete.antt =====
-- Deleting a token (internal/relay/control_plane.go: `deleteToken`).
pub mod Purge
pub mod Keys
pub mod Live
use tg_proxy_relay.Prelude.{
  ℕ, ◌≡◌, ◌≢◌, ◌⊎◌, inl, inr, refl, sym, ap, ◌∙◌, Bool, true, false, not, ◌&&◌, List, [], ◌∷◌, ◌++◌,
  ◌==◌, bytes_eq, contains, leb, length, Bytes, Bool-cases, Option-cases, Eq-cases, arith, Option,
  none, some, if◌then◌else◌, subst, ◌<◌,
}
use tg_proxy_relay.Prelude.Maps.{Map, lookup}
use tg_proxy_relay.Prelude.Text.{codes, has_prefix, trim_space}
use tg_proxy_relay.Platform.{Platform}
use tg_proxy_relay.Config.Tokens.{Token, normalize_hash}
use tg_proxy_relay.Control.State.{
  ControlPlane, StateFiles, ControlState, control_state_version, TrackedClient, persist,
  persist_critical, all_tokens, revoked,
}
use tg_proxy_relay.Control.Disk.{IsLeft, replace_file-cases}
use tg_proxy_relay.Control.Tokens.{
  Removed, Deleted, deleted, delete_error, find_id, without_hash, has_hash, keys_of, sessions_of,
  purge, put_back, revoke, forget_id, finish_delete, purge_and_persist, delete_found, delete_token,
}
use tg_proxy_relay.Control.Tokens.Delete.Purge.{
  IsPurged, purge_start, purge-IsPurged, purge_all, lookup-put_back, or_else-Kept,
}
use tg_proxy_relay.Control.Tokens.Delete.Keys.{
  contains-append_self, Extends, Extends-refl, Extends-append, IsPurgedKey, IsPurgedKey-of,
  purge-IsPurgedKey,
}

-- Everything the deletion touches is as before.
pub record IsUndone (files : StateFiles) (c c' : ControlPlane) : Type 0 where
  pub same_added : c'.state.added_tokens ≡ c.state.added_tokens
  pub same_revoked : c'.state.revoked_hashes ≡ c.state.revoked_hashes
  pub same_deleted : c'.state.deleted_token_ids ≡ c.state.deleted_token_ids
  pub same_instance : c'.state.instance_id ≡ c.state.instance_id
  pub same_clients : (j : Bytes) → lookup j c'.state.clients ≡ lookup j c.state.clients
  pub same_blocked :
      (j : Bytes) → lookup j c'.state.blocked_devices ≡ lookup j c.state.blocked_devices
  pub same_base : c'.base_tokens ≡ c.base_tokens
  pub same_active : c'.active ≡ c.active
  pub file_left : IsLeft files c.disk c'.disk

IsUndone-refl : (files : StateFiles) (c : ControlPlane) → IsUndone files c c
IsUndone-refl files c = record {
  same_added = refl;
  same_revoked = refl;
  same_deleted = refl;
  same_instance = refl;
  same_clients = λ j. refl;
  same_blocked = λ j. refl;
  same_base = refl;
  same_active = refl;
  file_left = inl refl;
}

module _ (go : Platform) where
  -- The token's traces are gone, and what has to outlive it is on record.
  pub record IsDeleted (id : Bytes) (c : ControlPlane) (found : Token) (closers : List ℕ)
      (c' : ControlPlane) : Type 0 where
    pub is_found : find_id go id (all_tokens go c) ≡ some found
    pub same_base : c'.base_tokens ≡ c.base_tokens
    pub added_are :
        c'.state.added_tokens ≡ without_hash go (normalize_hash go found.hash) c.state.added_tokens
    pub is_revoked :
        has_hash go (normalize_hash go found.hash) c.base_tokens ≡ true
        → contains c'.state.revoked_hashes (normalize_hash go found.hash) ≡ true
    pub is_remembered :
        has_prefix id (codes "tok_") ≡ true → contains c'.state.deleted_token_ids id ≡ true
    pub revoked_are :
        Extends (normalize_hash go found.hash) c.state.revoked_hashes c'.state.revoked_hashes
    pub deleted_are : Extends id c.state.deleted_token_ids c'.state.deleted_token_ids
    pub purged : (j : Bytes) → IsPurgedKey id c.state c'.state j
    pub has_no_client :
        (j : Bytes) (x : TrackedClient)
        → lookup j c'.state.clients ≡ some x
        → (x.token_id == id) ≡ false
    pub closes : closers ≡ sessions_of (lookup id c.active)
    pub is_written : (c.state_path == []) ≡ false → c'.disk ≡ some c'.state

  abbrev pub Outcome : StateFiles → Bytes → ControlPlane → Deleted × ControlPlane → Type 0
  Outcome files id c (deleted closers, c') = (found : Token) × IsDeleted id c found closers c'
  Outcome files id c (delete_error e, c') = IsUndone files c c'

  -- The state after the token, and before its clients, have been taken out.
  record IsReady (id : Bytes) (c : ControlPlane) (found : Token) (state : ControlState)
      : Type 0 where
    pub added_are :
        state.added_tokens ≡ without_hash go (normalize_hash go found.hash) c.state.added_tokens
    pub is_revoked :
        has_hash go (normalize_hash go found.hash) c.base_tokens ≡ true
        → contains state.revoked_hashes (normalize_hash go found.hash) ≡ true
    pub is_remembered :
        has_prefix id (codes "tok_") ≡ true → contains state.deleted_token_ids id ≡ true
    pub revoked_are :
        Extends (normalize_hash go found.hash) c.state.revoked_hashes state.revoked_hashes
    pub deleted_are : Extends id c.state.deleted_token_ids state.deleted_token_ids
    pub same_clients : state.clients ≡ c.state.clients
    pub same_blocked : state.blocked_devices ≡ c.state.blocked_devices
    pub same_instance : state.instance_id ≡ c.state.instance_id

  purged-IsUndone :
      (files : StateFiles) (c : ControlPlane) (now : ControlState × Removed) (state : ControlState)
      → state.clients ≡ c.state.clients
      → state.blocked_devices ≡ c.state.blocked_devices
      → state.instance_id ≡ c.state.instance_id
      → IsPurged state now
      → (v : ℕ) (left_file : Option ControlState) → IsLeft files c.disk left_file
      → IsUndone files c (record c {
        disk = left_file;
        state = record c.state {
          version = v;
          instance_id = now.0.instance_id;
          clients = put_back now.1.clients now.0.clients;
          blocked_devices = put_back now.1.blocked now.0.blocked_devices;
        };
      })
  purged-IsUndone files c now state hc hb hi p v left_file left = record {
    same_added = refl;
    same_revoked = refl;
    same_deleted = refl;
    same_instance = p.same_instance ∙ hi;
    same_clients = λ j.
        (lookup-put_back j now.1.clients now.0.clients
          ∙ or_else-Kept _ _ _ (p.kept_clients j)
          ∙ ap (lookup j) hc);
    same_blocked = λ j.
        (lookup-put_back j now.1.blocked now.0.blocked_devices
          ∙ or_else-Kept _ _ _ (p.kept_blocked j)
          ∙ ap (lookup j) hb);
    same_base = refl;
    same_active = refl;
    file_left = left;
  }

  purged-IsDeleted :
      (id : Bytes) (c : ControlPlane) (found : Token) (state : ControlState)
      (now : ControlState × Removed) (c' : ControlPlane)
      → find_id go id (all_tokens go c) ≡ some found
      → IsReady id c found state
      → IsPurged state now
      → ((j : Bytes) → IsPurgedKey id state now.0 j)
      → ((j : Bytes) (x : TrackedClient)
          → lookup j now.0.clients ≡ some x
          → (x.token_id == id) ≡ false)
      → c'.base_tokens ≡ c.base_tokens
      → c'.state.added_tokens ≡ now.0.added_tokens
      → c'.state.revoked_hashes ≡ now.0.revoked_hashes
      → c'.state.deleted_token_ids ≡ now.0.deleted_token_ids
      → c'.state.clients ≡ now.0.clients
      → c'.state.blocked_devices ≡ now.0.blocked_devices
      → ((c.state_path == []) ≡ false → c'.disk ≡ some c'.state)
      → IsDeleted id c found (sessions_of (lookup id c.active)) c'
  purged-IsDeleted id c found state now c' f r p k g hb ha hr hd hc hl hw = record {
    is_found = f;
    same_base = hb;
    added_are = ha ∙ p.same_added ∙ r.added_are;
    is_revoked = λ b.
        (ap (λ l. contains l (normalize_hash go found.hash)) (hr ∙ p.same_revoked)
          ∙ r.is_revoked b);
    is_remembered = λ b. (ap (λ l. contains l id) (hd ∙ p.same_deleted) ∙ r.is_remembered b);
    revoked_are =
        subst (Extends _ c.state.revoked_hashes) (sym (hr ∙ p.same_revoked)) r.revoked_are;
    deleted_are =
        subst (Extends _ c.state.deleted_token_ids) (sym (hd ∙ p.same_deleted)) r.deleted_are;
    purged = λ j.
        IsPurgedKey-of id state now.0 c.state c'.state j r.same_clients r.same_blocked hc hl (k j);
    has_no_client = λ j x h. g j x (sym (ap (lookup j) hc) ∙ h);
    closes = refl;
    is_written = hw;
  }

  purge_and_persist-Outcome :
      (files : StateFiles) (id : Bytes) (c : ControlPlane) (found : Token) (state : ControlState)
      → find_id go id (all_tokens go c) ≡ some found
      → IsReady id c found state
      → Outcome files id c (purge_and_persist go files id state c)
  unfolding purge_and_persist persist_critical persist finish_delete
  purge_and_persist-Outcome files id c found state f r = elim (Bool-cases (c.state_path == [])) [
    | inl e ↦
        rw (purge_and_persist, persist_critical, persist, e)
          (
            found,
            purged-IsDeleted id c found state now _ f r p k g refl refl refl refl refl refl
                (λ h. cc (h, e)),
          )
    | inr e ↦
        elim (replace_file-cases files (record now.0 { version = control_state_version }) c.disk) [
          | inl w ↦
              rw (purge_and_persist, persist_critical, persist, e, w)
                (
                  found,
                  purged-IsDeleted id c found state now _ f r p k g refl refl refl refl refl refl
                      (λ h. refl),
                )
          | inr (left_file, w, left) ↦
              rw (purge_and_persist, persist_critical, persist, e, w)
                (purged-IsUndone files c now state r.same_clients r.same_blocked r.same_instance p _
                  _ left)
        ]
  ]
    where
      now : ControlState × Removed
      now = purge id (keys_of state.clients) (state, record { clients = []; blocked = [] })

      p : IsPurged state now
      p = purge-IsPurged state id (keys_of state.clients) _ (purge_start state)

      k : (j : Bytes) → IsPurgedKey id state now.0 j
      k =
          purge-IsPurgedKey id (keys_of state.clients)
            (state, record { clients = []; blocked = [] })

      g :
          (j : Bytes) (x : TrackedClient)
          → lookup j now.0.clients ≡ some x
          → (x.token_id == id) ≡ false
      g = purge_all id (state, record { clients = []; blocked = [] })

  -- The hash is revoked, if it must be, and nothing else changes.
  record IsRevoked (base : Bool) (hash : Bytes) (s s' : ControlState) : Type 0 where
    pub same_added : s'.added_tokens ≡ s.added_tokens
    pub same_clients : s'.clients ≡ s.clients
    pub same_blocked : s'.blocked_devices ≡ s.blocked_devices
    pub same_instance : s'.instance_id ≡ s.instance_id
    pub extends : Extends hash s.revoked_hashes s'.revoked_hashes
    pub same_deleted : s'.deleted_token_ids ≡ s.deleted_token_ids
    pub holds : base ≡ true → contains s'.revoked_hashes hash ≡ true

  revoke-cases :
      (base : Bool) (hash : Bytes) (s : ControlState)
      → (revoke go base hash s ≡ none)
        ⊎ ((s' : ControlState) × (revoke go base hash s ≡ some s') × IsRevoked base hash s s')
  unfolding revoke
  revoke-cases base hash s = elim (Bool-cases (base && not (contains s.revoked_hashes hash))) [
    | inl e ↦ elim (Bool-cases (leb 2048 (length s.revoked_hashes))) [
      | inl l ↦ inl (rw (revoke, e, l) refl)
      | inr l ↦ inr (
        record s { revoked_hashes = s.revoked_hashes ++ hash ∷ [] },
        rw (revoke, e, l) refl,
        record {
          same_added = refl;
          same_clients = refl;
          same_blocked = refl;
          same_instance = refl;
          extends = Extends-append hash s.revoked_hashes;
          same_deleted = refl;
          holds = λ b. contains-append_self s.revoked_hashes hash;
        },
      )
    ]
    | inr e ↦ inr (
      s,
      rw (revoke, e) refl,
      record {
        same_added = refl;
        same_clients = refl;
        same_blocked = refl;
        same_instance = refl;
        extends = Extends-refl hash s.revoked_hashes;
        same_deleted = refl;
        holds = λ b. ground (arith, e, b);
      },
    )
  ]

  -- The identifier is on record, if it must be, and nothing else changes.
  record IsRemembered (id : Bytes) (s s' : ControlState) : Type 0 where
    pub same_added : s'.added_tokens ≡ s.added_tokens
    pub same_revoked : s'.revoked_hashes ≡ s.revoked_hashes
    pub same_clients : s'.clients ≡ s.clients
    pub same_blocked : s'.blocked_devices ≡ s.blocked_devices
    pub same_instance : s'.instance_id ≡ s.instance_id
    pub extends : Extends id s.deleted_token_ids s'.deleted_token_ids
    pub holds : has_prefix id (codes "tok_") ≡ true → contains s'.deleted_token_ids id ≡ true

  forget_id-cases :
      (id : Bytes) (s : ControlState)
      → (forget_id go id s ≡ none)
        ⊎ ((s' : ControlState) × (forget_id go id s ≡ some s') × IsRemembered id s s')
  unfolding forget_id
  forget_id-cases id s =
      elim (Bool-cases (has_prefix id (codes "tok_") && not (contains s.deleted_token_ids id))) [
        | inl e ↦ elim (Bool-cases (leb 2048 (length s.deleted_token_ids))) [
          | inl l ↦ inl (rw (forget_id, e, l) refl)
          | inr l ↦ inr (
            record s { deleted_token_ids = s.deleted_token_ids ++ id ∷ [] },
            rw (forget_id, e, l) refl,
            record {
              same_added = refl;
              same_revoked = refl;
              same_clients = refl;
              same_blocked = refl;
              same_instance = refl;
              extends = Extends-append id s.deleted_token_ids;
              holds = λ b. contains-append_self s.deleted_token_ids id;
            },
          )
        ]
        | inr e ↦ inr (
          s,
          rw (forget_id, e) refl,
          record {
            same_added = refl;
            same_revoked = refl;
            same_clients = refl;
            same_blocked = refl;
            same_instance = refl;
            extends = Extends-refl id s.deleted_token_ids;
            holds = λ b. ground (arith, e, b);
          },
        )
      ]

  IsReady-of :
      (id : Bytes) (found : Token) (c : ControlPlane) (s s' s'' : ControlState)
      → s ≡ record c.state {
        added_tokens = without_hash go (normalize_hash go found.hash) c.state.added_tokens;
      }
      → IsRevoked
          (has_hash go (normalize_hash go found.hash) c.base_tokens)
          (normalize_hash go found.hash)
          s
          s'
      → IsRemembered id s' s''
      → IsReady id c found s''
  IsReady-of id found c s s' s'' e r f = record {
    added_are = f.same_added ∙ r.same_added ∙ ap (λ z. z.added_tokens) e;
    is_revoked =
        λ b. (ap (λ l. contains l (normalize_hash go found.hash)) f.same_revoked ∙ r.holds b);
    is_remembered = f.holds;
    revoked_are = subst (Extends _ c.state.revoked_hashes) (sym f.same_revoked) (
        subst (λ l. Extends (normalize_hash go found.hash) l s'.revoked_hashes)
          (ap (λ z. z.revoked_hashes) e) r.extends);
    deleted_are =
        subst (λ l. Extends id l s''.deleted_token_ids)
          (r.same_deleted ∙ ap (λ z. z.deleted_token_ids) e) f.extends;
    same_clients = f.same_clients ∙ r.same_clients ∙ ap (λ z. z.clients) e;
    same_blocked = f.same_blocked ∙ r.same_blocked ∙ ap (λ z. z.blocked_devices) e;
    same_instance = f.same_instance ∙ r.same_instance ∙ ap (λ z. z.instance_id) e;
  }

  delete_found-Outcome :
      (files : StateFiles) (id : Bytes) (found : Token) (c : ControlPlane)
      → find_id go id (all_tokens go c) ≡ some found
      → Outcome files id c (delete_found go files id found c)
  unfolding delete_found
  delete_found-Outcome files id found c f = elim (revoke-cases base hash filtered) [
    | inl n ↦ rw (delete_found, n) (IsUndone-refl files c)
    | inr (s', e, r) ↦ elim (forget_id-cases id s') [
      | inl n ↦ rw (delete_found, e, n) (IsUndone-refl files c)
      | inr (s'', e', m) ↦
          rw (delete_found, e, e')
            (purge_and_persist-Outcome files id c found s'' f
              (IsReady-of id found c filtered s' s'' refl r m))
    ]
  ]
    where
      hash : Bytes
      hash = normalize_hash go found.hash

      base : Bool
      base = has_hash go hash c.base_tokens

      filtered : ControlState
      filtered = record c.state { added_tokens = without_hash go hash c.state.added_tokens }

  pub delete_token-Outcome :
      (files : StateFiles) (id : Bytes) (c : ControlPlane)
      → Outcome files (trim_space id) c (delete_token go files id c)
  unfolding delete_token
  delete_token-Outcome files id c = elim (Bool-cases (trim_space id == [])) [
    | inl e ↦ rw (delete_token, e) (IsUndone-refl files c)
    | inr e ↦ elim (Option-cases (find_id go (trim_space id) (all_tokens go c))) [
      | inl n ↦ rw (delete_token, e, n) (IsUndone-refl files c)
      | inr (found, f) ↦
          rw (delete_token, e, f) (delete_found-Outcome files (trim_space id) found c f)
    ]
  ]
