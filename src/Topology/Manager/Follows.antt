-- ===== src/Topology/Manager/Follows.antt =====
-- What a refresh and a start keep of the generation that a relay follows
-- (internal/relay/topology_manager.go).
use tg_proxy_relay.Prelude.{
  ℕ, ◌≤◌, ◌≡◌, inl, inr, refl, sym, ◌∙◌, subst, Bool, true, false, ◌==◌, nat_eq, bytes_eq, [],
  Bytes, Option, none, some, arith,
}
use mathlib.Core.Option.{some-injective}
use tg_proxy_relay.Prelude.Text.{trim_space}
use tg_proxy_relay.Config.Endpoints.{TelegramConfig}
use tg_proxy_relay.Topology.Bundle.{Snapshot, Library, verify, accepted}
use tg_proxy_relay.Topology.Manager.{
  TopologyConfig, TopologyManager, Fetch, missing, content, Refreshed, with_current,
  with_last_on_demand, revision, decode_topology_public_key,
}
use tg_proxy_relay.Topology.Manager.Refresh.{persist_file, persist_written, IsFresh, RefreshOutcome}
use tg_proxy_relay.Topology.Manager.Start.{IsStart}
use tg_proxy_relay.Topology.Manager.History.{read_file, Carries, verified-Carries, Stored, Follows}

module _ (lib : Library) (base : TelegramConfig) (remote : TopologyConfig) where
  pub Stored-le :
      (file : Option Bytes) (h g : ℕ)
      → h ≤ g
      → Stored lib base remote file g
      → Stored lib base remote file h
  Stored-le file h g l (inl e) = inl (omega (arith, l, e))
  Stored-le file h g l (inr (raw, e, u, c)) =
      inr (raw, e, u, λ key k now allow t v. omega (arith, l, c key k now allow t v))

  -- What is verified under the configured key carries its generation.
  key-Carries :
      (bytes key : Bytes) (now : ℕ) (allow_expired : Bool) (s : Snapshot)
      → decode_topology_public_key lib remote.public_key ≡ some key
      → verify lib bytes key now allow_expired ≡ accepted s
      → (other : Bytes) → decode_topology_public_key lib remote.public_key ≡ some other
      → Carries lib bytes other s.generation
  key-Carries bytes key now allow_expired s k v other k' =
      subst (λ p. Carries lib bytes p s.generation) (some-injective _ _ (sym k ∙ k'))
        (verified-Carries lib bytes key now allow_expired s v)

  -- A file that holds a bundle that the manager has verified.
  fresh-Stored :
      (fetch : Fetch) (m : TopologyManager) (file after : Option Bytes) (g h : ℕ) (bytes : Bytes)
      (s : Snapshot)
      → Follows lib base remote file g m
      → IsFresh lib false fetch m bytes s
      → after ≡ some bytes
      → h ≤ s.generation
      → Stored lib base remote after h
  fresh-Stored fetch m file after g h bytes s f fresh e l = elim f.has_key [
    | inr (u, c, n) ↦ absurd (cc (n, fresh.is_client))
    | inl (k, u) ↦ inr (
      bytes,
      e,
      u,
      λ other k' now allow t v. omega (
        arith,
        l,
        key-Carries bytes m.public_key fetch.now false s k fresh.verifies other k' now allow t v,
      ),
    )
  ]

  -- The same manager with another file.
  Follows-file :
      (m : TopologyManager) (file after : Option Bytes) (g : ℕ)
      → Follows lib base remote file g m
      → Stored lib base remote after (revision m)
      → Follows lib base remote after g m
  Follows-file m file after g f s = record {
    same_base = f.same_base;
    same_remote = f.same_remote;
    has_key = f.has_key;
    at_least = f.at_least;
    is_stored = s;
  }

  pub refreshed-Follows :
      (fetch : Fetch) (m : TopologyManager) (file : Option Bytes) (g : ℕ) (r : Refreshed)
      → Follows lib base remote file g m
      → RefreshOutcome lib false fetch m file r
      → Follows lib base remote r.file g r.manager
  unfolding with_current revision
  refreshed-Follows fetch m file g r f (inl (me, fe)) = rw (me, fe) f
  refreshed-Follows fetch m file g r f (inr (bytes, s, fresh, fe, oe, inl (ok, me))) =
      rw me (record {
        same_base = f.same_base;
        same_remote = f.same_remote;
        has_key = elim f.has_key [
          | inl k ↦ inl k
          | inr (u, c, n) ↦ absurd (cc (n, fresh.is_client))
        ];
        at_least = omega (arith, f.at_least, fresh.is_later);
        is_stored =
            fresh-Stored fetch m file r.file g s.generation bytes s f fresh
              (fe ∙ persist_written fetch.files file bytes (sym oe ∙ ok)) (omega arith);
      })
  refreshed-Follows fetch m file g r f (inr (bytes, s, fresh, fe, oe, inr (ok, me))) =
      rw me (elim (persist_file fetch.files file bytes) [
        | inl e ↦ Follows-file m file r.file g f (
            fresh-Stored fetch m file r.file g (revision m) bytes s f fresh (fe ∙ e)
              (omega (arith, fresh.is_later)))
        | inr (e, _) ↦
            Follows-file m file r.file g f
              (subst (λ x. Stored lib base remote x (revision m)) (sym (fe ∙ e)) f.is_stored)
      ])

  pub with_last_on_demand-Follows :
      (m : TopologyManager) (now : ℕ) (file : Option Bytes) (g : ℕ)
      → Follows lib base remote file g m
      → Follows lib base remote file g (with_last_on_demand m now)
  unfolding with_last_on_demand revision
  with_last_on_demand-Follows m now file g f = record {
    same_base = f.same_base;
    same_remote = f.same_remote;
    has_key = f.has_key;
    at_least = f.at_least;
    is_stored = f.is_stored;
  }

  file_missing :
      (readable : Bool) (file : Option Bytes) → read_file readable file ≡ missing → file ≡ none
  file_missing false file h = absurd (cc)
  file_missing true none h = refl
  file_missing true (some bytes) h = absurd (cc)

  file_content :
      (readable : Bool) (file : Option Bytes) (bytes : Bytes)
      → read_file readable file ≡ content bytes
      → file ≡ some bytes
  file_content false file bytes h = absurd (cc)
  file_content true none bytes h = absurd (cc)
  file_content true (some c) bytes h = cc

  blank_zero :
      (file : Option Bytes) (g : ℕ)
      → (trim_space remote.url == []) ≡ true
      → Stored lib base remote file g
      → g ≡ 0
  blank_zero file g u (inl e) = e
  blank_zero file g u (inr (raw, e, u', c)) = absurd (cc)

  missing_zero : (file : Option Bytes) (g : ℕ) → file ≡ none → Stored lib base remote file g → g ≡ 0
  missing_zero file g n (inl e) = e
  missing_zero file g n (inr (raw, e, u', c)) = absurd (cc)

  content_le :
      (file : Option Bytes) (g : ℕ) (bytes key : Bytes) (now : ℕ) (s : Snapshot)
      → file ≡ some bytes
      → decode_topology_public_key lib remote.public_key ≡ some key
      → verify lib bytes key now true ≡ accepted s
      → Stored lib base remote file g
      → g ≤ s.generation
  content_le file g bytes key now s e k v (inl z) = omega (arith, z)
  content_le file g bytes key now s e k v (inr (raw, e', u, c)) =
      c key k now true s
        (subst (λ b. verify lib b key now true ≡ accepted s) (some-injective _ _ (sym e ∙ e')) v)

  revision-none : (m : TopologyManager) → m.current ≡ none → revision m ≡ 0
  unfolding revision
  revision-none m c = rw c refl

  revision-some :
      (m : TopologyManager) (s : Snapshot) → m.current ≡ some s → revision m ≡ s.generation
  unfolding revision
  revision-some m s c = rw c refl

  pub start-Follows :
      (readable : Bool) (file : Option Bytes) (now g : ℕ) (m : TopologyManager)
      → Stored lib base remote file g
      → IsStart lib base remote (read_file readable file) now m
      → Follows lib base remote file g m
  start-Follows readable file now g m s i = elim i.follows [
    | inl (u, c, n) ↦ record {
      same_base = i.same_base;
      same_remote = i.same_remote;
      has_key = inr (u, c, n);
      at_least = omega (arith, blank_zero file g u s);
      is_stored = inl (revision-none m c);
    }
    | inr (u, k, inl (r, c)) ↦ record {
      same_base = i.same_base;
      same_remote = i.same_remote;
      has_key = inl (k, u);
      at_least = omega (arith, missing_zero file g (file_missing readable file r) s);
      is_stored = inl (revision-none m c);
    }
    | inr (u, k, inr (bytes, t, r, v, c)) ↦ record {
      same_base = i.same_base;
      same_remote = i.same_remote;
      has_key = inl (k, u);
      at_least = omega (
        arith,
        revision-some m t c,
        content_le file g bytes m.public_key now t (file_content readable file bytes r) k v s,
      );
      is_stored = inr (
        bytes,
        file_content readable file bytes r,
        u,
        λ other k'.
            subst (Carries lib bytes other) (sym (revision-some m t c))
              (key-Carries bytes m.public_key now true t k v other k'),
      );
    }
  ]
