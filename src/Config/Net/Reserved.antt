-- ===== src/Config/Net/Reserved.antt =====
-- Which IPv4 addresses the relay may dial (internal/config/config.go: `IsSafeTelegramIP`), against
-- the registry of special-purpose addresses.
use tg_proxy_relay.Prelude.{
  ℕ, ◌+◌, ◌*◌, ◌<◌, ◌≡◌, refl, ◌↔◌, ◌⊎◌, true, Bool, false, ◌&&◌, ◌||◌, ◌==◌, nat_eq, leb, ◌/◌,
  List, [], ◌∷◌, All, some, arith,
}
use tg_proxy_relay.Config.Net.{
  Ip, v4, is_safe_telegram_ip, is_broadcast, in_refused_block, is_global_unicast, is_unspecified,
  is_loopback, is_private, is_multicast, is_link_local_unicast, is_link_local_multicast,
}

abbrev pub address_number : ℕ → ℕ → ℕ → ℕ → ℕ
address_number a b c d = ((a * 256 + b) * 256 + c) * 256 + d

-- First and last address of the blocks of RFC 6890 that are not global: "this" network, private use,
-- shared space, loopback, link local, private use, protocol assignments, TEST-NET-1, private use,
-- benchmarks, TEST-NET-2, TEST-NET-3, and multicast to limited broadcast.
abbrev pub reserved_blocks : List (ℕ × ℕ)
reserved_blocks =
    (address_number 0 0 0 0, address_number 0 255 255 255)
    ∷ (address_number 10 0 0 0, address_number 10 255 255 255)
    ∷ (address_number 100 64 0 0, address_number 100 127 255 255)
    ∷ (address_number 127 0 0 0, address_number 127 255 255 255)
    ∷ (address_number 169 254 0 0, address_number 169 254 255 255)
    ∷ (address_number 172 16 0 0, address_number 172 31 255 255)
    ∷ (address_number 192 0 0 0, address_number 192 0 0 255)
    ∷ (address_number 192 0 2 0, address_number 192 0 2 255)
    ∷ (address_number 192 168 0 0, address_number 192 168 255 255)
    ∷ (address_number 198 18 0 0, address_number 198 19 255 255)
    ∷ (address_number 198 51 100 0, address_number 198 51 100 255)
    ∷ (address_number 203 0 113 0, address_number 203 0 113 255)
    ∷ (address_number 224 0 0 0, address_number 255 255 255 255)
    ∷ []

abbrev pub IsOutside : ℕ → ℕ × ℕ → Type 0
IsOutside n block = (n < block.0) ⊎ (block.1 < n)

-- The tests that a safe address fails.
pub record IsRefusedBy (ip : Ip) (answer : Bool) : Type 0 where
  pub broadcast : is_broadcast ip ≡ answer
  pub unspecified : is_unspecified ip ≡ answer
  pub loopback : is_loopback ip ≡ answer
  pub private_use : is_private ip ≡ answer
  pub multicast : is_multicast ip ≡ answer
  pub link_local_unicast : is_link_local_unicast ip ≡ answer
  pub link_local_multicast : is_link_local_multicast ip ≡ answer
  pub refused_block : in_refused_block ip ≡ answer

pub is_safe_telegram_ip-IsRefusedBy :
    (ip : Ip) → (is_safe_telegram_ip (some ip) ≡ true) ↔ IsRefusedBy ip false
unfolding is_safe_telegram_ip is_global_unicast
is_safe_telegram_ip-IsRefusedBy ip = (λ h. ground arith, λ h. ground arith)

module _ (a b c d : ℕ) (ha : a < 256) (hb : b < 256) (hc : c < 256) (hd : d < 256) where
  this_network_block :
      ((a == 0) ≡ false)
      ↔ IsOutside (address_number a b c d) (address_number 0 0 0 0, address_number 0 255 255 255)
  this_network_block = (λ h. ground arith, λ h. ground arith)

  private_10_block :
      ((a == 10) ≡ false)
      ↔ IsOutside (address_number a b c d) (address_number 10 0 0 0, address_number 10 255 255 255)
  private_10_block = (λ h. ground arith, λ h. ground arith)

  shared_block :
      ((a == 100 && b / 64 == 1) ≡ false)
      ↔ IsOutside
          (address_number a b c d)
          (address_number 100 64 0 0, address_number 100 127 255 255)
  shared_block = (λ h. ground arith, λ h. ground arith)

  loopback_block :
      ((a == 127) ≡ false)
      ↔ IsOutside
          (address_number a b c d)
          (address_number 127 0 0 0, address_number 127 255 255 255)
  loopback_block = (λ h. ground arith, λ h. ground arith)

  link_local_block :
      ((a == 169 && b == 254) ≡ false)
      ↔ IsOutside
          (address_number a b c d)
          (address_number 169 254 0 0, address_number 169 254 255 255)
  link_local_block = (λ h. ground arith, λ h. ground arith)

  private_172_block :
      ((a == 172 && b / 16 == 1) ≡ false)
      ↔ IsOutside
          (address_number a b c d)
          (address_number 172 16 0 0, address_number 172 31 255 255)
  private_172_block = (λ h. ground arith, λ h. ground arith)

  protocol_block :
      ((a == 192 && b == 0 && c == 0) ≡ false)
      ↔ IsOutside (address_number a b c d) (address_number 192 0 0 0, address_number 192 0 0 255)
  protocol_block = (λ h. ground arith, λ h. ground arith)

  test_net_1_block :
      ((a == 192 && b == 0 && c == 2) ≡ false)
      ↔ IsOutside (address_number a b c d) (address_number 192 0 2 0, address_number 192 0 2 255)
  test_net_1_block = (λ h. ground arith, λ h. ground arith)

  private_192_block :
      ((a == 192 && b == 168) ≡ false)
      ↔ IsOutside
          (address_number a b c d)
          (address_number 192 168 0 0, address_number 192 168 255 255)
  private_192_block = (λ h. ground arith, λ h. ground arith)

  benchmark_block :
      ((a == 198 && b / 2 == 9) ≡ false)
      ↔ IsOutside
          (address_number a b c d)
          (address_number 198 18 0 0, address_number 198 19 255 255)
  benchmark_block = (λ h. ground arith, λ h. ground arith)

  test_net_2_block :
      ((a == 198 && b == 51 && c == 100) ≡ false)
      ↔ IsOutside
          (address_number a b c d)
          (address_number 198 51 100 0, address_number 198 51 100 255)
  test_net_2_block = (λ h. ground arith, λ h. ground arith)

  test_net_3_block :
      ((a == 203 && b == 0 && c == 113) ≡ false)
      ↔ IsOutside
          (address_number a b c d)
          (address_number 203 0 113 0, address_number 203 0 113 255)
  test_net_3_block = (λ h. ground arith, λ h. ground arith)

  high_block :
      ((leb 224 a) ≡ false)
      ↔ IsOutside
          (address_number a b c d)
          (address_number 224 0 0 0, address_number 255 255 255 255)
  high_block = (λ h. ground arith, λ h. ground arith)

or_false : (x y : Bool) → (x || y ≡ false) → (x ≡ false) × (y ≡ false)
or_false true y h = absurd (cc)
or_false false y h = (refl, h)

false_or : (x y : Bool) → x ≡ false → y ≡ false → x || y ≡ false
false_or true y h k = absurd (cc)
false_or false y h k = k

module _ (a b c d : ℕ) (ha : a < 256) (hb : b < 256) (hc : c < 256) (hd : d < 256) where
  private_blocks :
      (is_private (v4 a b c d) ≡ false)
      ↔ ((a == 10) ≡ false) × ((a == 172 && b / 16 == 1) ≡ false) × ((a == 192 && b == 168) ≡ false)
  unfolding is_private
  private_blocks = (
    λ h. let x = or_false _ _ h in let y = or_false _ _ x.0 in (y.0, y.1, x.1),
    λ h. false_or _ _ (false_or _ _ h.0 h.1) h.2,
  )

  -- The tests of `in_refused_block` in its order.
  abbrev IsInNoBlock : Type 0
  IsInNoBlock =
      ((a == 0) ≡ false)
      × ((a == 100 && b / 64 == 1) ≡ false)
      × ((a == 192 && b == 0 && c == 0) ≡ false)
      × ((a == 192 && b == 0 && c == 2) ≡ false)
      × ((a == 198 && b / 2 == 9) ≡ false)
      × ((a == 198 && b == 51 && c == 100) ≡ false)
      × ((a == 203 && b == 0 && c == 113) ≡ false)
      × (leb 240 a ≡ false)

  refused_blocks : (in_refused_block (v4 a b c d) ≡ false) ↔ IsInNoBlock
  unfolding in_refused_block
  refused_blocks = (
    λ h.
        let w = or_false _ _ h in
        let v = or_false _ _ w.0 in
        let u = or_false _ _ v.0 in
        let t = or_false _ _ u.0 in
        let s = or_false _ _ t.0 in
        let r = or_false _ _ s.0 in
        let q = or_false _ _ r.0 in (q.0, q.1, r.1, s.1, t.1, u.1, v.1, w.1),
    λ (p, q, r, s, t, u, v, w).
        false_or _ _
          (false_or _ _
            (false_or _ _ (false_or _ _ (false_or _ _ (false_or _ _ (false_or _ _ p q) r) s) t) u)
            v)
          w,
  )

  high_tests : (is_multicast (v4 a b c d) ≡ false) → (leb 240 a ≡ false) → leb 224 a ≡ false
  unfolding is_multicast
  high_tests h k = ground arith

  IsRefusedBy-IsOutside :
      IsRefusedBy (v4 a b c d) false → All (IsOutside (address_number a b c d)) reserved_blocks
  unfolding is_loopback is_link_local_unicast
  IsRefusedBy-IsOutside r =
      let (p, q, pr, t1, bench, t2, t3, high) = refused_blocks.0 r.refused_block in
      let (ten, one_seven_two, one_nine_two) = private_blocks.0 r.private_use in
      (
        (this_network_block a b c d ha hb hc hd).0 p,
        (
          (private_10_block a b c d ha hb hc hd).0 ten,
          (
            (shared_block a b c d ha hb hc hd).0 q,
            (
              (loopback_block a b c d ha hb hc hd).0 r.loopback,
              (
                (link_local_block a b c d ha hb hc hd).0 r.link_local_unicast,
                (
                  (private_172_block a b c d ha hb hc hd).0 one_seven_two,
                  (
                    (protocol_block a b c d ha hb hc hd).0 pr,
                    (
                      (test_net_1_block a b c d ha hb hc hd).0 t1,
                      (
                        (private_192_block a b c d ha hb hc hd).0 one_nine_two,
                        (
                          (benchmark_block a b c d ha hb hc hd).0 bench,
                          (
                            (test_net_2_block a b c d ha hb hc hd).0 t2,
                            (
                              (test_net_3_block a b c d ha hb hc hd).0 t3,
                              (
                                (high_block a b c d ha hb hc hd).0 (high_tests r.multicast high),
                                tt,
                              ),
                            ),
                          ),
                        ),
                      ),
                    ),
                  ),
                ),
              ),
            ),
          ),
        ),
      )

  IsOutside-IsRefusedBy :
      All (IsOutside (address_number a b c d)) reserved_blocks → IsRefusedBy (v4 a b c d) false
  unfolding is_loopback is_link_local_unicast is_broadcast is_unspecified is_multicast
      is_link_local_multicast
  IsOutside-IsRefusedBy
        (
          p,
          (
            ten,
            (
              q,
              (
                lo,
                (ll, (one_seven_two, (pr, (t1, (one_nine_two, (bench, (t2, (t3, (high, _))))))))),
              ),
            ),
          ),
        ) =
      let zero_net = (this_network_block a b c d ha hb hc hd).1 p in
      let small = (high_block a b c d ha hb hc hd).1 high in
      record {
        broadcast = ground (arith, small);
        unspecified = ground (arith, zero_net);
        loopback = (loopback_block a b c d ha hb hc hd).1 lo;
        private_use = private_blocks.1 (
          (private_10_block a b c d ha hb hc hd).1 ten,
          (private_172_block a b c d ha hb hc hd).1 one_seven_two,
          (private_192_block a b c d ha hb hc hd).1 one_nine_two,
        );
        multicast = ground (arith, small);
        link_local_unicast = (link_local_block a b c d ha hb hc hd).1 ll;
        link_local_multicast = ground (arith, small);
        refused_block = refused_blocks.1 (
          zero_net,
          (shared_block a b c d ha hb hc hd).1 q,
          (protocol_block a b c d ha hb hc hd).1 pr,
          (test_net_1_block a b c d ha hb hc hd).1 t1,
          (benchmark_block a b c d ha hb hc hd).1 bench,
          (test_net_2_block a b c d ha hb hc hd).1 t2,
          (test_net_3_block a b c d ha hb hc hd).1 t3,
          ground (arith, small),
        );
      }

  -- For an IPv4 address, `is_safe_telegram_ip` holds exactly when its number is outside every block
  -- of the registry.
  pub is_safe_telegram_ip_iff :
      (is_safe_telegram_ip (some (v4 a b c d)) ≡ true)
      ↔ All (IsOutside (address_number a b c d)) reserved_blocks
  is_safe_telegram_ip_iff = (
    λ h. IsRefusedBy-IsOutside ((is_safe_telegram_ip-IsRefusedBy (v4 a b c d)).0 h),
    λ h. (is_safe_telegram_ip-IsRefusedBy (v4 a b c d)).1 (IsOutside-IsRefusedBy h),
  )
